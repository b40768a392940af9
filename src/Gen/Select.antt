-- ===== src/Gen/Select.antt =====
-- src/gen.c: the choice of the instructions. `none` is an access through NULL.
use milac.Code.{
  Emitter, Inop, Tmins, pc, emit_ro, emit_rm, emit_rm_abs, emit_skip, inop_in, inop_out, inop_add,
  inop_inc, inop_dec, inop_sub, inop_mul, inop_div, inop_lda, inop_ldc, inop_jlt, inop_jle,
  inop_jgt, inop_jge, inop_jeq, inop_jne,
}
use milac.Gen.{Gen, Jmp, emitted, note, gen_bb_loads, reg_of, get_reg_binop}
use milac.Lva.{Bits}
use milac.Prelude.{
  ◌>>=◌, ℕ, List, [], ◌∷◌, ◌++◌, Option, none, some, Bool, true, false, ◌&&◌, ◌||◌, ◌==◌,
  if◌then◌else◌, get_elem?, set, length, sub32,
}
use milac.SymTab.{no_register}
use milac.Tac.Meaning.{is_const}
use milac.Tac.{
  Op, Tac, tac_is_binop, tiff, tjmp, tin, tout, teq, tneq, tlt, tgt, tle, tge, tassign, tadd, tsub,
  tmul, tdiv, tlabel,
}

-- the part of `get_reg` for the other instructions; `wants_r2` is `r2 != NULL`
unfoldable pub get_reg_other : Op → Bool → Tac → Gen → (ℕ × ℕ × ℕ) × Gen
unfolding reg_of
get_reg_other tin wants_r2 i g =
    let (r1, g₁) = reg_of i.r 0 0 g in ((r1, no_register, no_register), g₁)
get_reg_other tout wants_r2 i g =
    let (r1, g₁) = reg_of i.r 0 0 g in ((r1, no_register, no_register), g₁)
get_reg_other tassign wants_r2 i g =
    let (r1, g₁) = reg_of i.r i.a1 0 g in
    let (r2, g₂) = reg_of i.a1 i.r 0 g₁ in
    if wants_r2 then ((r1, r2, no_register), g₂) else ((r1, no_register, no_register), g₁)
get_reg_other _ wants_r2 i g = ((no_register, no_register, no_register), g)

unfoldable pub get_reg : Bool → Tac → Gen → (ℕ × ℕ × ℕ) × Gen
unfolding get_reg_binop get_reg_other
get_reg wants_r2 i g =
    if tac_is_binop i.op then get_reg_binop i g else get_reg_other i.op wants_r2 i g

abbrev pub is_tadd : Op → Bool
is_tadd tadd = true
is_tadd _ = false

abbrev pub is_tsub : Op → Bool
is_tsub tsub = true
is_tsub _ = false

unfoldable pub gen_inc : Tac → Gen → Gen
unfolding reg_of
gen_inc i g =
    let (r1, g₁) = reg_of i.r 0 0 g in
    emitted (emit_ro (if is_tadd i.op then inop_inc else inop_dec) r1 0 0 note) g₁

-- the operation that the `switch` of `gen_binop` emits
abbrev pub binop_inop : Op → Option Inop
binop_inop tadd = some inop_add
binop_inop tsub = some inop_sub
binop_inop tmul = some inop_mul
binop_inop tdiv = some inop_div
binop_inop teq = some inop_sub
binop_inop tneq = some inop_sub
binop_inop tlt = some inop_sub
binop_inop tgt = some inop_sub
binop_inop tle = some inop_sub
binop_inop tge = some inop_sub
binop_inop _ = none

-- `p->type == SCONST && p->val == 1`
abbrev pub is_one : Gen → ℕ → Bool
is_one g p = is_const (g.sym p) && (g.sym p).val == 1

abbrev pub is_inc : Gen → Tac → Bool
is_inc g i =
    (is_tadd i.op || is_tsub i.op)
    && (i.r == i.a1 || i.r == i.a2)
    && (is_one g i.a1 || is_one g i.a2)

unfoldable pub emit_binop : Tac → Gen → Gen
unfolding get_reg_binop
emit_binop i g =
    let ((r1, r2, r3), g₁) = get_reg_binop i g in
    elim (binop_inop i.op) [ none ↦ g₁ | some op ↦ emitted (emit_ro op r1 r2 r3 note) g₁ ]

unfoldable pub gen_binop : Tac → Gen → Gen
unfolding gen_inc emit_binop
gen_binop i g = if is_inc g i then gen_inc i g else emit_binop i g

-- the jump that the `switch` of `gen_cond_jmp` emits, and by which function
unfoldable pub emit_cond : Op → ℕ → ℕ → ℕ → Emitter → Emitter
unfolding emit_ro emit_rm
emit_cond teq r1 r2 r3 e = emit_rm inop_jeq r1 r2 r3 note e
emit_cond tneq r1 r2 r3 e = emit_ro inop_jne r1 r2 r3 note e
emit_cond tlt r1 r2 r3 e = emit_ro inop_jge r1 r2 r3 note e
emit_cond tgt r1 r2 r3 e = emit_ro inop_jle r1 r2 r3 note e
emit_cond tle r1 r2 r3 e = emit_ro inop_jgt r1 r2 r3 note e
emit_cond tge r1 r2 r3 e = emit_ro inop_jlt r1 r2 r3 note e
emit_cond _ r1 r2 r3 e = e

-- the index of `list_back(tm_code)`
abbrev pub back : List Tmins → Option ℕ
back [] = none
back (i ∷ is) = some (length is)

-- `NEW_JMP(jmp); jmp->ins = ins; jmp->tmins = list_back(tm_code); list_push(jmps, jmp);`
abbrev pub push_jmp : Tac → Gen → Gen
push_jmp i g = record g {
  jmps = g.jmps ++ (record { ins = i; tmins = back g.em.tm_code; loc = 0 } ∷ []);
}

-- `bb_out` is `ins->bb->lva.out`
unfoldable pub gen_cond_jmp : Bits → Tac → Option Tac → Gen → Option Gen
unfolding get_reg gen_bb_loads emit_cond
gen_cond_jmp bb_out i none g = none
gen_cond_jmp bb_out i (some prev) g =
    let ((r1, r2, r3), g₁) = get_reg true prev g in
    some (push_jmp i (emitted (emit_cond prev.op r1 r2 r3) (gen_bb_loads bb_out g₁)))

-- `TASSIGN`
unfoldable pub gen_assign : Tac → Gen → Gen
unfolding get_reg
gen_assign i g =
    let ((r1, _, _), g₁) = get_reg false i g in
    let ((s1, s2, _), g₂) = get_reg true i g in
    let constant = emitted (emit_rm inop_ldc r1 (g.sym i.a1).val 0 note) g₁ in
    let copy =
      emitted (emit_ro inop_add s1 s2 s1 note) (emitted (emit_rm inop_ldc s1 0 0 note) g₂) in
    if i.r == i.a1 then g else if is_const (g.sym i.a1) then constant else copy

-- the jumps to the places of the label that are known
unfoldable pub jump_back : ℕ → List Jmp → Emitter → Emitter
jump_back r [] e = e
jump_back r (j ∷ js) e =
    let e' = if j.ins.r == r then emit_rm_abs inop_lda pc j.loc note e else e in jump_back r js e'

abbrev pub is_known : ℕ → List Jmp → Bool
is_known r [] = false
is_known r (j ∷ js) = j.ins.r == r || is_known r js

unfoldable pub gen_tjmp : Bits → Tac → Gen → Gen
unfolding jump_back gen_bb_loads
gen_tjmp bb_out i g =
    if is_known i.r g.jmps
    then emitted (jump_back i.r g.jmps) g
    else push_jmp i (emitted (emit_rm_abs inop_lda pc 0 note) (gen_bb_loads bb_out g))

abbrev pub is_lda : Inop → Bool
is_lda inop_lda = true
is_lda _ = false

-- `jmp->tmins->r2 = (emit_skip(0) - 1) - jmp->tmins->line`, and `r3 = PC` unless it is an LDA
abbrev pub patched : ℕ → Tmins → Tmins
patched loc t =
    let d = sub32 (sub32 loc 1) t.line in
    if is_lda t.op then record t { r2 = d } else record t { r2 = d; r3 = pc }

unfoldable pub patch : Option ℕ → Emitter → Option Emitter
unfolding emit_skip
patch none e = none
patch (some k) e =
    let (loc, e') = emit_skip 0 e in
    elim (get_elem? e'.tm_code k) [
      | none ↦ none
      | some t ↦ some (record e' { tm_code = set e'.tm_code k (patched loc t) })
    ]

-- the first jump with the label
unfoldable pub find_jmp : ℕ → List Jmp → Option Jmp
find_jmp r [] = none
find_jmp r (j ∷ js) = if j.ins.r == r then some j else find_jmp r js

unfoldable pub new_label : Tac → Gen → Gen
unfolding emit_skip
new_label i g =
    let (loc, e') = emit_skip 0 g.em in
    record g { em = e'; jmps = g.jmps ++ (record { ins = i; tmins = none; loc = loc } ∷ []) }

unfoldable pub gen_tlabel : Tac → Gen → Option Gen
unfolding find_jmp patch new_label
gen_tlabel i g = elim (find_jmp i.r g.jmps) [
  | none ↦ some (new_label i g)
  | some j ↦ patch j.tmins g.em >>= λ e. some (record g { em = e })
]

-- the `switch` of `gen_ins`
unfoldable pub gen_other : Op → Bits → Tac → Option Tac → Gen → Option Gen
unfolding get_reg gen_cond_jmp gen_assign gen_tjmp gen_tlabel
gen_other tin bb_out i prev g =
    let ((r1, _, _), g₁) = get_reg false i g in some (emitted (emit_ro inop_in r1 0 0 note) g₁)
gen_other tout bb_out i prev g =
    let ((r1, _, _), g₁) = get_reg false i g in some (emitted (emit_ro inop_out r1 0 0 note) g₁)
gen_other tiff bb_out i prev g = gen_cond_jmp bb_out i prev g
gen_other tassign bb_out i prev g = some (gen_assign i g)
gen_other tjmp bb_out i prev g = some (gen_tjmp bb_out i g)
gen_other tlabel bb_out i prev g = gen_tlabel i g
gen_other _ bb_out i prev g = some g

unfoldable pub gen_ins : Bits → Tac → Option Tac → Gen → Option Gen
unfolding gen_binop gen_other
gen_ins bb_out i prev g =
    if tac_is_binop i.op then some (gen_binop i g) else gen_other i.op bb_out i prev g
