-- ===== src/Code/Jump.antt =====
-- src/code.c against src/tm.c: where a jump of `emit_RM_abs` goes when the machine runs it.
use mathlib.Core.Option.{some-injective}
use milac.Code.{
  Inop, inop_jlt, inop_jle, inop_jgt, inop_jge, inop_jeq, inop_jne, Tmins, Emitter, pc, emit_rm_abs,
  rm,
}
use milac.Prelude.{
  ℕ, ◌+◌, ◌<◌, ◌≡◌, ◌≢◌, refl, sym, ◌∙◌, some, Bool, true, false, not, ◌||◌, if◌then◌else◌, ◌==◌,
  ltb, Bytes, length, get_elem?, set, get_elem?-set_self, get_elem?-set_ne, get_elem?-snoc,
  length-set, ap, IsWord, add32, sub32, signed_lt, is_neg, ◌>>=◌, arith,
}
use milac.Tm.Execute.{jump, step_ra, execute, step_tm, counted}
use milac.Tm.Safe.{IsValid}
use milac.Tm.{
  Opcode, op_jlt, op_jle, op_jgt, op_jge, op_jeq, op_jne, op_class, opcl_ra, sr_okay, Instruction,
  Tm, pc_reg, addr_size, no_regs, read_reg, write_reg, okay, out_of_range,
}

-- The jumps, as the emitter and as the machine name them, with what they ask of the register.
pub data Jump : Inop → Opcode → (ℕ → Bool) → Type 0 where
  less : Jump inop_jlt op_jlt (λ v. signed_lt v 0)
  less_equal : Jump inop_jle op_jle (λ v. not (signed_lt 0 v))
  greater : Jump inop_jgt op_jgt (λ v. signed_lt 0 v)
  greater_equal : Jump inop_jge op_jge (λ v. not (signed_lt v 0))
  equal : Jump inop_jeq op_jeq (λ v. v == 0)
  not_equal : Jump inop_jne op_jne (λ v. not (v == 0))

-- what the machine has of an instruction that was emitted
abbrev pub loaded : Opcode → Tmins → Instruction
loaded op t = record { iop = op; iarg1 = t.r1; iarg2 = t.r2; iarg3 = t.r3 }

sign_tests :
    (v : ℕ)
    → IsWord v
    → (is_neg v ≡ signed_lt v 0)
      × ((is_neg v || v == 0) ≡ not (signed_lt 0 v))
      × (not (is_neg v || v == 0) ≡ signed_lt 0 v)
      × (not (is_neg v) ≡ not (signed_lt v 0))
unfolding is_neg signed_lt
sign_tests v w = (ground arith, ground arith, ground arith, ground arith)

class-Jump : {o : Inop} {op : Opcode} {test : ℕ → Bool} → Jump o op test → op_class op ≡ opcl_ra
class-Jump less = refl
class-Jump less_equal = refl
class-Jump greater = refl
class-Jump greater_equal = refl
class-Jump equal = refl
class-Jump not_equal = refl

-- The test that the machine makes is the one of the jump.
step_ra-Jump :
    {o : Inop} {op : Opcode} {test : ℕ → Bool}
    → Jump o op test
    → (tm : Tm) (i : Instruction) (m v : ℕ) → IsWord v
    → read_reg tm i.iarg1 ≡ some v
    → step_ra op tm i m ≡ (if test v then (write_reg tm pc_reg m >>= okay) else okay tm)
unfolding step_ra jump
step_ra-Jump less tm i m v w e =
    rw e (ap (λ b. if b then (write_reg tm pc_reg m >>= okay) else okay tm) (sign_tests v w).0)
step_ra-Jump less_equal tm i m v w e =
    rw e (ap (λ b. if b then (write_reg tm pc_reg m >>= okay) else okay tm) (sign_tests v w).1)
step_ra-Jump greater tm i m v w e =
    rw e (ap (λ b. if b then (write_reg tm pc_reg m >>= okay) else okay tm) (sign_tests v w).2)
step_ra-Jump greater_equal tm i m v w e =
    rw e (ap (λ b. if b then (write_reg tm pc_reg m >>= okay) else okay tm) (sign_tests v w).3)
step_ra-Jump equal tm i m v w e = rw e refl
step_ra-Jump not_equal tm i m v w e = rw e refl

execute-Jump :
    {o : Inop} {op : Opcode} {test : ℕ → Bool}
    → Jump o op test
    → (tm : Tm) (r d next : ℕ) → read_reg tm pc_reg ≡ some next
    → let i : Instruction = record { iop = op; iarg1 = r; iarg2 = d; iarg3 = pc_reg } in
      execute tm i ≡ step_ra op tm i (add32 d next)
unfolding execute
execute-Jump j tm r d next e = rw (execute, class-Jump j, e) refl

-- the address that the machine computes from the distance
address_back : (a loc : ℕ) → IsWord a → add32 (sub32 a (add32 loc 1)) (add32 loc 1) ≡ a
unfolding add32 sub32
address_back a loc w = omega arith

in_range : (loc : ℕ) → loc < addr_size → (out_of_range loc ≡ false) × (add32 loc 1 ≡ loc + 1)
unfolding is_neg add32
in_range loc h = (ground arith, omega arith)

-- the program counter after the branch
branch_pc :
    (tm : Tm) (m next : ℕ) (b : Bool)
    → length tm.reg ≡ no_regs
    → read_reg tm pc_reg ≡ some next
    → (tm' : Tm) × ((if b then (write_reg tm pc_reg m >>= okay) else okay tm) ≡ some (sr_okay, tm'))
      × (read_reg tm' pc_reg ≡ some (if b then m else next))
branch_pc tm m next true size e =
    let room : ltb pc_reg (length tm.reg) ≡ true = ground (arith, size) in
    (
      record tm { reg = set tm.reg pc_reg m },
      rw room refl,
      get_elem?-set_self tm.reg pc_reg m (omega arith),
    )
branch_pc tm m next false size e = (_, refl, e)

-- A conditional jump that `emit_RM_abs` emits at a location, once it is loaded there in a valid
-- machine, goes to the given address if the register that it names, other than the program counter,
-- meets the condition as a signed number, and to the next location otherwise.
pub emit_rm_abs-lands :
    {o : Inop} {op : Opcode} {test : ℕ → Bool} (j : Jump o op test) (e : Emitter) (r a v : ℕ)
    (c : Bytes) (t : Tmins) (tm : Tm)
    → get_elem? (emit_rm_abs o r a c e).tm_code (length e.tm_code) ≡ some t
    → get_elem? tm.imem e.emit_loc ≡ some (loaded op t)
    → IsValid tm
    → e.emit_loc < addr_size
    → IsWord a
    → read_reg tm pc_reg ≡ some e.emit_loc
    → read_reg tm r ≡ some v
    → r ≢ pc_reg
    → (tm' : Tm) × (step_tm tm ≡ some (sr_okay, tm'))
      × (read_reg tm' pc_reg ≡ some (if test v then a else e.emit_loc + 1))
unfolding emit_rm_abs step_tm
emit_rm_abs-lands {o} {op} {test} j e r a v c t tm emitted load valid low word at reg other =
    let loc = e.emit_loc in
    let ins : Tmins = record {
      type = rm;
      line = loc;
      op = o;
      r1 = r;
      r2 = sub32 a (add32 loc 1);
      r3 = pc;
      comment = c;
    } in
    let same : ins ≡ t = some-injective _ _ (sym (get_elem?-snoc e.tm_code ins) ∙ emitted) in
    let there : get_elem? tm.imem loc ≡ some (loaded op ins) =
      load ∙ ap (λ z. some (loaded op z)) (sym same) in
    let next = add32 loc 1 in
    let moved : Tm = record tm { reg = set tm.reg pc_reg next } in
    let here : read_reg moved pc_reg ≡ some next =
      get_elem?-set_self tm.reg pc_reg next (omega (arith, valid.reg_size)) in
    let kept : read_reg moved r ≡ some v =
      get_elem?-set_ne tm.reg next (λ h. other (sym h)) ∙ reg in
    let (tm', go, at') =
      branch_pc (counted op moved) a next (test v)
        (omega (arith, length-set tm.reg pc_reg next, valid.reg_size)) here in
    let run : execute (counted op moved) (loaded op ins) ≡ some (sr_okay, tm') =
      execute-Jump j (counted op moved) r ins.r2 next here
      ∙ ap (step_ra op (counted op moved) (loaded op ins)) (address_back a loc word)
      ∙ step_ra-Jump j (counted op moved) (loaded op ins) a v (valid.reg_words r v reg) kept
      ∙ go in
    let (inside, next_eq) = in_range loc low in
    let room : ltb pc_reg (length tm.reg) ≡ true = ground (arith, valid.reg_size) in
    (tm', rw (at, inside, room, there) run, at' ∙ ap (λ z. some (if test v then a else z)) next_eq)
