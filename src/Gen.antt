-- ===== src/Gen.antt =====
-- src/gen.c: the registers of the code generator. The static array `registers` is `registers`, which
-- gives the symbol in the register at an index, with 0 for NULL; the register at index `i` is R3 + i.
-- `sym` gives the symbol behind a pointer. An ASSERT is empty where DEBUG is not defined.
pub mod Select
pub mod Registers
pub mod Operands
pub mod Blocks
pub mod Jumps
use milac.Code.{
  Emitter, Inop, Tmins, gp, emit_ro, emit_rm, inop_ld, inop_st, inop_ldc, inop_inc, inop_dec,
}
use milac.Lva.{Bits}
use milac.Prelude.{
  ℕ, zero, suc, ◌+◌, List, [], ◌∷◌, Option, none, some, Bool, true, false, not, ◌&&◌, ◌||◌, ◌==◌,
  if◌then◌else◌, Bytes, minus_one,
}
use milac.SymTab.{
  Symbol, VarState, svar, sconst, slabel, vs_empty, vs_inmem, vs_inreg, vs_assigned, no_register,
}
use milac.Tac.Meaning.{is_const}
use milac.Tac.{Op, Tac, tac_is_binop, tiff, tjmp, tin, tout, tassign, tadd}

-- jmp_t; `tmins` is the index of the instruction in `tm_code`, `none` for NULL
pub record Jmp : Type 0 where
  pub ins : Tac
  pub tmins : Option ℕ
  pub loc : ℕ

pub record Gen : Type 0 where
  pub registers : ℕ → ℕ
  pub sym : ℕ → Symbol
  pub em : Emitter
  pub jmps : List Jmp

-- REGISTER_SPARE
abbrev pub register_spare : ℕ
register_spare = 3

-- `registers[i].reg`
abbrev pub reg_at : ℕ → ℕ
reg_at i = i + 3

abbrev pub set_symbol : ℕ → (Symbol → Symbol) → Gen → Gen
set_symbol p f g = record g { sym = λ q. if q == p then f (g.sym q) else g.sym q }

-- `s->reg = reg`, `s->state = state`
abbrev pub set_reg : ℕ → ℕ → Gen → Gen
set_reg p reg g = set_symbol p (λ s. record s { reg = reg }) g

abbrev pub set_state : ℕ → VarState → Gen → Gen
set_state p state g = set_symbol p (λ s. record s { state = state }) g

-- `registers[i].s = p`
abbrev pub set_register : ℕ → ℕ → Gen → Gen
set_register i p g = record g { registers = λ j. if j == i then p else g.registers j }

abbrev pub is_inmem : VarState → Bool
is_inmem vs_inmem = true
is_inmem vs_empty = false
is_inmem vs_inreg = false
is_inmem vs_assigned = false

abbrev pub emitted : (Emitter → Emitter) → Gen → Gen
emitted f g = record g { em = f g.em }

-- The comments of the instructions are left out: they are printed only.
abbrev pub note : Bytes
note = []

unfoldable pub gen_load : ℕ → Gen → Gen
gen_load p g =
    let s = g.sym p in
    if is_const s
    then emitted (emit_rm inop_ldc s.reg s.val 0 note) g
    else (if is_inmem s.state
        then set_state p vs_inreg (emitted (emit_rm inop_ld s.reg s.val gp note) g)
        else set_state p vs_inreg g)

-- a register's turn in `gen_bb_loads`
unfoldable pub store_at : Bits → ℕ → Gen → Gen
store_at out i g =
    let p = g.registers i in
    let s = g.sym p in
    let stored =
      if not (is_const s) && out s.id
      then emitted (emit_rm inop_st (reg_at i) s.val gp note) g
      else g in
    if p == 0 then g else set_reg p no_register (set_state p vs_inmem stored)

-- `for(int i = 0; i < REGISTER_SPARE; ++i)`, with the rounds that are left
unfoldable pub for_registers : ℕ → ℕ → (ℕ → Gen → Gen) → Gen → Gen
for_registers zero i body g = g
for_registers (suc n) i body g = for_registers n (i + 1) body (body i g)

unfoldable pub gen_bb_loads : Bits → Gen → Gen
unfolding for_registers store_at
gen_bb_loads out g = for_registers register_spare 0 (store_at out) g

unfoldable pub free_at : Bits → ℕ → Gen → Gen
free_at out i g =
    let p = g.registers i in
    if not (p == 0) && not (is_const (g.sym p)) && not (out (g.sym p).id)
    then set_register i 0 (set_state p vs_inmem (set_reg p no_register g))
    else g

unfoldable pub free_regs : Bits → Gen → Gen
unfolding for_registers free_at
free_regs out g = for_registers register_spare 0 (free_at out) g

-- the first register that passes a test
unfoldable pub search_registers : ℕ → ℕ → (ℕ → Bool) → Option ℕ
search_registers zero i test = none
search_registers (suc n) i test =
    let rest = search_registers n (i + 1) test in if test i then some i else rest

-- what `find_reg` does with the register that it finds
unfoldable pub assign_reg : ℕ → ℕ → Gen → ℕ × Gen
unfolding gen_load
assign_reg i s g = (reg_at i, gen_load s (set_reg s (reg_at i) (set_register i s g)))

unfoldable pub evict : ℕ → Gen → Gen
evict i g =
    let p = g.registers i in
    let stored =
      if is_const (g.sym p)
      then g
      else set_state p vs_inmem (emitted (emit_rm inop_st (reg_at i) (g.sym p).val gp note) g) in
    set_reg p no_register stored

-- with the empty register and with the other one that the two loops find
unfoldable pub use_found : Option ℕ → Option ℕ → ℕ → Gen → ℕ × Gen
unfolding assign_reg evict
use_found (some i) other s g = assign_reg i s g
use_found none (some i) s g = assign_reg i s (evict i g)
use_found none none s g = (minus_one, g)

unfoldable pub find_reg : ℕ → ℕ → ℕ → Gen → ℕ × Gen
unfolding search_registers use_found
find_reg s ex1 ex2 g =
    use_found (search_registers register_spare 0 (λ i. g.registers i == 0))
      (search_registers register_spare 0
        (λ i. not (g.registers i == ex1) && not (g.registers i == ex2)))
      s g

-- `*r = s->reg; if(NO_REGISTER == *r) *r = find_reg(s, ex1, ex2);`
unfoldable pub reg_of : ℕ → ℕ → ℕ → Gen → ℕ × Gen
unfolding find_reg
reg_of s ex1 ex2 g =
    let found = find_reg s ex1 ex2 g in
    if (g.sym s).reg == no_register then found else ((g.sym s).reg, g)

-- `get_reg` on a binary operation: `r1`, `r2` and `r3`
unfoldable pub get_reg_binop : Tac → Gen → (ℕ × ℕ × ℕ) × Gen
unfolding reg_of
get_reg_binop i g =
    let (r1, g₁) = reg_of i.r i.a1 i.a2 g in
    let (r2, g₂) = reg_of i.a1 i.a2 i.r g₁ in
    let (r3, g₃) = reg_of i.a2 i.a1 i.r g₂ in ((r1, r2, r3), g₃)
