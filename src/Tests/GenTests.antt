-- ===== src/Tests/GenTests.antt =====
-- Tests of src/gen.c: the registers of a sum, and the jumps of comparisons.
use milac.Code.{Emitter}
use milac.Gen.Jumps.{JumpsIf, emit_cond-orders, emit_cond-equalities}
use milac.Gen.Operands.{Chosen, get_reg_binop-IsValid}
use milac.Gen.Registers.{IsValid}
use milac.Gen.Select.{emit_cond}
use milac.Gen.{Gen, get_reg_binop}
use milac.Prelude.{
  ℕ, ◌<◌, ◌≡◌, ◌≢◌, refl, [], some, false, not, ◌==◌, inl, inr, arith, sub32, signed_lt,
  if◌then◌else◌,
}
use milac.SymTab.{svar, vs_empty, no_register}
use milac.Tac.Meaning.{binop_value}
use milac.Tac.{Tac, tadd, tlt, teq}
use milac.TacGen.{new_tac}

abbrev start : Emitter
start = record { tm_code = []; tm_count = 0; emit_loc = 0; high_emit_loc = 0; trace_code = false }

-- The symbol 4 is in R3, and 3 and 1 keep R0 and R1, as after `lin_scan`.
abbrev state : Gen
state = record {
  registers = λ i. if i == 0 then 4 else 0;
  sym = λ p. record {
    type = svar;
    id = p;
    lineno = 0;
    val = p;
    name = [];
    reg = if p == 4 then 3 else if p == 3 then 0 else if p == 1 then 1 else no_register;
    state = vs_empty;
  };
  em = start;
  jmps = [];
}

state-IsValid : IsValid state
state-IsValid = record {
  knows = λ i small used. ground arith;
  held = λ p real has high. (0, omega arith, ground arith, ground arith);
}

abbrev sum_tac : Tac
sum_tac = record new_tac { op = tadd; a1 = 1; a2 = 2; r = 3 }

get_reg_binop-IsValid_example :
    (r1 : ℕ) × (r2 : ℕ) × (r3 : ℕ) × (g' : Gen) × (get_reg_binop sum_tac state ≡ ((r1, r2, r3), g'))
    × IsValid g'
    × (r1 < 6)
    × (r2 < 6)
    × (r3 < 6)
    × (r1 ≢ r2)
    × (r1 ≢ r3)
    × (r2 ≢ r3)
    × ((g'.sym 3).reg ≡ r1)
    × ((g'.sym 1).reg ≡ r2)
    × ((g'.sym 2).reg ≡ r3)
    × Chosen state 3 r1
    × Chosen state 1 r2
    × Chosen state 2 r3
get_reg_binop-IsValid_example =
    get_reg_binop-IsValid state sum_tac state-IsValid (omega arith) (omega arith) (omega arith)
      (omega arith) (omega arith) (omega arith) (inr (omega arith)) (inr (omega arith)) (inl refl)
      (λ h. omega arith) (λ h. omega arith) (λ h. omega arith)

two_less : binop_value tlt 2 7 ≡ some 1
unfolding binop_value signed_lt
two_less = refl

same_equal : binop_value teq 7 7 ≡ some 1
unfolding binop_value
same_equal = refl

emit_cond-orders_example : JumpsIf start (emit_cond tlt 3 4 5 start) 3 (sub32 2 7) (1 == 0)
emit_cond-orders_example =
    emit_cond-orders tlt 3 4 5 start 2 7 refl (inl (omega arith)) (inl (omega arith)) two_less

emit_cond-equalities_example :
    JumpsIf start (emit_cond teq 3 4 5 start) 3 (sub32 7 7) (not (1 == 0))
emit_cond-equalities_example =
    emit_cond-equalities teq 3 4 5 start 7 7 refl (omega arith) (omega arith) same_equal
