-- ===== src/Tests/LvaTests.antt =====
-- Tests of src/lva.c: two blocks, of which the first adds two variables and the
-- second writes their sum and goes back.
use milac.Lva.Inside.{lva_bb, lva_bb-ignores}
use milac.Lva.Live.{Alike, BothAlike, run-defuse_bb}
use milac.Lva.Settled.{AreDistinct, Settled, lva-Settled}
use milac.Lva.{Bits, Lva, Store, no_bits, defuse_bb, lva}
use milac.Optimize.UnusedVars.{In}
use milac.Prelude.{
  ℕ, ◌≡◌, refl, List, [], ◌∷◌, Option, none, some, Bool, true, false, not, ◌&&◌, ◌||◌, ◌==◌,
  if◌then◌else◌, arith, ltb, minus_one,
}
use milac.SymTab.{Symbol, svar, slabel, vs_empty, no_register}
use milac.Tac.Meaning.{Machine, run}
use milac.Tac.{tac_is_binop, Tac, tadd, tout}
use milac.TacGen.{new_tac}

abbrev var_symbol : ℕ → Symbol
var_symbol p = record {
  type = if ltb p 4 then svar else slabel;
  id = if ltb p 4 then p else minus_one;
  lineno = 0;
  val = 0;
  name = [];
  reg = no_register;
  state = vs_empty;
}

abbrev blank : Lva
blank = record { count = 4; def = no_bits; use_ = no_bits; in_ = no_bits; out = no_bits }

abbrev sum_tac : Tac
sum_tac = record new_tac { op = tadd; a1 = 1; a2 = 2; r = 3 }

abbrev write_tac : Tac
write_tac = record new_tac { op = tout; r = 3 }

abbrev blocks : Store
blocks p =
    if p == 1
    then record { bbid = 0; ins = sum_tac ∷ []; lva = blank; next = 2; jmp = 0 }
    else record { bbid = 1; ins = write_tac ∷ []; lva = blank; next = 0; jmp = 1 }

abbrev machine : ℕ → Machine
machine v = record { env = λ p. if p == 3 then v else p; input = []; output = [] }

-- The sum decides nothing before it is written.
machines-Alike :
    Alike var_symbol
      (λ p. ltb p 4)
      (λ k.
        (k == 3) && not ((defuse_bb var_symbol (sum_tac ∷ []) blank).def k)
        || (defuse_bb var_symbol (sum_tac ∷ []) blank).use_ k)
      (machine 5)
      (machine 6)
unfolding defuse_bb tac_is_binop
machines-Alike = record {
  env_alike = λ p mine var live. ground arith;
  input_alike = refl;
  output_alike = refl;
}

run-defuse_bb_example :
    BothAlike var_symbol
      (λ p. ltb p 4)
      (λ k. k == 3)
      (run var_symbol (sum_tac ∷ []) (machine 5))
      (run var_symbol (sum_tac ∷ []) (machine 6))
run-defuse_bb_example =
    run-defuse_bb var_symbol (λ p. ltb p 4) (λ p q mine yours e. ground arith) (sum_tac ∷ []) blank
      (λ k. k == 3) (machine 5) (machine 6) (refl, tt) refl refl machines-Alike

blocks_distinct : AreDistinct (1 ∷ 2 ∷ [])
blocks_distinct = ground arith

lva-Settled_example :
    (h' : Store) × (lva var_symbol 9 4 (1 ∷ 2 ∷ []) blocks ≡ some h') × Settled (1 ∷ 2 ∷ []) h'
lva-Settled_example =
    lva-Settled var_symbol 9 4 (1 ∷ 2 ∷ []) blocks (omega arith) blocks_distinct (λ m. ground arith)

-- The sum is live at the end of the first block, and the operands at the end of the second.
lva_result : Option (Bool × Bool × Bool)
lva_result = elim (lva var_symbol 9 4 (1 ∷ 2 ∷ []) blocks) [
  | none ↦ none
  | some h ↦ some ((h 1).lva.out 3, (h 2).lva.out 1, (h 2).lva.out 3)
]

lva_runs : lva_result ≡ some (true, true, false)
unfolding lva_result lva tac_is_binop
lva_runs = refl

lva_bb-ignores_example :
    (outs : List Bits) × (lva_bb var_symbol (write_tac ∷ new_tac ∷ []) no_bits ≡ some outs)
    × ((out : Bits) → In out outs → out 3 ≡ false)
lva_bb-ignores_example = lva_bb-ignores var_symbol write_tac (new_tac ∷ []) no_bits 3 refl refl
