-- ===== src/Tests/CopyTests.antt =====
-- Tests of src/copy_prop.c on a copy behind which its source and its target are read.
use milac.CopyProp.Ends.{total, copy_prop-ends}
use milac.CopyProp.Replace.{run-cpp_replace, cpp_replace_wrong}
use milac.CopyProp.{cpp_replace, copy_prop}
use milac.Lva.{Store, no_bits}
use milac.Prelude.{ℕ, ◌<◌, ◌≡◌, ◌≢◌, refl, [], ◌∷◌, some, inr, arith, ◌==◌, if◌then◌else◌}
use milac.SymTab.{Symbol, svar, vs_empty, no_register}
use milac.Tac.Meaning.{Machine, run, value}
use milac.Tac.{Tac, tadd, tout, tassign}
use milac.TacGen.{new_tac}

abbrev var_symbol : ℕ → Symbol
var_symbol p = record {
  type = svar;
  id = p;
  lineno = 0;
  val = 0;
  name = [];
  reg = no_register;
  state = vs_empty;
}

abbrev copy_tac : Tac
copy_tac = record new_tac { op = tassign; a1 = 1; r = 2; bb = 1 }

abbrev sum_tac : Tac
sum_tac = record new_tac { op = tadd; a1 = 2; a2 = 1; r = 3; bb = 1 }

abbrev write_tac : Tac
write_tac = record new_tac { op = tout; r = 2; bb = 1 }

abbrev again_tac : Tac
again_tac = record new_tac { op = tassign; a1 = 3; r = 1; bb = 1 }

abbrev machine : Machine
machine = record { env = λ p. if p == 3 then 9 else 5; input = []; output = [] }

run-cpp_replace_example :
    run var_symbol (cpp_replace 2 1 (sum_tac ∷ write_tac ∷ [])) machine
    ≡ run var_symbol (sum_tac ∷ write_tac ∷ []) machine
unfolding value
run-cpp_replace_example =
    run-cpp_replace var_symbol 2 1 (sum_tac ∷ write_tac ∷ []) machine refl
      (inr (λ w. omega arith, inr (λ w. omega arith, tt)))

cpp_replace_wrong_example :
    run var_symbol (cpp_replace 2 1 (again_tac ∷ write_tac ∷ [])) machine
    ≢ run var_symbol (again_tac ∷ write_tac ∷ []) machine
unfolding value
cpp_replace_wrong_example =
    cpp_replace_wrong var_symbol 2 1 3 again_tac write_tac machine refl refl refl refl refl
      (omega arith) refl refl refl (omega arith)

abbrev blocks : Store
blocks p = record {
  bbid = p;
  ins = copy_tac ∷ sum_tac ∷ write_tac ∷ [];
  lva = record { count = 4; def = no_bits; use_ = no_bits; in_ = no_bits; out = no_bits };
  next = 0;
  jmp = 0;
}

cp_blocks_small : total (1 ∷ []) blocks < 4
unfolding total
cp_blocks_small = omega arith

copy_prop-ends_example : (h' : Store) × (copy_prop var_symbol 4 (1 ∷ []) blocks ≡ some h')
copy_prop-ends_example = copy_prop-ends var_symbol 4 (1 ∷ []) blocks cp_blocks_small
