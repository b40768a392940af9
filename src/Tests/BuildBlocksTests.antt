-- ===== src/Tests/BuildBlocksTests.antt =====
-- Tests of `bb_build` of src/3ac.c on the code of a loop that is the first statement of another one.
use milac.Blocks.Build.{BbCode, bb_build, build_ins, new_bb}
use milac.Blocks.{Store, bb_add_predecessor}
use milac.Prelude.{ℕ, ◌-◌, List, [], ◌∷◌, Option, none, some, map, ltb, if◌then◌else◌, ◌≡◌, refl}
use milac.SymTab.{Symbol, svar, slabel, vs_empty, no_register}
use milac.Tac.{Op, Tac, tout, tiff, tjmp, tlabel}
use milac.TacGen.{new_tac, op_tac}

-- the pointers from 100 on are labels
abbrev label_symbol : ℕ → Symbol
label_symbol p = record {
  type = if ltb p 100 then svar else slabel;
  id = p;
  lineno = 0;
  val = p - 100;
  name = [];
  reg = no_register;
  state = vs_empty;
}

abbrev iff_tac : Tac
iff_tac = record new_tac { op = tiff; a1 = 1; r = 102 }

-- `1: if false x goto 2; 3: write x; goto 3; 2: write x`
abbrev nested_code : List Tac
nested_code =
    op_tac tlabel 101
    ∷ op_tac tout 1
    ∷ iff_tac
    ∷ op_tac tlabel 103
    ∷ op_tac tout 1
    ∷ op_tac tjmp 103
    ∷ op_tac tlabel 102
    ∷ op_tac tout 1
    ∷ []

abbrev no_blocks : Store
no_blocks p = new_bb 0 0

abbrev ops_at : ℕ → Option BbCode → Option (List Op)
ops_at p none = none
ops_at p (some c) = some (map (λ i. i.op) (c.heap p).ins)

-- The labels stand in the blocks 1 to 3, and not in 2, 4 and 5, which were made for them.
nested_blocks :
    (ops_at 1 (bb_build label_symbol nested_code no_blocks 0) ≡ some (tlabel ∷ tout ∷ tiff ∷ []))
    × (ops_at 2 (bb_build label_symbol nested_code no_blocks 0) ≡ some (tlabel ∷ tout ∷ tjmp ∷ []))
    × (ops_at 3 (bb_build label_symbol nested_code no_blocks 0) ≡ some (tlabel ∷ tout ∷ []))
unfolding bb_build build_ins bb_add_predecessor
nested_blocks = (refl, refl, refl)
