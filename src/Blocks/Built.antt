-- ===== src/Blocks/Built.antt =====
-- src/3ac.c: what `bb_build` returns.
use milac.Blocks.Build.{BbCode, Build, push_bb, make_blocks, build_ins, build_loop}
use milac.Blocks.Stuck.{Stuck}
use milac.Blocks.{Store}
use milac.Prelude.{ℕ, ◌-◌, List, [], ◌∷◌, ◌++◌, none, some, length, ◌≡◌, ◌≢◌, word_mod}
use milac.SymTab.{Symbol}
use milac.Tac.Words.{All}
use milac.Tac.{Tac}

-- no pointer is NULL, and no block has instructions
abbrev Fresh : BbCode → Type 0
Fresh c = All (λ p. p ≢ 0) c.blocks × ((p : ℕ) → (c.heap p).ins ≡ [])

module _ (deref : ℕ → Symbol) where
  -- the loop is stuck at an instruction of the code
  abbrev pub StuckIn : List ℕ → List Tac → Build → Type 0
  StuckIn blocks code s =
      (before : List Tac) × (i : Tac) × (after : List Tac) × (t : Build) × (code
        ≡ before ++ i ∷ after)
      × (build_loop deref blocks before s ≡ some t)
      × (build_ins deref blocks i t ≡ none)
      × Stuck deref blocks i t

  -- the blocks that `bb_build` makes, and the state in which it comes to the first instruction
  abbrev pub made : List Tac → Store → ℕ → BbCode
  made code h b =
      make_blocks deref 1 code
        (push_bb 1 (word_mod - 1) (record { blocks = []; heap = h; bb_ids = b }))

  abbrev pub start : BbCode → Build
  start c = record { bb = length c.blocks; bb1 = 1; heap = c.heap }
