-- ===== src/Tests/BlocksTests.antt =====
-- Tests of the predecessors of src/bb.c, and the theorem about their removal at a concrete block.
use milac.Blocks.Preds.{bb_remove_predecessors-hides}
use milac.Blocks.{
  Bb, Store, compact_preds, compact_from, bb_predecessor_count, bb_remove_predecessors, walk,
}
use milac.Prelude.{[], ◌∷◌, false, ◌≡◌, refl, arith}

abbrev joined_block : Bb
joined_block = record {
  unreachable = false;
  id = 0;
  bbid = 1;
  ins = [];
  pred = 4 ∷ 2 ∷ 0 ∷ [];
  next = 0;
  jmp = 0;
}

abbrev joined_blocks : Store
joined_blocks p = joined_block

-- The block 3, moved over a gap, stays in its old cell too.
moved_twice : bb_predecessor_count (compact_preds (1 ∷ 0 ∷ 3 ∷ 0 ∷ [])) ≡ 3
unfolding bb_predecessor_count compact_preds compact_from
moved_twice = refl

bb_remove_predecessors-hides_example :
    walk (bb_remove_predecessors 4 (1 ∷ 2 ∷ []) joined_blocks 2).pred ≡ []
bb_remove_predecessors-hides_example =
    bb_remove_predecessors-hides 4 (1 ∷ 2 ∷ []) joined_blocks 1 2 (omega arith) refl refl refl
