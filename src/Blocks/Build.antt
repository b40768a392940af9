-- ===== src/Blocks/Build.antt =====
-- src/3ac.c: `bb_build`, which divides three-address code into blocks. The blocks get the pointers from 1
-- on, in the order in which they are made; `calloc` succeeds. `bb_ids` is the global of that name.
use milac.Blocks.{Bb, Store, store, bb_add_predecessor}
use milac.Prelude.{
  ℕ, ◌+◌, ◌-◌, List, [], ◌∷◌, ◌++◌, Option, none, some, Bool, true, false, ◌==◌, ◌>>=◌, ◌%◌, length,
  replicate, if◌then◌else◌, word_mod,
}
use milac.SymTab.{Symbol}
use milac.Tac.Steps.{is_label}
use milac.Tac.{Op, Tac, tiff, tjmp, tlabel}

-- MAX_PREDECESSORS
abbrev pub max_predecessors : ℕ
max_predecessors = 16

-- NEW_BB, and `bb->id = id`
abbrev pub new_bb : ℕ → ℕ → Bb
new_bb bbid id = record {
  unreachable = false;
  id = id;
  bbid = bbid;
  ins = [];
  pred = replicate max_predecessors 0;
  next = 0;
  jmp = 0;
}

abbrev pub is_iff : Op → Bool
is_iff tiff = true
is_iff _ = false

-- `c->blocks`, the store and `bb_ids`
pub record BbCode : Type 0 where
  pub blocks : List ℕ
  pub heap : Store
  pub bb_ids : ℕ

-- `NEW_BB(bb); bb->id = id; list_push(c->blocks, bb);` where the new block is `p`
abbrev pub push_bb : ℕ → ℕ → BbCode → BbCode
push_bb p id c = record {
  blocks = c.blocks ++ (p ∷ []);
  heap = store c.heap p (new_bb c.bb_ids id);
  bb_ids = (c.bb_ids + 1) % word_mod;
}

-- the function's variables, and the store
pub record Build : Type 0 where
  pub bb : ℕ
  pub bb1 : ℕ
  pub heap : Store

-- `tmp->bb = p; list_push(p->ins, tmp);`
abbrev pub push_ins : ℕ → Tac → Store → Store
push_ins p i h = store h p (record (h p) { ins = (h p).ins ++ (record i { bb = p } ∷ []) })

-- the loop that looks for the block of a label
unfoldable pub find_block : ℕ → List ℕ → Store → Option ℕ
find_block l [] h = none
find_block l (p ∷ ps) h = if (h p).id == l then some p else find_block l ps h

-- `*list_elem_next(e)`, where `e` is behind the element found: the end of the list is a fault.
abbrev pub elem_front : List ℕ → Option ℕ
elem_front [] = none
elem_front (p ∷ ps) = some p

-- the loop that looks for `bb1`, and what stands behind it; `d` where it is not in the list
unfoldable pub next_block : ℕ → ℕ → List ℕ → Option ℕ
next_block d b [] = some d
next_block d b (p ∷ ps) = if p == b then elem_front ps else next_block d b ps

module _ (deref : ℕ → Symbol) where
  -- the first loop over the code, with `n` blocks made
  unfoldable pub make_blocks : ℕ → List Tac → BbCode → BbCode
  make_blocks n [] c = c
  make_blocks n (i ∷ is) c =
      if is_label i.op
      then make_blocks (n + 1) is (push_bb (n + 1) (deref i.r).val c)
      else if is_iff i.op
      then make_blocks (n + 1) is (push_bb (n + 1) 0 c)
      else make_blocks n is c

  module _ (blocks : List ℕ) where
    abbrev pub found_or : ℕ → Option ℕ → ℕ
    found_or d none = d
    found_or d (some p) = p

    abbrev pub build_label : Tac → Build → Build
    build_label i s =
        let p = found_or s.bb (find_block (deref i.r).val blocks s.heap) in
        let h = push_ins p i s.heap in
        let h' = store h s.bb1 (record (h s.bb1) { next = p }) in
        record { bb = p; bb1 = p; heap = bb_add_predecessor p s.bb1 h' }

    -- the jump of `b` to the block `p`
    abbrev pub jump_to : ℕ → ℕ → Store → Store
    jump_to b p h = bb_add_predecessor p b (store h b (record (h b) { jmp = p }))

    abbrev pub build_jmp_found : ℕ → Option ℕ → Store → Store
    build_jmp_found b none h = h
    build_jmp_found b (some p) h =
        bb_add_predecessor p b (store h b (record (h b) { jmp = p; next = 0 }))

    abbrev pub build_jmp : Tac → Build → Option Build
    build_jmp i s =
        let h = push_ins s.bb1 i s.heap in
        let h' = build_jmp_found s.bb1 (find_block (deref i.r).val blocks h) h in
        if (h' s.bb1).jmp == 0
        then none
        else (next_block s.bb1 s.bb1 blocks >>= λ n.
            some (record { bb = s.bb; bb1 = n; heap = h' }))

    abbrev pub build_iff_found : ℕ → Option ℕ → Store → Store
    build_iff_found b none h = h
    build_iff_found b (some p) h = jump_to b p h

    abbrev pub build_iff : Tac → Build → Option Build
    build_iff i s =
        let h = push_ins s.bb1 i s.heap in
        let h' = build_iff_found s.bb1 (find_block (deref i.r).val blocks h) h in
        next_block s.bb s.bb1 blocks >>= λ n. some (record {
          bb = n;
          bb1 = n;
          heap = bb_add_predecessor n s.bb1 (store h' s.bb1 (record (h' s.bb1) { next = n }));
        })

    abbrev pub build_op : Op → Tac → Build → Option Build
    build_op tlabel i s = some (build_label i s)
    build_op tjmp i s = build_jmp i s
    build_op tiff i s = build_iff i s
    build_op _ i s = some (record s { heap = push_ins s.bb1 i s.heap })

    -- the turn of the second loop where the instructions of `bb1` are those
    abbrev pub build_at : List Tac → Tac → Build → Option Build
    build_at [] i s = some (record s { heap = push_ins s.bb1 i s.heap })
    build_at (j ∷ js) i s = build_op i.op i s

    unfoldable pub build_ins : Tac → Build → Option Build
    unfolding find_block next_block
    build_ins i s = build_at (s.heap s.bb1).ins i s

    unfoldable pub build_loop : List Tac → Build → Option Build
    build_loop [] s = some s
    build_loop (i ∷ is) s = build_ins i s >>= build_loop is

  -- `h` is the store before, and `b` is `bb_ids`. UINT32_MAX is the id of the first block.
  unfoldable pub bb_build : List Tac → Store → ℕ → Option BbCode
  unfolding build_loop make_blocks
  bb_build code h b =
      let c =
        make_blocks 1 code
          (push_bb 1 (word_mod - 1) (record { blocks = []; heap = h; bb_ids = b })) in
      build_loop c.blocks code (record { bb = length c.blocks; bb1 = 1; heap = c.heap }) >>= λ s.
      some (record c { heap = s.heap })
