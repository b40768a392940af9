-- ===== src/Lva/Exposed.antt =====
-- `defuse_bb` of src/lva.c: what a block reads before it writes it, and what it writes.
use milac.Lva.{Lva, usebit, defuse_ins, defuse_bb}
use milac.Prelude.{ℕ, List, [], ◌∷◌, ◌≡◌, ap, Bool, false, not, ◌&&◌, ◌||◌, ◌==◌, arith}
use milac.SymTab.{Symbol}
use milac.Tac.Meaning.{is_const}
use milac.Tac.{Op, Tac, tac_is_binop, tnone, tiff, tjmp, tin, tout, tassign, tlabel}

module _ (deref : ℕ → Symbol) (k : ℕ) where
  -- the variable behind a pointer has the id `k`
  abbrev pub is_var : ℕ → Bool
  is_var p = not (is_const (deref p)) && k == (deref p).id

  -- An instruction reads a variable of the id.
  abbrev pub reads_id : Op → Tac → Bool
  reads_id tnone i = false
  reads_id tjmp i = false
  reads_id tlabel i = false
  reads_id tin i = false
  reads_id tout i = is_var i.r
  reads_id tiff i = is_var i.a1
  reads_id tassign i = is_var i.a1
  reads_id _ i = is_var i.a1 || is_var i.a2

  -- An instruction writes a symbol of the id.
  abbrev pub writes_id : Op → Tac → Bool
  writes_id tnone i = false
  writes_id tjmp i = false
  writes_id tlabel i = false
  writes_id tout i = false
  writes_id tiff i = false
  writes_id _ i = k == (deref i.r).id

  -- The block reads the id before it writes it.
  abbrev pub exposed : List Tac → Bool
  exposed [] = false
  exposed (i ∷ is) = reads_id i.op i || not (writes_id i.op i) && exposed is

  abbrev pub written : List Tac → Bool
  written [] = false
  written (i ∷ is) = writes_id i.op i || written is

  usebit_lem :
      (p : ℕ) (l : Lva)
      → ((usebit deref p l).use_ k ≡ (l.use_ k || not (l.def k) && is_var p))
        × ((usebit deref p l).def k ≡ l.def k)
  usebit_lem p l = ground (arith, λ (e : k ≡ (deref p).id). ap l.def e)

  defuse_ins_op :
      (op : Op) (i : Tac) (l : Lva)
      → ((defuse_ins deref (record i { op = op }) l).use_ k
          ≡ (l.use_ k || not (l.def k) && reads_id op i))
        × ((defuse_ins deref (record i { op = op }) l).def k ≡ (writes_id op i || l.def k))
  unfolding defuse_ins tac_is_binop
  defuse_ins_op tnone i l = ground arith
  defuse_ins_op tjmp i l = ground arith
  defuse_ins_op tlabel i l = ground arith
  defuse_ins_op tin i l = ground arith
  defuse_ins_op tout i l = usebit_lem i.r l
  defuse_ins_op tiff i l = usebit_lem i.a1 l
  defuse_ins_op tassign i l = ground (arith, usebit_lem i.a1 l)
  defuse_ins_op _ i l = ground (arith, usebit_lem i.a1 l, usebit_lem i.a2 (usebit deref i.a1 l))

  -- `defuse_bb` adds to `use` the ids that the block reads before it writes them, but those that were
  -- in `def`, and to `def` the ids that it writes.
  pub defuse_bb-exposed :
      (is : List Tac) (l : Lva)
      → ((defuse_bb deref is l).use_ k ≡ (l.use_ k || not (l.def k) && exposed is))
        × ((defuse_bb deref is l).def k ≡ (written is || l.def k))
  unfolding defuse_bb
  defuse_bb-exposed [] l = ground arith
  defuse_bb-exposed (i ∷ is) l =
      ground (arith, defuse_ins_op i.op i l, defuse_bb-exposed is (defuse_ins deref i l))
