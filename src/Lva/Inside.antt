-- ===== src/Lva/Inside.antt =====
-- `lva_bb` of src/lva.c: the sets `out` of the instructions of a block, and that those of the last
-- instruction's operands do not come in.
use milac.Lva.{Bits, bitset}
use milac.Prelude.{
  ℕ, List, [], ◌∷◌, ◌≡◌, refl, ap, ◌∙◌, Option, none, some, Bool, false, not, ◌&&◌, ◌||◌, ◌==◌,
  if◌then◌else◌, arith, inl, inr,
}
use milac.Optimize.UnusedVars.{In}
use milac.SymTab.{Symbol}
use milac.Tac.Meaning.{is_const}
use milac.Tac.{Op, Tac, tac_is_binop, tnone, tiff, tjmp, tin, tout, tassign, tlabel}

module _ (deref : ℕ → Symbol) where
  -- INUSE
  abbrev pub inuse : ℕ → Bits → Bits
  inuse p s = if is_const (deref p) then s else bitset s (deref p).id

  abbrev pub inuse_other : Op → Tac → Bits → Bits
  inuse_other tin i s = bitset s (deref i.r).id
  inuse_other tout i s = inuse i.r s
  inuse_other tiff i s = inuse i.a1 s
  inuse_other tassign i s = bitset (inuse i.a1 s) (deref i.r).id
  inuse_other _ i s = s

  -- what an instruction adds to `prev->out`
  unfoldable pub inuse_ins : Tac → Bits → Bits
  inuse_ins i s =
      if tac_is_binop i.op
      then bitset (inuse i.a2 (inuse i.a1 s)) (deref i.r).id
      else inuse_other i.op i s

  -- The loop on what is left of the reversed list: `out` of `prev` and of those before it.
  unfoldable pub lva_bb_loop : List Tac → Bits → List Bits
  unfolding inuse_ins
  lva_bb_loop [] prev_out = prev_out ∷ []
  lva_bb_loop (i ∷ is) prev_out = let out = inuse_ins i prev_out in out ∷ lva_bb_loop is out

  -- On the reversed list of instructions, their `out` in the same order; `none` is the result -1, of a
  -- block without instructions.
  unfoldable pub lva_bb : List Tac → Bits → Option (List Bits)
  unfolding lva_bb_loop
  lva_bb [] bb_out = none
  lva_bb (last ∷ before) bb_out = some (lva_bb_loop before bb_out)

  -- An instruction reads or writes the id.
  abbrev pub touches : ℕ → Op → Tac → Bool
  touches k tnone i = false
  touches k tjmp i = false
  touches k tlabel i = false
  touches k tin i = k == (deref i.r).id
  touches k tout i = not (is_const (deref i.r)) && k == (deref i.r).id
  touches k tiff i = not (is_const (deref i.a1)) && k == (deref i.a1).id
  touches k tassign i = k == (deref i.r).id || not (is_const (deref i.a1)) && k == (deref i.a1).id
  touches k _ i =
      k == (deref i.r).id
      || not (is_const (deref i.a1)) && k == (deref i.a1).id
      || not (is_const (deref i.a2)) && k == (deref i.a2).id

  abbrev pub touched : ℕ → List Tac → Bool
  touched k [] = false
  touched k (i ∷ is) = touches k i.op i || touched k is

  inuse_ins_lem :
      (k : ℕ) (op : Op) (i : Tac) (s : Bits)
      → inuse_ins (record i { op = op }) s k ≡ (touches k op i || s k)
  unfolding inuse_ins tac_is_binop
  inuse_ins_lem k tnone i s = refl
  inuse_ins_lem k tjmp i s = refl
  inuse_ins_lem k tlabel i s = refl
  inuse_ins_lem k tin i s = refl
  inuse_ins_lem k tout i s = ground arith
  inuse_ins_lem k tiff i s = ground arith
  inuse_ins_lem k tassign i s = ground arith
  inuse_ins_lem k _ i s = ground arith

  loop_untouched :
      (k : ℕ) (is : List Tac) (prev_out out : Bits)
      → touched k is ≡ false
      → prev_out k ≡ false
      → In out (lva_bb_loop is prev_out)
      → out k ≡ false
  unfolding lva_bb_loop
  loop_untouched k [] prev_out out t f (inl e) = ap (λ s. s k) e ∙ f
  loop_untouched k [] prev_out out t f (inr m) = absurd (cc m)
  loop_untouched k (i ∷ is) prev_out out t f (inl e) =
      ap (λ s. s k) e ∙ ground (arith, inuse_ins_lem k i.op i prev_out)
  loop_untouched k (i ∷ is) prev_out out t f (inr m) =
      let clear : inuse_ins i prev_out k ≡ false =
        ground (arith, inuse_ins_lem k i.op i prev_out) in
      loop_untouched k is (inuse_ins i prev_out) out (ground arith) clear m

  -- `lva_bb` ignores the last instruction of a block: an id that the others do not touch and that is
  -- not in the block's `out` is in no `out` of an instruction, whatever the last instruction reads.
  pub lva_bb-ignores :
      (last : Tac) (before : List Tac) (bb_out : Bits) (k : ℕ)
      → touched k before ≡ false
      → bb_out k ≡ false
      → (outs : List Bits) × (lva_bb (last ∷ before) bb_out ≡ some outs)
        × ((out : Bits) → In out outs → out k ≡ false)
  unfolding lva_bb
  lva_bb-ignores last before bb_out k t f =
      (lva_bb_loop before bb_out, refl, λ out m. loop_untouched k before bb_out out t f m)
