-- ===== src/Lva/Settled.antt =====
-- What the result of src/lva.c satisfies: the equation of `in` for each block, and that of `out` for
-- the edges to blocks that stand behind in the list.
use milac.Lva.Ends.{lva_last_pass}
use milac.Lva.{
  Bits, Lva, Block, Store, store, bits_differ, live_in, add_succ, block_lva, lva_block, lva_pass,
  lva,
}
use milac.Optimize.UnusedVars.{In}
use milac.Prelude.{
  ℕ, zero, suc, ◌*◌, ◌<◌, List, [], ◌∷◌, ◌≡◌, ◌≢◌, refl, ap, sym, ◌∙◌, subst, some, true, false,
  not, ◌&&◌, ◌||◌, ◌==◌, ==_refl, ==_iff, Bool-cases, arith, inl, inr, ◌⊎◌, length,
}
use milac.SymTab.{Symbol}

bits_differ_same : (n : ℕ) (s t : Bits) → bits_differ n s t ≡ false → (i : ℕ) → i < n → s i ≡ t i
unfolding bits_differ
bits_differ_same zero s t d i h = absurd (omega arith)
bits_differ_same (suc n) s t d i h = elim (Bool-cases (i == n)) [
  | inl e ↦
      let same : i ≡ n = (==_iff i n).0 e in
      let here : s n ≡ t n = ground arith in ap s same ∙ (here ∙ sym (ap t same))
  | inr e ↦ bits_differ_same n s t (ground arith) i (ground arith)
]

-- one block goes on to the other
abbrev pub Edge : Store → ℕ → ℕ → Type 0
Edge h p q = ((h p).next ≡ q) ⊎ ((h p).jmp ≡ q)

-- What the other needs, the block has in its `out`.
abbrev pub Flows : Store → ℕ → ℕ → Type 0
Flows h p q = (i : ℕ) → i < (h p).lva.count → (h q).lva.in_ i ≡ true → (h p).lva.out i ≡ true

-- `in` is `out` without `def`, and `use`
abbrev pub InRight : Lva → Type 0
InRight l = (i : ℕ) → i < l.count → l.in_ i ≡ (l.out i && not (l.def i) || l.use_ i)

abbrev pub Settled : List ℕ → Store → Type 0
Settled [] h = Unit
Settled (p ∷ ps) h =
    InRight (h p).lva × ((q : ℕ) → In q ps → Edge h p q → Flows h p q) × Settled ps h

abbrev pub AreDistinct : List ℕ → Type 0
AreDistinct [] = Unit
AreDistinct (p ∷ ps) = (In p ps → ⊥) × AreDistinct ps

add_succ-flows :
    (h : Store) (q count : ℕ) (s : Bits) (i : ℕ)
    → q ≢ 0
    → i < count
    → (h q).lva.in_ i ≡ true
    → add_succ h q count s i ≡ true
add_succ-flows h zero count s i n b t = absurd (n refl)
add_succ-flows h (suc q) count s i n b t = ground arith

add_succ-keeps :
    (h : Store) (q count : ℕ) (s : Bits) (i : ℕ) → s i ≡ true → add_succ h q count s i ≡ true
add_succ-keeps h zero count s i b = b
add_succ-keeps h (suc q) count s i b = ground arith

-- the sets of a block after its turn
block_lva-flows :
    (h : Store) (p q i : ℕ)
    → q ≢ p
    → q ≢ 0
    → Edge h p q
    → i < (h p).lva.count
    → (h q).lva.in_ i ≡ true
    → (block_lva p h).out i ≡ true
unfolding block_lva
block_lva-flows h p q i other null edge b t =
    let l = (h p).lva in
    let h₁ = store h p (record (h p) { lva = record l { in_ = live_in l } }) in
    let out₁ = add_succ h₁ (h p).jmp l.count l.out in
    let kept : (h₁ q).lva.in_ i ≡ true = ground arith in by_edge h₁ out₁ kept edge
  where
    by_edge :
        (h₁ : Store) (s : Bits)
        → (h₁ q).lva.in_ i ≡ true
        → Edge h p q
        → add_succ h₁
            (h p).next
            (h p).lva.count
            (add_succ h₁ (h p).jmp (h p).lva.count (h p).lva.out)
            i
          ≡ true
    by_edge h₁ s kept (inl e) = rw e (add_succ-flows h₁ q (h p).lva.count _ i null b kept)
    by_edge h₁ s kept (inr e) =
        add_succ-keeps h₁ (h p).next (h p).lva.count _ i
          (rw e (add_succ-flows h₁ q (h p).lva.count (h p).lva.out i null b kept))

block_lva_count : (p : ℕ) (h : Store) → (block_lva p h).count ≡ (h p).lva.count
unfolding block_lva
block_lva_count p h = refl

block_lva-InRight : (p : ℕ) (h : Store) → (lva_block p h).1 ≡ false → InRight (block_lva p h)
unfolding lva_block block_lva
block_lva-InRight p h quiet i b =
    let same = bits_differ_same (h p).lva.count (block_lva p h).out (h p).lva.out quiet i b in
    ground (arith, same)

-- A block that is not in the list may change.
Settled-store :
    (ps : List ℕ) (h : Store) (p : ℕ) (b : Block)
    → (In p ps → ⊥)
    → Settled ps h
    → Settled ps (store h p b)
Settled-store [] h p b away s = tt
Settled-store (q ∷ ps) h p b away (right, flows, rest) =
    let at_q : store h p b q ≡ h q = ground (arith, λ (e : q ≡ p). away (inl (sym e))) in
    (
      subst (λ z. InRight z.lva) (sym at_q) right,
      λ r m edge.
          let at_r : store h p b r ≡ h r =
            ground (arith, λ (e : r ≡ p). away (inr (subst (λ z. In z ps) e m))) in
          let edge' : Edge h q r = subst (λ z. (z.next ≡ r) ⊎ (z.jmp ≡ r)) at_q edge in
          λ i small live.
            subst (λ z. z.lva.out i ≡ true) (sym at_q)
              (flows r m edge' i (subst (λ z. i < z.lva.count) at_q small)
                (subst (λ z. z.lva.in_ i ≡ true) at_r live)),
      Settled-store ps h p b (λ m. away (inr m)) rest,
    )

block-Settled :
    (p : ℕ) (ps : List ℕ) (h : Store)
    → (In p ps → ⊥)
    → (In 0 ps → ⊥)
    → (lva_block p h).1 ≡ false
    → Settled ps h
    → Settled (p ∷ ps) (lva_block p h).0
unfolding lva_block
block-Settled p ps h away null quiet rest =
    let h₂ = store h p (record (h p) { lva = block_lva p h }) in
    let at_p : h₂ p ≡ record (h p) { lva = block_lva p h } = rw (==_refl p) refl in
    let right = block_lva-InRight p h quiet in
    (
      subst (λ z. InRight z.lva) (sym at_p) right,
      λ q m edge.
          let other : q ≢ p = λ e. away (subst (λ z. In z ps) e m) in
          let at_q : h₂ q ≡ h q = ground (arith, other) in
          let edge' : Edge h p q = subst (λ z. (z.next ≡ q) ⊎ (z.jmp ≡ q)) at_p edge in
          let count = block_lva_count p h in
          λ i small live.
            subst (λ z. z.lva.out i ≡ true) (sym at_p)
              (block_lva-flows h p q i other (λ e. null (subst (λ z. In z ps) e m)) edge'
                (subst (λ z. i < z) count (subst (λ z. i < z.lva.count) at_p small))
                (subst (λ z. z.lva.in_ i ≡ true) at_q live)),
      Settled-store ps h p (record (h p) { lva = block_lva p h }) away rest,
    )

lva_pass-Settled :
    (ps : List ℕ) (h : Store)
    → AreDistinct ps
    → (In 0 ps → ⊥)
    → (lva_pass ps h).1 ≡ false
    → Settled ps (lva_pass ps h).0
unfolding lva_pass
lva_pass-Settled [] h d null quiet = tt
lva_pass-Settled (p ∷ ps) h (away, d) null quiet =
    let h₁ = (lva_pass ps h).0 in
    let later : (lva_pass ps h).1 ≡ false = ground arith in
    let here : (lva_block p h₁).1 ≡ false = ground arith in
    let rest = lva_pass-Settled ps h d (λ m. null (inr m)) later in
    block-Settled p ps h₁ away (λ m. null (inr m)) here rest

-- The loop of the analysis ends, with enough rounds for the bits that the blocks have in all. Its
-- result has the equation of `in` for each block of the list, if no block stands there twice and none
-- is NULL, and the `out` of a block has what the `in` of a block behind it in the list has, if the
-- first goes on to the second.
pub lva-Settled :
    (deref : ℕ → Symbol) (fuel symb_count : ℕ) (ps : List ℕ) (h : Store)
    → symb_count * length ps < fuel
    → AreDistinct ps
    → (In 0 ps → ⊥)
    → (h' : Store) × (lva deref fuel symb_count ps h ≡ some h') × Settled ps h'
unfolding lva
lva-Settled deref fuel n ps h enough distinct null =
    let (h₀, e, quiet) = lva_last_pass deref fuel n ps h enough in
    ((lva_pass ps h₀).0, e, lva_pass-Settled ps h₀ distinct null quiet)
