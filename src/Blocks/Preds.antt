-- ===== src/Blocks/Preds.antt =====
-- src/bb.c: predecessors added, counted, removed and compacted.
use milac.Blocks.{
  Bb, Store, store, moves, compact_from, compact_preds, clear_pred, remove_pred,
  bb_remove_predecessors, add_pred, bb_predecessor_count, walk,
}
use mathlib.Core.Option.{some-injective}
use milac.Prelude.{
  ℕ, zero, suc, ◌<◌, ◌≤◌, length, List, [], ◌∷◌, some, true, false, ◌==◌, set, get_elem?,
  if◌then◌else◌, ◌≡◌, ◌≢◌, refl, ◌∙◌, ◌⊎◌, inl, inr, Option-cases, Bool-cases, ==_iff, arith, ltb,
  subst, ◌-◌,
}

count-le : (ps : List ℕ) → bb_predecessor_count ps ≤ length ps
unfolding bb_predecessor_count
count-le [] = omega arith
count-le (zero ∷ ps) = omega (arith, count-le ps)
count-le (suc p ∷ ps) = omega (arith, count-le ps)

-- A predecessor that is added is one more, where a cell of the array is free, and otherwise the array
-- has as many as before.
pub count-add_pred :
    (ps : List ℕ) (src : ℕ)
    → src ≢ 0
    → bb_predecessor_count (add_pred ps src) ≡ (
        if ltb (bb_predecessor_count ps) (length ps)
        then suc (bb_predecessor_count ps)
        else bb_predecessor_count ps)
unfolding bb_predecessor_count add_pred
count-add_pred [] src h = refl
count-add_pred (zero ∷ ps) zero h = absurd (h refl)
count-add_pred (zero ∷ ps) (suc src) h = let le = count-le ps in ground arith
count-add_pred (suc p ∷ ps) src h = let rest = count-add_pred ps src h in ground arith

-- no NULL before another predecessor
abbrev pub GapFree : List ℕ → Type 0
GapFree ps = (i j p : ℕ) → i < j → get_elem? ps i ≡ some 0 → get_elem? ps j ≢ some (suc p)

head-set : (ps : List ℕ) (last v : ℕ) → get_elem? (set ps (suc last) v) 0 ≡ get_elem? ps 0
head-set [] last v = refl
head-set (p ∷ ps) last v = refl

head-compact_from :
    (n i last : ℕ) (ps : List ℕ) → get_elem? (compact_from n i last ps) 0 ≡ get_elem? ps 0
unfolding compact_from
head-compact_from zero i last ps = refl
head-compact_from (suc n) i last ps = elim (Option-cases (get_elem? ps i)) [
  | inl e ↦ rw (compact_from, e) refl
  | inr (zero, e) ↦ rw (compact_from, e) (head-compact_from n (suc i) last ps)
  | inr (suc p, e) ↦ elim (Bool-cases (moves i last)) [
    | inl m ↦
        rw (compact_from, e, m)
          (head-compact_from n (suc i) (suc last) (set ps (suc last) (suc p))
            ∙ head-set ps last (suc p))
    | inr m ↦ rw (compact_from, e, m) (head-compact_from n (suc i) i ps)
  ]
]

walk-head : (ps : List ℕ) → get_elem? ps 0 ≡ some 0 → walk ps ≡ []
unfolding walk
walk-head [] h = refl
walk-head (zero ∷ ps) h = refl
walk-head (suc p ∷ ps) h = cc

head-clear_pred :
    (rem : ℕ) (ps : List ℕ)
    → get_elem? ps 0 ≡ some (suc rem)
    → get_elem? (clear_pred (suc rem) ps) 0 ≡ some 0
unfolding clear_pred
head-clear_pred rem [] h = cc
head-clear_pred rem (zero ∷ ps) h = refl
head-clear_pred rem (suc p ∷ ps) h =
    let same : (suc p == suc rem) ≡ true = (==_iff (suc p) (suc rem)).1 (some-injective _ _ h) in
    rw same refl

clear_pred_zero :
    (rem : ℕ) (ps : List ℕ) → get_elem? ps 0 ≡ some 0 → get_elem? (clear_pred rem ps) 0 ≡ some 0
unfolding clear_pred
clear_pred_zero rem [] h = cc
clear_pred_zero rem (zero ∷ ps) h = refl
clear_pred_zero rem (suc p ∷ ps) h = absurd (omega (arith, some-injective _ _ h))

removed :
    (rem : ℕ) (b : Bb)
    → b.unreachable ≡ false
    → get_elem? b.pred 0 ≡ some (suc rem)
    → get_elem? (remove_pred (suc rem) b).pred 0 ≡ some 0
unfolding remove_pred compact_preds
removed rem b u h =
    let cells = clear_pred (suc rem) b.pred in
    rw u (head-compact_from (length cells) 0 0 cells ∙ head-clear_pred rem b.pred h)

remove_pred_zero :
    (rem : ℕ) (b : Bb) → get_elem? b.pred 0 ≡ some 0 → get_elem? (remove_pred rem b).pred 0 ≡ some 0
unfolding remove_pred compact_preds
remove_pred_zero rem b h = elim (Bool-cases b.unreachable) [
  | inl u ↦ rw u h
  | inr u ↦
      let cells = clear_pred rem b.pred in
      rw u (head-compact_from (length cells) 0 0 cells ∙ clear_pred_zero rem b.pred h)
]

-- a first cell that is NULL stays so
bb_remove_predecessors_zero :
    (rem : ℕ) (ps : List ℕ) (h : Store) (p : ℕ)
    → get_elem? (h p).pred 0 ≡ some 0
    → get_elem? (bb_remove_predecessors rem ps h p).pred 0 ≡ some 0
unfolding bb_remove_predecessors
bb_remove_predecessors_zero rem [] h p e = e
bb_remove_predecessors_zero rem (q ∷ ps) h p e =
    bb_remove_predecessors_zero rem ps (store h q (remove_pred rem (h q))) p
      (elim (Bool-cases (p == q)) [
        | inl same ↦ rw same (
            subst (λ x. get_elem? (remove_pred rem (h x)).pred 0 ≡ some 0) ((==_iff p q).0 same)
              (remove_pred_zero rem (h p) e))
        | inr other ↦ rw other e
      ])

later :
    (p q : ℕ) (ps : List ℕ) (i : ℕ)
    → get_elem? (q ∷ ps) i ≡ some p
    → (p == q) ≡ false
    → get_elem? ps (i - 1) ≡ some p
later p q ps zero e other = absurd (ground (arith, some-injective _ _ e))
later p q ps (suc i) e other = subst (λ n. get_elem? ps n ≡ some p) (omega arith) e

-- Where a block of the list that is reached has `rem` as its first predecessor, a walk over its
-- predecessors finds none after `rem` is removed, whatever predecessors stand behind it.
pub bb_remove_predecessors-hides :
    (rem : ℕ) (ps : List ℕ) (h : Store) (i p : ℕ)
    → rem ≢ 0
    → get_elem? ps i ≡ some p
    → (h p).unreachable ≡ false
    → get_elem? (h p).pred 0 ≡ some rem
    → walk (bb_remove_predecessors rem ps h p).pred ≡ []
unfolding bb_remove_predecessors
bb_remove_predecessors-hides zero ps h i p z e u first = absurd (z refl)
bb_remove_predecessors-hides (suc rem) [] h i p z e u first = cc
bb_remove_predecessors-hides (suc rem) (q ∷ ps) h i p z e u first = elim (Bool-cases (p == q)) [
  | inl same ↦
      let here : get_elem? (remove_pred (suc rem) (h q)).pred 0 ≡ some 0 =
        subst (λ x. get_elem? (remove_pred (suc rem) (h x)).pred 0 ≡ some 0) ((==_iff p q).0 same)
          (removed rem (h p) u first) in
      walk-head
        (bb_remove_predecessors (suc rem) ps (store h q (remove_pred (suc rem) (h q))) p).pred
        (bb_remove_predecessors_zero (suc rem) ps (store h q (remove_pred (suc rem) (h q))) p
          (rw same here))
  | inr other ↦
      bb_remove_predecessors-hides (suc rem) ps (store h q (remove_pred (suc rem) (h q))) (i - 1) p
        z (later p q ps i e other) (rw other u) (rw other first)
]

-- the cell before `i` is the last one that was read, or it is NULL
Follows : ℕ → ℕ → List ℕ → Type 0
Follows i last ps = (i ≡ 0) ⊎ ((suc last ≡ i) ⊎ ((k : ℕ) × (suc k ≡ i) × (get_elem? ps k ≡ some 0)))

stays :
    (i last p : ℕ) (ps : List ℕ)
    → GapFree ps
    → Follows i last ps
    → get_elem? ps i ≡ some (suc p)
    → moves i last ≡ false
unfolding Follows
stays i last p ps g (inl first) e = ground arith
stays i last p ps g (inr (inl next)) e = ground arith
stays i last p ps g (inr (inr (k, next, gap))) e = absurd (g k i p (omega arith) gap e)

compact_from-same :
    (n i last : ℕ) (ps : List ℕ) → GapFree ps → Follows i last ps → compact_from n i last ps ≡ ps
unfolding compact_from Follows
compact_from-same zero i last ps g f = refl
compact_from-same (suc n) i last ps g f = elim (Option-cases (get_elem? ps i)) [
  | inl e ↦ rw (compact_from, e) refl
  | inr (zero, e) ↦
      rw (compact_from, e) (compact_from-same n (suc i) last ps g (inr (inr (i, refl, e))))
  | inr (suc p, e) ↦
      rw (compact_from, e, stays i last p ps g f e)
        (compact_from-same n (suc i) i ps g (inr (inl refl)))
]

-- An array with no NULL before another predecessor is left as it is.
pub compact_preds-GapFree : (ps : List ℕ) → GapFree ps → compact_preds ps ≡ ps
unfolding compact_preds Follows
compact_preds-GapFree ps g = compact_from-same (length ps) 0 0 ps g (inl refl)
