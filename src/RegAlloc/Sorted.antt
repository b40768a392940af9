-- ===== src/RegAlloc/Sorted.antt =====
-- src/regalloc.c: `fill_interval_list` keeps the queue `intps` in the order of the starts.
use milac.Prelude.{ℕ, ◌+◌, ◌≤◌, ◌≡◌, refl, inl, inr, Bool-cases, List, [], ◌∷◌, ltb, arith}
use milac.RegAlloc.Queue.{occ}
use milac.RegAlloc.{Store, fill_interval_list, fill_intervals}

-- In the order of their starts, none before `now`.
unfoldable pub SortedFrom : Store → ℕ → List ℕ → Type 0
SortedFrom iv now [] = Unit
SortedFrom iv now (n ∷ ns) = (now ≤ (iv n).start) × SortedFrom iv (iv n).start ns

fill_interval_list-Sorted :
    (iv : Store) (t now : ℕ) (ns : List ℕ)
    → now ≤ (iv t).start
    → SortedFrom iv now ns
    → SortedFrom iv now (fill_interval_list iv t ns)
unfolding SortedFrom fill_interval_list
fill_interval_list-Sorted iv t now [] le sorted = (le, tt)
fill_interval_list-Sorted iv t now (n ∷ ns) le sorted =
    elim (Bool-cases (ltb (iv t).start (iv n).start)) [
      | inl before ↦ rw before (le, (ground arith, sorted.1))
      | inr after ↦
          rw after
            (sorted.0, fill_interval_list-Sorted iv t (iv n).start ns (ground arith) sorted.1)
    ]

pub fill_intervals-Sorted :
    (iv : Store) (ts ns : List ℕ) → SortedFrom iv 0 ns → SortedFrom iv 0 (fill_intervals iv ts ns)
unfolding fill_intervals
fill_intervals-Sorted iv [] ns sorted = sorted
fill_intervals-Sorted iv (t ∷ ts) ns sorted =
    fill_intervals-Sorted iv ts (fill_interval_list iv t ns)
      (fill_interval_list-Sorted iv t 0 ns (omega arith) sorted)

occ-fill_interval_list :
    (iv : Store) (p t : ℕ) (ns : List ℕ) → occ p (fill_interval_list iv t ns) ≡ occ p (t ∷ ns)
unfolding occ fill_interval_list
occ-fill_interval_list iv p t [] = refl
occ-fill_interval_list iv p t (n ∷ ns) = ground (arith, occ-fill_interval_list iv p t ns)

pub occ-fill_intervals :
    (iv : Store) (p : ℕ) (ts ns : List ℕ) → occ p (fill_intervals iv ts ns) ≡ occ p ts + occ p ns
unfolding occ fill_intervals
occ-fill_intervals iv p [] ns = omega arith
occ-fill_intervals iv p (t ∷ ts) ns = ground (
  arith,
  occ-fill_intervals iv p ts (fill_interval_list iv t ns),
  occ-fill_interval_list iv p t ns,
)
