-- ===== src/RegAlloc/Spans.antt =====
-- src/regalloc.c: `intervals` over the whole code. The instruction at the place `k` has the count `k + 1`.
use milac.Prelude.{
  ℕ, zero, suc, ◌+◌, ◌*◌, ◌%◌, ◌<◌, ◌≤◌, List, [], ◌∷◌, some, true, ◌||◌, ◌>>=◌, ◌≡◌, sym, subst,
  arith, word_mod, >>=-eq-some, length, get_elem?,
}
use mathlib.Core.Option.{some-injective}
use milac.RegAlloc.Covers.{reads_at, writes_at, interval_ins-Met}
use milac.RegAlloc.Growth.{Grown, Bounded, Met, Grown-refl, Grown-trans, Grown-Bounded}
use milac.RegAlloc.Intervals.{interval_ins, intervals}
use milac.RegAlloc.{Interval, Store}
use milac.SymTab.{Symbol}
use milac.Tac.{Tac}

Grown-later : (c d n : ℕ) (x y : Interval) → c ≤ d → Grown c n x y → Grown d n x y
Grown-later c d n x y le g = record {
  start_kept = g.start_kept;
  start_le = omega arith;
  end_ge = g.end_ge;
  end_le = omega arith;
  count_ge = g.count_ge;
  count_le = g.count_le;
}

module _ (deref : ℕ → Symbol) (symbols : List ℕ) where
  -- the state behind the first instruction
  first_Met :
      (c n q : ℕ) (i : Tac) (is : List Tac) (iv iv' : Store)
      → c + suc (length is) < word_mod
      → n + 3 < word_mod
      → Bounded c n (iv q)
      → intervals deref symbols c (i ∷ is) iv ≡ some iv'
      → (iv₁ : Store) × Met (c + 1) 3 (reads_at deref i q) (writes_at deref i q) (iv q) (iv₁ q)
        × Bounded (c + 1) (n + 3) (iv₁ q)
        × (intervals deref symbols (c + 1) is iv₁ ≡ some iv')
  unfolding intervals
  first_Met c n q i is iv iv' small few b e =
      let next : (c + 1) % word_mod ≡ c + 1 = omega arith in
      let e' =
        subst (λ d. (interval_ins deref symbols d i iv >>= intervals deref symbols d is) ≡ some iv')
          next e in
      let (iv₁, one, rest) =
        >>=-eq-some (interval_ins deref symbols (c + 1) i iv) (intervals deref symbols (c + 1) is)
          e' in
      let b' : Bounded (c + 1) n (iv q) = omega arith in
      let met = interval_ins-Met deref symbols (c + 1) n q i iv iv₁ (omega arith) few b' one in
      (iv₁, met, Grown-Bounded (c + 1) n 3 (iv q) (iv₁ q) b' met.grown, rest)

  intervals-Grown :
      (is : List Tac) (c n q : ℕ) (iv iv' : Store)
      → c + length is < word_mod
      → n + 3 * length is < word_mod
      → Bounded c n (iv q)
      → intervals deref symbols c is iv ≡ some iv'
      → Grown (c + length is) (3 * length is) (iv q) (iv' q)
  unfolding intervals
  intervals-Grown [] c n q iv iv' small few b e =
      subst (λ f. Grown (c + 0) 0 (iv q) (f q)) (some-injective _ _ e)
        (Grown-later c (c + 0) 0 (iv q) (iv q) (omega arith) (Grown-refl c n (iv q) b))
  intervals-Grown (i ∷ is) c n q iv iv' small few b e =
      let (iv₁, met, b₁, rest) = first_Met c n q i is iv iv' small (omega arith) b e in
      let ih = intervals-Grown is (c + 1) (n + 3) q iv₁ iv' (omega arith) (omega arith) b₁ rest in
      let d = c + suc (length is) in
      subst (λ m. Grown d m (iv q) (iv' q)) (omega arith)
        (Grown-trans d 3 (3 * length is) (iv q) (iv₁ q) (iv' q)
          (Grown-later (c + 1) d 3 (iv q) (iv₁ q) (omega arith) met.grown)
          (Grown-later (c + 1 + length is) d (3 * length is) (iv₁ q) (iv' q) (omega arith) ih))

  -- a variable that the instruction at `k` reads or writes has an interval that does not end before it
  pub intervals_met :
      (is : List Tac) (c n q k : ℕ) (i : Tac) (iv iv' : Store)
      → c + length is < word_mod
      → n + 3 * length is < word_mod
      → Bounded c n (iv q)
      → intervals deref symbols c is iv ≡ some iv'
      → get_elem? is k ≡ some i
      → reads_at deref i q || writes_at deref i q ≡ true
      → (c + k + 1 ≤ (iv' q).end) × (1 ≤ (iv' q).usecount)
  intervals_met [] c n q k i iv iv' small few b e at m = cc
  intervals_met (j ∷ is) c n q zero i iv iv' small few b e at m =
      let (iv₁, met, b₁, rest) = first_Met c n q j is iv iv' small (omega arith) b e in
      let grown =
        intervals-Grown is (c + 1) (n + 3) q iv₁ iv' (omega arith) (omega arith) b₁ rest in
      let same : j ≡ i = some-injective _ _ at in
      let hit =
        met.hit (subst (λ x. reads_at deref x q || writes_at deref x q ≡ true) (sym same) m) in
      omega arith
  intervals_met (j ∷ is) c n q (suc k) i iv iv' small few b e at m =
      let (iv₁, met, b₁, rest) = first_Met c n q j is iv iv' small (omega arith) b e in
      let ih =
        intervals_met is (c + 1) (n + 3) q k i iv₁ iv' (omega arith) (omega arith) b₁ rest at m in
      omega arith

  -- a variable that the instruction at `k` writes has an interval that does not start after it
  pub intervals_begun :
      (is : List Tac) (c n q k : ℕ) (i : Tac) (iv iv' : Store)
      → c + length is < word_mod
      → n + 3 * length is < word_mod
      → Bounded c n (iv q)
      → intervals deref symbols c is iv ≡ some iv'
      → get_elem? is k ≡ some i
      → writes_at deref i q ≡ true
      → (iv' q).start ≤ c + k + 1
  intervals_begun [] c n q k i iv iv' small few b e at m = cc
  intervals_begun (j ∷ is) c n q zero i iv iv' small few b e at m =
      let (iv₁, met, b₁, rest) = first_Met c n q j is iv iv' small (omega arith) b e in
      let grown =
        intervals-Grown is (c + 1) (n + 3) q iv₁ iv' (omega arith) (omega arith) b₁ rest in
      let same : j ≡ i = some-injective _ _ at in
      let begun = met.begun (subst (λ x. writes_at deref x q ≡ true) (sym same) m) in
      omega (arith, grown.start_kept begun, met.grown.start_le)
  intervals_begun (j ∷ is) c n q (suc k) i iv iv' small few b e at m =
      let (iv₁, met, b₁, rest) = first_Met c n q j is iv iv' small (omega arith) b e in
      let ih =
        intervals_begun is (c + 1) (n + 3) q k i iv₁ iv' (omega arith) (omega arith) b₁ rest at m in
      omega arith
