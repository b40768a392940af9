-- ===== src/RegAlloc/Safe.antt =====
-- src/regalloc.c: the invariant of the scan and what each action does to it.
use milac.Prelude.{
  ℕ, ◌+◌, ◌≤◌, ◌<◌, ◌≡◌, ◌≢◌, ap, inl, inr, Bool-cases, List, ◌∷◌, ◌==◌, ==_iff, if◌then◌else◌,
  length, arith,
}
use milac.RegAlloc.Queue.{
  occ, held, occ-add_active, held-add_active, length-add_active, held-set_reg, held_pos,
  expire_counts, expire_gone,
}
use milac.RegAlloc.{Store, set_reg, lin_expire_old, lin_add_active}
use milac.SymTab.{no_register}

-- Two intervals that have a point in common and both have a register have different ones.
abbrev pub Apart : Store → ℕ → ℕ → Type 0
Apart iv p q =
    (iv p).reg ≢ no_register
    → (iv q).reg ≢ no_register
    → (iv q).start ≤ (iv p).end
    → (iv p).start ≤ (iv q).end
    → (iv p).reg ≢ (iv q).reg

-- After the intervals `passed`, the last of which starts at `now`: every register is free or held by
-- one active interval, and a passed interval with a register is active or has ended.
pub record Inv (passed : List ℕ) (now : ℕ) (iv : Store) (active regs : List ℕ) : Type 0 where
  pub counts : (r : ℕ) → held iv r active + occ r regs ≤ 1
  pub real : held iv no_register active + occ no_register regs ≡ 0
  pub size : length active + length regs ≡ 3
  pub inside : (p : ℕ) → occ p active ≤ occ p passed
  pub once : (p : ℕ) → occ p active ≤ 1
  pub gone :
      (p : ℕ) → 1 ≤ occ p passed → occ p active ≡ 0 → (iv p).reg ≢ no_register → (iv p).end < now
  pub safe : (p q : ℕ) → p ≢ q → 1 ≤ occ p passed → 1 ≤ occ q passed → Apart iv p q

module _ (passed : List ℕ) (now : ℕ) (iv : Store) where
  pub expire-Inv :
      (active regs : List ℕ) (later : ℕ)
      → now ≤ later
      → Inv passed now iv active regs
      → let e = lin_expire_old iv later active regs in Inv passed later iv e.0 e.1
  expire-Inv active regs later le v =
      let (count, size) = expire_counts iv later active regs in
      record {
        counts = λ r. omega (arith, count r, v.counts r);
        real = omega (arith, count no_register, v.real);
        size = omega (arith, size, v.size);
        inside = λ p. omega (arith, (expire_gone iv later p active regs).0, v.inside p);
        once = λ p. omega (arith, (expire_gone iv later p active regs).0, v.once p);
        gone = λ p h k n. elim (Bool-cases (occ p active == 0)) [
          | inl out ↦ ground (arith, v.gone p h ((==_iff _ _).0 out) n)
          | inr here ↦ (expire_gone iv later p active regs).1 (ground arith) k
        ];
        safe = v.safe;
      }

-- the registers of a store after a write
pub reg-set_reg :
    (iv : Store) (n v q : ℕ)
    → ((set_reg iv n v q).reg ≡ (if q == n then v else (iv q).reg))
      × ((set_reg iv n v q).start ≡ (iv q).start)
      × ((set_reg iv n v q).end ≡ (iv q).end)
unfolding set_reg
reg-set_reg iv n v q = ground arith

start_congr : (iv : Store) (p q : ℕ) → p ≡ q → (iv p).start ≡ (iv q).start
start_congr iv p q e = ap (λ z. (iv z).start) e

module _ (passed : List ℕ) (iv : Store) (active regs : List ℕ) (n r : ℕ) (new : occ n passed ≡ 0)
    (v : Inv passed (iv n).start iv active (r ∷ regs)) where
  abbrev pub iv' : Store
  iv' = set_reg iv n r

  count_alloc :
      (x : ℕ)
      → held iv' x (lin_add_active iv' n active) + occ x regs ≡ held iv x active + occ x (r ∷ regs)
  unfolding held occ
  count_alloc x = ground (
    arith,
    held-add_active iv' n x active,
    held-set_reg iv n r x active,
    reg-set_reg iv n r n,
    v.inside n,
  )

  -- the new interval against one that was passed before
  alloc_apart :
      (q : ℕ)
      → q ≢ n
      → 1 ≤ occ q passed
      → (iv q).reg ≢ no_register
      → (iv n).start ≤ (iv q).end
      → r ≢ (iv q).reg
  unfolding occ
  alloc_apart q ne h k overlap e = elim (Bool-cases (occ q active == 0)) [
    | inl out ↦ omega (arith, v.gone q h ((==_iff _ _).0 out) k)
    | inr here ↦ ground (arith, held_pos iv q active, v.counts (iv q).reg)
  ]

  alloc_safe : (p q : ℕ) → p ≢ q → 1 ≤ occ p (n ∷ passed) → 1 ≤ occ q (n ∷ passed) → Apart iv' p q
  unfolding occ
  alloc_safe p q ne h k a b c d e = ground (
    arith,
    reg-set_reg iv n r p,
    reg-set_reg iv n r q,
    start_congr iv p n,
    start_congr iv q n,
    alloc_apart p,
    alloc_apart q,
    v.safe p q ne,
  )

  pub alloc-Inv : Inv (n ∷ passed) (iv n).start iv' (lin_add_active iv' n active) regs
  unfolding occ
  alloc-Inv = record {
    counts = λ x. omega (arith, count_alloc x, v.counts x);
    real = omega (arith, count_alloc no_register, v.real);
    size = omega (arith, length-add_active iv' n active, v.size);
    inside = λ p. ground (arith, occ-add_active iv' n p active, v.inside p);
    once = λ p. ground (arith, occ-add_active iv' n p active, v.once p, v.inside p);
    gone = λ p h k m. ground (arith, occ-add_active iv' n p active, v.gone p, reg-set_reg iv n r p);
    safe = alloc_safe;
  }
