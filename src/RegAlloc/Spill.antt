-- ===== src/RegAlloc/Spill.antt =====
-- src/regalloc.c: the invariant of the scan through `lin_spill`.
use milac.Prelude.{
  ℕ, ◌+◌, ◌≤◌, ◌≡◌, ◌≢◌, refl, fun_ext, inl, inr, Bool-cases, List, [], ◌∷◌, ◌==◌, ==_iff, arith,
}
use milac.RegAlloc.Queue.{occ, held, occ-front, held-front, length-front, held-set_reg}
use milac.RegAlloc.Safe.{Apart, Inv, reg-set_reg}
use milac.RegAlloc.{Store, set_reg, last, front}
use milac.SymTab.{no_register}

pub set_reg_comm :
    (iv : Store) (n l v w : ℕ) → n ≢ l → set_reg (set_reg iv n v) l w ≡ set_reg (set_reg iv l w) n v
unfolding set_reg
set_reg_comm iv n l v w ne = fun_ext (λ q. elim (Bool-cases (q == n)) [
  | inl e ↦ elim (Bool-cases (q == l)) [
    | inl d ↦ absurd (ground (arith, (==_iff q n).0 e, (==_iff q l).0 d))
    | inr d ↦ rw (e, d) refl
  ]
  | inr e ↦ elim (Bool-cases (q == l)) [ inl d ↦ rw (e, d) refl | inr d ↦ rw (e, d) refl ]
])

module _ (passed : List ℕ) (now : ℕ) (iv : Store) (t : ℕ) (ts : List ℕ)
    (v : Inv passed now iv (t ∷ ts) []) where
  abbrev pub l : ℕ
  l = last t ts

  pub last_passed : (1 ≤ occ l passed) × (occ l (front t ts) ≡ 0)
  unfolding occ
  last_passed = ground (arith, occ-front l t ts, v.once l, v.inside l)

  evict_held :
      (r : ℕ)
      → held (set_reg iv l no_register) r (front t ts) + occ r ((iv l).reg ∷ [])
        ≡ held iv r (t ∷ ts)
  unfolding held occ
  evict_held r =
      ground
        (arith, held-front iv r t ts, held-set_reg iv l no_register r (front t ts) last_passed.1)

  evict_safe :
      (p q : ℕ) → p ≢ q → 1 ≤ occ p passed → 1 ≤ occ q passed → Apart (set_reg iv l no_register) p q
  evict_safe p q ne h k a b c d e =
      ground (arith, reg-set_reg iv l no_register p, reg-set_reg iv l no_register q, v.safe p q ne)

  pub evict-Inv : Inv passed now (set_reg iv l no_register) (front t ts) ((iv l).reg ∷ [])
  unfolding occ
  evict-Inv = record {
    counts = λ r. omega (arith, evict_held r, v.counts r);
    real = omega (arith, evict_held no_register, v.real);
    size = omega (arith, length-front t ts, v.size);
    inside = λ p. ground (arith, occ-front p t ts, v.inside p);
    once = λ p. ground (arith, occ-front p t ts, v.once p);
    gone = λ p h k m. ground (arith, occ-front p t ts, v.gone p, reg-set_reg iv l no_register p);
    safe = evict_safe;
  }

module _ (passed : List ℕ) (now : ℕ) (iv : Store) (active : List ℕ) (regs : List ℕ) (n : ℕ)
    (new : occ n passed ≡ 0) (v : Inv passed now iv active regs) where
  spare_safe :
      (p q : ℕ)
      → p ≢ q
      → 1 ≤ occ p (n ∷ passed)
      → 1 ≤ occ q (n ∷ passed)
      → Apart (set_reg iv n no_register) p q
  unfolding occ
  spare_safe p q ne h k a b c d e =
      ground (arith, reg-set_reg iv n no_register p, reg-set_reg iv n no_register q, v.safe p q ne)

  spare_held : (r : ℕ) → held (set_reg iv n no_register) r active ≡ held iv r active
  spare_held r = held-set_reg iv n no_register r active (omega (arith, v.inside n))

  pub spare-Inv : Inv (n ∷ passed) now (set_reg iv n no_register) active regs
  unfolding occ
  spare-Inv = record {
    counts = λ r. omega (arith, spare_held r, v.counts r);
    real = omega (arith, spare_held no_register, v.real);
    size = v.size;
    inside = λ p. ground (arith, v.inside p);
    once = v.once;
    gone = λ p h k m. ground (arith, v.gone p, reg-set_reg iv n no_register p);
    safe = spare_safe;
  }
