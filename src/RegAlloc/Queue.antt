-- ===== src/RegAlloc/Queue.antt =====
-- src/regalloc.c: how the queues and the registers count, operation by operation.
use milac.Prelude.{
  ℕ, ◌+◌, ◌≤◌, ◌<◌, ◌≡◌, ◌≢◌, refl, ap, inl, inr, Bool-cases, List, [], ◌∷◌, leb, ◌==◌,
  if◌then◌else◌, length, arith,
}
use milac.RegAlloc.{Store, set_reg, lin_expire_old, lin_add_active, last, front}

-- how often an element stands in a list
unfoldable pub occ : ℕ → List ℕ → ℕ
occ p [] = 0
occ p (x ∷ xs) = if x == p then 1 + occ p xs else occ p xs

-- how many intervals of a queue have the register
unfoldable pub held : Store → ℕ → List ℕ → ℕ
held iv r [] = 0
held iv r (x ∷ xs) = if (iv x).reg == r then 1 + held iv r xs else held iv r xs

pub occ-add_active :
    (iv : Store) (n p : ℕ) (xs : List ℕ) → occ p (lin_add_active iv n xs) ≡ occ p (n ∷ xs)
unfolding occ lin_add_active
occ-add_active iv n p [] = refl
occ-add_active iv n p (x ∷ xs) = ground (arith, occ-add_active iv n p xs)

pub held-add_active :
    (iv : Store) (n r : ℕ) (xs : List ℕ) → held iv r (lin_add_active iv n xs) ≡ held iv r (n ∷ xs)
unfolding held lin_add_active
held-add_active iv n r [] = refl
held-add_active iv n r (x ∷ xs) = ground (arith, held-add_active iv n r xs)

pub length-add_active :
    (iv : Store) (n : ℕ) (xs : List ℕ) → length (lin_add_active iv n xs) ≡ length xs + 1
unfolding lin_add_active
length-add_active iv n [] = omega arith
length-add_active iv n (x ∷ xs) = ground (arith, length-add_active iv n xs)

pub occ-front : (p t : ℕ) (ts : List ℕ) → occ p (last t ts ∷ front t ts) ≡ occ p (t ∷ ts)
unfolding occ last front
occ-front p t [] = refl
occ-front p t (u ∷ us) = ground (arith, occ-front p u us)

pub held-front :
    (iv : Store) (r t : ℕ) (ts : List ℕ) → held iv r (last t ts ∷ front t ts) ≡ held iv r (t ∷ ts)
unfolding held last front
held-front iv r t [] = refl
held-front iv r t (u ∷ us) = ground (arith, held-front iv r u us)

pub length-front : (t : ℕ) (ts : List ℕ) → length (front t ts) ≡ length ts
unfolding front
length-front t [] = refl
length-front t (u ∷ us) = omega (arith, length-front u us)

-- Writing the register of an element that is not in a queue changes nothing there.
pub held-set_reg :
    (iv : Store) (n v r : ℕ) (xs : List ℕ)
    → occ n xs ≡ 0
    → held (set_reg iv n v) r xs ≡ held iv r xs
unfolding held occ set_reg
held-set_reg iv n v r [] h = refl
held-set_reg iv n v r (x ∷ xs) h = ground (arith, held-set_reg iv n v r xs)

reg_congr : (iv : Store) (p q : ℕ) → p ≡ q → (iv p).reg ≡ (iv q).reg
reg_congr iv p q e = ap (λ z. (iv z).reg) e

pub held_pos : (iv : Store) (p : ℕ) (xs : List ℕ) → 1 ≤ occ p xs → 1 ≤ held iv (iv p).reg xs
unfolding held occ
held_pos iv p [] h = h
held_pos iv p (x ∷ xs) h = ground (arith, held_pos iv p xs, reg_congr iv x p)

-- two elements of a queue with one register
pub held_two :
    (iv : Store) (p q : ℕ) (xs : List ℕ)
    → p ≢ q
    → 1 ≤ occ p xs
    → 1 ≤ occ q xs
    → (iv p).reg ≡ (iv q).reg
    → 2 ≤ held iv (iv p).reg xs
unfolding held occ
held_two iv p q [] n h k e = absurd (omega arith)
held_two iv p q (x ∷ xs) n h k e = ground (
  arith,
  held_two iv p q xs n,
  held_pos iv p xs,
  held_pos iv q xs,
  reg_congr iv x p,
  reg_congr iv x q,
)

pub expire_counts :
    (iv : Store) (now : ℕ) (xs regs : List ℕ)
    → let e = lin_expire_old iv now xs regs in
      ((r : ℕ) → held iv r e.0 + occ r e.1 ≡ held iv r xs + occ r regs)
      × (length e.0 + length e.1 ≡ length xs + length regs)
unfolding lin_expire_old held occ
expire_counts iv now [] regs = (λ r. refl, refl)
expire_counts iv now (t ∷ ts) regs = elim (Bool-cases (leb now (iv t).end)) [
  | inl stop ↦ rw stop (λ r. refl, refl)
  | inr go ↦
      let (count, size) = expire_counts iv now ts ((iv t).reg ∷ regs) in
      rw go (λ r. ground (arith, count r), omega arith)
]

end_congr : (iv : Store) (p q : ℕ) → p ≡ q → (iv p).end ≡ (iv q).end
end_congr iv p q e = ap (λ z. (iv z).end) e

-- What expires ends before `now`, and the rest is of the queue.
pub expire_gone :
    (iv : Store) (now p : ℕ) (xs regs : List ℕ)
    → let e = lin_expire_old iv now xs regs in
      (occ p e.0 ≤ occ p xs) × (1 ≤ occ p xs → occ p e.0 ≡ 0 → (iv p).end < now)
unfolding lin_expire_old occ
expire_gone iv now p [] regs = (omega arith, λ h k. absurd (omega arith))
expire_gone iv now p (t ∷ ts) regs = elim (Bool-cases (leb now (iv t).end)) [
  | inl stop ↦ rw stop (omega arith, λ h k. absurd (omega arith))
  | inr go ↦
      let (few, gone) = expire_gone iv now p ts ((iv t).reg ∷ regs) in
      rw go (ground arith, λ h k. ground (arith, gone, end_congr iv t p))
]
