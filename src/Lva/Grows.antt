-- ===== src/Lva/Grows.antt =====
-- A pass of src/lva.c sets bits of some `out` and clears none.
use milac.Lva.{Bits, Store, store, bits_differ, live_in, add_succ, block_lva, lva_block, lva_pass}
use milac.Optimize.UnusedVars.{In}
use milac.Prelude.{
  ℕ, zero, suc, ◌+◌, ◌≤◌, ◌<◌, List, [], ◌∷◌, ◌≡◌, refl, ap, ◌∙◌, subst, true, ◌==◌, ==_refl,
  if◌then◌else◌, arith, Bool-cases, inl, inr,
}

-- the bits below `n` that are not set
pub clear_bits : ℕ → Bits → ℕ
clear_bits zero s = 0
clear_bits (suc n) s = clear_bits n s + (if s n then 0 else 1)

abbrev Subset : Bits → Bits → Type 0
Subset s t = (i : ℕ) → s i ≡ true → t i ≡ true

clear_bits_le : (n : ℕ) (s t : Bits) → Subset s t → clear_bits n t ≤ clear_bits n s
unfolding clear_bits
clear_bits_le zero s t h = omega arith
clear_bits_le (suc n) s t h = ground (arith, h n, clear_bits_le n s t h)

clear_bits_lt :
    (n : ℕ) (s t : Bits) → Subset s t → bits_differ n t s ≡ true → clear_bits n t < clear_bits n s
unfolding clear_bits bits_differ
clear_bits_lt zero s t h d = cc
clear_bits_lt (suc n) s t h d = ground (arith, h n, clear_bits_le n s t h, clear_bits_lt n s t h)

pub clear_bits_all : (n : ℕ) (s : Bits) → clear_bits n s ≤ n
unfolding clear_bits
clear_bits_all zero s = omega arith
clear_bits_all (suc n) s = ground (arith, clear_bits_all n s)

-- the bits of the block that are not in its `out`
unfoldable pub unset : Store → ℕ → ℕ
unset h p = clear_bits (h p).lva.count (h p).lva.out

unfoldable pub total : List ℕ → Store → ℕ
total [] h = 0
total (p ∷ ps) h = unset h p + total ps h

pub record Grows (h h' : Store) : Type 0 where
  pub same_count : (p : ℕ) → (h' p).lva.count ≡ (h p).lva.count
  pub more_out : (p : ℕ) → Subset (h p).lva.out (h' p).lva.out

pub Grows-refl : (h : Store) → Grows h h
Grows-refl h = record { same_count = λ p. refl; more_out = λ p i b. b }

pub Grows-trans : (h h' h'' : Store) → Grows h h' → Grows h' h'' → Grows h h''
Grows-trans h h' h'' g k = record {
  same_count = λ p. k.same_count p ∙ g.same_count p;
  more_out = λ p i b. k.more_out p i (g.more_out p i b);
}

unset_le : (h h' : Store) (p : ℕ) → Grows h h' → unset h' p ≤ unset h p
unfolding unset
unset_le h h' p g =
    rw (g.same_count p) (clear_bits_le (h p).lva.count (h p).lva.out (h' p).lva.out (g.more_out p))

total_le : (ps : List ℕ) (h h' : Store) → Grows h h' → total ps h' ≤ total ps h
unfolding total
total_le [] h h' g = omega arith
total_le (p ∷ ps) h h' g = omega (arith, unset_le h h' p g, total_le ps h h' g)

total_lt :
    (ps : List ℕ) (h h' : Store) (p : ℕ)
    → Grows h h'
    → In p ps
    → unset h' p < unset h p
    → total ps h' < total ps h
unfolding total
total_lt [] h h' p g m u = cc
total_lt (q ∷ ps) h h' p g (inl e) u =
    let v : unset h' q < unset h q = subst (λ z. unset h' z < unset h z) e u in
    omega (arith, v, total_le ps h h' g)
total_lt (q ∷ ps) h h' p g (inr m) u = omega (arith, unset_le h h' q g, total_lt ps h h' p g m u)

add_succ-Subset : (h : Store) (q count : ℕ) (s : Bits) → Subset s (add_succ h q count s)
add_succ-Subset h zero count s i b = b
add_succ-Subset h (suc q) count s i b = ground arith

block_lva-Grows :
    (p : ℕ) (h : Store)
    → ((block_lva p h).count ≡ (h p).lva.count) × Subset (h p).lva.out (block_lva p h).out
unfolding block_lva
block_lva-Grows p h =
    let l = (h p).lva in
    let h₁ = store h p (record (h p) { lva = record l { in_ = live_in l } }) in
    let out₁ = add_succ h₁ (h p).jmp l.count l.out in
    (
      refl,
      λ i b.
          add_succ-Subset h₁ (h p).next l.count out₁ i
            (add_succ-Subset h₁ (h p).jmp l.count l.out i b),
    )

lva_block-Grows : (p : ℕ) (h : Store) → Grows h (lva_block p h).0
unfolding lva_block
lva_block-Grows p h =
    let (count, out) = block_lva-Grows p h in
    record {
      same_count = λ q. ground (arith, count, λ (e : q ≡ p). ap (λ z. (h z).lva.count) e);
      more_out = λ q i b. ground (arith, out i, λ (e : q ≡ p). ap (λ z. (h z).lva.out i) e);
    }

lva_block_changed :
    (p : ℕ) (h : Store) → (lva_block p h).1 ≡ true → unset (lva_block p h).0 p < unset h p
unfolding lva_block unset
lva_block_changed p h c =
    let (count, out) = block_lva-Grows p h in
    let here = clear_bits_lt (h p).lva.count (h p).lva.out (block_lva p h).out out c in
    let at_p : (p == p) ≡ true = ==_refl p in rw at_p (rw count here)

pub lva_pass-Grows : (ps : List ℕ) (h : Store) → Grows h (lva_pass ps h).0
unfolding lva_pass
lva_pass-Grows [] h = Grows-refl h
lva_pass-Grows (p ∷ ps) h =
    Grows-trans h (lva_pass ps h).0 (lva_block p (lva_pass ps h).0).0 (lva_pass-Grows ps h)
      (lva_block-Grows p (lva_pass ps h).0)

-- A pass that reports a change sets a bit of a block in the list.
pub lva_pass_changed :
    (ps all : List ℕ) (h : Store)
    → ((p : ℕ) → In p ps → In p all)
    → (lva_pass ps h).1 ≡ true
    → total all (lva_pass ps h).0 < total all h
unfolding lva_pass
lva_pass_changed [] all h within c = cc
lva_pass_changed (p ∷ ps) all h within c =
    let h₁ = (lva_pass ps h).0 in
    let rest = total_le all h h₁ (lva_pass-Grows ps h) in
    let here = total_le all h₁ (lva_block p h₁).0 (lva_block-Grows p h₁) in
    elim (Bool-cases (lva_pass ps h).1) [
      | inl later ↦
          let less = lva_pass_changed ps all h (λ q m. within q (inr m)) later in omega arith
      | inr quiet ↦
          let changed : (lva_block p h₁).1 ≡ true = ground arith in
          let less =
            total_lt all h₁ (lva_block p h₁).0 p (lva_block-Grows p h₁) (within p (inl refl))
              (lva_block_changed p h₁ changed) in
          omega arith
    ]
