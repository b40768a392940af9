-- ===== src/RegAlloc/Growth.antt =====
-- src/regalloc.c: how an interval grows while `intervals` counts the instructions.
use milac.Prelude.{
  ℕ, ◌+◌, ◌≤◌, Bool, true, false, ◌||◌, ◌≡◌, ◌≢◌, sym, ◌∙◌, subst, arith, Bool-cases, inl, inr,
}
use milac.RegAlloc.{Interval}

-- an interval before and after the instruction `c`, where it is met `n` times at most
pub record Grown (c n : ℕ) (x x' : Interval) : Type 0 where
  pub start_kept : x.start ≢ 0 → x'.start ≡ x.start
  pub start_le : x'.start ≤ c
  pub end_ge : x.end ≤ x'.end
  pub end_le : x'.end ≤ c
  pub count_ge : x.usecount ≤ x'.usecount
  pub count_le : x'.usecount ≤ x.usecount + n

-- an interval when `c` instructions are counted, and it may have been met `n` times
pub record Bounded (c n : ℕ) (x : Interval) : Type 0 where
  pub start : x.start ≤ c
  pub end : x.end ≤ c
  pub count : x.usecount ≤ n

-- the interval ends at `c`, and is used
pub record Hit (c : ℕ) (x : Interval) : Type 0 where
  pub end : x.end ≡ c
  pub used : 1 ≤ x.usecount

pub Grown-refl : (c n : ℕ) (x : Interval) → Bounded c n x → Grown c 0 x x
Grown-refl c n x b = ground arith

pub Grown-trans :
    (c n k : ℕ) (x y z : Interval) → Grown c n x y → Grown c k y z → Grown c (n + k) x z
Grown-trans c n k x y z g h = record {
  start_kept = λ e. h.start_kept (subst (λ v. v ≢ 0) (sym (g.start_kept e)) e) ∙ g.start_kept e;
  start_le = h.start_le;
  end_ge = omega arith;
  end_le = h.end_le;
  count_ge = omega arith;
  count_le = omega arith;
}

pub Grown-Bounded :
    (c n k : ℕ) (x y : Interval) → Bounded c n x → Grown c k x y → Bounded c (n + k) y
Grown-Bounded c n k x y b g = omega arith

pub Grown-Hit : (c n : ℕ) (x y : Interval) → Hit c x → Grown c n x y → Hit c y
Grown-Hit c n x y h g = omega arith

-- what an instruction does to the interval of a variable, where `reads` and `writes` say that it does
pub record Met (c n : ℕ) (reads writes : Bool) (x x' : Interval) : Type 0 where
  pub grown : Grown c n x x'
  pub hit : reads || writes ≡ true → Hit c x'
  pub begun : writes ≡ true → x'.start ≢ 0

pub Met-refl : (c n : ℕ) (x : Interval) → Bounded c n x → Met c 0 false false x x
Met-refl c n x b = record { grown = Grown-refl c n x b; hit = λ h. cc; begun = λ h. cc }

pub Met-le : (c n k : ℕ) (r w : Bool) (x y : Interval) → n ≤ k → Met c n r w x y → Met c k r w x y
Met-le c n k r w x y le m =
    let g = m.grown in
    record {
      grown = record {
        start_kept = g.start_kept;
        start_le = g.start_le;
        end_ge = g.end_ge;
        end_le = g.end_le;
        count_ge = g.count_ge;
        count_le = omega arith;
      };
      hit = m.hit;
      begun = m.begun;
    }

pub Met-trans :
    (c n k : ℕ) (r r' w w' : Bool) (x y z : Interval)
    → Met c n r w x y
    → Met c k r' w' y z
    → Met c (n + k) (r || r') (w || w') x z
Met-trans c n k r r' w w' x y z m m' = record {
  grown = Grown-trans c n k x y z m.grown m'.grown;
  hit = λ h. elim (Bool-cases (r || w)) [
    | inl first ↦ Grown-Hit c k y z (m.hit first) m'.grown
    | inr none_yet ↦ m'.hit (ground arith)
  ];
  begun = λ h. elim (Bool-cases w) [
    | inl first ↦
        let some_start = m.begun first in
        subst (λ v. v ≢ 0) (sym (m'.grown.start_kept some_start)) some_start
    | inr none_yet ↦ m'.begun (ground arith)
  ];
}
