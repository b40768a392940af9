-- ===== src/Optimize/Algebra/Inverse.antt =====
-- src/optimize.c: what `opt_algebra` makes of `1 / x`.
use milac.Optimize.Algebra.{to_assign, algebra_div}
use milac.Optimize.Algebra.Block.{is_inverse}
use milac.Optimize.Algebra.Meaning.{value_val}
use milac.Optimize.Pool.{Pool}
use milac.Prelude.{
  ℕ, ◌≡◌, ◌≢◌, ◌≤◌, ap, sym, ◌∙◌, some, true, false, ◌==◌, ==_refl, minus_one, IsWord, div32, arith,
}
use milac.Tac.Meaning.{Machine, value, binop_value, assign, exec}
use milac.Tac.{Tac, tdiv}
use mathlib.Core.Option.{some-injective}

-- 1 divided by anything but 0, 1 and -1 is 0
one-div32 : (b : ℕ) → IsWord b → 2 ≤ b → b ≢ minus_one → div32 1 b ≡ 0
unfolding div32
one-div32 b w h n = ground arith

-- two assignments to one variable that leave the same machine wrote the same value
assign-injective : (m : Machine) (p v w : ℕ) → assign m p v ≡ assign m p w → v ≡ w
unfolding assign
assign-injective m p v w h =
    let read = ap (λ (x : Machine). x.env p) h in ground (arith, read, ==_refl p)

module _ (pool : Pool) where
  open pool use {State, deref}

  algebra_div_inverse :
      (s : State) (i : Tac)
      → is_inverse pool s i ≡ true
      → algebra_div pool s i ≡ (to_assign pool i i.a2, s)
  unfolding algebra_div
  algebra_div_inverse s i h = ground arith

  -- `1 / x` becomes `x`: wherever `x` is not 0, 1 or -1 the new instruction leaves another machine than
  -- the division does.
  pub algebra_div_wrong :
      (s : State) (i : Tac) (m : Machine)
      → let i₀ = record i { op = tdiv } in
        let b = value (deref s) m.env i.a2 in
        is_inverse pool s i ≡ true
        → IsWord b
        → 2 ≤ b
        → b ≢ minus_one
        → exec (deref s) (algebra_div pool s i₀).0 m ≢ exec (deref s) i₀ m
  unfolding exec binop_value
  algebra_div_wrong s i m h w two n same =
      let b = value (deref s) m.env i.a2 in
      let one = value_val pool s m.env i.a1 1 (ground arith) in
      let zero = one-div32 b w two n in
      let test : (b == 0) ≡ false = ground arith in
      let old : exec (deref s) (record i { op = tdiv }) m ≡ some (assign m i.r 0) =
        rw (one, test, zero) in
      let new : exec (deref s) (algebra_div pool s (record i { op = tdiv })).0 m
          ≡ some (assign m i.r b) =
        rw (algebra_div_inverse s (record i { op = tdiv }) h) in
      let values = assign-injective m i.r b 0 (some-injective _ _ (sym new ∙ same ∙ old)) in
      omega arith
