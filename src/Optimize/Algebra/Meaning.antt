-- ===== src/Optimize/Algebra/Meaning.antt =====
-- src/optimize.c: `opt_algebra` keeps the meaning of a block without `1 / x`.
use milac.Optimize.Algebra.{is_val, algebra_add, algebra_sub, algebra_mul, algebra_div}
use milac.Optimize.Pool.{Pool}
use milac.Prelude.{
  ℕ, ◌≡◌, true, false, ◌&&◌, not, minus_one, IsWord, zero-add32, add32-zero, sub32-zero,
  minus_one-mul32, zero-mul32, mul32-zero, one-mul32, mul32-one, two-mul32, mul32-two, div32-one,
  arith,
}
use milac.Tac.Meaning.{Machine, value, binop_value, exec}
use milac.Tac.{Tac, tadd, tsub, tmul, tdiv}

module _ (pool : Pool) where
  open pool use {State, deref, insert_const, Known}

  pub value_val :
      (s : State) (env : ℕ → ℕ) (p k : ℕ) → is_val pool s p k ≡ true → value (deref s) env p ≡ k
  unfolding value
  value_val s env p k h = ground arith

  module _ (s : State) (i : Tac) (m : Machine) where
    unfoldable pub left : ℕ
    left = value (deref s) m.env i.a1

    unfoldable pub right : ℕ
    right = value (deref s) m.env i.a2

    module _ (wl : IsWord left) (wr : IsWord right) where
      pub exec-algebra_add :
          let i₀ = record i { op = tadd } in
          exec (deref (algebra_add pool s i₀).1) (algebra_add pool s i₀).0 m ≡ exec (deref s) i₀ m
      unfolding exec algebra_add binop_value left right
      exec-algebra_add = ground (
        arith,
        value_val s m.env i.a1 0,
        value_val s m.env i.a2 0,
        zero-add32 right,
        add32-zero left,
      )

      -- a quotient with the dividend 1 is excluded: see `algebra_div_one`
      pub exec-algebra_div :
          let i₀ = record i { op = tdiv } in
          (is_val pool s i.a1 1 && not (is_val pool s i.a2 0)) ≡ false
          → exec (deref (algebra_div pool s i₀).1) (algebra_div pool s i₀).0 m ≡ exec (deref s) i₀ m
      unfolding exec algebra_div binop_value left right
      exec-algebra_div h = ground (arith, value_val s m.env i.a2 1, div32-one left)

      value-minus_one :
          Known s i.a2
          → let (p, s') = insert_const s minus_one in
            (value (deref s') m.env p ≡ minus_one) × (value (deref s') m.env i.a2 ≡ right)
      unfolding value right
      value-minus_one known = (
        ground (arith, pool.inserted_type s minus_one, pool.inserted_val s minus_one),
        rw (pool.deref_kept s minus_one i.a2 known),
      )

      pub exec-algebra_sub :
          let i₀ = record i { op = tsub } in
          Known s i.a2
          → exec (deref (algebra_sub pool s i₀).1) (algebra_sub pool s i₀).0 m ≡ exec (deref s) i₀ m
      unfolding exec algebra_sub binop_value left right
      exec-algebra_sub known = ground (
        arith,
        value-minus_one known,
        value_val s m.env i.a1 0,
        value_val s m.env i.a2 0,
        sub32-zero left,
        minus_one-mul32 right,
      )

      value_zero : let (p, s') = insert_const s 0 in value (deref s') m.env p ≡ 0
      unfolding value
      value_zero = ground (arith, pool.inserted_type s 0, pool.inserted_val s 0)

      pub exec-algebra_mul :
          let i₀ = record i { op = tmul } in
          exec (deref (algebra_mul pool s i₀).1) (algebra_mul pool s i₀).0 m ≡ exec (deref s) i₀ m
      unfolding exec algebra_mul binop_value left right
      exec-algebra_mul = ground (
        arith,
        value_zero,
        value_val s m.env i.a1 0,
        value_val s m.env i.a2 0,
        value_val s m.env i.a1 1,
        value_val s m.env i.a2 1,
        value_val s m.env i.a1 2,
        value_val s m.env i.a2 2,
        zero-mul32 right,
        mul32-zero left,
        one-mul32 right,
        mul32-one left,
        two-mul32 right,
        mul32-two left,
      )
