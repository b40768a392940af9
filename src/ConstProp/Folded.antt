-- ===== src/ConstProp/Folded.antt =====
-- src/const_prop.c: what an operation does after `binop_fold`.
use milac.ConstProp.{fold_value, folded, binop_fold}
use milac.Optimize.Pool.{Pool}
use milac.Prelude.{
  ℕ, Option, none, some, ◌>>=◌, ◌≡◌, ◌≢◌, refl, false, ◌||◌, ◌==◌, arith, sym, ap, ◌∙◌, IsWord,
  true,
}
use milac.Tac.Meaning.{Machine, value, binop_value, assign, exec, exec_op}
use milac.Tac.Words.{binop_value-IsWord}
use milac.SymTab.{Symbol}
use milac.Tac.{Op, Tac, tac_is_binop, tin, tout, tassign, tnone, tiff, tjmp, tlabel}

fold_value-value : (op : Op) (a b : ℕ) → fold_value op a b ≡ binop_value op a b
unfolding fold_value binop_value
fold_value-value _ a b = refl

pub exec_op-binop :
    (deref : ℕ → Symbol) (op : Op) (i : Tac) (m : Machine)
    → tac_is_binop op ≡ true
    → exec_op deref op i m
      ≡ binop_value op (value deref m.env i.a1) (value deref m.env i.a2) >>= λ v.
          some (assign m i.r v)
unfolding exec_op tac_is_binop
exec_op-binop deref tin i m h = cc
exec_op-binop deref tout i m h = cc
exec_op-binop deref tassign i m h = cc
exec_op-binop deref tnone i m h = cc
exec_op-binop deref tiff i m h = cc
exec_op-binop deref tjmp i m h = cc
exec_op-binop deref tlabel i m h = cc
exec_op-binop deref _ i m h = refl

module _ (pool : Pool) where
  open pool use {State, deref, insert_const, Known}

  folded-assign :
      (s : State) (r v : ℕ) (m : Machine)
      → IsWord v
      → exec (deref (folded pool s r v).1) (folded pool s r v).0 m ≡ some (assign m r v)
  unfolding folded exec exec_op value
  folded-assign s r v m w = rw (pool.inserted_type s v w, pool.inserted_val s v w) refl

  folded_result :
      (s : State) (r : ℕ) (m : Machine) (o : Option ℕ)
      → ((v : ℕ) → o ≡ some v → IsWord v)
      → ((o >>= λ v. some (folded pool s r v)) >>= λ new. exec (deref new.1) new.0 m)
        ≡ (o >>= λ v. some (assign m r v))
  folded_result s r m none w = refl
  folded_result s r m (some v) w = folded-assign s r v m (w v refl)

  -- The assignment that `binop_fold` makes of a binary operation does what the operation does, faults
  -- included, where the symbols found for its operands are not NULL, the first is in use, and their `val`
  -- are the values of the operands.
  pub exec-binop_fold :
      (s : State) (known : ℕ → ℕ) (i : Tac) (m : Machine)
      → tac_is_binop i.op ≡ true
      → Known s (known (deref s i.a1).id)
      → known (deref s i.a1).id ≢ 0
      → known (deref s i.a2).id ≢ 0
      → value (deref s) m.env i.a1 ≡ (deref s (known (deref s i.a1).id)).val
      → value (deref s) m.env i.a2 ≡ (deref s (known (deref s i.a2).id)).val
      → (binop_fold pool s known i >>= λ new. exec (deref new.1) new.0 m) ≡ exec (deref s) i m
  unfolding binop_fold exec
  exec-binop_fold s known i m binop in_use some_p some_q left right =
      let a = (deref s (known (deref s i.a1).id)).val in
      let b = (deref s (known (deref s i.a2).id)).val in
      let found : (known (deref s i.a1).id == 0 || known (deref s i.a2).id == 0) ≡ false =
        ground arith in
      rw found (
        folded_result s i.r m (fold_value i.op a b) (λ v e.
          binop_value-IsWord i.op a b (pool.Known-IsWord s (known (deref s i.a1).id) in_use)
            (sym (fold_value-value i.op a b) ∙ e))
        ∙ rw (exec_op-binop (deref s) i.op i m binop, left, right)
            (ap (λ o. o >>= λ v. some (assign m i.r v)) (fold_value-value i.op a b)))
