-- ===== src/ConstProp.antt =====
-- src/const_prop.c: `binop_fold`, which replaces an operation on known constants. `known` is the array
-- `prev->out`: the constant symbol of a variable, by the id of its symbol.
pub mod Folded
pub mod Propagate
pub mod Known
pub mod Sound
pub mod Fold
pub mod Replaced
use milac.Optimize.Pool.{Pool}
use milac.Prelude.{
  ℕ, Option, none, some, ◌>>=◌, ◌==◌, ◌||◌, not, if◌then◌else◌, add32, sub32, mul32, div_faults,
  div32, signed_lt, bool32,
}
use milac.Tac.{Op, Tac, teq, tneq, tlt, tgt, tle, tge, tassign, tadd, tsub, tmul, tdiv}
use milac.TacGen.{op_tac}

-- `res`: `none` is a division that is undefined in C, or `exit` where the operation is no binary one.
-- Another overflow wraps around.
unfoldable pub fold_value : Op → ℕ → ℕ → Option ℕ
fold_value tadd a b = some (add32 a b)
fold_value tsub a b = some (sub32 a b)
fold_value tmul a b = some (mul32 a b)
fold_value tdiv a b = if div_faults a b then none else some (div32 a b)
fold_value teq a b = some (bool32 (a == b))
fold_value tneq a b = some (bool32 (not (a == b)))
fold_value tlt a b = some (bool32 (signed_lt a b))
fold_value tgt a b = some (bool32 (signed_lt b a))
fold_value tle a b = some (bool32 (not (signed_lt b a)))
fold_value tge a b = some (bool32 (not (signed_lt a b)))
fold_value _ a b = none

module _ (pool : Pool) where
  open pool use {State, deref, insert_const}

  -- `new->a1 = st_insert_const(res); new->r = r;`
  unfoldable pub folded : State → ℕ → ℕ → Tac × State
  folded s r res = let (p, s') = insert_const s res in (record (op_tac tassign r) { a1 = p }, s')

  -- A NULL that is followed is a fault.
  unfoldable pub binop_fold : State → (ℕ → ℕ) → Tac → Option (Tac × State)
  unfolding fold_value folded
  binop_fold s known i =
      let p = known (deref s i.a1).id in
      let q = known (deref s i.a2).id in
      if p == 0 || q == 0
      then none
      else do res ← fold_value i.op (deref s p).val (deref s q).val; some (folded s i.r res)
