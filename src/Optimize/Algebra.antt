-- ===== src/Optimize/Algebra.antt =====
-- src/optimize.c: `opt_algebra`, over the symbol table as a parameter.
pub mod Meaning
pub mod Block
pub mod Inverse
use milac.Optimize.Pool.{Pool}
use milac.Prelude.{ℕ, List, [], ◌∷◌, Bool, true, false, ◌==◌, ◌&&◌, ◌||◌, if◌then◌else◌, minus_one}
use milac.Tac.Meaning.{is_const}
use milac.Tac.{Op, Tac, tadd, tsub, tmul, tdiv, tassign}

module _ (pool : Pool) where
  open pool use {State, deref, insert_const}

  -- `p->type == SCONST && p->val == k`
  abbrev pub is_val : State → ℕ → ℕ → Bool
  is_val s p k = is_const (deref s p) && (deref s p).val == k

  -- `ins->a1->type == SCONST || ins->a2->type == SCONST`
  abbrev pub some_const : State → Tac → Bool
  some_const s i = is_const (deref s i.a1) || is_const (deref s i.a2)

  -- `ins->op = TASSIGN; ins->a1 = a; ins->a2 = NULL;`
  abbrev pub to_assign : Tac → ℕ → Tac
  to_assign i a = record i { op = tassign; a1 = a; a2 = 0 }

  unfoldable pub algebra_add : State → Tac → Tac × State
  algebra_add s i =
      if some_const s i
      then (if is_val s i.a1 0
          then (to_assign i i.a2, s)
          else if is_val s i.a2 0
          then (to_assign i i.a1, s)
          else (i, s))
      else (i, s)

  unfoldable pub algebra_sub : State → Tac → Tac × State
  algebra_sub s i =
      if some_const s i
      then (if is_val s i.a1 0
          then (let (p, s') = insert_const s minus_one in (record i { op = tmul; a1 = p }, s'))
          else if is_val s i.a2 0
          then (to_assign i i.a1, s)
          else (i, s))
      else (i, s)

  unfoldable pub algebra_mul : State → Tac → Tac × State
  algebra_mul s i =
      if some_const s i
      then (if is_val s i.a1 0 || is_val s i.a2 0
          then (let (p, s') = insert_const s 0 in (to_assign i p, s'))
          else if is_val s i.a1 1
          then (to_assign i i.a2, s)
          else if is_val s i.a1 2
          then (record i { op = tadd; a1 = i.a2 }, s)
          else if is_val s i.a2 1
          then (to_assign i i.a1, s)
          else if is_val s i.a2 2
          then (record i { op = tadd; a2 = i.a1 }, s)
          else (i, s))
      else (i, s)

  -- The warning of a division by zero goes to stderr only.
  unfoldable pub algebra_div : State → Tac → Tac × State
  algebra_div s i =
      if some_const s i
      then (if is_val s i.a2 0
          then (i, s)
          else if is_val s i.a1 1
          then (to_assign i i.a2, s)
          else if is_val s i.a2 1
          then (to_assign i i.a1, s)
          else (i, s))
      else (i, s)

  -- the `switch`
  unfoldable pub algebra_op : Op → State → Tac → Tac × State
  unfolding algebra_add algebra_sub algebra_mul algebra_div
  algebra_op tadd s i = algebra_add s i
  algebra_op tsub s i = algebra_sub s i
  algebra_op tmul s i = algebra_mul s i
  algebra_op tdiv s i = algebra_div s i
  algebra_op _ s i = (i, s)

  -- the loop over the instructions of a block
  unfoldable pub opt_algebra : State → List Tac → List Tac × State
  unfolding algebra_op
  opt_algebra s [] = ([], s)
  opt_algebra s (i ∷ is) =
      let (i', s₁) = algebra_op i.op s i in let (is', s₂) = opt_algebra s₁ is in (i' ∷ is', s₂)
