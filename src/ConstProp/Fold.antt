-- ===== src/ConstProp/Fold.antt =====
-- src/const_prop.c: `cp_fold` and `const_prop`. `realloc` succeeds, so `cp_init` does; it and `cp_delete`
-- only make room for the arrays `out`, which `cp_propagate` clears. `prev` is the array of the
-- instruction before, and `none` where `prev` is NULL.
use milac.Blocks.Compact.{Compaction, bb_compact}
use milac.Blocks.{Store, store}
use milac.ConstProp.Propagate.{Vars, is_constant, cp_propagate}
use milac.ConstProp.{binop_fold}
use milac.Optimize.Pool.{Pool}
use milac.Prelude.{
  ℕ, zero, suc, List, [], ◌∷◌, Option, none, some, Bool, true, false, not, ◌&&◌, ◌==◌, ◌>>=◌,
  if◌then◌else◌, signed_lt,
}
use milac.Tac.{Op, Tac, tac_is_binop, tiff, tjmp, tin, tout, tassign, tlabel}

module _ (pool : Pool) where
  open pool use {State, deref}

  -- Nothing is changed, and `prev` is as given; or something is, with the symbols and the blocks after it.
  pub data Turn (A : Type 0) : Type 0 where
    kept : Option Vars → Turn A
    changed : A → State → Store → Turn A

  abbrev pub mapped : {A B : Type 0} → (A → B) → Turn A → Turn B
  mapped f (kept prev) = kept prev
  mapped f (changed a s h) = changed (f a) s h

  -- `out[p->id].c == C && p != out[p->id].s`
  abbrev pub replaceable : State → Vars → ℕ → Bool
  replaceable s v p = let x = v (deref s p).id in is_constant x.c && not (p == x.s)

  abbrev pub fold_binop : State → Option Vars → Store → Tac → Vars → Option (Turn Tac)
  fold_binop s prev h i out =
      let x = out (deref s i.r).id in
      if is_constant x.c && (x.s == 0)
      then (prev >>= λ v.
          binop_fold pool s (λ k. (v k).s) i >>= λ new. some (changed new.0 new.1 h))
      else some (kept prev)

  abbrev pub fold_assign : State → Option Vars → Store → Tac → Vars → Option (Turn Tac)
  fold_assign s none h i out = some (kept (some out))
  fold_assign s (some v) h i out =
      if replaceable s v i.a1
      then some (changed (record i { a1 = (v (deref s i.a1).id).s }) s h)
      else some (kept (some out))

  -- `b->flags.unreachable = 1`
  abbrev pub flag : ℕ → Store → Option Store
  flag zero h = none
  flag (suc b) h = some (store h (suc b) (record (h (suc b)) { unreachable = true }))

  abbrev pub fold_iff : State → Option Vars → ℕ → Store → Tac → Option (Turn Tac)
  fold_iff s prev b h i = prev >>= λ v.
      let x = v (deref s i.a1).id in
      if is_constant x.c
      then (if x.s == 0
          then none
          else (flag (if signed_lt 0 (deref s x.s).val then (h b).jmp else (h b).next) h >>= λ h'.
              some (changed i s h')))
      else some (kept prev)

  abbrev pub fold_out : State → Option Vars → Store → Tac → Option (Turn Tac)
  fold_out s prev h i = prev >>= λ v.
      if replaceable s v i.r
      then some (changed (record i { r = (v (deref s i.r).id).s }) s h)
      else some (kept prev)

  abbrev pub fold_other : Op → State → Option Vars → ℕ → Store → Tac → Vars → Option (Turn Tac)
  fold_other tin s prev b h i out = some (kept (some out))
  fold_other tjmp s prev b h i out = some (kept (some out))
  fold_other tlabel s prev b h i out = some (kept (some out))
  fold_other tassign s prev b h i out = fold_assign s prev h i out
  fold_other tiff s prev b h i out = fold_iff s prev b h i
  fold_other tout s prev b h i out = fold_out s prev h i
  fold_other _ s prev b h i out = some (kept prev)

  -- the body of the loop over the instructions of the block `b`; `out` is `ins->out`
  unfoldable pub fold_ins : State → Option Vars → ℕ → Store → Tac → Vars → Option (Turn Tac)
  fold_ins s prev b h i out =
      if tac_is_binop i.op then fold_binop s prev h i out else fold_other i.op s prev b h i out

  -- the loop over the instructions, which ends at the first change; an array for each instruction
  unfoldable pub fold_bb :
      State → Option Vars → ℕ → Store → List Tac → List Vars → Option (Turn (List Tac))
  unfolding fold_ins
  fold_bb s prev b h [] vs = some (kept prev)
  fold_bb s prev b h (i ∷ is) [] = none
  fold_bb s prev b h (i ∷ is) (v ∷ vs) = fold_ins s prev b h i v >>= λ t. elim t [
    | kept prev' ↦ fold_bb s prev' b h is vs >>= λ t'. some (mapped (λ js. i ∷ js) t')
    | changed j s' h' ↦ some (changed (j ∷ is) s' h')
  ]

  -- the loop over the blocks
  unfoldable pub fold_blocks :
      State → Option Vars → Store → List ℕ → (ℕ → List Vars) → Option (State × Store × Bool)
  unfolding fold_bb
  fold_blocks s prev h [] outs = some (s, h, false)
  fold_blocks s prev h (b ∷ bs) outs = fold_bb s prev b h (h b).ins (outs b) >>= λ t. elim t [
    | kept prev' ↦ fold_blocks s prev' h bs outs
    | changed js s' h' ↦ some (s', store h' b (record (h' b) { ins = js }), true)
  ]

  unfoldable pub cp_fold : State → List ℕ → Store → (ℕ → List Vars) → Option (State × Compaction)
  unfolding fold_blocks
  cp_fold s blocks h outs = fold_blocks s none h blocks outs >>= λ r.
      bb_compact (record { blocks = blocks; heap = r.1; changed = r.2 }) >>= λ c. some (r.0, c)

  -- the loop of `const_prop` with as many rounds as the fuel; `symbols` are the symbols of the table
  unfoldable pub const_prop_loop :
      (State → List ℕ)
      → ℕ
      → State
      → List ℕ
      → Store
      → (ℕ → List Vars)
      → Option (State × List ℕ × Store)
  const_prop_loop symbols zero s blocks h outs = none
  const_prop_loop symbols (suc fuel) s blocks h outs =
      cp_propagate (deref s) (symbols s) blocks h outs >>= λ p. cp_fold s blocks p.0 p.1 >>= λ r.
      elim r.1.changed [
        | true ↦ const_prop_loop symbols fuel r.0 r.1.blocks r.1.heap p.1
        | false ↦ some (r.0, r.1.blocks, r.1.heap)
      ]
