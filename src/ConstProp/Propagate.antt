-- ===== src/ConstProp/Propagate.antt =====
-- src/const_prop.c: `cp_propagate`. An array of `cp_var_t` is a function from the ids of symbols; `calloc`
-- and `realloc` succeed. The arrays `out` of the instructions of a block are a list beside them.
use milac.Blocks.{Store, store, walk}
use milac.Prelude.{
  ℕ, List, [], ◌∷◌, Option, none, some, Bool, true, false, not, ◌&&◌, ◌||◌, ◌==◌, ◌>>=◌,
  if◌then◌else◌, map,
}
use milac.SymTab.{Symbol}
use milac.Tac.Meaning.{is_const}
use milac.Tac.{Op, Tac, tac_is_binop, tin, tassign}

-- cp_var_state; `C` is a constant, `NAC` is none
pub data VarState : Type 0 where
  undef nac constant : VarState

-- cp_var_t
pub record CpVar : Type 0 where
  pub c : VarState
  pub s : ℕ

abbrev pub Vars : Type 0
Vars = ℕ → CpVar

-- what `memset` with 0 leaves
abbrev pub no_vars : Vars
no_vars k = record { c = undef; s = 0 }

abbrev pub is_nac : VarState → Bool
is_nac nac = true
is_nac _ = false

abbrev pub is_constant : VarState → Bool
is_constant constant = true
is_constant _ = false

abbrev pub is_undef : VarState → Bool
is_undef undef = true
is_undef _ = false

abbrev pub set_var : Vars → ℕ → CpVar → Vars
set_var v k x = λ j. if j == k then x else v j

-- the body of the loop over `k`, where `p` is what a predecessor has and `t` is `tmp_vars[k]`
unfoldable pub join : CpVar → CpVar → CpVar
join p t =
    let t₁ = if is_nac p.c && not (is_nac t.c) then record t { c = nac } else t in
    let t₂ =
      if is_constant p.c && (is_constant t₁.c && not (p.s == t₁.s))
      then record t₁ { c = nac }
      else t₁ in
    if is_constant p.c && is_undef t₂.c then record { c = constant; s = p.s } else t₂

-- the array `out` of the last instruction; a block without instructions is a fault
unfoldable pub bb_out : List Vars → Option Vars
bb_out [] = none
bb_out (v ∷ []) = some v
bb_out (v ∷ w ∷ vs) = bb_out (w ∷ vs)

-- the loop over the predecessors; `outs` has the arrays of the blocks
unfoldable pub join_all : (ℕ → List Vars) → List ℕ → Vars → Option Vars
unfolding join bb_out
join_all outs [] t = some t
join_all outs (p ∷ ps) t = bb_out (outs p) >>= λ v. join_all outs ps (λ k. join (v k) (t k))

module _ (deref : ℕ → Symbol) where
  -- `cp_init_vars` on the symbols of the table
  unfoldable pub cp_init_vars : List ℕ → Vars → Vars
  cp_init_vars [] t = t
  cp_init_vars (p ∷ ps) t =
      cp_init_vars ps
        (if is_const (deref p) then set_var t (deref p).id (record { c = constant; s = p }) else t)

  -- `p = in[p->id].s`, where that is a constant and not NULL
  abbrev pub known_operand : Vars → ℕ → ℕ
  known_operand in_ p =
      let x = in_ (deref p).id in if is_constant x.c && not (x.s == 0) then x.s else p

  -- the operands of a binary operation are replaced
  abbrev pub known_ins : Vars → Tac → Tac
  known_ins in_ i =
      if tac_is_binop i.op
      then record i { a1 = known_operand in_ i.a1; a2 = known_operand in_ i.a2 }
      else i

  -- `i` has its operands replaced
  abbrev pub out_binop : Vars → Tac → Vars
  out_binop in_ i =
      let x = (in_ (deref i.a1).id).c in
      let y = (in_ (deref i.a2).id).c in
      let r = (deref i.r).id in
      let out₁ =
        if is_constant x && is_constant y
        then set_var in_ r (record { c = constant; s = 0 })
        else in_ in
      if is_nac x || is_nac y then set_var out₁ r (record (out₁ r) { c = nac }) else out₁

  abbrev pub out_other : Op → Vars → Tac → Vars
  out_other tin in_ i = let r = (deref i.r).id in set_var in_ r (record (in_ r) { c = nac })
  out_other tassign in_ i =
      let x = in_ (deref i.a1).id in if is_constant x.c then set_var in_ (deref i.r).id x else in_
  out_other _ in_ i = in_

  -- the body of the loop over the instructions: `ins->out`, where `in_` is `in`
  unfoldable pub out_ins : Vars → Tac → Vars
  out_ins in_ i =
      if tac_is_binop i.op then out_binop in_ (known_ins in_ i) else out_other i.op in_ i

  -- the loop over the instructions: they, and their arrays `out`
  unfoldable pub cp_bb : Vars → List Tac → List Tac × List Vars
  unfolding out_ins
  cp_bb in_ [] = ([], [])
  cp_bb in_ (i ∷ is) =
      let out = out_ins in_ i in let (js, vs) = cp_bb out is in (known_ins in_ i ∷ js, out ∷ vs)

  -- the loop over the blocks, which does not clear `tmp_vars`, here `t`
  unfoldable pub cp_blocks :
      List ℕ → Vars → Store → (ℕ → List Vars) → Option (Store × (ℕ → List Vars))
  unfolding cp_bb join_all walk
  cp_blocks [] t h outs = some (h, outs)
  cp_blocks (b ∷ bs) t h outs = elim (h b).ins [
    | [] ↦ none
    | i ∷ is ↦ join_all outs (walk (h b).pred) t >>= λ t'.
        let (js, vs) = cp_bb t' (i ∷ is) in
        cp_blocks bs t' (store h b (record (h b) { ins = js })) (λ q. if q == b then vs else outs q)
  ]

  -- the first loop: every `out` is cleared
  unfoldable pub clear_outs : List ℕ → Store → (ℕ → List Vars) → (ℕ → List Vars)
  clear_outs [] h outs = outs
  clear_outs (b ∷ bs) h outs =
      clear_outs bs h (λ q. if q == b then map (λ i. no_vars) (h b).ins else outs q)

  -- `symbols` are the symbols of the table, in the order of `st_iterate`.
  unfoldable pub cp_propagate :
      List ℕ → List ℕ → Store → (ℕ → List Vars) → Option (Store × (ℕ → List Vars))
  unfolding cp_blocks clear_outs cp_init_vars
  cp_propagate symbols blocks h outs =
      cp_blocks blocks (cp_init_vars symbols no_vars) h (clear_outs blocks h outs)
