-- ===== src/ConstProp/Replaced.antt =====
-- src/const_prop.c: what an instruction does after `cp_fold` has changed it.
use mathlib.Core.Option.{some-injective}
use milac.Blocks.{Store}
use milac.ConstProp.Fold.{
  Turn, kept, changed, replaceable, flag, fold_binop, fold_assign, fold_iff, fold_out, fold_other,
  fold_ins,
}
use milac.ConstProp.Folded.{exec-binop_fold}
use milac.ConstProp.Known.{known, Describes}
use milac.ConstProp.Propagate.{Vars, is_constant}
use milac.ConstProp.{binop_fold}
use milac.ConstProp.Sound.{own_operands}
use milac.Optimize.Pool.{Pool}
use milac.Prelude.{
  ◌∷◌, ℕ, zero, suc, Option, none, some, Bool, true, false, ==_refl, ◌&&◌, ◌==◌, if◌then◌else◌, ◌≡◌,
  ◌≢◌, refl, sym, ap, ◌∙◌, subst, arith, Bool-cases, inl, inr, >>=-eq-some, signed_lt, is_neg,
}
use milac.Tac.Meaning.{Machine, value, assign, exec, exec_op, owns, owns_op}
use milac.Tac.{Op, Tac, tac_is_binop, tiff, tout, tassign}

-- Where the condition is `x` and not negative, the block that the jump at the end of `b` does not go to
-- is marked as unreachable, and nothing else is changed.
abbrev pub Untaken : ℕ → ℕ → Store → Store → Type 0
Untaken x b h h' =
    is_neg x ≡ false
    → let other = if x == 0 then (h b).next else (h b).jmp in
      ((h' other).unreachable ≡ true) × ((q : ℕ) → q ≢ other → h' q ≡ h q)

module _ (pool : Pool) where
  open pool use {State, deref, Known}

  -- the meaning of the instruction that a turn has changed
  abbrev meaning : Machine → Option (Turn pool Tac) → Option Machine
  meaning m none = none
  meaning m (some (kept prev)) = none
  meaning m (some (changed j s h)) = exec (deref s) j m

  -- No constant of the array is NULL.
  abbrev pub NoNull : Vars → Type 0
  NoNull v = (k : ℕ) → is_constant (v k).c ≡ true → (v k).s ≢ 0

  known-true : (v : Vars) (k : ℕ) → NoNull v → is_constant (v k).c ≡ true → known (v k) ≡ true
  known-true v k n c = ground (arith, n k c)

  -- the heap behind a turn that changes something
  abbrev heap_of : Store → Option (Turn pool Tac) → Store
  heap_of h none = h
  heap_of h (some (kept prev)) = h
  heap_of h (some (changed j s h')) = h'

  flag-at :
      (u : ℕ) (h h₁ : Store)
      → flag pool u h ≡ some h₁
      → ((h₁ u).unreachable ≡ true) × ((q : ℕ) → q ≢ u → h₁ q ≡ h q)
  flag-at zero h h₁ e = cc
  flag-at (suc u) h h₁ e =
      let own = ==_refl (suc u) in
      subst (λ (k : Store). ((k (suc u)).unreachable ≡ true) × ((q : ℕ) → q ≢ suc u → k q ≡ h q))
        (some-injective _ _ e)
        (rw own refl, λ q n. let other : (q == suc u) ≡ false = ground arith in rw other refl)

  untaken :
      (x next jmp : ℕ)
      → is_neg x ≡ false
      → (if signed_lt 0 x then jmp else next) ≡ (if x == 0 then next else jmp)
  unfolding signed_lt is_neg
  untaken x next jmp positive = ground arith

  flag-Untaken :
      (x b : ℕ) (h h₁ : Store)
      → flag pool (if signed_lt 0 x then (h b).jmp else (h b).next) h ≡ some h₁
      → (h' : Store) → h₁ ≡ h'
      → Untaken x b h h'
  flag-Untaken x b h h₁ e h' same positive =
      let here = flag-at (if signed_lt 0 x then (h b).jmp else (h b).next) h h₁ e in
      subst (λ u. ((h' u).unreachable ≡ true) × ((q : ℕ) → q ≢ u → h' q ≡ h q))
        (untaken x (h b).next (h b).jmp positive)
        (subst
          (λ (k : Store).
            let u = if signed_lt 0 x then (h b).jmp else (h b).next in
            ((k u).unreachable ≡ true) × ((q : ℕ) → q ≢ u → k q ≡ h q))
          same here)

  module _ (s : State) (own : ℕ → Bool) (v : Vars) (m : Machine) (d : Describes (deref s) own v m)
      (n : NoNull v) where
    constant-value :
        (p : ℕ)
        → own p ≡ true
        → is_constant (v (deref s p).id).c ≡ true
        → value (deref s) m.env (v (deref s p).id).s ≡ value (deref s) m.env p
    unfolding value
    constant-value p mine c =
        let (is, e) = d p mine (known-true v (deref s p).id n c) in rw is (sym e)

    replaceable-constant :
        (p : ℕ) → replaceable pool s v p ≡ true → is_constant (v (deref s p).id).c ≡ true
    replaceable-constant p r = ground arith

    assign-exec :
        (i j : Tac) (out : Vars) (h h' : Store) (s' : State)
        → own i.a1 ≡ true
        → i.op ≡ tassign
        → fold_assign pool s (some v) h i out ≡ some (changed j s' h')
        → exec (deref s') j m ≡ exec (deref s) i m
    unfolding exec exec_op
    assign-exec i j out h h' s' mine op e = elim (Bool-cases (replaceable pool s v i.a1)) [
      | inl r ↦
          let k = record i { a1 = (v (deref s i.a1).id).s } in
          sym (ap (meaning m) (rw r at e))
          ∙ subst (λ o. exec_op (deref s) o k m ≡ exec_op (deref s) o i m) (sym op)
              (ap (λ x. some (assign m i.r x))
                (constant-value i.a1 mine (replaceable-constant i.a1 r)))
      | inr r ↦ absurd (cc (rw r at e))
    ]

    out-exec :
        (i j : Tac) (h h' : Store) (s' : State)
        → own i.r ≡ true
        → i.op ≡ tout
        → fold_out pool s (some v) h i ≡ some (changed j s' h')
        → exec (deref s') j m ≡ exec (deref s) i m
    unfolding exec exec_op
    out-exec i j h h' s' mine op e = elim (Bool-cases (replaceable pool s v i.r)) [
      | inl r ↦
          let k = record i { r = (v (deref s i.r).id).s } in
          sym (ap (meaning m) (rw r at e))
          ∙ subst (λ o. exec_op (deref s) o k m ≡ exec_op (deref s) o i m) (sym op)
              (ap (λ x. some (record m { output = x ∷ m.output }))
                (constant-value i.r mine (replaceable-constant i.r r)))
      | inr r ↦ absurd (cc (rw r at e))
    ]

    iff-exec :
        (i j : Tac) (b : ℕ) (h h' : Store) (s' : State)
        → fold_iff pool s (some v) b h i ≡ some (changed j s' h')
        → exec (deref s') j m ≡ exec (deref s) i m
    iff-exec i j b h h' s' e =
        let x = v (deref s i.a1).id in
        elim (Bool-cases (is_constant x.c)) [
          | inl c ↦ elim (Bool-cases (x.s == 0)) [
            | inl z ↦ absurd (cc (rw (c, z) at e))
            | inr z ↦
                let (h₁, _, made) =
                  >>=-eq-some
                    (flag pool (if signed_lt 0 (deref s x.s).val then (h b).jmp else (h b).next) h)
                    (λ h₁. some (changed i s h₁)) (rw (c, z) at e) in
                sym (ap (meaning m) made)
          ]
          | inr c ↦ absurd (cc (rw c at e))
        ]

    iff-Untaken :
        (i j : Tac) (b : ℕ) (h h' : Store) (s' : State)
        → own i.a1 ≡ true
        → fold_iff pool s (some v) b h i ≡ some (changed j s' h')
        → Untaken (value (deref s) m.env i.a1) b h h'
    iff-Untaken i j b h h' s' mine e =
        let x = v (deref s i.a1).id in
        elim (Bool-cases (is_constant x.c)) [
          | inl c ↦ elim (Bool-cases (x.s == 0)) [
            | inl z ↦ absurd (cc (rw (c, z) at e))
            | inr z ↦
                let (h₁, flagged, made) =
                  >>=-eq-some
                    (flag pool (if signed_lt 0 (deref s x.s).val then (h b).jmp else (h b).next) h)
                    (λ h₁. some (changed i s h₁)) (rw (c, z) at e) in
                let val = (d i.a1 mine (known-true v (deref s i.a1).id n c)).1 in
                subst (λ y. Untaken y b h h') (sym val)
                  (flag-Untaken (deref s x.s).val b h h₁ flagged h' (ap (heap_of h₁) made))
          ]
          | inr c ↦ absurd (cc (rw c at e))
        ]

    binop-exec :
        (i j : Tac) (out : Vars) (h h' : Store) (s' : State)
        → tac_is_binop i.op ≡ true
        → owns own i ≡ true
        → is_constant (v (deref s i.a1).id).c ≡ true
        → is_constant (v (deref s i.a2).id).c ≡ true
        → Known s (v (deref s i.a1).id).s
        → fold_binop pool s (some v) h i out ≡ some (changed j s' h')
        → exec (deref s') j m ≡ exec (deref s) i m
    binop-exec i j out h h' s' op mine ca cb in_use e =
        let x = out (deref s i.r).id in
        elim (Bool-cases (is_constant x.c && (x.s == 0))) [
          | inl c ↦
              let (new, made, turn) =
                >>=-eq-some (binop_fold pool s (λ k. (v k).s) i)
                  (λ new. some (changed new.0 new.1 h)) (rw c at e) in
              let same =
                exec-binop_fold pool s (λ k. (v k).s) i m op in_use (n (deref s i.a1).id ca)
                  (n (deref s i.a2).id cb)
                  (d i.a1 (own_operands own i.op i op mine).0
                    (known-true v (deref s i.a1).id n ca)).1
                  (d i.a2 (own_operands own i.op i op mine).1
                    (known-true v (deref s i.a2).id n cb)).1 in
              sym (ap (meaning m) turn) ∙ (rw made at same)
          | inr c ↦ absurd (cc (rw c at e))
        ]

    other-exec :
        (op : Op) (i j : Tac) (b : ℕ) (out : Vars) (h h' : Store) (s' : State)
        → i.op ≡ op
        → owns_op own op i ≡ true
        → fold_other pool op s (some v) b h i out ≡ some (changed j s' h')
        → exec (deref s') j m ≡ exec (deref s) i m
    other-exec tassign i j b out h h' s' o mine e = assign-exec i j out h h' s' (ground arith) o e
    other-exec tiff i j b out h h' s' o mine e = iff-exec i j b h h' s' e
    other-exec tout i j b out h h' s' o mine e = out-exec i j h h' s' mine o e
    other-exec _ i j b out h h' s' o mine e = absurd (cc e)

    -- An instruction that `cp_fold` changes does what it did before, faults included, where the
    -- array of the instruction before describes the machine, has no NULL for a constant, and has
    -- constants in use for the operands of a binary operation. Where it is a condition whose value
    -- is not negative, the block that is marked as unreachable is the one that control does not go
    -- to.
    pub fold_ins-exec :
        (i j : Tac) (b : ℕ) (out : Vars) (h h' : Store) (s' : State)
        → owns own i ≡ true
        → (tac_is_binop i.op ≡ true
            → (is_constant (v (deref s i.a1).id).c ≡ true)
              × (is_constant (v (deref s i.a2).id).c ≡ true)
              × Known s (v (deref s i.a1).id).s)
        → fold_ins pool s (some v) b h i out ≡ some (changed j s' h')
        → (exec (deref s') j m ≡ exec (deref s) i m)
          × (i.op ≡ tiff → Untaken (value (deref s) m.env i.a1) b h h')
    unfolding fold_ins tac_is_binop
    fold_ins-exec i j b out h h' s' mine operands e = (
      elim (Bool-cases (tac_is_binop i.op)) [
        | inl op ↦
            let (ca, cb, in_use) = operands op in
            binop-exec i j out h h' s' op mine ca cb in_use (rw op at e)
        | inr op ↦ other-exec i.op i j b out h h' s' refl mine (rw op at e)
      ],
      λ iff. iff-Untaken i j b h h' s' (subst (λ o. owns_op own o i ≡ true) iff mine) (
          subst
            (λ o.
              (if tac_is_binop o
                then fold_binop pool s (some v) h i out
                else fold_other pool o s (some v) b h i out)
              ≡ some (changed j s' h'))
            iff e),
    )
