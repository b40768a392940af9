-- ===== src/ConstProp/Known.antt =====
-- src/const_prop.c: what the arrays of `cp_propagate` say about the values of variables, along a block.
use mathlib.Core.Option.{some-injective}
use milac.ConstProp.Folded.{exec_op-binop}
use milac.ConstProp.Propagate.{
  nac, constant, CpVar, Vars, is_nac, is_constant, set_var, known_operand, out_binop, out_other,
  out_ins,
}
use milac.CopyProp.Replace.{writes}
use milac.Prelude.{
  ℕ, List, [], ◌∷◌, some, Bool, true, false, not, ◌&&◌, ◌||◌, ◌==◌, ◌>>=◌, if◌then◌else◌, ◌≡◌, refl,
  sym, ap, ◌∙◌, subst, arith, Bool-cases, >>=-eq-some, inl, inr, ==_iff, ==_refl,
}
use milac.SymTab.{Symbol}
use milac.Tac.Meaning.{
  Machine, is_const, value, binop_value, assign, exec_in, exec_op, owns_op, DistinctIds,
}
use milac.Tac.{Op, Tac, tac_is_binop, tnone, tiff, tjmp, tin, tout, tassign, tlabel}

-- the symbol that the array gives for a variable
abbrev pub known : CpVar → Bool
known x = is_constant x.c && not (x.s == 0)

-- The instruction writes a variable and leaves it known as it was.
abbrev pub stale_other : (ℕ → Symbol) → Op → Vars → Tac → Bool
stale_other deref tassign in_ i =
    not (is_constant (in_ (deref i.a1).id).c) && known (in_ (deref i.r).id)
stale_other deref _ in_ i = false

abbrev pub stale : (ℕ → Symbol) → Vars → Tac → Bool
stale deref in_ i =
    if tac_is_binop i.op
    then known (out_ins deref in_ i (deref i.r).id)
    else stale_other deref i.op in_ i

-- `own` are the symbols of the block, which no label is
module _ (deref : ℕ → Symbol) (own : ℕ → Bool) where
  -- where the array knows a symbol for a variable, it is a constant, and the variable has its value
  abbrev pub Describes : Vars → Machine → Type 0
  Describes v m =
      (p : ℕ)
      → own p ≡ true
      → known (v (deref p).id) ≡ true
      → (is_const (deref (v (deref p).id).s) ≡ true)
        × (value deref m.env p ≡ (deref (v (deref p).id).s).val)

  operand-value :
      (in_ : Vars) (m : Machine) (p : ℕ)
      → own p ≡ true
      → Describes in_ m
      → value deref m.env (known_operand deref in_ p) ≡ value deref m.env p
  unfolding value
  operand-value in_ m p mine d = elim (Bool-cases (known (in_ (deref p).id))) [
    | inl k ↦ let (c, v) = d p mine k in rw (k, c) (sym v)
    | inr k ↦ rw k refl
  ]

  pub known_exec :
      (op : Op) (in_ : Vars) (i : Tac) (m : Machine)
      → tac_is_binop op ≡ true
      → own i.a1 ≡ true
      → own i.a2 ≡ true
      → Describes in_ m
      → exec_op deref op
          (record i { a1 = known_operand deref in_ i.a1; a2 = known_operand deref in_ i.a2 })
          m
        ≡ exec_op deref op i m
  known_exec op in_ i m b o1 o2 d =
      let j = record i { a1 = known_operand deref in_ i.a1; a2 = known_operand deref in_ i.a2 } in
      exec_op-binop deref op j m b
      ∙ (ap (λ x. binop_value op x (value deref m.env j.a2) >>= λ v. some (assign m i.r v))
            (operand-value in_ m i.a1 o1 d)
          ∙ (ap (λ x. binop_value op (value deref m.env i.a1) x >>= λ v. some (assign m i.r v))
                (operand-value in_ m i.a2 o2 d)
              ∙ sym (exec_op-binop deref op i m b)))

  assign-Describes :
      (in_ out : Vars) (m : Machine) (r v : ℕ)
      → DistinctIds deref own
      → own r ≡ true
      → is_const (deref r) ≡ false
      → Describes in_ m
      → ((k : ℕ) → (k == (deref r).id) ≡ false → out k ≡ in_ k)
      → (known (out (deref r).id) ≡ true
          → (is_const (deref (out (deref r).id).s) ≡ true) × (v ≡ (deref (out (deref r).id).s).val))
      → Describes out (assign m r v)
  unfolding value assign
  assign-Describes in_ out m r v ids o var d else_ here p mine k =
      elim (Bool-cases ((deref p).id == (deref r).id)) [
        | inl e ↦
            let same : p ≡ r = ids p r mine o ((==_iff _ _).0 e) in
            let (c, w) = here (subst (λ q. known (out (deref q).id) ≡ true) same k) in
            subst
              (λ q.
                (is_const (deref (out (deref q).id).s) ≡ true)
                × (value deref (assign m r v).env q ≡ (deref (out (deref q).id).s).val))
              (sym same) (c, rw (var, ==_refl r) w)
        | inr e ↦
            let kept = else_ (deref p).id e in
            let apart : (p == r) ≡ false =
              ground (arith, λ (q : p ≡ r). ap (λ x. (deref x).id) q) in
            let (c, w) = d p mine (subst (λ x. known x ≡ true) kept k) in
            subst
              (λ x.
                (is_const (deref x.s) ≡ true)
                × (value deref (assign m r v).env p ≡ (deref x.s).val))
              (sym kept) (c, rw apart w)
      ]

  same-Describes :
      (in_ : Vars) (m m' : Machine) → m.env ≡ m'.env → Describes in_ m → Describes in_ m'
  same-Describes in_ m m' e d p mine k =
      subst
        (λ env.
          (is_const (deref (in_ (deref p).id).s) ≡ true)
          × (value deref env p ≡ (deref (in_ (deref p).id).s).val))
        e (d p mine k)

  -- an entry that `set_var` does not write
  set_else : (v : Vars) (r k : ℕ) (x : CpVar) → (k == r) ≡ false → set_var v r x k ≡ v k
  set_else v r k x e = rw e refl

  binop_else_at :
      (in_ : Vars) (r k : ℕ) (a b : Bool)
      → (k == r) ≡ false
      → (let out₁ = if a then set_var in_ r (record { c = constant; s = 0 }) else in_ in
            if b then set_var out₁ r (record (out₁ r) { c = nac }) else out₁)
          k
        ≡ in_ k
  binop_else_at in_ r k true true e = rw e refl
  binop_else_at in_ r k true false e = rw e refl
  binop_else_at in_ r k false true e = rw e refl
  binop_else_at in_ r k false false e = refl

  pub binop_else :
      (in_ : Vars) (i : Tac) (k : ℕ)
      → (k == (deref i.r).id) ≡ false
      → out_binop deref in_ i k ≡ in_ k
  binop_else in_ i k e =
      binop_else_at in_ (deref i.r).id k
        (is_constant (in_ (deref i.a1).id).c && is_constant (in_ (deref i.a2).id).c)
        (is_nac (in_ (deref i.a1).id).c || is_nac (in_ (deref i.a2).id).c) e

  pub binop-Describes :
      (op : Op) (in_ out : Vars) (i : Tac) (m m' : Machine)
      → DistinctIds deref own
      → own i.r ≡ true
      → is_const (deref i.r) ≡ false
      → tac_is_binop op ≡ true
      → Describes in_ m
      → ((k : ℕ) → (k == (deref i.r).id) ≡ false → out k ≡ in_ k)
      → known (out (deref i.r).id) ≡ false
      → exec_op deref op i m ≡ some m'
      → Describes out m'
  binop-Describes op in_ out i m m' ids mine var b d else_ fresh e =
      let (v, _, made) =
        >>=-eq-some (binop_value op (value deref m.env i.a1) (value deref m.env i.a2))
          (λ v. some (assign m i.r v)) (sym (exec_op-binop deref op i m b) ∙ e) in
      subst (Describes out) (some-injective _ _ made)
        (assign-Describes in_ out m i.r v ids mine var d else_ (λ k. cc))

  tin-Describes :
      (input : List ℕ) (in_ : Vars) (i : Tac) (m m' : Machine)
      → DistinctIds deref own
      → own i.r ≡ true
      → is_const (deref i.r) ≡ false
      → Describes in_ m
      → exec_in i.r m input ≡ some m'
      → Describes (out_other deref tin in_ i) m'
  unfolding exec_in
  tin-Describes [] in_ i m m' ids mine var d e = cc
  tin-Describes (v ∷ rest) in_ i m m' ids mine var d e =
      let out = out_other deref tin in_ i in
      let here = ==_refl (deref i.r).id in
      subst (Describes out) (some-injective _ _ e) (
        assign-Describes in_ out (record m { input = rest }) i.r v ids mine var d
          (λ k. set_else in_ (deref i.r).id k (record (in_ (deref i.r).id) { c = nac }))
          (λ k. absurd (cc (rw here at k))))

  tassign-Describes :
      (in_ : Vars) (i : Tac) (m : Machine)
      → DistinctIds deref own
      → own i.r ≡ true
      → is_const (deref i.r) ≡ false
      → Describes in_ m
      → own i.a1 ≡ true
      → stale_other deref tassign in_ i ≡ false
      → Describes (out_other deref tassign in_ i) (assign m i.r (value deref m.env i.a1))
  tassign-Describes in_ i m ids mine var d source fresh =
      elim (Bool-cases (is_constant (in_ (deref i.a1).id).c)) [
        | inl c ↦
            let here = ==_refl (deref i.r).id in
            rw c (
              assign-Describes in_ (set_var in_ (deref i.r).id (in_ (deref i.a1).id)) m i.r
                (value deref m.env i.a1) ids mine var d
                (λ k. set_else in_ (deref i.r).id k (in_ (deref i.a1).id))
                (λ k. rw here (d i.a1 source (rw here at k))))
        | inr c ↦
            let unknown : known (in_ (deref i.r).id) ≡ false = rw c at fresh in
            rw c (
              assign-Describes in_ in_ m i.r (value deref m.env i.a1) ids mine var d (λ k e. refl)
                (λ k. absurd (cc (sym k ∙ unknown))))
      ]

  pub other-Describes :
      (op : Op) (in_ : Vars) (i : Tac) (m m' : Machine)
      → DistinctIds deref own
      → (writes op ≡ true → is_const (deref i.r) ≡ false)
      → tac_is_binop op ≡ false
      → owns_op own op i ≡ true
      → Describes in_ m
      → stale_other deref op in_ i ≡ false
      → exec_op deref op i m ≡ some m'
      → Describes (out_other deref op in_ i) m'
  unfolding exec_op tac_is_binop
  other-Describes tnone in_ i m m' ids var b mine d fresh e =
      same-Describes in_ m m' (ap (λ x. x.env) (some-injective _ _ e)) d
  other-Describes tiff in_ i m m' ids var b mine d fresh e =
      same-Describes in_ m m' (ap (λ x. x.env) (some-injective _ _ e)) d
  other-Describes tjmp in_ i m m' ids var b mine d fresh e =
      same-Describes in_ m m' (ap (λ x. x.env) (some-injective _ _ e)) d
  other-Describes tlabel in_ i m m' ids var b mine d fresh e =
      same-Describes in_ m m' (ap (λ x. x.env) (some-injective _ _ e)) d
  other-Describes tout in_ i m m' ids var b mine d fresh e =
      same-Describes in_ m m' (ap (λ x. x.env) (some-injective _ _ e)) d
  other-Describes tin in_ i m m' ids var b mine d fresh e =
      tin-Describes m.input in_ i m m' ids mine (var refl) d e
  other-Describes tassign in_ i m m' ids var b mine d fresh e =
      subst (Describes (out_other deref tassign in_ i)) (some-injective _ _ e)
        (tassign-Describes in_ i m ids (ground arith) (var refl) d (ground arith) fresh)
  other-Describes _ in_ i m m' ids var b mine d fresh e = absurd (cc b)
