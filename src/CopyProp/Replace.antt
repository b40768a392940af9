-- ===== src/CopyProp/Replace.antt =====
-- `cpp_replace` of src/copy_prop.c: what it replaces has the same value, as long as the source of the
-- copy is not written.
use mathlib.Core.Option.{some-injective}
use milac.CopyProp.{renamed, stops, replace_ins, cpp_replace}
use milac.Prelude.{
  ◌>>=◌, ℕ, List, [], ◌∷◌, ◌≡◌, ◌≢◌, refl, ap, ◌∙◌, Option, none, some, Bool, true, false, arith,
  subst, Bool-cases, inl, inr, ◌⊎◌,
}
use milac.SymTab.{Symbol}
use milac.Tac.Meaning.{Machine, is_const, value, binop_value, assign, exec_in, exec_op, exec, run}
use milac.Tac.{Op, Tac, tac_is_binop, tnone, tiff, tjmp, tin, tout, tassign, tlabel}

abbrev pub writes : Op → Bool
writes tnone = false
writes tiff = false
writes tjmp = false
writes tlabel = false
writes tout = false
writes _ = true

-- No instruction writes `a` before the one at which the replacement of `r` stops.
abbrev pub KeepsSource : ℕ → ℕ → List Tac → Type 0
KeepsSource r a [] = Unit
KeepsSource r a (i ∷ is) =
    (stops r i ≡ true) ⊎ ((writes i.op ≡ true → i.r ≢ a) × KeepsSource r a is)

module _ (deref : ℕ → Symbol) (r a : ℕ) where
  abbrev pub SameValue : Machine → Type 0
  SameValue m = value deref m.env r ≡ value deref m.env a

  value-renamed :
      (m : Machine) (p : ℕ) → SameValue m → value deref m.env (renamed r a p) ≡ value deref m.env p
  value-renamed m p h = ground (arith, λ (e : p ≡ r). ap (value deref m.env) e)

  replaced_op :
      (op : Op) (i : Tac) (m : Machine)
      → SameValue m
      → exec deref (replace_ins r a (record i { op = op })) m ≡ exec deref (record i { op = op }) m
  unfolding exec exec_op tac_is_binop
  replaced_op tnone i m h = refl
  replaced_op tjmp i m h = refl
  replaced_op tlabel i m h = refl
  replaced_op tin i m h = refl
  replaced_op tiff i m h = refl
  replaced_op tassign i m h = refl
  replaced_op tout i m h = rw (value-renamed m i.r h) refl
  replaced_op _ i m h = rw (value-renamed m i.a1 h, value-renamed m i.a2 h) refl

  assign-SameValue :
      (m : Machine) (p v : ℕ) → p ≢ r → p ≢ a → SameValue m → SameValue (assign m p v)
  unfolding value assign
  assign-SameValue m p v n k h = ground (arith, h)

  bind-SameValue :
      (o : Option ℕ) (m : Machine) (p : ℕ) {m' : Machine}
      → p ≢ r
      → p ≢ a
      → SameValue m
      → (o >>= λ v. some (assign m p v)) ≡ some m'
      → SameValue m'
  bind-SameValue none m p n k h e = absurd (cc e)
  bind-SameValue (some v) m p n k h e =
      subst SameValue (some-injective _ _ e) (assign-SameValue m p v n k h)

  in-SameValue :
      (m : Machine) (p : ℕ) (l : List ℕ) {m' : Machine}
      → p ≢ r
      → p ≢ a
      → SameValue m
      → exec_in p m l ≡ some m'
      → SameValue m'
  unfolding exec_in
  in-SameValue m p [] n k h e = absurd (cc e)
  in-SameValue m p (v ∷ l) n k h e =
      subst SameValue (some-injective _ _ e) (assign-SameValue (record m { input = l }) p v n k h)

  exec_op-SameValue :
      (op : Op) (i : Tac) (m : Machine) {m' : Machine}
      → stops r (record i { op = op }) ≡ false
      → (writes op ≡ true → i.r ≢ a)
      → SameValue m
      → exec deref (record i { op = op }) m ≡ some m'
      → SameValue m'
  unfolding exec exec_op tac_is_binop
  exec_op-SameValue tnone i m s w h e = subst SameValue (some-injective _ _ e) h
  exec_op-SameValue tjmp i m s w h e = subst SameValue (some-injective _ _ e) h
  exec_op-SameValue tlabel i m s w h e = subst SameValue (some-injective _ _ e) h
  exec_op-SameValue tiff i m s w h e = subst SameValue (some-injective _ _ e) h
  exec_op-SameValue tout i m s w h e = subst SameValue (some-injective _ _ e) h
  exec_op-SameValue tin i m s w h e = in-SameValue m i.r m.input (ground arith) (w refl) h e
  exec_op-SameValue tassign i m s w h e =
      subst SameValue (some-injective _ _ e) (assign-SameValue m i.r _ (ground arith) (w refl) h)
  exec_op-SameValue op i m s w h e =
      bind-SameValue (binop_value op (value deref m.env i.a1) (value deref m.env i.a2)) m i.r
        (ground arith) (w refl) h e

  -- The instructions behind a copy do the same after `cpp_replace`, where the target of the copy has
  -- the value of its source and no instruction writes the source before the replacement stops.
  pub run-cpp_replace :
      (is : List Tac) (m : Machine)
      → SameValue m
      → KeepsSource r a is
      → run deref (cpp_replace r a is) m ≡ run deref is m
  unfolding run cpp_replace
  run-cpp_replace [] m h k = refl
  run-cpp_replace (i ∷ is) m h (inl s) = rw s refl
  run-cpp_replace (i ∷ is) m h (inr (w, k)) = elim (Bool-cases (stops r i)) [
    | inl s ↦ rw s refl
    | inr s ↦ rw s (
        ap (λ o. o >>= run deref (cpp_replace r a is)) (replaced_op i.op i m h)
        ∙ go_on (exec deref i m)
            (λ m' e. run-cpp_replace is m' (exec_op-SameValue i.op i m s w h e) k))
  ]
    where
      go_on :
          (o : Option Machine)
          → ((m' : Machine) → o ≡ some m' → run deref (cpp_replace r a is) m' ≡ run deref is m')
          → (o >>= run deref (cpp_replace r a is)) ≡ (o >>= run deref is)
      go_on none h = refl
      go_on (some m') h = h m' refl

  -- `cpp_replace` does not stop where the source of the copy is written: behind `r = a`, the code
  -- `a = c; write r` is made to write the new value of `a`, which is wrong where `c` has another value.
  pub cpp_replace_wrong :
      (c : ℕ) (first second : Tac) (m : Machine)
      → first.op ≡ tassign
      → first.r ≡ a
      → first.a1 ≡ c
      → second.op ≡ tout
      → second.r ≡ r
      → r ≢ a
      → is_const (deref r) ≡ false
      → is_const (deref a) ≡ false
      → SameValue m
      → value deref m.env c ≢ value deref m.env r
      → run deref (cpp_replace r a (first ∷ second ∷ [])) m ≢ run deref (first ∷ second ∷ []) m
  unfolding run cpp_replace exec exec_op assign value tac_is_binop
  cpp_replace_wrong c first second m f fr fa s sr n vr va h d e =
      d (ground (arith, f, fr, fa, s, sr, n, vr, va, e))
