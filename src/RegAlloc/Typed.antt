-- ===== src/RegAlloc/Typed.antt =====
-- src/regalloc.c: `intervals` does not fault on code whose operands are constants and variables of the table.
use milac.Prelude.{
  ℕ, ◌+◌, ◌%◌, List, [], ◌∷◌, some, Bool, true, ◌&&◌, ◌||◌, ◌==◌, ◌>>=◌, ◌≡◌, inl, inr, refl, arith,
  word_mod, Bool-cases, if◌then◌else◌,
}
use milac.RegAlloc.Intervals.{
  has_aux, put, ended, use_at, def_at, interval_other, interval_ins, intervals,
}
use milac.RegAlloc.{Store}
use milac.SymTab.{Symbol}
use milac.Tac.Meaning.{is_const}
use milac.Tac.Words.{All}
use milac.Tac.{Op, Tac, tac_is_binop, tin, tout, tiff, tassign}

module _ (deref : ℕ → Symbol) (symbols : List ℕ) where
  abbrev pub is_operand : ℕ → Bool
  is_operand p = is_const (deref p) || has_aux deref symbols p

  abbrev pub typed_other : Op → Tac → Bool
  typed_other tin i = has_aux deref symbols i.r
  typed_other tout i = is_operand i.r
  typed_other tiff i = is_operand i.a1
  typed_other tassign i = is_operand i.a1 && has_aux deref symbols i.r
  typed_other _ i = true

  -- The operands are constants or variables of the table, and the result is such a variable.
  abbrev pub typed : Tac → Bool
  typed i =
      if tac_is_binop i.op
      then is_operand i.a1 && (is_operand i.a2 && has_aux deref symbols i.r)
      else typed_other i.op i

  use_some :
      (c p : ℕ) (iv : Store)
      → is_operand p ≡ true
      → (iv' : Store) × (use_at deref symbols c p iv ≡ some iv')
  unfolding use_at
  use_some c p iv h = elim (Bool-cases (is_const (deref p))) [
    | inl k ↦ (iv, rw k refl)
    | inr k ↦
        let v : has_aux deref symbols p ≡ true = rw k at h in
        (put iv p (ended deref c (iv p)), rw (k, v) refl)
  ]

  def_some :
      (c p : ℕ) (iv : Store)
      → has_aux deref symbols p ≡ true
      → (iv' : Store) × (def_at deref symbols c p iv ≡ some iv')
  unfolding def_at
  def_some c p iv v = (
    put iv p (ended deref c (if (iv p).start == 0 then record (iv p) { start = c } else iv p)),
    rw v refl,
  )

  assign_some :
      (c p r : ℕ) (iv : Store)
      → is_operand p && has_aux deref symbols r ≡ true
      → (iv' : Store) × ((use_at deref symbols c p iv >>= def_at deref symbols c r) ≡ some iv')
  assign_some c p r iv h =
      let (iv₁, e) = use_some c p iv (ground arith) in
      let (iv', e') = def_some c r iv₁ (ground arith) in (iv', rw e e')

  other_some :
      (op : Op) (c : ℕ) (i : Tac) (iv : Store)
      → typed_other op i ≡ true
      → (iv' : Store) × (interval_other deref symbols op c i iv ≡ some iv')
  other_some tin c i iv h = def_some c i.r iv h
  other_some tout c i iv h = use_some c i.r iv h
  other_some tiff c i iv h = use_some c i.a1 iv h
  other_some tassign c i iv h = assign_some c i.a1 i.r iv h
  other_some _ c i iv h = (iv, refl)

  ins_some :
      (c : ℕ) (i : Tac) (iv : Store)
      → typed i ≡ true
      → (iv' : Store) × (interval_ins deref symbols c i iv ≡ some iv')
  unfolding interval_ins
  ins_some c i iv h = elim (Bool-cases (tac_is_binop i.op)) [
    | inl op ↦
        let h' : is_operand i.a1 && (is_operand i.a2 && has_aux deref symbols i.r) ≡ true =
          rw op at h in
        let (iv₁, e) = use_some c i.a1 iv (ground arith) in
        let (iv', e') = assign_some c i.a2 i.r iv₁ (ground arith) in (iv', rw (op, e) e')
    | inr op ↦ let (iv', e) = other_some i.op c i iv (rw op at h) in (iv', rw op e)
  ]

  pub intervals-some :
      (is : List Tac) (c : ℕ) (iv : Store)
      → All (λ i. typed i ≡ true) is
      → (iv' : Store) × (intervals deref symbols c is iv ≡ some iv')
  unfolding intervals
  intervals-some [] c iv h = (iv, refl)
  intervals-some (i ∷ is) c iv (h, hs) =
      let c' = (c + 1) % word_mod in
      let (iv₁, e) = ins_some c' i iv h in
      let (iv', e') = intervals-some is c' iv₁ hs in (iv', rw e e')
