-- ===== src/RegAlloc/Covers.antt =====
-- src/regalloc.c: what an instruction does to the interval of a variable that it reads or writes.
use mathlib.Core.Option.{some-injective}
use milac.Prelude.{
  ℕ, ◌+◌, ◌<◌, some, Bool, true, false, not, ◌&&◌, ◌||◌, ◌==◌, ◌>>=◌, if◌then◌else◌, ◌≡◌, refl, sym,
  ap, ◌∙◌, subst, arith, word_mod, List, Bool-cases, inl, inr, >>=-eq-some, ==_iff,
}
use milac.RegAlloc.Growth.{Grown, Bounded, Met, Grown-Bounded, Met-refl, Met-le, Met-trans}
use milac.RegAlloc.Intervals.{has_aux, put, ended, use_at, def_at, interval_other, interval_ins}
use milac.RegAlloc.{Interval, Store}
use milac.SymTab.{Symbol}
use milac.Tac.Meaning.{is_const}
use milac.Tac.{Op, Tac, tac_is_binop, tiff, tin, tout, tassign}

put_at :
    (iv : Store) (p q : ℕ) (f : Interval → Interval)
    → put iv p (f (iv p)) q ≡ (if q == p then f (iv q) else iv q)
put_at iv p q f = elim (Bool-cases (q == p)) [
  | inl e ↦ rw e (ap (λ r. f (iv r)) (sym ((==_iff q p).0 e)))
  | inr e ↦ rw e refl
]

module _ (deref : ℕ → Symbol) where
  -- the operand `p` is the variable `q`
  abbrev pub reads_var : ℕ → ℕ → Bool
  reads_var p q = not (is_const (deref p)) && (q == p)

  -- what the instruction reads and writes, as `intervals` takes it
  abbrev pub reads_other : Op → Tac → ℕ → Bool
  reads_other tout i q = reads_var i.r q
  reads_other tiff i q = reads_var i.a1 q
  reads_other tassign i q = reads_var i.a1 q || false
  reads_other _ i q = false

  abbrev pub writes_other : Op → Tac → ℕ → Bool
  writes_other tin i q = q == i.r
  writes_other tassign i q = q == i.r
  writes_other _ i q = false

  abbrev pub reads_at : Tac → ℕ → Bool
  reads_at i q =
      if tac_is_binop i.op
      then reads_var i.a1 q || (reads_var i.a2 q || false)
      else reads_other i.op i q

  abbrev pub writes_at : Tac → ℕ → Bool
  writes_at i q = if tac_is_binop i.op then q == i.r else writes_other i.op i q

module _ (deref : ℕ → Symbol) (symbols : List ℕ) (c : ℕ) where
  -- an interval behind an operand, where `b` says that it is the operand's
  abbrev read_if : Bool → Interval → Interval
  read_if b x = if b then ended deref c x else x

  abbrev write_if : Bool → Interval → Interval
  write_if b x = if b then ended deref c (if x.start == 0 then record x { start = c } else x) else x

  read_if-Grown :
      (n : ℕ) (b : Bool) (x : Interval)
      → Bounded c n x
      → n + 1 < word_mod
      → Grown c 1 x (read_if b x)
  read_if-Grown n true x bound small = ground arith
  read_if-Grown n false x bound small = ground arith

  write_if-Grown :
      (n : ℕ) (b : Bool) (x : Interval)
      → Bounded c n x
      → n + 1 < word_mod
      → Grown c 1 x (write_if b x)
  write_if-Grown n true x bound small = ground arith
  write_if-Grown n false x bound small = ground arith

  use_at-at :
      (p q : ℕ) (iv iv' : Store)
      → use_at deref symbols c p iv ≡ some iv'
      → iv' q ≡ read_if (not (is_const (deref p)) && (q == p)) (iv q)
  unfolding use_at
  use_at-at p q iv iv' e = elim (Bool-cases (is_const (deref p))) [
    | inl k ↦ rw k (sym (ap (λ f. f q) (some-injective _ _ (rw k at e))))
    | inr k ↦ elim (Bool-cases (has_aux deref symbols p)) [
      | inl v ↦
          let made = some-injective _ _ (rw (k, v) at e) in
          rw k (sym (ap (λ f. f q) made) ∙ put_at iv p q (ended deref c))
      | inr v ↦ absurd (cc (rw (k, v) at e))
    ]
  ]

  def_at-at :
      (p q : ℕ) (iv iv' : Store)
      → def_at deref symbols c p iv ≡ some iv'
      → iv' q ≡ write_if (q == p) (iv q)
  unfolding def_at
  def_at-at p q iv iv' e = elim (Bool-cases (has_aux deref symbols p)) [
    | inl v ↦
        let made = some-injective _ _ (rw v at e) in
        sym (ap (λ f. f q) made)
        ∙ put_at iv p q (λ x. ended deref c (if x.start == 0 then record x { start = c } else x))
    | inr v ↦ absurd (cc (rw v at e))
  ]

  read_if-Met :
      (n : ℕ) (b : Bool) (x : Interval)
      → Bounded c n x
      → n + 1 < word_mod
      → Met c 1 b false x (read_if b x)
  read_if-Met n true x bound small = record {
    grown = read_if-Grown n true x bound small;
    hit = λ h. ground arith;
    begun = λ h. cc;
  }
  read_if-Met n false x bound small = record {
    grown = read_if-Grown n false x bound small;
    hit = λ h. cc;
    begun = λ h. cc;
  }

  write_if-Met :
      (n : ℕ) (b : Bool) (x : Interval)
      → 0 < c
      → Bounded c n x
      → n + 1 < word_mod
      → Met c 1 false b x (write_if b x)
  write_if-Met n true x pos bound small = record {
    grown = write_if-Grown n true x bound small;
    hit = λ h. ground arith;
    begun = λ h. ground arith;
  }
  write_if-Met n false x pos bound small = record {
    grown = write_if-Grown n false x bound small;
    hit = λ h. cc;
    begun = λ h. cc;
  }

  use_at-Met :
      (n p q : ℕ) (iv iv' : Store)
      → n + 1 < word_mod
      → Bounded c n (iv q)
      → use_at deref symbols c p iv ≡ some iv'
      → Met c 1 (reads_var deref p q) false (iv q) (iv' q)
  use_at-Met n p q iv iv' small b e =
      subst (Met c 1 (reads_var deref p q) false (iv q)) (sym (use_at-at p q iv iv' e))
        (read_if-Met n (reads_var deref p q) (iv q) b small)

  def_at-Met :
      (n p q : ℕ) (iv iv' : Store)
      → 0 < c
      → n + 1 < word_mod
      → Bounded c n (iv q)
      → def_at deref symbols c p iv ≡ some iv'
      → Met c 1 false (q == p) (iv q) (iv' q)
  def_at-Met n p q iv iv' pos small b e =
      subst (Met c 1 false (q == p) (iv q)) (sym (def_at-at p q iv iv' e))
        (write_if-Met n (q == p) (iv q) pos b small)

  assign-Met :
      (n p r q : ℕ) (iv iv' : Store)
      → 0 < c
      → n + 2 < word_mod
      → Bounded c n (iv q)
      → (use_at deref symbols c p iv >>= def_at deref symbols c r) ≡ some iv'
      → Met c 2 (reads_var deref p q || false) (q == r) (iv q) (iv' q)
  assign-Met n p r q iv iv' pos small b e =
      let (iv₁, used, rest) =
        >>=-eq-some (use_at deref symbols c p iv) (def_at deref symbols c r) e in
      let first = use_at-Met n p q iv iv₁ (omega arith) b used in
      let b₁ = Grown-Bounded c n 1 (iv q) (iv₁ q) b first.grown in
      Met-trans c 1 1 (reads_var deref p q) false false (q == r) (iv q) (iv₁ q) (iv' q) first
        (def_at-Met (n + 1) r q iv₁ iv' pos (omega arith) b₁ rest)

  other-Met :
      (op : Op) (n q : ℕ) (i : Tac) (iv iv' : Store)
      → 0 < c
      → n + 3 < word_mod
      → Bounded c n (iv q)
      → interval_other deref symbols op c i iv ≡ some iv'
      → Met c 3 (reads_other deref op i q) (writes_other deref op i q) (iv q) (iv' q)
  other-Met tin n q i iv iv' pos small b e =
      Met-le c 1 3 _ _ _ _ (omega arith) (def_at-Met n i.r q iv iv' pos (omega arith) b e)
  other-Met tout n q i iv iv' pos small b e =
      Met-le c 1 3 _ _ _ _ (omega arith) (use_at-Met n i.r q iv iv' (omega arith) b e)
  other-Met tiff n q i iv iv' pos small b e =
      Met-le c 1 3 _ _ _ _ (omega arith) (use_at-Met n i.a1 q iv iv' (omega arith) b e)
  other-Met tassign n q i iv iv' pos small b e =
      Met-le c 2 3 _ _ _ _ (omega arith) (assign-Met n i.a1 i.r q iv iv' pos (omega arith) b e)
  other-Met _ n q i iv iv' pos small b e =
      subst (λ f. Met c 3 false false (iv q) (f q)) (some-injective _ _ e)
        (Met-le c 0 3 false false (iv q) (iv q) (omega arith) (Met-refl c n (iv q) b))

  pub interval_ins-Met :
      (n q : ℕ) (i : Tac) (iv iv' : Store)
      → 0 < c
      → n + 3 < word_mod
      → Bounded c n (iv q)
      → interval_ins deref symbols c i iv ≡ some iv'
      → Met c 3 (reads_at deref i q) (writes_at deref i q) (iv q) (iv' q)
  unfolding interval_ins
  interval_ins-Met n q i iv iv' pos small b e = elim (Bool-cases (tac_is_binop i.op)) [
    | inl op ↦
        let (iv₁, used, rest) =
          >>=-eq-some (use_at deref symbols c i.a1 iv)
            (λ iv₁. use_at deref symbols c i.a2 iv₁ >>= def_at deref symbols c i.r) (rw op at e) in
        let first = use_at-Met n i.a1 q iv iv₁ (omega arith) b used in
        let b₁ = Grown-Bounded c n 1 (iv q) (iv₁ q) b first.grown in
        rw op (
          Met-trans c 1 2 (reads_var deref i.a1 q) (reads_var deref i.a2 q || false) false
            (q == i.r) (iv q) (iv₁ q) (iv' q) first
            (assign-Met (n + 1) i.a2 i.r q iv₁ iv' pos (omega arith) b₁ rest))
    | inr op ↦ rw op (other-Met i.op n q i iv iv' pos small b (rw op at e))
  ]
