-- ===== src/Code/Bounds.antt =====
-- src/code.c: the locations of what is emitted.
use milac.Code.{
  Inop, TminsType, ro, rm, rc, Tmins, Emitter, place, emit_comment, emit_ro, emit_rm, emit_skip,
  emit_rm_abs,
}
use milac.Prelude.{
  ◌∙◌, ℕ, zero, suc, ◌+◌, ◌≤◌, ◌<◌, ◌≡◌, ◌≢◌, ◌⊎◌, refl, sym, ap, inl, inr, if_both, List, [], ◌∷◌,
  ◌++◌, some, if◌then◌else◌, Bytes, length, get_elem?, get_elem?-lt, add32, signed_lt, arith,
}

-- the calls that the code generator makes between backups
pub data Emit : Type 0 where
  comment : Bytes → Emit
  register_only register_memory : Inop → ℕ → ℕ → ℕ → Bytes → Emit
  absolute : Inop → ℕ → ℕ → Bytes → Emit
  skip : ℕ → Emit

unfoldable pub emit : Emit → Emitter → Emitter
unfolding emit_comment emit_ro emit_rm emit_rm_abs emit_skip
emit (comment c) e = emit_comment c e
emit (register_only op r s t c) e = emit_ro op r s t c e
emit (register_memory op r d s c) e = emit_rm op r d s c e
emit (absolute op r a c) e = emit_rm_abs op r a c e
emit (skip n) e = (emit_skip n e).1

unfoldable pub emit_all : List Emit → Emitter → Emitter
unfolding emit
emit_all [] e = e
emit_all (x ∷ xs) e = emit_all xs (emit x e)

-- how many locations a call takes
abbrev pub size : Emit → ℕ
size (comment c) = 0
size (register_only op r s t c) = 1
size (register_memory op r d s c) = 1
size (absolute op r a c) = 1
size (skip n) = n

abbrev pub total : List Emit → ℕ
total [] = 0
total (x ∷ xs) = size x + total xs

-- The location is the highest; instructions stand below it, each below those that follow it.
pub record Laid (e : Emitter) : Type 0 where
  pub high : e.high_emit_loc ≡ e.emit_loc
  pub below :
      (i : ℕ) (t : Tmins) → get_elem? e.tm_code i ≡ some t → t.type ≢ rc → t.line < e.emit_loc
  pub ordered :
      (i j : ℕ) (t u : Tmins)
      → i < j
      → get_elem? e.tm_code i ≡ some t
      → get_elem? e.tm_code j ≡ some u
      → t.type ≢ rc
      → u.type ≢ rc
      → t.line < u.line

snoc-cases :
    (xs : List Tmins) (x y : Tmins) (i : ℕ)
    → get_elem? (xs ++ (x ∷ [])) i ≡ some y
    → (get_elem? xs i ≡ some y) ⊎ ((i ≡ length xs) × (x ≡ y))
snoc-cases [] x y zero e = inr (refl, cc e)
snoc-cases [] x y (suc i) e = cc
snoc-cases (z ∷ xs) x y zero e = inl e
snoc-cases (z ∷ xs) x y (suc i) e = elim (snoc-cases xs x y i e) [
  | inl before ↦ inl before
  | inr (at, last) ↦ inr (ap suc at, last)
]

module _ (e e' : Emitter) (t : Tmins) (laid : Laid e) (code : e'.tm_code ≡ e.tm_code ++ (t ∷ []))
    (line : t.line ≡ e.emit_loc) (high : e'.high_emit_loc ≡ e'.emit_loc)
    (more : t.type ≢ rc → e.emit_loc < e'.emit_loc) (le : e.emit_loc ≤ e'.emit_loc) where
  -- an instruction of the new code is of the old, or the new one
  new-cases :
      (i : ℕ) (u : Tmins)
      → get_elem? e'.tm_code i ≡ some u
      → (get_elem? e.tm_code i ≡ some u) ⊎ ((i ≡ length e.tm_code) × (t ≡ u))
  new-cases i u h = snoc-cases e.tm_code t u i (ap (λ z. get_elem? z i) (sym code) ∙ h)

  pushed_below :
      (i : ℕ) (u : Tmins) → get_elem? e'.tm_code i ≡ some u → u.type ≢ rc → u.line < e'.emit_loc
  pushed_below i u h n = elim (new-cases i u h) [
    | inl before ↦ omega (arith, laid.below i u before n)
    | inr (_, last) ↦
        let same : t.line ≡ u.line = ap (λ z. z.line) last in
        omega (arith, more (λ c. n (ap (λ z. z.type) (sym last) ∙ c)))
  ]

  pushed_ordered :
      (i j : ℕ) (u w : Tmins)
      → i < j
      → get_elem? e'.tm_code i ≡ some u
      → get_elem? e'.tm_code j ≡ some w
      → u.type ≢ rc
      → w.type ≢ rc
      → u.line < w.line
  pushed_ordered i j u w lt h k n m = elim (new-cases j w k) [
    | inl later ↦ elim (new-cases i u h) [
      | inl before ↦ laid.ordered i j u w lt before later n m
      | inr (at, _) ↦ absurd (omega (arith, get_elem?-lt e.tm_code j later))
    ]
    | inr (end, last) ↦ elim (new-cases i u h) [
      | inl before ↦
          let same : t.line ≡ w.line = ap (λ z. z.line) last in
          omega (arith, laid.below i u before n)
      | inr (at, _) ↦ absurd (omega arith)
    ]
  ]

  -- after an instruction at the current location is pushed and the location moves on
  pushed-Laid : Laid e'
  pushed-Laid = record { high = high; below = pushed_below; ordered = pushed_ordered }

raised :
    (loc step : ℕ)
    → loc + step < 2147483648
    → let next = add32 loc step in
      (next ≡ loc + step) × ((if signed_lt loc next then next else loc) ≡ next)
unfolding add32 signed_lt
raised loc step fits = (omega arith, ground arith)

module _ (e : Emitter) (laid : Laid e) where
  place-Laid :
      (type : TminsType) (op : Inop) (r s t : ℕ) (c : Bytes)
      → e.emit_loc + 1 < 2147483648
      → Laid (place type op r s t c e) × ((place type op r s t c e).emit_loc ≡ e.emit_loc + 1)
  place-Laid type op r s t c fits =
      let (next, high) = raised e.emit_loc 1 fits in
      (pushed-Laid e _ _ laid refl refl (rw laid.high high) (λ n. omega arith) (omega arith), next)

  emit-Laid :
      (x : Emit)
      → e.emit_loc + size x < 2147483648
      → Laid (emit x e) × ((emit x e).emit_loc ≡ e.emit_loc + size x)
  unfolding emit emit_comment emit_ro emit_rm emit_rm_abs emit_skip
  emit-Laid (comment c) fits =
      if_both {A = Emitter} (λ e'. Laid e' × (e'.emit_loc ≡ e.emit_loc + 0)) e.trace_code
        (
          pushed-Laid e _ _ laid refl refl laid.high (λ n. absurd (n refl)) (omega arith),
          omega arith,
        )
        (laid, omega arith)
  emit-Laid (register_only op r s t c) fits = place-Laid ro op r s t c fits
  emit-Laid (register_memory op r d s c) fits = place-Laid rm op r d s c fits
  emit-Laid (absolute op r a c) fits = place-Laid rm op r _ _ c fits
  emit-Laid (skip n) fits =
      let (next, high) = raised e.emit_loc n fits in
      (
        record {
          high = rw laid.high high;
          below = λ i t h m. omega (arith, laid.below i t h m);
          ordered = laid.ordered;
        },
        next,
      )

-- Any sequence of emissions and skips that starts where the location is the highest and takes fewer
-- than 2 ^ 31 locations keeps it the highest, moves it by the locations that the calls take, and leaves
-- each instruction, comments apart, at a location below those of the instructions after it.
pub emit_all-Laid :
    (xs : List Emit) (e : Emitter)
    → Laid e
    → e.emit_loc + total xs < 2147483648
    → Laid (emit_all xs e) × ((emit_all xs e).emit_loc ≡ e.emit_loc + total xs)
unfolding emit_all
emit_all-Laid [] e laid fits = (laid, omega arith)
emit_all-Laid (x ∷ xs) e laid fits =
    let (laid', at) = emit-Laid e laid x (omega arith) in
    let (laid'', at') = emit_all-Laid xs (emit x e) laid' (omega arith) in (laid'', omega arith)
