-- ===== src/Optimize/UnusedVars.antt =====
-- src/optimize.c: `opt_unused_vars`. The bit set `use` is a function from symbol ids.
use milac.Prelude.{
  ℕ, ◌≡◌, refl, sym, ap, subst, ◌∙◌, if_both, List, [], ◌∷◌, Bool, true, false, not, ◌&&◌, ◌||◌,
  ◌==◌, inl, inr, Bool-cases, if◌then◌else◌, arith, ◌⊎◌,
}
use milac.SymTab.{Symbol}
use milac.Tac.Meaning.{is_const}
use milac.Tac.{Op, Tac, tac_is_binop, tnone, tiff, tjmp, tin, tout, tassign, tlabel}

abbrev pub is_assign : Op → Bool
is_assign tassign = true
is_assign _ = false

-- an element of a list
abbrev pub In : {A : Type 0} → A → List A → Type 0
In x [] = ◌≡◌ {A = Bool} true false
In x (y ∷ ys) = (x ≡ y) ⊎ In x ys

-- the pointers whose values an instruction needs
abbrev pub operands : Op → Tac → List ℕ
operands tiff i = i.a1 ∷ []
operands tout i = i.r ∷ []
operands tassign i = i.a1 ∷ []
operands tnone i = []
operands tjmp i = []
operands tin i = []
operands tlabel i = []
operands _ i = i.a1 ∷ i.a2 ∷ []

module _ (deref : ℕ → Symbol) where
  -- `if(p->type != SCONST) BITSET(used, p->id)`
  abbrev pub mark : ℕ → (ℕ → Bool) → ℕ → Bool
  mark p used = λ k. (not (is_const (deref p)) && k == (deref p).id) || used k

  -- the instructions that are no binary operation
  abbrev pub mark_other : Op → Tac → (ℕ → Bool) → ℕ → Bool
  mark_other tin i used = mark i.r used
  mark_other tout i used = mark i.r used
  mark_other tiff i used = mark i.a1 used
  mark_other tassign i used = mark i.a1 used
  mark_other _ i used = used

  unfoldable pub mark_tac : Tac → (ℕ → Bool) → ℕ → Bool
  mark_tac i used = if tac_is_binop i.op then mark i.a2 (mark i.a1 used) else mark_other i.op i used

  unfoldable pub mark_block : List Tac → (ℕ → Bool) → ℕ → Bool
  unfolding mark_tac
  mark_block [] used = used
  mark_block (i ∷ is) used = mark_block is (mark_tac i used)

  unfoldable pub mark_code : List (List Tac) → (ℕ → Bool) → ℕ → Bool
  unfolding mark_block
  mark_code [] used = used
  mark_code (b ∷ bs) used = mark_code bs (mark_block b used)

  -- the flag that the second loop sets
  abbrev pub flagged : (ℕ → Bool) → Tac → Bool
  flagged used i = i.set || is_assign i.op && not (used (deref i.r).id)

  unfoldable pub remove_flagged : (ℕ → Bool) → List Tac → List Tac
  remove_flagged used [] = []
  remove_flagged used (i ∷ is) =
      let rest = remove_flagged used is in
      if flagged used i then rest else record i { set = flagged used i } ∷ rest

  unfoldable pub opt_unused_vars : List (List Tac) → List (List Tac)
  unfolding mark_code remove_flagged
  opt_unused_vars code = mathlib.Core.List.map (remove_flagged (mark_code code (λ k. false))) code

  mark_grows :
      (op : Op) (i : Tac) (used : ℕ → Bool) (k : ℕ)
      → used k ≡ true
      → mark_tac (record i { op = op }) used k ≡ true
  unfolding mark_tac tac_is_binop
  mark_grows tin i used k h = ground arith
  mark_grows tout i used k h = ground arith
  mark_grows tiff i used k h = ground arith
  mark_grows tassign i used k h = ground arith
  mark_grows tnone i used k h = h
  mark_grows tjmp i used k h = h
  mark_grows tlabel i used k h = h
  mark_grows _ i used k h = ground arith

  id_congr :
      (p q : ℕ) → p ≡ q → ((deref p).id ≡ (deref q).id) × (is_const (deref p) ≡ is_const (deref q))
  id_congr p q e = (ap (λ z. (deref z).id) e, ap (λ z. is_const (deref z)) e)

  mark_read :
      (op : Op) (i : Tac) (used : ℕ → Bool) (p : ℕ)
      → In p (operands op i)
      → is_const (deref p) ≡ false
      → mark_tac (record i { op = op }) used (deref p).id ≡ true
  unfolding mark_tac tac_is_binop
  mark_read tiff i used p h n = ground (arith, id_congr p i.a1)
  mark_read tout i used p h n = ground (arith, id_congr p i.r)
  mark_read tassign i used p h n = ground (arith, id_congr p i.a1)
  mark_read tnone i used p h n = cc
  mark_read tjmp i used p h n = cc
  mark_read tin i used p h n = cc
  mark_read tlabel i used p h n = cc
  mark_read _ i used p h n = ground (arith, id_congr p i.a1, id_congr p i.a2)

  block_grows :
      (is : List Tac) (used : ℕ → Bool) (k : ℕ) → used k ≡ true → mark_block is used k ≡ true
  unfolding mark_block
  block_grows [] used k h = h
  block_grows (i ∷ is) used k h = block_grows is _ k (mark_grows i.op i used k h)

  block_read :
      (is : List Tac) (used : ℕ → Bool) (j : Tac) (p : ℕ)
      → In j is
      → In p (operands j.op j)
      → is_const (deref p) ≡ false
      → mark_block is used (deref p).id ≡ true
  unfolding mark_block
  block_read [] used j p h k n = cc
  block_read (i ∷ is) used j p (inl e) k n =
      block_grows is _ _ (mark_read i.op i used p (subst (λ z. In p (operands z.op z)) e k) n)
  block_read (i ∷ is) used j p (inr h) k n = block_read is _ j p h k n

  code_grows :
      (bs : List (List Tac)) (used : ℕ → Bool) (k : ℕ) → used k ≡ true → mark_code bs used k ≡ true
  unfolding mark_code
  code_grows [] used k h = h
  code_grows (b ∷ bs) used k h = code_grows bs _ k (block_grows b used k h)

  code_read :
      (bs : List (List Tac)) (used : ℕ → Bool) (b : List Tac) (j : Tac) (p : ℕ)
      → In b bs
      → In j b
      → In p (operands j.op j)
      → is_const (deref p) ≡ false
      → mark_code bs used (deref p).id ≡ true
  unfolding mark_code
  code_read [] used b j p h k l n = cc
  code_read (c ∷ bs) used b j p (inl e) k l n =
      code_grows bs _ _ (block_read c used j p (subst (In j) e k) l n)
  code_read (c ∷ bs) used b j p (inr h) k l n = code_read bs _ b j p h k l n

  -- what has no flag stays in its block
  remove_flagged_kept :
      (used : ℕ → Bool) (is : List Tac) (i : Tac)
      → In i is
      → flagged used i ≡ false
      → In i (remove_flagged used is)
  unfolding remove_flagged
  remove_flagged_kept used [] i h f = h
  remove_flagged_kept used (x ∷ is) i (inl e) f =
      let clear : flagged used x ≡ false = subst (λ z. flagged used z ≡ false) e f in
      let same : x.set ≡ flagged used x = ground arith in
      let kept : i ≡ record x { set = flagged used x } = e ∙ ap (λ b. record x { set = b }) same in
      subst
        (λ b. In i (
          if b
          then remove_flagged used is
          else record x { set = flagged used x } ∷ remove_flagged used is))
        (sym clear) (inl kept)
  remove_flagged_kept used (x ∷ is) i (inr h) f =
      let kept = remove_flagged_kept used is i h f in
      if_both {A = List Tac} (In i) (flagged used x) kept (inr kept)

  In-map :
      (f : List Tac → List Tac) (b : List Tac) (bs : List (List Tac))
      → In b bs
      → In (f b) (mathlib.Core.List.map f bs)
  In-map f b [] h = h
  In-map f b (c ∷ bs) (inl e) = inl (ap f e)
  In-map f b (c ∷ bs) (inr h) = inr (In-map f b bs h)

  is_assign-tassign : (op : Op) → is_assign op ≡ true → op ≡ tassign
  is_assign-tassign tassign h = refl
  is_assign-tassign _ h = absurd (cc h)

  -- An instruction of the code needs the value of a variable that shares the id of the symbol.
  abbrev pub Needed : List (List Tac) → ℕ → Type 0
  Needed code r =
      (b : List Tac) × (j : Tac) × (p : ℕ) × In b code
      × In j b
      × In p (operands j.op j)
      × (is_const (deref p) ≡ false)
      × ((deref p).id ≡ (deref r).id)

  -- `opt_unused_vars` keeps every instruction that has no flag, if it is no assignment or assigns a
  -- symbol whose id is that of a variable that an instruction of the code needs.
  pub opt_unused_vars-keeps :
      (code : List (List Tac)) (b : List Tac) (i : Tac)
      → In b code
      → In i b
      → i.set ≡ false
      → (i.op ≡ tassign → Needed code i.r)
      → (b' : List Tac) × In b' (opt_unused_vars code) × In i b'
  unfolding opt_unused_vars
  opt_unused_vars-keeps code b i h k clear need =
      let used : ℕ → Bool = mark_code code (λ k. false) in
      let spared : flagged used i ≡ false = elim (Bool-cases (is_assign i.op)) [
        | inl assign ↦
            let (c, j, p, in_code, in_block, in_operands, var, same) =
              need (is_assign-tassign i.op assign) in
            let read = code_read code (λ k. false) c j p in_code in_block in_operands var in
            let marked : used (deref i.r).id ≡ true = subst (λ z. used z ≡ true) same read in
            ground arith
        | inr other ↦ ground arith
      ] in
      (
        remove_flagged used b,
        In-map (remove_flagged used) b code h,
        remove_flagged_kept used b i k spared,
      )
