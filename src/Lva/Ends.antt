-- ===== src/Lva/Ends.antt =====
-- The loop of src/lva.c ends: every pass but the last sets a bit of some `out`, and none is cleared.
use milac.Lva.Grows.{
  clear_bits_all, unset, total, Grows, Grows-refl, Grows-trans, lva_pass-Grows, lva_pass_changed,
}
use milac.Lva.{
  Lva, Store, lva_init, lva_defuse, defuse_ins, defuse_bb, usebit, lva_pass, lva_while, lva,
}
use milac.Optimize.UnusedVars.{In}
use milac.Prelude.{
  ℕ, zero, suc, ◌*◌, ◌≤◌, ◌<◌, List, [], ◌∷◌, ◌≡◌, refl, ap, ◌∙◌, some, false, arith, Bool-cases,
  inl, inr, length,
}
use milac.SymTab.{Symbol}
use milac.Tac.{Op, Tac, tac_is_binop, tnone, tjmp, tlabel, tin, tout, tiff, tassign}

-- With more fuel than bits that are not set, the loop ends with a pass that changes nothing.
pub lva_while_ends :
    (fuel : ℕ) (ps : List ℕ) (h : Store)
    → total ps h < fuel
    → (h₀ : Store) × (lva_while fuel ps h ≡ some (lva_pass ps h₀).0)
      × ((lva_pass ps h₀).1 ≡ false)
      × Grows h h₀
unfolding lva_while
lva_while_ends zero ps h t = absurd (omega arith)
lva_while_ends (suc fuel) ps h t = elim (Bool-cases (lva_pass ps h).1) [
  | inl c ↦
      let less = lva_pass_changed ps ps h (λ p m. m) c in
      let (h₀, e, quiet, grows) = lva_while_ends fuel ps (lva_pass ps h).0 (omega arith) in
      (h₀, rw c e, quiet, Grows-trans h (lva_pass ps h).0 h₀ (lva_pass-Grows ps h) grows)
  | inr quiet ↦ (h, rw quiet refl, quiet, Grows-refl h)
]

-- blocks with `n` bits
abbrev Counts : ℕ → List ℕ → Store → Type 0
Counts n ps h = (p : ℕ) → In p ps → (h p).lva.count ≡ n

lva_init_other :
    (n : ℕ) (ps : List ℕ) (h : Store) (p : ℕ)
    → (h p).lva.count ≡ n
    → (lva_init n ps h p).lva.count ≡ n
unfolding lva_init
lva_init_other n [] h p e = e
lva_init_other n (q ∷ ps) h p e = lva_init_other n ps _ p (ground arith)

lva_init-Counts : (n : ℕ) (ps : List ℕ) (h : Store) → Counts n ps (lva_init n ps h)
unfolding lva_init
lva_init-Counts n [] h p m = cc
lva_init-Counts n (q ∷ ps) h p (inl e) = lva_init_other n ps _ p (ground (arith, e))
lva_init-Counts n (q ∷ ps) h p (inr m) = lva_init-Counts n ps _ p m

usebit_count : (deref : ℕ → Symbol) (p : ℕ) (l : Lva) → (usebit deref p l).count ≡ l.count
usebit_count deref p l = ground arith

defuse_ins_count :
    (deref : ℕ → Symbol) (op : Op) (i : Tac) (l : Lva)
    → (defuse_ins deref (record i { op = op }) l).count ≡ l.count
unfolding defuse_ins tac_is_binop
defuse_ins_count deref tnone i l = refl
defuse_ins_count deref tjmp i l = refl
defuse_ins_count deref tlabel i l = refl
defuse_ins_count deref tin i l = refl
defuse_ins_count deref tout i l = usebit_count deref i.r l
defuse_ins_count deref tiff i l = usebit_count deref i.a1 l
defuse_ins_count deref tassign i l = usebit_count deref i.a1 l
defuse_ins_count deref _ i l =
    usebit_count deref i.a2 (usebit deref i.a1 l) ∙ usebit_count deref i.a1 l

defuse_bb_count :
    (deref : ℕ → Symbol) (is : List Tac) (l : Lva) → (defuse_bb deref is l).count ≡ l.count
unfolding defuse_bb
defuse_bb_count deref [] l = refl
defuse_bb_count deref (i ∷ is) l = defuse_bb_count deref is _ ∙ defuse_ins_count deref i.op i l

lva_defuse_count :
    (deref : ℕ → Symbol) (ps : List ℕ) (h : Store) (p : ℕ)
    → (lva_defuse deref ps h p).lva.count ≡ (h p).lva.count
unfolding lva_defuse
lva_defuse_count deref [] h p = refl
lva_defuse_count deref (q ∷ ps) h p =
    lva_defuse_count deref ps _ p
    ∙ ground (
      arith,
      defuse_bb_count deref (h q).ins (h q).lva,
      λ (e : p ≡ q). ap (λ z. (h z).lva.count) e,
    )

total_bound : (n : ℕ) (ps : List ℕ) (h : Store) → Counts n ps h → total ps h ≤ n * length ps
unfolding total unset
total_bound n [] h c = omega arith
total_bound n (p ∷ ps) h c =
    let here = clear_bits_all (h p).lva.count (h p).lva.out in
    let rest = total_bound n ps h (λ q m. c q (inr m)) in grind (arith, here, rest, c p (inl refl))

-- The last pass of the analysis changes nothing.
pub lva_last_pass :
    (deref : ℕ → Symbol) (fuel symb_count : ℕ) (ps : List ℕ) (h : Store)
    → symb_count * length ps < fuel
    → (h₀ : Store) × (lva deref fuel symb_count ps h ≡ some (lva_pass ps h₀).0)
      × ((lva_pass ps h₀).1 ≡ false)
unfolding lva
lva_last_pass deref fuel n ps h enough =
    let start = lva_defuse deref ps (lva_init n ps h) in
    let counts : Counts n ps start =
      λ p m. lva_defuse_count deref ps (lva_init n ps h) p ∙ lva_init-Counts n ps h p m in
    let bound = total_bound n ps start counts in
    let (h₀, e, quiet, grows) = lva_while_ends fuel ps start (omega arith) in (h₀, e, quiet)
