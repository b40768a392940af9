-- ===== src/Blocks/Partition.antt =====
-- src/3ac.c: `bb_build` puts each instruction in one block, and the instructions of a block stand in it
-- in the order of the code.
use mathlib.Core.List.{append-nil, append_assoc}
use mathlib.Core.Option.{some-injective}
use milac.Blocks.Build.{
  Build, push_ins, find_block, next_block, build_jmp_found, build_iff_found, build_op, build_ins,
  build_loop, found_or, build_jmp, build_iff, build_label,
}
use milac.Blocks.{Bb, Store, store, bb_add_predecessor}
use milac.Prelude.{
  ℕ, zero, suc, List, [], ◌∷◌, ◌++◌, Option, none, some, Bool, true, false, ◌==◌, ◌>>=◌, length,
  if◌then◌else◌, ◌≡◌, refl, sym, ap, ◌∙◌, arith, Bool-cases, inl, inr, List-cases, >>=-eq-some,
  ==_iff, subst,
}
use milac.SymTab.{Symbol}
use milac.Tac.{Op, Tac, tiff, tjmp, tlabel}

-- the instructions that are put in the block `p`, where `places` has the block of each
abbrev pub select : ℕ → List ℕ → List Tac → List Tac
select p [] is = []
select p (t ∷ ts) [] = []
select p (t ∷ ts) (i ∷ is) = (if p == t then record i { bb = t } ∷ [] else []) ++ select p ts is

-- what a block has is not changed
abbrev pub SameIns : Store → Store → Type 0
SameIns h h' = (p : ℕ) → (h' p).ins ≡ (h p).ins

-- the instruction `i` is put at the end of one block
abbrev Placed : Tac → Store → Store → Type 0
Placed i h h' =
    (t : ℕ) × ((p : ℕ)
      → (h' p).ins ≡ (h p).ins ++ (if p == t then record i { bb = t } ∷ [] else []))

pub add-SameIns : (dst src : ℕ) (h : Store) → SameIns h (bb_add_predecessor dst src h)
unfolding bb_add_predecessor
add-SameIns zero src h p = refl
add-SameIns (suc dst) src h p = ground (arith, λ (e : p ≡ suc dst). ap (λ q. (h q).ins) e)

pub store-SameIns : (h : Store) (q : ℕ) (b : Bb) → b.ins ≡ (h q).ins → SameIns h (store h q b)
store-SameIns h q b e p = ground (arith, e, λ (e : p ≡ q). ap (λ q. (h q).ins) e)

push-Placed : (t : ℕ) (i : Tac) (h : Store) → Placed i h (push_ins t i h)
push-Placed t i h = (
  t,
  λ p. elim (Bool-cases (p == t)) [
    | inl e ↦ rw e (ap (λ q. (h q).ins ++ (record i { bb = t } ∷ [])) (sym ((==_iff p t).0 e)))
    | inr e ↦ rw (e, append-nil) refl
  ],
)

then-Placed : (i : Tac) (h h' h'' : Store) → Placed i h h' → SameIns h' h'' → Placed i h h''
then-Placed i h h' h'' (t, placed) same = (t, λ p. same p ∙ placed p)

-- what a guarded result is made of
after_guard {ℓ κ} :
    {A : Type ℓ} {B : Type κ} (b : Bool) (o : Option A) (f : A → B) {y : B}
    → (if b then none else (o >>= λ a. some (f a))) ≡ some y
    → (a : A) × (f a ≡ y)
after_guard true o f e = cc
after_guard false none f e = cc
after_guard false (some a) f e = (a, some-injective _ _ e)

module _ (deref : ℕ → Symbol) (blocks : List ℕ) where
  jmp_found-SameIns :
      (b : ℕ) (o : Option ℕ) (h : Store) → SameIns h (build_jmp_found deref blocks b o h)
  jmp_found-SameIns b none h p = refl
  jmp_found-SameIns b (some q) h p =
      let h' = store h b (record (h b) { jmp = q; next = 0 }) in
      add-SameIns q b h' p ∙ store-SameIns h b (record (h b) { jmp = q; next = 0 }) refl p

  pub iff_found-SameIns :
      (b : ℕ) (o : Option ℕ) (h : Store) → SameIns h (build_iff_found deref blocks b o h)
  iff_found-SameIns b none h p = refl
  iff_found-SameIns b (some q) h p =
      let h' = store h b (record (h b) { jmp = q }) in
      add-SameIns q b h' p ∙ store-SameIns h b (record (h b) { jmp = q }) refl p

  label-Placed : (i : Tac) (s : Build) → Placed i s.heap (build_label deref blocks i s).heap
  label-Placed i s =
      let t = found_or deref blocks s.bb (find_block (deref i.r).val blocks s.heap) in
      let h = push_ins t i s.heap in
      let h' = store h s.bb1 (record (h s.bb1) { next = t }) in
      then-Placed i s.heap h (bb_add_predecessor t s.bb1 h') (push-Placed t i s.heap) (λ p.
        add-SameIns t s.bb1 h' p ∙ store-SameIns h s.bb1 (record (h s.bb1) { next = t }) refl p)

  jmp-Placed :
      (i : Tac) (s s' : Build) → build_jmp deref blocks i s ≡ some s' → Placed i s.heap s'.heap
  jmp-Placed i s s' e =
      let h = push_ins s.bb1 i s.heap in
      let o = find_block (deref i.r).val blocks h in
      let h' = build_jmp_found deref blocks s.bb1 o h in
      let (n, made) =
        after_guard ((h' s.bb1).jmp == 0) (next_block s.bb1 s.bb1 blocks)
          (λ n. record { bb = s.bb; bb1 = n; heap = h' }) e in
      let heap : h' ≡ s'.heap = ap (λ (b : Build). b.heap) made in
      subst (Placed i s.heap) heap
        (then-Placed i s.heap h h' (push-Placed s.bb1 i s.heap) (jmp_found-SameIns s.bb1 o h))

  iff-Placed :
      (i : Tac) (s s' : Build) → build_iff deref blocks i s ≡ some s' → Placed i s.heap s'.heap
  iff-Placed i s s' e =
      let h = push_ins s.bb1 i s.heap in
      let o = find_block (deref i.r).val blocks h in
      let h' = build_iff_found deref blocks s.bb1 o h in
      let (n, found, made) = >>=-eq-some (next_block s.bb s.bb1 blocks) _ e in
      let h'' = store h' s.bb1 (record (h' s.bb1) { next = n }) in
      subst (Placed i s.heap) (ap (λ b. b.heap) (some-injective _ _ made)) (
        then-Placed i s.heap h (bb_add_predecessor n s.bb1 h'') (push-Placed s.bb1 i s.heap) (λ p.
          add-SameIns n s.bb1 h'' p
          ∙ (store-SameIns h' s.bb1 (record (h' s.bb1) { next = n }) refl p
              ∙ iff_found-SameIns s.bb1 o h p)))

  op-Placed :
      (op : Op) (i : Tac) (s s' : Build)
      → build_op deref blocks op i s ≡ some s'
      → Placed i s.heap s'.heap
  op-Placed tlabel i s s' e =
      subst (Placed i s.heap) (ap (λ b. b.heap) (some-injective _ _ e)) (label-Placed i s)
  op-Placed tjmp i s s' e = jmp-Placed i s s' e
  op-Placed tiff i s s' e = iff-Placed i s s' e
  op-Placed _ i s s' e =
      subst (Placed i s.heap) (ap (λ b. b.heap) (some-injective _ _ e)) (push-Placed s.bb1 i s.heap)

  ins-Placed :
      (i : Tac) (s s' : Build) → build_ins deref blocks i s ≡ some s' → Placed i s.heap s'.heap
  unfolding build_ins
  ins-Placed i s s' e = elim (List-cases (s.heap s.bb1).ins) [
    | inl empty ↦
        let made = some-injective _ _ (rw (empty, build_ins) at e) in
        subst (Placed i s.heap) (ap (λ (b : Build). b.heap) made) (push-Placed s.bb1 i s.heap)
    | inr (j, js, more) ↦ op-Placed i.op i s s' (rw (more, build_ins) at e)
  ]

  pub build_loop-places :
      (is : List Tac) (s s' : Build)
      → build_loop deref blocks is s ≡ some s'
      → (places : List ℕ) × (length places ≡ length is)
        × ((p : ℕ) → (s'.heap p).ins ≡ (s.heap p).ins ++ select p places is)
  unfolding build_loop
  build_loop-places [] s s' e =
      ([], refl, λ p. ap (λ b. (b.heap p).ins) (sym (some-injective _ _ e)) ∙ sym (append-nil _))
  build_loop-places (i ∷ is) s s' e =
      let (s₁, one, rest) = >>=-eq-some (build_ins deref blocks i s) _ e in
      let (t, here) = ins-Placed i s s₁ one in
      let (places, count, there) = build_loop-places is s₁ s' rest in
      (
        t ∷ places,
        ap suc count,
        λ p.
            there p
            ∙ (ap (λ x. x ++ select p places is) (here p)
                ∙ append_assoc (s.heap p).ins (if p == t then record i { bb = t } ∷ [] else [])
                    (select p places is)),
      )
