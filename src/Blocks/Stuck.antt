-- ===== src/Blocks/Stuck.antt =====
-- src/3ac.c: where `bb_build` faults.
use mathlib.Core.Option.{some-injective}
use milac.Blocks.Build.{
  Build, push_ins, find_block, next_block, build_jmp_found, build_op, build_ins, build_jmp,
}
use milac.Blocks.{Store, store, bb_add_predecessor}
use milac.Prelude.{
  ℕ, zero, suc, List, [], ◌∷◌, Option, none, some, Bool, true, false, ◌==◌, ◌>>=◌, if◌then◌else◌,
  ◌≡◌, refl, ap, ◌∙◌, arith, Bool-cases, inl, inr, ◌⊎◌, ◌≢◌, Option-cases, List-cases, ==_refl,
  subst,
}
use milac.SymTab.{Symbol}
use milac.Tac.Words.{All}
use milac.Tac.{Op, Tac, tiff, tjmp}

guard_passes {ℓ κ} :
    {A : Type ℓ} {B : Type κ} (b : Bool) (o : Option A) (f : A → B) {a : A}
    → b ≡ false
    → o ≡ some a
    → (if b then none else (o >>= λ a. some (f a))) ≢ none
guard_passes true o f t p e = cc
guard_passes false none f t p e = cc
guard_passes false (some a) f t p e = cc

bind_passes {ℓ κ} :
    {A : Type ℓ} {B : Type κ} (o : Option A) (f : A → B) {a : A}
    → o ≡ some a
    → (o >>= λ a. some (f a)) ≢ none
bind_passes none f p e = cc
bind_passes (some a) f p e = cc

nonzero : {a q : ℕ} → a ≡ q → q ≢ 0 → (a == 0) ≡ false
nonzero e n = ground (arith, e)

add_jmp : (dst src : ℕ) (h : Store) (p : ℕ) → (bb_add_predecessor dst src h p).jmp ≡ (h p).jmp
unfolding bb_add_predecessor
add_jmp zero src h p = refl
add_jmp (suc dst) src h p = ground (arith, λ (e : p ≡ suc dst). ap (λ q. (h q).jmp) e)

find_block-ne :
    (l : ℕ) (ps : List ℕ) (h : Store) {q : ℕ}
    → All (λ p. p ≢ 0) ps
    → find_block l ps h ≡ some q
    → q ≢ 0
unfolding find_block
find_block-ne l [] h live e = cc
find_block-ne l (p ∷ ps) h (p_live, live) e = elim (Bool-cases ((h p).id == l)) [
  | inl same ↦ subst (λ x. x ≢ 0) (some-injective _ _ (rw (same, find_block) at e)) p_live
  | inr other ↦ find_block-ne l ps h live (rw (other, find_block) at e)
]

module _ (deref : ℕ → Symbol) (blocks : List ℕ) where
  -- A jump or a condition has no block behind it, or a jump has no block to go to.
  abbrev pub Stuck : Tac → Build → Type 0
  Stuck i s =
      ((i.op ≡ tjmp)
        × ((next_block s.bb1 s.bb1 blocks ≡ none)
            ⊎ (find_block (deref i.r).val blocks (push_ins s.bb1 i s.heap) ≡ none)))
      ⊎ ((i.op ≡ tiff) × (next_block s.bb s.bb1 blocks ≡ none))

  jmp_target :
      (b : ℕ) (o : Option ℕ) (h : Store) {q : ℕ}
      → o ≡ some q
      → (build_jmp_found deref blocks b o h b).jmp ≡ q
  jmp_target b none h e = cc
  jmp_target b (some q) h e =
      let own : (b == b) ≡ true = ==_refl b in
      add_jmp q b (store h b (record (h b) { jmp = q; next = 0 })) b
      ∙ (rw own refl ∙ some-injective _ _ e)

  jmp-Stuck :
      (i : Tac) (s : Build)
      → i.op ≡ tjmp
      → All (λ q. q ≢ 0) blocks
      → build_jmp deref blocks i s ≡ none
      → Stuck i s
  jmp-Stuck i s op live e =
      let h = push_ins s.bb1 i s.heap in
      elim (Option-cases (find_block (deref i.r).val blocks h)) [
        | inl lost ↦ inl (op, inr lost)
        | inr (q, found) ↦ elim (Option-cases (next_block s.bb1 s.bb1 blocks)) [
          | inl last ↦ inl (op, inl last)
          | inr (n, next) ↦ absurd (
              guard_passes
                ((build_jmp_found deref blocks s.bb1 (find_block (deref i.r).val blocks h) h
                    s.bb1).jmp
                  == 0)
                (next_block s.bb1 s.bb1 blocks)
                (λ n. record {
                  bb = s.bb;
                  bb1 = n;
                  heap = build_jmp_found deref blocks s.bb1 (find_block (deref i.r).val blocks h) h;
                })
                (nonzero (jmp_target s.bb1 (find_block (deref i.r).val blocks h) h found)
                  (find_block-ne (deref i.r).val blocks h live found))
                next e)
        ]
      ]

  op-Stuck :
      (op : Op) (i : Tac) (s : Build)
      → i.op ≡ op
      → All (λ q. q ≢ 0) blocks
      → build_op deref blocks op i s ≡ none
      → Stuck i s
  op-Stuck tjmp i s o live e = jmp-Stuck i s o live e
  op-Stuck tiff i s o live e = elim (Option-cases (next_block s.bb s.bb1 blocks)) [
    | inl last ↦ inr (o, last)
    | inr (n, next) ↦ absurd (bind_passes (next_block s.bb s.bb1 blocks) _ next e)
  ]
  op-Stuck _ i s o live e = cc

  pub ins-Stuck :
      (i : Tac) (s : Build)
      → All (λ q. q ≢ 0) blocks
      → build_ins deref blocks i s ≡ none
      → Stuck i s
  unfolding build_ins
  ins-Stuck i s live e = elim (List-cases (s.heap s.bb1).ins) [
    | inl empty ↦ cc (rw (empty, build_ins) at e)
    | inr (j, js, more) ↦ op-Stuck i.op i s refl live (rw (more, build_ins) at e)
  ]
