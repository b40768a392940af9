-- ===== src/Gen/Registers.antt =====
-- The registers of src/gen.c within a block: a symbol that has one of R3 to R5 is in it, and a register
-- that is in use is that of its symbol. A symbol may keep one of R0 to R2, which `lin_scan` gives.
use milac.Gen.{
  Gen, register_spare, search_registers, gen_load, assign_reg, evict, use_found, find_reg,
}
use milac.Prelude.{
  ℕ, zero, suc, ◌+◌, ◌<◌, ◌≤◌, ◌≡◌, ◌≢◌, refl, sym, ap, ◌∙◌, subst, none, some, Bool, true, false,
  not, ◌&&◌, ◌==◌, ==_iff, if◌then◌else◌, arith, Bool-cases, Option-cases, inl, inr,
}
use milac.SymTab.{no_register}

pub record IsValid (g : Gen) : Type 0 where
  pub knows : (i : ℕ) → i < 3 → g.registers i ≢ 0 → (g.sym (g.registers i)).reg ≡ i + 3
  pub held :
      (p : ℕ)
      → p ≢ 0
      → (g.sym p).reg ≢ no_register
      → 3 ≤ (g.sym p).reg
      → (i : ℕ) × (i < 3) × (g.registers i ≡ p) × ((g.sym p).reg ≡ i + 3)

-- The register at `i` is given to `s`, and what it had is in no register.
record Rebound (g g' : Gen) (i s : ℕ) : Type 0 where
  new_registers : (j : ℕ) → g'.registers j ≡ (if j == i then s else g.registers j)
  new_reg :
      (q : ℕ)
      → q ≢ 0
      → (g'.sym q).reg
        ≡ (if q == s then i + 3 else if q == g.registers i then no_register else (g.sym q).reg)

Rebound-IsValid :
    (g g' : Gen) (i s : ℕ)
    → i < 3
    → s ≢ 0
    → (g.sym s).reg ≡ no_register
    → Rebound g g' i s
    → IsValid g
    → IsValid g'
Rebound-IsValid g g' i s small real free r v = record {
  knows = λ j lt here. elim (Bool-cases (j == i)) [
    | inl e ↦
        let now : g'.registers j ≡ s = ground (arith, r.new_registers j) in
        ap (λ z. (g'.sym z).reg) now ∙ ground (arith, r.new_reg s real)
    | inr e ↦
        let now : g'.registers j ≡ g.registers j = ground (arith, r.new_registers j) in
        let was : g.registers j ≢ 0 = λ z. here (now ∙ z) in
        let reg = v.knows j lt was in
        let not_s : g.registers j ≢ s = λ z. absurd (ground (arith, ap (λ y. (g.sym y).reg) z)) in
        let not_i : g.registers j ≢ g.registers i = λ z.
          absurd (ground (arith, ap (λ y. (g.sym y).reg) z, v.knows i small (λ y. was (z ∙ y)))) in
        ap (λ z. (g'.sym z).reg) now ∙ ground (arith, r.new_reg (g.registers j) was)
  ];
  held = λ p real_p has high. elim (Bool-cases (p == s)) [
    | inl e ↦
        let same : p ≡ s = (==_iff p s).0 e in
        (i, small, ground (arith, r.new_registers i), ground (arith, r.new_reg p real_p))
    | inr e ↦
        let other : p ≢ g.registers i = λ z. has (ground (arith, r.new_reg p real_p)) in
        let kept : (g'.sym p).reg ≡ (g.sym p).reg = ground (arith, r.new_reg p real_p) in
        let (j, lt, here, reg) =
          v.held p real_p (λ z. has (kept ∙ z)) (omega (arith, kept, high)) in
        let elsewhere : j ≢ i = λ z. other (sym here ∙ ap g.registers z) in
        (j, lt, ground (arith, r.new_registers j, elsewhere), kept ∙ reg)
  ];
}

gen_load-keeps :
    (p : ℕ) (g : Gen)
    → ((q : ℕ) → ((gen_load p g).sym q).reg ≡ (g.sym q).reg)
      × ((j : ℕ) → (gen_load p g).registers j ≡ g.registers j)
unfolding gen_load
gen_load-keeps p g = (λ q. ground arith, λ j. ground arith)

evict-keeps :
    (i : ℕ) (g : Gen)
    → ((q : ℕ)
        → ((evict i g).sym q).reg ≡ (if q == g.registers i then no_register else (g.sym q).reg))
      × ((j : ℕ) → (evict i g).registers j ≡ g.registers j)
unfolding evict
evict-keeps i g = (λ q. ground arith, λ j. ground arith)

assign_reg-keeps :
    (i s : ℕ) (g : Gen)
    → ((q : ℕ) → ((assign_reg i s g).1.sym q).reg ≡ (if q == s then i + 3 else (g.sym q).reg))
      × ((j : ℕ) → (assign_reg i s g).1.registers j ≡ (if j == i then s else g.registers j))
      × ((assign_reg i s g).0 ≡ i + 3)
unfolding assign_reg
assign_reg-keeps i s g =
    let g₁ : Gen = record g {
      registers = λ j. if j == i then s else g.registers j;
      sym = λ q. if q == s then record (g.sym q) { reg = i + 3 } else g.sym q;
    } in
    let (regs, registers) = gen_load-keeps s g₁ in
    (λ q. regs q ∙ ground arith, λ j. registers j, refl)

assign-Rebound : (g : Gen) (i s : ℕ) → g.registers i ≡ 0 → Rebound g (assign_reg i s g).1 i s
assign-Rebound g i s empty =
    let (regs, registers, _) = assign_reg-keeps i s g in
    record { new_registers = registers; new_reg = λ q real. regs q ∙ ground (arith, empty) }

evict-Rebound : (g : Gen) (i s : ℕ) → Rebound g (assign_reg i s (evict i g)).1 i s
evict-Rebound g i s =
    let (regs, registers, _) = assign_reg-keeps i s (evict i g) in
    let (old_regs, old) = evict-keeps i g in
    record {
      new_registers = λ j. registers j ∙ ground (arith, old j);
      new_reg = λ q real. regs q ∙ ground (arith, old_regs q);
    }

search-some :
    (n i : ℕ) (test : ℕ → Bool) (k : ℕ)
    → search_registers n i test ≡ some k
    → (test k ≡ true) × (k < i + n)
unfolding search_registers
search-some zero i test k h = cc
search-some (suc n) i test k h =
    ground (arith, search-some n (i + 1) test k, λ (e : i ≡ k). ap test e)

search-none :
    (test : ℕ → Bool)
    → search_registers register_spare 0 test ≡ none
    → (test 0 ≡ false) × (test 1 ≡ false) × (test 2 ≡ false)
unfolding search_registers
search-none test h = ground arith

-- The register of the symbol is found: the one that it had, or one of R3 to R5. The others keep theirs.
pub record Found (g : Gen) (s ex1 ex2 : ℕ) (result : ℕ × Gen) : Type 0 where
  pub valid : IsValid result.1
  pub below : result.0 < 6
  pub here : (result.1.sym s).reg ≡ result.0
  pub had : (g.sym s).reg ≢ no_register → result.0 ≡ (g.sym s).reg
  pub spare : (g.sym s).reg ≡ no_register → 3 ≤ result.0
  pub kept1 : ex1 ≢ s → (result.1.sym ex1).reg ≡ (g.sym ex1).reg
  pub kept2 : ex2 ≢ s → (result.1.sym ex2).reg ≡ (g.sym ex2).reg

module _ (g : Gen) (s ex1 ex2 : ℕ) (real : s ≢ 0) (real1 : ex1 ≢ 0) (real2 : ex2 ≢ 0)
    (v : IsValid g) where
  Rebound-Found :
      (g' : Gen) (i r : ℕ)
      → i < 3
      → (g.sym s).reg ≡ no_register
      → r ≡ i + 3
      → ex1 ≢ g.registers i
      → ex2 ≢ g.registers i
      → Rebound g g' i s
      → Found g s ex1 ex2 (r, g')
  Rebound-Found g' i r small free e n1 n2 b = record {
    valid = Rebound-IsValid g g' i s small real free b v;
    below = omega arith;
    here = ground (arith, b.new_reg s real, e);
    had = λ n. absurd (n free);
    spare = λ f. omega arith;
    kept1 = λ n. ground (arith, b.new_reg ex1 real1, n, n1);
    kept2 = λ n. ground (arith, b.new_reg ex2 real2, n, n2);
  }

  abbrev is_empty : ℕ → Bool
  is_empty i = g.registers i == 0

  abbrev is_other : ℕ → Bool
  is_other i = not (g.registers i == ex1) && not (g.registers i == ex2)

  find_reg_unused :
      (i : ℕ)
      → search_registers register_spare 0 is_empty ≡ some i
      → find_reg s ex1 ex2 g ≡ assign_reg i s g
  unfolding find_reg
  find_reg_unused i e = ap (λ o. use_found o (search_registers register_spare 0 is_other) s g) e

  find_reg-evict :
      (i : ℕ)
      → search_registers register_spare 0 is_empty ≡ none
      → search_registers register_spare 0 is_other ≡ some i
      → find_reg s ex1 ex2 g ≡ assign_reg i s (evict i g)
  unfolding find_reg
  find_reg-evict i f e =
      ap (λ o. use_found o (search_registers register_spare 0 is_other) s g) f
      ∙ ap (λ o. use_found none o s g) e

  -- Three different symbols are not all among two.
  some_other :
      search_registers register_spare 0 is_empty ≡ none
      → search_registers register_spare 0 is_other ≡ none
      → ⊥
  some_other f e =
      let (f0, f1, f2) = search-none is_empty f in
      let (e0, e1, e2) = search-none is_other e in
      let k0 = v.knows 0 (omega arith) (λ z. absurd (ground arith)) in
      let k1 = v.knows 1 (omega arith) (λ z. absurd (ground arith)) in
      let k2 = v.knows 2 (omega arith) (λ z. absurd (ground arith)) in
      let reg : ℕ → ℕ = λ p. (g.sym p).reg in
      ground (
        arith,
        λ (z : g.registers 0 ≡ g.registers 1). ap reg z,
        λ (z : g.registers 0 ≡ g.registers 2). ap reg z,
        λ (z : g.registers 1 ≡ g.registers 2). ap reg z,
      )

  -- Of three registers that are in use, two at most hold the operands.
  pub find_reg-Found : (g.sym s).reg ≡ no_register → Found g s ex1 ex2 (find_reg s ex1 ex2 g)
  find_reg-Found free = elim (Option-cases (search_registers register_spare 0 is_empty)) [
    | inr (i, e) ↦
        let (empty, small) = search-some 3 0 is_empty i e in
        let none_here : g.registers i ≡ 0 = (==_iff (g.registers i) 0).0 empty in
        let (_, _, r) = assign_reg-keeps i s g in
        subst (Found g s ex1 ex2) (sym (find_reg_unused i e)) (
          Rebound-Found (assign_reg i s g).1 i (assign_reg i s g).0 (omega arith) free r
            (λ z. real1 (z ∙ none_here)) (λ z. real2 (z ∙ none_here))
            (assign-Rebound g i s none_here))
    | inl f ↦ elim (Option-cases (search_registers register_spare 0 is_other)) [
      | inl e ↦ absurd (some_other f e)
      | inr (i, e) ↦
          let (other, small) = search-some 3 0 is_other i e in
          let (_, _, r) = assign_reg-keeps i s (evict i g) in
          subst (Found g s ex1 ex2) (sym (find_reg-evict i f e)) (
            Rebound-Found (assign_reg i s (evict i g)).1 i (assign_reg i s (evict i g)).0
              (omega arith) free r (λ z. absurd (ground arith)) (λ z. absurd (ground arith))
              (evict-Rebound g i s))
    ]
  ]
