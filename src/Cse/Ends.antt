-- ===== src/Cse/Ends.antt =====
-- src/cse.c: `gen_node` on a valid graph, and the end of `cse`.
use milac.Cse.Gen.{Code, gen_node, is_none, symbol_of, node_tac}
use milac.Cse.Valid.{Among, IsValid, set_node-IsValid}
use milac.Cse.{Graph, set_node}
use milac.Prelude.{
  ℕ, zero, suc, ◌+◌, ◌<◌, ◌≡◌, refl, ◌∙◌, [], ◌∷◌, ◌++◌, Option, some, Bool, true, false, inl, inr,
  Bool-cases, ◌>>=◌, if◌then◌else◌, arith,
}

abbrev mark : ℕ → Graph → Graph
mark p g = set_node g p (record (g.nodes p) { generated = true })

mark-IsValid : (lo p : ℕ) (g : Graph) → IsValid lo g → IsValid lo (mark p g)
mark-IsValid lo p g valid = set_node-IsValid lo g valid p _ (λ here. valid.older p here)

-- A valid graph with the table and the count of `g`.
abbrev pub Marked : ℕ → Graph → Graph → Type 0
Marked lo g g' = IsValid lo g' × (g'.tab ≡ g.tab) × (g'.node_count ≡ g.node_count)

-- The result is there.
abbrev pub Ended : ℕ → Graph → Option (Bool × ℕ × Code) → Type 0
Ended lo g r = (x : Bool × ℕ × Code) × (r ≡ some x) × Marked lo g x.2.graph

operand-ends :
    (lo : ℕ) (leaf : Bool) (c : Code) (r : Option (Bool × ℕ × Code))
    → IsValid lo c.graph
    → Ended lo c.graph r
    → (c' : Code) × ((if leaf then some c else (r >>= λ x. some x.2)) ≡ some c')
      × Marked lo c.graph c'.graph
operand-ends lo true c r valid ended = (c, refl, (valid, refl, refl))
operand-ends lo false c r valid (x, e, ok) = rw e (x.2, refl, ok)

module _ (lo bb : ℕ) where
  pub gen_node-ends :
      (fuel p s : ℕ) (c : Code)
      → IsValid lo c.graph
      → Among lo c.graph p
      → p < fuel
      → Ended lo c.graph (gen_node bb fuel p s c)
  unfolding gen_node
  gen_node-ends zero p s c valid here enough = absurd (omega arith)
  gen_node-ends (suc fuel) p s c valid here enough =
      let n = c.graph.nodes p in
      elim (Bool-cases (is_none n.op)) [
        | inl leaf ↦ rw leaf ((false, s, c), refl, (valid, refl, refl))
        | inr op ↦ elim (Bool-cases n.generated) [
          | inl done ↦ rw (op, done) ((false, symbol_of n, c), refl, (valid, refl, refl))
          | inr new ↦
              let (i, l, r) = valid.older p here op in
              let (c₁, e₁, (ok₁, t₁, n₁)) =
                operand-ends lo (is_none (c.graph.nodes n.l).op) c (gen_node bb fuel n.l s c) valid
                  (gen_node-ends fuel n.l s c valid (l.0, omega (arith, here, l))
                    (omega (arith, l))) in
              let (c₂, e₂, (ok₂, t₂, n₂)) =
                operand-ends lo (is_none (c₁.graph.nodes n.r).op) c₁ (gen_node bb fuel n.r s c₁) ok₁
                  (gen_node-ends fuel n.r s c₁ ok₁ (r.0, omega (arith, here, r, n₁))
                    (omega (arith, r))) in
              rw (op, new, e₁, e₂)
                (
                  (
                    true,
                    symbol_of n,
                    record {
                      graph = mark p c₂.graph;
                      newcode = c₂.newcode ++ (node_tac bb c₂.graph n ∷ []);
                    },
                  ),
                  refl,
                  (mark-IsValid lo p c₂.graph ok₂, t₂ ∙ t₁, n₂ ∙ n₁),
                )
        ]
      ]

  leaf-ends :
      (fuel p s : ℕ) (c : Code)
      → IsValid lo c.graph
      → is_none (c.graph.nodes p).op ≡ true
      → 0 < fuel
      → Ended lo c.graph (gen_node bb fuel p s c)
  unfolding gen_node
  leaf-ends zero p s c valid leaf enough = absurd (omega arith)
  leaf-ends (suc fuel) p s c valid leaf enough = rw leaf ((false, s, c), refl, (valid, refl, refl))

  -- The fuel of a node of the block is enough.
  pub node-ends :
      (p s : ℕ) (c : Code)
      → IsValid lo c.graph
      → Among lo c.graph p
      → Ended lo c.graph (gen_node bb ((c.graph.nodes p).id + 1) p s c)
  node-ends p s c valid here = elim (Bool-cases (is_none (c.graph.nodes p).op)) [
    | inl leaf ↦ leaf-ends ((c.graph.nodes p).id + 1) p s c valid leaf (omega arith)
    | inr op ↦
        gen_node-ends ((c.graph.nodes p).id + 1) p s c valid here
          (omega (arith, (valid.older p here op).0))
  ]
