-- ===== src/Cse/Steps.antt =====
-- src/cse.c: the first loop of `cse` keeps the graph valid.
use milac.Cse.Valid.{
  Among, IsValid, Grows, After, After-bind, After-some, new_node-IsValid, push_symbol-IsValid,
  remove_symbol-IsValid, insert_key-IsValid, update_key-IsValid,
}
use milac.Cse.{
  Graph, binop, new_node, push_symbol, remove_symbol, insert_key, update_key, name, operand_found,
  operand, operation_found, operation, leave_old, cse_binop, replace_old, cse_assign, cse_ins,
  cse_other, cse_graph,
}
use milac.HashTab.{hash_tab_lookup}
use milac.Prelude.{
  ℕ, ◌+◌, ◌*◌, ◌≤◌, ◌<◌, ◌≡◌, List, [], ◌∷◌, length, Option, none, some, Bool, true, false, Bytes,
  ◌==◌, ◌||◌, ◌>>=◌, if◌then◌else◌, inl, inr, Bool-cases, word_mod, arith,
}
use milac.SymTab.{Symbol}
use milac.Tac.{Op, Tac, tac_is_binop, tnone, tassign}

-- A node of the block, in a graph that has grown by `k` nodes.
abbrev pub Placed : ℕ → ℕ → Graph → ℕ × Graph → Type 0
Placed lo k g x = Grows lo k g x.1 × Among lo x.1 x.0

module _ (deref : ℕ → Symbol) (lo : ℕ) where
  looked_up :
      (g : Graph) (k : Bytes) (A : Type 0) (Q : A → Type 0) (f : Option ℕ → Option A)
      → ((found : Option ℕ) → hash_tab_lookup g.tab k ≡ some found → After Q (f found))
      → After Q (hash_tab_lookup g.tab k >>= f)
  looked_up g k A Q f = After-bind (λ found. hash_tab_lookup g.tab k ≡ some found) Q _ f (λ x e. e)

  operand_found-Placed :
      (p s : ℕ) (found : Option ℕ) (g : Graph)
      → IsValid lo g
      → g.node_count + 1 < word_mod
      → hash_tab_lookup g.tab (name deref p) ≡ some found
      → After (Placed lo 1 g) (operand_found deref p s found g)
  operand_found-Placed p s (some a) g valid small e =
      After-some _ _ ((valid, omega arith, omega arith), valid.named _ a e)
  operand_found-Placed p s none g valid small e =
      let ((ok, more, less), here) =
        new_node-IsValid lo g valid tnone 0 0 s small (λ o. absurd cc) in
      let (a, g₁) = new_node tnone 0 0 s g in
      After-bind (Grows lo 0 g₁) (Placed lo 1 g) _ _
        (insert_key-IsValid lo g₁ ok (name deref p) a here)
        (λ g₂ (ok₂, more₂, less₂). After-some _ _ (
          (push_symbol-IsValid lo g₂ ok₂ a p, omega arith, omega arith),
          (here.0, omega (arith, here)),
        ))

  operand-Placed :
      (p s : ℕ) (g : Graph)
      → IsValid lo g
      → g.node_count + 1 < word_mod
      → After (Placed lo 1 g) (operand deref p s g)
  unfolding operand
  operand-Placed p s g valid small =
      looked_up g (name deref p) _ (Placed lo 1 g) _
        (λ found. operand_found-Placed p s found g valid small)

  operation_found-Placed :
      (op : Op) (a b : ℕ) (found : Option ℕ) (g : Graph) (k : Bytes)
      → IsValid lo g
      → g.node_count + 1 < word_mod
      → Among lo g a
      → Among lo g b
      → hash_tab_lookup g.tab k ≡ some found
      → After (Placed lo 1 g) (operation_found deref op a b found g)
  operation_found-Placed op a b (some n) g k valid small left right e =
      After-some _ _ ((valid, omega arith, omega arith), valid.named _ n e)
  operation_found-Placed op a b none g k valid small left right e =
      let ((ok, more, less), here) =
        new_node-IsValid lo g valid op a b 0 small (λ o. (left, right)) in
      let (n, g₁) = new_node op a b 0 g in
      After-bind (Grows lo 0 g₁) (Placed lo 1 g) _ _
        (insert_key-IsValid lo g₁ ok (binop op (g₁.nodes a).id (g₁.nodes b).id) n here)
        (λ g₂ (ok₂, more₂, less₂).
          After-some _ _ ((ok₂, omega arith, omega arith), (here.0, omega (arith, here))))

  operation-Placed :
      (op : Op) (a b : ℕ) (g : Graph)
      → IsValid lo g
      → g.node_count + 1 < word_mod
      → Among lo g a
      → Among lo g b
      → After (Placed lo 1 g) (operation deref op a b g)
  unfolding operation
  operation-Placed op a b g valid small left right =
      let k = binop op (g.nodes a).id (g.nodes b).id in
      looked_up g k _ (Placed lo 1 g) _
        (λ found. operation_found-Placed op a b found g k valid small left right)

  leave_old-Grows :
      (p : ℕ) (old : Option ℕ) (g : Graph)
      → IsValid lo g
      → hash_tab_lookup g.tab (name deref p) ≡ some old
      → After (Grows lo 0 g) (leave_old deref p old g)
  leave_old-Grows p none g valid e = After-some _ _ (valid, omega arith, omega arith)
  leave_old-Grows p (some a) g valid e =
      update_key-IsValid lo (remove_symbol a p g) (remove_symbol-IsValid lo g valid a p)
        (name deref p) a (valid.named _ a e)

  replace_old-Grows :
      (p a : ℕ) (old : Option ℕ) (g : Graph)
      → IsValid lo g
      → Among lo g a
      → After (Grows lo 0 g) (replace_old deref p a old g)
  replace_old-Grows p a none g valid here = After-some _ _ (valid, omega arith, omega arith)
  replace_old-Grows p a (some n) g valid here =
      update_key-IsValid lo (remove_symbol n p g) (remove_symbol-IsValid lo g valid n p)
        (name deref p) a here

  -- the last write of `cse_binop`
  key-Grows :
      (own : Bool) (k : Bytes) (n : ℕ) (g : Graph)
      → IsValid lo g
      → Among lo g n
      → After (Grows lo 0 g) (if own then update_key k n g else insert_key k n g)
  key-Grows true k n g valid here = update_key-IsValid lo g valid k n here
  key-Grows false k n g valid here = insert_key-IsValid lo g valid k n here

  -- A graph that has grown less, from a later one.
  Grows-later :
      (j k : ℕ) (g g' : Graph) (o : Option Graph)
      → After (Grows lo 0 g') o
      → g.node_count ≤ g'.node_count
      → g'.node_count ≤ g.node_count + j
      → j ≤ k
      → After (Grows lo k g) o
  Grows-later j k g g' o after more less room g'' e =
      let (ok, m, l) = after g'' e in (ok, omega arith, omega arith)

  cse_binop-Grows :
      (i : Tac) (g : Graph)
      → IsValid lo g
      → g.node_count + 3 < word_mod
      → After (Grows lo 3 g) (cse_binop deref i g)
  unfolding cse_binop
  cse_binop-Grows i g valid small =
      After-bind (Placed lo 1 g) (Grows lo 3 g) _ _ (operand-Placed i.a1 i.a1 g valid (omega arith))
        (λ (a, g₁) ((ok₁, m₁, l₁), h₁).
          After-bind (Placed lo 1 g₁) (Grows lo 3 g) _ _
            (operand-Placed i.a2 i.a2 g₁ ok₁ (omega arith))
            (λ (b, g₂) ((ok₂, m₂, l₂), h₂).
              After-bind (Placed lo 1 g₂) (Grows lo 3 g) _ _
                (operation-Placed i.op a b g₂ ok₂ (omega arith) (h₁.0, omega (arith, h₁)) h₂)
                (λ (n, g₃) ((ok₃, m₃, l₃), h₃).
                  let g₄ = push_symbol n i.r g₃ in
                  let ok₄ = push_symbol-IsValid lo g₃ ok₃ n i.r in
                  looked_up g₄ (name deref i.r) _ (Grows lo 3 g) _ (λ old e.
                    After-bind (Grows lo 0 g₄) (Grows lo 3 g) _ _ (leave_old-Grows i.r old g₄ ok₄ e)
                      (λ g₅ (ok₅, m₅, l₅).
                        Grows-later 3 3 g g₅ _
                          (key-Grows ((i.r == i.a1) || (i.r == i.a2)) (name deref i.r) n g₅ ok₅
                            (h₃.0, omega (arith, h₃)))
                          (omega arith) (omega arith) (omega arith))))))

  cse_assign-Grows :
      (i : Tac) (g : Graph)
      → IsValid lo g
      → g.node_count + 3 < word_mod
      → After (Grows lo 3 g) (cse_assign deref i g)
  unfolding cse_assign
  cse_assign-Grows i g valid small =
      After-bind (Placed lo 1 g) (Grows lo 3 g) _ _ (operand-Placed i.a1 0 g valid (omega arith))
        (λ (a, g₁) ((ok₁, m₁, l₁), h₁).
          let g₂ = push_symbol a i.r g₁ in
          let ok₂ = push_symbol-IsValid lo g₁ ok₁ a i.r in
          looked_up g₂ (name deref i.r) _ (Grows lo 3 g) _ (λ old e.
            After-bind (Grows lo 0 g₂) (Grows lo 3 g) _ _ (replace_old-Grows i.r a old g₂ ok₂ h₁)
              (λ g₃ (ok₃, m₃, l₃).
                Grows-later 1 3 g g₃ _
                  (insert_key-IsValid lo g₃ ok₃ (name deref i.r) a (h₁.0, omega (arith, h₁)))
                  (omega arith) (omega arith) (omega arith))))

  cse_other-Grows :
      (op : Op) (i : Tac) (g : Graph)
      → IsValid lo g
      → g.node_count + 3 < word_mod
      → After (Grows lo 3 g) (cse_other deref op i g)
  cse_other-Grows tassign i g valid small = cse_assign-Grows i g valid small
  cse_other-Grows _ i g valid small = After-some _ _ (valid, omega arith, omega arith)

  cse_ins-Grows :
      (i : Tac) (g : Graph)
      → IsValid lo g
      → g.node_count + 3 < word_mod
      → After (Grows lo 3 g) (cse_ins deref i g)
  unfolding cse_ins
  cse_ins-Grows i g valid small = elim (Bool-cases (tac_is_binop i.op)) [
    | inl binary ↦ rw binary (cse_binop-Grows i g valid small)
    | inr other ↦ rw other (cse_other-Grows i.op i g valid small)
  ]

  -- The loop leaves a valid graph with at most three new nodes for each instruction.
  pub cse_graph-Grows :
      (is : List Tac) (g : Graph)
      → IsValid lo g
      → g.node_count + 3 * length is < word_mod
      → After (Grows lo (3 * length is) g) (cse_graph deref is g)
  unfolding cse_graph
  cse_graph-Grows [] g valid small = After-some _ _ (valid, omega arith, omega arith)
  cse_graph-Grows (i ∷ is) g valid small =
      After-bind (Grows lo 3 g) (Grows lo (3 * length (i ∷ is)) g) _ _
        (cse_ins-Grows i g valid (omega arith))
        (λ g₁ (ok, more, less) g₂ e.
          let (ok₂, m, l) = cse_graph-Grows is g₁ ok (omega arith) g₂ e in
          (ok₂, omega arith, omega arith))
