-- ===== src/Tree/Meant.antt =====
-- The statements that `new_if` and `new_loop` of src/tree.c build mean what the grammar means by them.
use milac.Prelude.{
  ◌>>=◌, ℕ, zero, suc, ◌+◌, ◌≡◌, ◌≢◌, ◌⊎◌, inl, inr, refl, ap, sym, ◌∙◌, Option, none, some, true,
  arith, if◌then◌else◌, Bool-cases, Option-cases, signed_lt,
}
use milac.SymTab.{Symbol, sconst}
use milac.Tac.Meaning.{Machine, value, type_is_const}
use milac.Tree.Builder.{Builder, symbol_at}
use milac.Tree.Built.{
  chosen-some, no_loop-some, fresh_if-some, fresh_loop-some, new_if_const, new_if_fresh,
  new_loop_const, new_loop_fresh, new_loop-null, add-one, is_const_t-eq, is_const_node,
}
use milac.Tree.Construct.{new_if, new_loop, is_const_t, is_positive}
use milac.Tree.Meaning.{eval, eval_node, run_node, run_if, run_while, run_tree}
use milac.Tree.{Head, Node, null, node, cl_statement, cl_expression, if_t, while_t, const_t}

module _ (deref : ℕ → Symbol) where
  -- `deref` reads the heap of the symbol table.
  abbrev pub Reads : Builder → Type 0
  Reads s = (p : ℕ) (y : Symbol) → symbol_at s.st.heap p ≡ some y → deref p ≡ y

  -- a node of `new_const`, if it is of its type
  abbrev pub IsConstNode : Node → Type 0
  IsConstNode null = Unit
  IsConstNode (node h _ _ _ _) =
      h.type ≡ const_t → (h.klass ≡ cl_expression) × ((deref h.symbol).type ≡ sconst)

  -- A condition is a comparison, or what it was folded to.
  abbrev pub IsTruth : Node → Type 0
  IsTruth c = (env : ℕ → ℕ) (v : ℕ) → eval deref c env ≡ some v → (v ≡ 0) ⊎ (v ≡ 1)

  const-eval :
      (h : Head) (a b c d : Node) (env : ℕ → ℕ)
      → h.type ≡ const_t
      → h.klass ≡ cl_expression
      → (deref h.symbol).type ≡ sconst
      → eval deref (node h a b c d) env ≡ some (deref h.symbol).val
  unfolding eval value
  const-eval h a b c d env ty k const =
      ap (λ z. eval_node deref h.klass z h (eval deref a env) (eval deref b env) env) ty
      ∙ (ap (λ z. eval_node deref z const_t h (eval deref a env) (eval deref b env) env) k
          ∙ ap (λ z. some (if type_is_const z then (deref h.symbol).val else env h.symbol)) const)

  run-null : (fuel : ℕ) (m : Machine) → run_tree deref fuel null m ≡ some m
  unfolding run_tree
  run-null fuel m = refl

  bind-null : (o : Option Machine) (fuel : ℕ) → o >>= run_tree deref fuel null ≡ o
  unfolding run_tree
  bind-null none fuel = refl
  bind-null (some m) fuel = refl

  if-run :
      (h : Head) (c t e : Node) (fuel : ℕ) (m : Machine)
      → h.klass ≡ cl_statement
      → h.type ≡ if_t
      → run_tree deref fuel (node h c t e null) m
        ≡ run_if (eval deref c m.env) (run_tree deref fuel t m) (run_tree deref fuel e m)
  unfolding run_tree
  if-run h c t e fuel m k ty =
      let ec = λ (n : Machine). eval deref c n.env in
      let rt = run_tree deref fuel t in
      let re = run_tree deref fuel e in
      bind-null (run_node deref h.klass h.type h ec rt re fuel m) fuel
      ∙ (ap (λ z. run_node deref z h.type h ec rt re fuel m) k
          ∙ ap (λ z. run_node deref cl_statement z h ec rt re fuel m) ty)

  while-run :
      (h : Head) (c b : Node) (fuel : ℕ) (m : Machine)
      → h.klass ≡ cl_statement
      → h.type ≡ while_t
      → run_tree deref fuel (node h c b null null) m
        ≡ run_while fuel (λ n. eval deref c n.env) (run_tree deref fuel b) m
  unfolding run_tree
  while-run h c b fuel m k ty =
      let ec = λ (n : Machine). eval deref c n.env in
      let rb = run_tree deref fuel b in
      let rn = run_tree deref fuel null in
      bind-null (run_node deref h.klass h.type h ec rb rn fuel m) fuel
      ∙ (ap (λ z. run_node deref z h.type h ec rb rn fuel m) k
          ∙ ap (λ z. run_node deref cl_statement z h ec rb rn fuel m) ty)

  -- The node that `new_if` returns runs as its condition chooses, whether the condition is a constant
  -- or not, if its values are 0 and 1 only.
  pub new_if-run :
      (c t e : Node) (s : Builder) {n : Node} {s' : Builder}
      → Reads s
      → IsConstNode c
      → IsTruth c
      → new_if c t e s ≡ some (n, s')
      → (fuel : ℕ) (m : Machine)
      → run_tree deref fuel n m
        ≡ run_if (eval deref c m.env) (run_tree deref fuel t m) (run_tree deref fuel e m)
  unfolding new_if signed_lt
  new_if-run null t e s reads const truth h fuel m = absurd (cc h)
  new_if-run (node hc a b c d) t e s {n} reads const truth h fuel m =
      elim (Bool-cases (is_const_t hc.type)) [
        | inl k ↦
            let (klass, type) = const (is_const_t-eq hc.type k) in
            let (y, at_p, same) =
              chosen-some hc.symbol t e s (sym (new_if_const hc a b c d t e s k) ∙ h) in
            let ev =
              const-eval hc a b c d m.env (is_const_t-eq hc.type k) klass type
              ∙ ap (λ z. some z.val) (reads hc.symbol y at_p) in
            ap (λ z. run_tree deref fuel z m) same
            ∙ (by_value y.val (truth m.env y.val ev)
                ∙ sym (ap (λ o. run_if o (run_tree deref fuel t m) (run_tree deref fuel e m)) ev))
        | inr k ↦
            let (h', same, klass, type) =
              fresh_if-some hc (node hc a b c d) t e s
                (sym (new_if_fresh hc a b c d t e s k) ∙ h) in
            ap (λ z. run_tree deref fuel z m) same
            ∙ if-run h' (node hc a b c d) t e fuel m klass type
      ]
    where
      by_value :
          (v : ℕ)
          → (v ≡ 0) ⊎ (v ≡ 1)
          → run_tree deref fuel (if is_positive v then t else e) m
            ≡ run_if (some v) (run_tree deref fuel t m) (run_tree deref fuel e m)
      by_value v (inl z) = rw z
      by_value v (inr z) = rw z

  -- `run_while` on a condition that is false, and on one that never is
  while_false :
      (fuel : ℕ) (ec : Machine → Option ℕ) (rb : Machine → Option Machine) (m : Machine)
      → ec m ≡ some 0
      → run_while (fuel + 1) ec rb m ≡ some m
  unfolding run_while
  while_false fuel ec rb m h = rw (add-one fuel) (ground (arith, h))

  while_true :
      (fuel : ℕ) (ec : Machine → Option ℕ) (rb : Machine → Option Machine) (m : Machine) {v : ℕ}
      → ((n : Machine) → ec n ≡ some v)
      → v ≢ 0
      → run_while fuel ec rb m ≡ none
  unfolding run_while
  while_true zero ec rb m h k = refl
  while_true (suc fuel) ec rb m {v} h k = elim (Option-cases (rb m)) [
    | inl stuck ↦ ground (arith, h m, stuck)
    | inr (n, ran) ↦ ground (arith, h m, ran, while_true fuel ec rb n h k)
  ]

  -- The node that `new_loop` returns runs as the loop does, if the condition is no constant or a
  -- constant that is 0.
  pub new_loop-run :
      (c body : Node) (s : Builder) {n : Node} {s' : Builder}
      → Reads s
      → IsConstNode c
      → (is_const_node c ≡ true → (env : ℕ → ℕ) → eval deref c env ≡ some 0)
      → new_loop c body s ≡ some (n, s')
      → (fuel : ℕ) (m : Machine)
      → run_tree deref (fuel + 1) n m
        ≡ run_while (fuel + 1) (λ k. eval deref c k.env) (run_tree deref (fuel + 1) body) m
  new_loop-run null body s reads const vanishes h fuel m =
      absurd (cc (sym (new_loop-null body s) ∙ h))
  new_loop-run (node hc a b c d) body s reads const vanishes h fuel m =
      elim (Bool-cases (is_const_t hc.type)) [
        | inl k ↦
            let (y, at_p, same) =
              no_loop-some hc.symbol s (sym (new_loop_const hc a b c d body s k) ∙ h) in
            ap (λ z. run_tree deref (fuel + 1) z m) same
            ∙ (run-null (fuel + 1) m
                ∙ sym (
                    while_false fuel (λ n. eval deref (node hc a b c d) n.env)
                      (run_tree deref (fuel + 1) body) m (vanishes k m.env)))
        | inr k ↦
            let (h', same, klass, type) =
              fresh_loop-some hc (node hc a b c d) body s
                (sym (new_loop_fresh hc a b c d body s k) ∙ h) in
            ap (λ z. run_tree deref (fuel + 1) z m) same
            ∙ while-run h' (node hc a b c d) body (fuel + 1) m klass type
      ]

  -- A loop whose condition is a constant other than 0 never ends, and the node that `new_loop` returns
  -- for it, which is NULL, ends at once.
  pub new_loop_lost :
      (h : Head) (a b c d body : Node) (s : Builder) {n : Node} {s' : Builder}
      → h.type ≡ const_t
      → h.klass ≡ cl_expression
      → (deref h.symbol).type ≡ sconst
      → (deref h.symbol).val ≢ 0
      → new_loop (node h a b c d) body s ≡ some (n, s')
      → (fuel : ℕ) (m : Machine)
      → (run_while fuel (λ k. eval deref (node h a b c d) k.env) (run_tree deref fuel body) m
          ≡ none)
        × (run_tree deref fuel n m ≡ some m)
  new_loop_lost h a b c d body s ty k const vanishes e fuel m =
      let (y, at_p, same) =
        no_loop-some h.symbol s (sym (new_loop_const h a b c d body s (ap is_const_t ty)) ∙ e) in
      (
        while_true fuel (λ n. eval deref (node h a b c d) n.env) (run_tree deref fuel body) m
            (λ n. const-eval h a b c d n.env ty k const) vanishes,
        ap (λ z. run_tree deref fuel z m) same ∙ run-null fuel m,
      )
