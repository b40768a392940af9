-- ===== src/TacGen/Statement.antt =====
-- The code that src/3ac.c generates for a statement does what the statement means.
use mathlib.Core.Option.{some-injective}
use milac.Prelude.{
  ◌>>=◌, >>=-eq-some, ℕ, zero, suc, List, [], ◌∷◌, ◌≡◌, refl, sym, ap, ◌∙◌, subst, Option, some,
  true, false, ◌==◌, inl, inr, arith, Bool-cases, Option-cases, if◌then◌else◌,
}
use milac.SymTab.{Symbol}
use milac.Tac.Meaning.{Machine, value, assign, exec, exec_op, exec_in}
use milac.Tac.Steps.{Steps, Steps_trans, stop, step, step_op}
use milac.Tac.{Tac, tiff, tjmp, tin, tout, tassign, tlabel}
use milac.TacGen.Expression.{Same-Near, eval-Evaluated}
use milac.TacGen.Listing.{operand, listing, else_listing, node_listing}
use milac.TacGen.Sound.{result, Same, Sound, SoundNode}
use milac.TacGen.Suffix.{
  Suffix, Suffix-tail, operand-Suffix, listing-Suffix, node_listing-Suffix, DistinctLabels,
  after_label-Suffix,
}
use milac.TacGen.{op_tac}
use milac.Tree.Meaning.{eval, run_if, run_while, run_node, run_tree}
use milac.Tree.{
  NodeClass, NodeType, Head, Node, null, node, cl_statement, if_t, while_t, read_t, write_t,
  assign_t,
}

module _ (deref : ℕ → Symbol) (code : List Tac) (owner : ℕ → Node)
    (distinct : DistinctLabels code) where
  -- The code runs on to `rest` with the variables, input and output of `m'`.
  pub record Ran (from : List Tac) (n : Machine) (rest : List Tac) (m' : Machine) : Type 0 where
    pub after : Machine
    pub steps : Steps deref code from n rest after
    pub same : Same owner m' after

  abbrev Runs : (Machine → Option Machine) → (List Tac → List Tac) → Type 0
  Runs run l =
      (m n m' : Machine) (rest : List Tac)
      → Same owner m n
      → run m ≡ some m'
      → Suffix code (l rest)
      → Ran (l rest) n rest m'

  then-Ran :
      {from mid rest : List Tac} {n n' m' : Machine}
      → Steps deref code from n mid n'
      → Ran mid n' rest m'
      → Ran from n rest m'
  then-Ran s r = record { after = r.after; steps = Steps_trans deref code s r.steps; same = r.same }

  label_step :
      (l : ℕ) (rest : List Tac) (n : Machine) → Steps deref code (op_tac tlabel l ∷ rest) n rest n
  unfolding exec
  label_step l rest n = step refl stop

  jump_step :
      (l : ℕ) (next rest : List Tac) (n : Machine)
      → Suffix code (op_tac tlabel l ∷ rest)
      → Steps deref code (op_tac tjmp l ∷ next) n rest n
  jump_step l next rest n f = step (rw (after_label-Suffix code l rest distinct f)) stop

  -- `if false a1 goto r`
  iff_true :
      (i : Tac) (rest : List Tac) (n : Machine) {v : ℕ}
      → i.op ≡ tiff
      → value deref n.env i.a1 ≡ v
      → (v == 0) ≡ false
      → Steps deref code (i ∷ rest) n rest n
  iff_true i rest n e v t = step (ap (λ o. step_op deref code o i rest n) e ∙ rw (v, t)) stop

  iff_false :
      (i : Tac) (next rest : List Tac) (n : Machine) {v : ℕ}
      → i.op ≡ tiff
      → value deref n.env i.a1 ≡ v
      → (v == 0) ≡ true
      → Suffix code (op_tac tlabel i.r ∷ rest)
      → Steps deref code (i ∷ next) n rest n
  iff_false i next rest n e v t f =
      step
        (ap (λ o. step_op deref code o i next n) e
          ∙ rw (v, t) (rw (after_label-Suffix code i.r rest distinct f)))
        stop

  -- the part behind the condition's jump, where the condition holds
  else_skipped :
      (h : Head) (c : Node) (rest : List Tac) (n : Machine)
      → Suffix code (else_listing h c (listing c) rest)
      → Steps deref code (else_listing h c (listing c) rest) n rest n
  else_skipped h null rest n f = label_step h.tac.r rest n
  else_skipped h (node k a b c s) rest n f =
      let behind =
        listing-Suffix code (node k a b c s) _ (Suffix-tail code _ _ (Suffix-tail code _ _ f)) in
      jump_step h.tac.a2 _ rest n behind

  Ran-then :
      {from mid rest : List Tac} {n m' : Machine}
      → Ran from n mid m'
      → ((n' : Machine) → Steps deref code mid n' rest n')
      → Ran from n rest m'
  Ran-then r s = record {
    after = r.after;
    steps = Steps_trans deref code r.steps (s r.after);
    same = r.same;
  }

  else-Ran :
      (h : Head) (c : Node) (fuel : ℕ) (m n m' : Machine) (next rest : List Tac) {v : ℕ}
      → Runs (run_tree deref fuel c) (listing c)
      → Same owner m n
      → run_tree deref fuel c m ≡ some m'
      → h.tac.op ≡ tiff
      → value deref n.env h.tac.a1 ≡ v
      → (v == 0) ≡ true
      → Suffix code (else_listing h c (listing c) rest)
      → Ran (h.tac ∷ next) n rest m'
  unfolding run_tree
  else-Ran h null fuel m n m' next rest ih s e op val t f =
      then-Ran (iff_false h.tac next rest n op val t f) (record {
        after = n;
        steps = stop;
        same = subst (λ z. Same owner z n) (some-injective _ _ e) s;
      })
  else-Ran h (node k a b c sibling) fuel m n m' next rest ih s e op val t f =
      let label = Suffix-tail code _ _ f in
      then-Ran (iff_false h.tac next _ n op val t label) (
        Ran-then (ih m n m' (op_tac tlabel h.tac.a2 ∷ rest) s e (Suffix-tail code _ _ label))
          (label_step h.tac.a2 rest))

  if-Ran :
      (h : Head) (a b c : Node) (fuel : ℕ)
      → Sound deref owner a
      → (h.tac.op ≡ tiff) × (h.tac.a1 ≡ result a)
      → Runs (run_tree deref fuel b) (listing b)
      → Runs (run_tree deref fuel c) (listing c)
      → Runs
          (λ m. run_if (eval deref a m.env) (run_tree deref fuel b m) (run_tree deref fuel c m))
          (λ rest. operand a (listing a) (h.tac ∷ listing b (else_listing h c (listing c) rest)))
  if-Ran h a b c fuel sa (op, a1) ih_b ih_c m n m' rest s e f =
      elim (Option-cases (eval deref a m.env)) [
        | inl fault ↦
            absurd
              (cc (e, ap (λ o. run_if o (run_tree deref fuel b m) (run_tree deref fuel c m)) fault))
        | inr (v, ev) ↦
            let A = eval-Evaluated deref code owner a m n v s sa ev in
            let s' = Same-Near deref code owner m n A.after s A.near in
            let val : value deref A.after.env h.tac.a1 ≡ v =
              ap (value deref A.after.env) a1 ∙ A.holds in
            let body = Suffix-tail code _ _ (operand-Suffix code a (listing-Suffix code a) _ f) in
            let behind = listing-Suffix code b _ body in
            let e' =
              sym (ap (λ o. run_if o (run_tree deref fuel b m) (run_tree deref fuel c m)) ev) ∙ e in
            then-Ran (A.steps (h.tac ∷ listing b (else_listing h c (listing c) rest)))
              (elim (Bool-cases (v == 0)) [
                | inl t ↦
                    let ec =
                      sym
                        (ap (λ z. if z then run_tree deref fuel c m else run_tree deref fuel b m) t)
                      ∙ e' in
                    else-Ran h c fuel m A.after m' _ rest ih_c s' ec op val t behind
                | inr t ↦
                    let eb =
                      sym
                        (ap (λ z. if z then run_tree deref fuel c m else run_tree deref fuel b m) t)
                      ∙ e' in
                    then-Ran (iff_true h.tac _ A.after op val t) (
                      let B = ih_b m A.after m' (else_listing h c (listing c) rest) s' eb body in
                      Ran-then B (λ n'. else_skipped h c rest n' behind))
              ])
      ]

  -- the loop from its condition on
  while-Ran :
      (h : Head) (a b : Node) (body : Machine → Option Machine)
      → Sound deref owner a
      → (h.tac.op ≡ tiff) × (h.tac.a1 ≡ result a)
      → Runs body (listing b)
      → (rest : List Tac)
      → Suffix code (
          op_tac tlabel h.tac.a2
          ∷ operand a
              (listing a)
              (h.tac ∷ listing b (op_tac tjmp h.tac.a2 ∷ op_tac tlabel h.tac.r ∷ rest)))
      → (fuel : ℕ) (m n m' : Machine) → Same owner m n
      → run_while fuel (λ k. eval deref a k.env) body m ≡ some m'
      → Ran
          (operand a
            (listing a)
            (h.tac ∷ listing b (op_tac tjmp h.tac.a2 ∷ op_tac tlabel h.tac.r ∷ rest)))
          n
          rest
          m'
  unfolding run_while
  while-Ran h a b body sa (op, a1) ih rest f zero m n m' s e = cc
  while-Ran h a b body sa (op, a1) ih rest f (suc fuel) m n m' s e =
      elim (Option-cases (eval deref a m.env)) [
        | inl fault ↦ absurd (ground (arith, fault))
        | inr (v, ev) ↦
            let A = eval-Evaluated deref code owner a m n v s sa ev in
            let s' = Same-Near deref code owner m n A.after s A.near in
            let val : value deref A.after.env h.tac.a1 ≡ v =
              ap (value deref A.after.env) a1 ∙ A.holds in
            let loop =
              Suffix-tail code _ _
                (operand-Suffix code a (listing-Suffix code a) _ (Suffix-tail code _ _ f)) in
            let behind = listing-Suffix code b _ loop in
            then-Ran
              (A.steps (h.tac ∷ listing b (op_tac tjmp h.tac.a2 ∷ op_tac tlabel h.tac.r ∷ rest)))
              (elim (Bool-cases (v == 0)) [
                | inl t ↦
                    then-Ran (iff_false h.tac _ rest A.after op val t (Suffix-tail code _ _ behind))
                      (record {
                        after = A.after;
                        steps = stop;
                        same = subst (λ z. Same owner z A.after) (ground (arith, ev)) s';
                      })
                | inr t ↦ elim (Option-cases (body m)) [
                  | inl fault ↦ absurd (ground (arith, ev, fault))
                  | inr (m₁, eb) ↦
                      let B = ih m A.after m₁ _ s' eb loop in
                      let e₁ : run_while fuel (λ k. eval deref a k.env) body m₁ ≡ some m' =
                        ground (arith, ev, eb) in
                      let back = jump_step h.tac.a2 (op_tac tlabel h.tac.r ∷ rest) _ B.after f in
                      then-Ran (iff_true h.tac _ A.after op val t) (
                        then-Ran B.steps (
                          then-Ran back (
                            while-Ran h a b body sa (op, a1) ih rest f fuel m₁ B.after m' B.same
                              e₁)))
                ]
              ])
      ]

  read-Ran :
      (i : Tac) (p : ℕ) (l : List ℕ) (m n m' : Machine) (rest : List Tac)
      → (i.op ≡ tin) × (i.r ≡ p) × (owner p ≡ null)
      → Same owner m n
      → n.input ≡ l
      → exec_in p m l ≡ some m'
      → Ran (i ∷ rest) n rest m'
  unfolding exec exec_op exec_in assign
  read-Ran i p [] m n m' rest sound s l e = cc
  read-Ran i p (v ∷ vs) m n m' rest (op, r, o) s l e =
      let next = assign (record n { input = vs }) i.r v in
      let done : step_op deref code i.op i rest n ≡ some (rest, next) =
        ap (λ z. step_op deref code z i rest n) op
        ∙ (ap (λ z. exec_op deref z i n >>= λ n'. some (rest, n')) op
            ∙ ap (λ z. exec_in i.r n z >>= λ n'. some (rest, n')) l) in
      record {
        after = next;
        steps = step done stop;
        same =
            subst (λ z. Same owner z next) (some-injective _ _ e)
              (record {
                env_same = λ q k. ground (arith, r, s.env_same q k);
                input_same = refl;
                output_same = s.output_same;
              });
      }

  write-Ran :
      (i : Tac) (m n : Machine) (v : ℕ) (rest : List Tac)
      → i.op ≡ tout
      → value deref n.env i.r ≡ v
      → Same owner m n
      → Ran (i ∷ rest) n rest (record m { output = v ∷ m.output })
  unfolding exec exec_op
  write-Ran i m n v rest op r s =
      let next = record n { output = v ∷ n.output } in
      let done : step_op deref code i.op i rest n ≡ some (rest, next) =
        ap (λ z. step_op deref code z i rest n) op
        ∙ (ap (λ z. exec_op deref z i n >>= λ n'. some (rest, n')) op
            ∙ ap (λ z. some (rest, record n { output = z ∷ n.output })) r) in
      record {
        after = next;
        steps = step done stop;
        same = record {
          env_same = s.env_same;
          input_same = s.input_same;
          output_same = ap (λ z. v ∷ z) s.output_same;
        };
      }

  assign-Ran :
      (i : Tac) (p : ℕ) (m n : Machine) (v : ℕ) (rest : List Tac)
      → i.op ≡ tassign
      → value deref n.env i.a1 ≡ v
      → i.r ≡ p
      → Same owner m n
      → Ran (i ∷ rest) n rest (assign m p v)
  unfolding exec exec_op assign
  assign-Ran i p m n v rest op a1 r s =
      let next = assign n i.r v in
      let done : step_op deref code i.op i rest n ≡ some (rest, next) =
        ap (λ z. step_op deref code z i rest n) op
        ∙ (ap (λ z. exec_op deref z i n >>= λ n'. some (rest, n')) op
            ∙ ap (λ z. some (rest, assign n i.r z)) a1) in
      record {
        after = next;
        steps = step done stop;
        same = record {
          env_same = λ q k. ground (arith, r, s.env_same q k);
          input_same = s.input_same;
          output_same = s.output_same;
        };
      }

  node-Ran :
      (k : NodeClass) (ty : NodeType) (h : Head) (a b c sibling : Node) (fuel : ℕ)
      → Sound deref owner a
      → SoundNode deref owner k ty h (node h a b c sibling) a b sibling
      → Runs (run_tree deref fuel b) (listing b)
      → Runs (run_tree deref fuel c) (listing c)
      → Runs
          (run_node deref k ty h
            (λ n. eval deref a n.env)
            (run_tree deref fuel b)
            (run_tree deref fuel c)
            fuel)
          (node_listing k ty h a b c (listing a) (listing b) (listing c))
  node-Ran cl_statement if_t h a b c sibling fuel sa sound ih_b ih_c m n m' rest s e f =
      if-Ran h a b c fuel sa sound ih_b ih_c m n m' rest s e f
  node-Ran cl_statement while_t h a b c sibling fuel sa sound ih_b ih_c m n m' rest s e f =
      then-Ran (label_step h.tac.a2 _ n)
        (while-Ran h a b (run_tree deref fuel b) sa sound ih_b rest f fuel m n m' s e)
  node-Ran cl_statement read_t h a b c sibling fuel sa sound ih_b ih_c m n m' rest s e f =
      read-Ran h.tac h.symbol m.input m n m' rest sound s s.input_same e
  node-Ran cl_statement write_t h a b c sibling fuel sa sound ih_b ih_c m n m' rest s e f =
      let (v, ev, done) = >>=-eq-some (eval deref a m.env) _ e in
      let A = eval-Evaluated deref code owner a m n v s sa ev in
      let holds = ap (value deref A.after.env) sound.1 ∙ A.holds in
      subst (λ z. Ran (operand a (listing a) (h.tac ∷ rest)) n rest z) (some-injective _ _ done)
        (then-Ran (A.steps (h.tac ∷ rest)) (
          write-Ran h.tac m A.after v rest sound.0 holds
            (Same-Near deref code owner m n A.after s A.near)))
  node-Ran cl_statement assign_t h a b c sibling fuel sa sound ih_b ih_c m n m' rest s e f =
      let (v, ev, done) = >>=-eq-some (eval deref a m.env) _ e in
      let A = eval-Evaluated deref code owner a m n v s sa ev in
      let holds = ap (value deref A.after.env) sound.1 ∙ A.holds in
      subst (λ z. Ran (operand a (listing a) (h.tac ∷ rest)) n rest z) (some-injective _ _ done)
        (then-Ran (A.steps (h.tac ∷ rest)) (
          assign-Ran h.tac h.symbol m A.after v rest sound.0 holds sound.2
            (Same-Near deref code owner m n A.after s A.near)))
  node-Ran _ _ h a b c sibling fuel sa sound ih_b ih_c m n m' rest s e f = cc

  pub run_tree-Ran :
      (t : Node) (fuel : ℕ) → Sound deref owner t → Runs (run_tree deref fuel t) (listing t)
  unfolding run_tree listing
  run_tree-Ran null fuel sound m n m' rest s e f = record {
    after = n;
    steps = stop;
    same = subst (λ z. Same owner z n) (some-injective _ _ e) s;
  }
  run_tree-Ran (node h a b c sibling) fuel sound m n m' rest s e f =
      let body =
        run_node deref h.klass h.type h (λ k. eval deref a k.env) (run_tree deref fuel b)
          (run_tree deref fuel c) fuel in
      let (m₁, e₁, e₂) = >>=-eq-some (body m) (run_tree deref fuel sibling) e in
      let R =
        node-Ran h.klass h.type h a b c sibling fuel sound.1 sound.0 (run_tree-Ran b fuel sound.2)
          (run_tree-Ran c fuel sound.3) m n m₁ (listing sibling rest) s e₁ f in
      let after = node_listing-Suffix code h a b c (listing sibling rest) f in
      then-Ran R.steps (run_tree-Ran sibling fuel sound.4 m₁ R.after m' rest R.same e₂ after)
