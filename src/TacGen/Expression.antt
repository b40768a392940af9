-- ===== src/TacGen/Expression.antt =====
-- The code that src/3ac.c generates for an expression leaves its value in its result.
use milac.Prelude.{
  ◌>>=◌, >>=-eq-some, ℕ, ◌%◌, List, ◌∷◌, ◌≡◌, refl, sym, ap, ◌∙◌, some, true, false, ◌⊎◌, inl, inr,
  arith, word_mod, minus_one, neg32, mul32, if◌then◌else◌, subst, ◌*◌, ◌-◌,
}
use mathlib.Core.Option.{some-injective}
use milac.SymTab.{Symbol}
use milac.Tac.Meaning.{Machine, value, binop_value, assign, exec, exec_op}
use milac.Tac.Steps.{Steps, Steps_trans, stop, step, step_op}
use milac.Tac.{Op, Tac, tnone, tiff, tjmp, tin, tout, tassign, tlabel, tmul}
use milac.TacGen.Listing.{operand, listing, node_listing}
use milac.TacGen.Sound.{result, Same, Sound, SoundNode, SoundTemp}
use milac.Tree.Meaning.{eval, eval_node, token_op}
use milac.Tree.{
  NodeClass, NodeType, Head, Node, null, node, cl_expression, id_t, const_t, biop_t, uop_t,
}

module _ (deref : ℕ → Symbol) (code : List Tac) (owner : ℕ → Node) where
  -- Only temporaries differ, and hold the values of their owners.
  pub record Near (env : ℕ → ℕ) (n n' : Machine) : Type 0 where
    pub env_near : (p : ℕ) → (n'.env p ≡ n.env p) ⊎ (eval deref (owner p) env ≡ some (n'.env p))
    pub input_near : n'.input ≡ n.input
    pub output_near : n'.output ≡ n.output

  Near-trans : (env : ℕ → ℕ) (n n' n'' : Machine) → Near env n n' → Near env n' n'' → Near env n n''
  Near-trans env n n' n'' s t = record {
    env_near = λ p. ground (arith, s.env_near p, t.env_near p);
    input_near = t.input_near ∙ s.input_near;
    output_near = t.output_near ∙ s.output_near;
  }

  pub Same-Near : (m n n' : Machine) → Same owner m n → Near m.env n n' → Same owner m n'
  unfolding eval
  Same-Near m n n' s t = record {
    env_same = λ p e. elim (t.env_near p) [
      | inl same ↦ same ∙ s.env_same p e
      | inr owned ↦ absurd (cc (owned, ap (λ z. eval deref z m.env) e))
    ];
    input_same = t.input_near ∙ s.input_same;
    output_same = t.output_near ∙ s.output_same;
  }

  -- The value of a node stays in its result.
  result_kept :
      (a : Node) (env : ℕ → ℕ) (n n' : Machine) {x : ℕ}
      → (owner (result a) ≡ null) ⊎ (owner (result a) ≡ a)
      → eval deref a env ≡ some x
      → value deref n.env (result a) ≡ x
      → Near env n n'
      → value deref n'.env (result a) ≡ x
  unfolding value eval
  result_kept a env n n' (inl o) e v near =
      ground (arith, near.env_near (result a), ap (λ z. eval deref z env) o)
  result_kept a env n n' (inr o) e v near =
      ground (arith, near.env_near (result a), ap (λ z. eval deref z env) o)

  binop_step :
      (op : Op) (i : Tac) (rest : List Tac) (n : Machine) {v : ℕ}
      → i.op ≡ op
      → binop_value op (value deref n.env i.a1) (value deref n.env i.a2) ≡ some v
      → step_op deref code op i rest n ≡ some (rest, assign n i.r v)
  unfolding exec exec_op binop_value
  binop_step tnone i rest n e h = cc
  binop_step tiff i rest n e h = cc
  binop_step tjmp i rest n e h = cc
  binop_step tin i rest n e h = cc
  binop_step tout i rest n e h = cc
  binop_step tassign i rest n e h = cc
  binop_step tlabel i rest n e h = cc
  binop_step _ i rest n e h =
      ap (λ o. exec_op deref o i n >>= λ n'. some (rest, n')) e
      ∙ ap (λ o. o >>= (λ v. some (assign n i.r v)) >>= λ n'. some (rest, n')) h

  -- what the code of an expression does to the target machine `n`
  pub record Evaluates (t : Node) (env : ℕ → ℕ) (v : ℕ) (n : Machine) : Type 0 where
    pub after : Machine
    pub near : Near env n after
    pub holds : value deref after.env (result t) ≡ v
    pub steps : (rest : List Tac) → Steps deref code (operand t (listing t) rest) n rest after

  assign-Near :
      (t : Node) (env : ℕ → ℕ) (n : Machine) (r : ℕ) {v : ℕ}
      → owner r ≡ t
      → eval deref t env ≡ some v
      → Near env n (assign n r v)
  unfolding assign
  assign-Near t env n r o e = record {
    env_near = λ p. ground (arith, o, e, ap (λ z. eval deref z env) o, λ (q : p ≡ r). ap owner q);
    input_near = refl;
    output_near = refl;
  }

  abbrev Listed : NodeClass → NodeType → Head → Node → Node → Node → Node → Type 0
  Listed k ty h a b c sibling =
      (rest : List Tac)
      → listing (node h a b c sibling) rest
        ≡ node_listing k ty h a b c (listing a) (listing b) (listing c) (listing sibling rest)

  abbrev Evaluated : Node → Type 0
  Evaluated t =
      (m n : Machine) (v : ℕ)
      → Same owner m n
      → Sound deref owner t
      → eval deref t m.env ≡ some v
      → Evaluates t m.env v n

  Sound-owned :
      (t : Node) (env : ℕ → ℕ) {v : ℕ}
      → Sound deref owner t
      → eval deref t env ≡ some v
      → (owner (result t) ≡ null) ⊎ (owner (result t) ≡ t)
  unfolding eval
  Sound-owned null env s e = cc
  Sound-owned (node h a b c sibling) env s e = owned h.klass h.type s.0 e
    where
      t : Node
      t = node h a b c sibling

      owned :
          (k : NodeClass) (ty : NodeType) {v : ℕ}
          → SoundNode deref owner k ty h t a b sibling
          → eval_node deref k ty h (eval deref a env) (eval deref b env) env ≡ some v
          → (owner h.tac.r ≡ null) ⊎ (owner h.tac.r ≡ t)
      owned cl_expression id_t s e = inl (ap owner s.1 ∙ s.2)
      owned cl_expression const_t s e = inl (ap owner s.1 ∙ s.2)
      owned cl_expression biop_t s e = inr s.0.2
      owned cl_expression uop_t s e = inr s.0.2
      owned _ _ s e = cc

  operand-Listed :
      (h : Head) (a b c sibling : Node) (k : NodeClass) (ty : NodeType)
      → Listed k ty h a b c sibling
      → h.leaf ≡ false
      → sibling ≡ null
      → (rest : List Tac)
      → operand (node h a b c sibling) (listing (node h a b c sibling)) rest
        ≡ node_listing k ty h a b c (listing a) (listing b) (listing c) rest
  unfolding listing
  operand-Listed h a b c sibling k ty l f e rest =
      ap (λ z. if z then rest else listing (node h a b c sibling) rest) f
      ∙ (l rest
          ∙ ap (λ z. node_listing k ty h a b c (listing a) (listing b) (listing c) (listing z rest))
              e)

  leaf_steps :
      (h : Head) (a b c sibling : Node) (m n : Machine)
      → Same owner m n
      → h.leaf ≡ true
      → h.tac.r ≡ h.symbol
      → owner h.symbol ≡ null
      → Evaluates (node h a b c sibling) m.env (value deref m.env h.symbol) n
  unfolding value
  leaf_steps h a b c sibling m n s l r o = record {
    after = n;
    near = record { env_near = λ p. inl refl; input_near = refl; output_near = refl };
    holds = ap (value deref n.env) r ∙ ground (arith, s.env_same h.symbol o);
    steps = λ rest. rw l stop;
  }

  binop_runs :
      (op : Op) (i : Tac) (n : Machine) {x y v : ℕ}
      → i.op ≡ op
      → value deref n.env i.a1 ≡ x
      → value deref n.env i.a2 ≡ y
      → binop_value op x y ≡ some v
      → (rest : List Tac) → step_op deref code i.op i rest n ≡ some (rest, assign n i.r v)
  binop_runs op i n {x} e ex ey h rest =
      ap (λ o. step_op deref code o i rest n) e
      ∙ binop_step op i rest n e
          (ap (λ z. binop_value op z (value deref n.env i.a2)) ex ∙ (ap (binop_value op x) ey ∙ h))

  -- the last instruction of an operation's code
  temp_steps :
      (h : Head) (t a b c sibling : Node) (env : ℕ → ℕ) (n n' : Machine) {v : ℕ}
      → t ≡ node h a b c sibling
      → SoundTemp deref owner h t sibling
      → eval deref t env ≡ some v
      → Near env n n'
      → ((rest : List Tac) → Steps deref code (operand t (listing t) rest) n (h.tac ∷ rest) n')
      → ((rest : List Tac)
          → step_op deref code h.tac.op h.tac rest n' ≡ some (rest, assign n' h.tac.r v))
      → Evaluates t env v n
  unfolding value assign
  temp_steps h t a b c sibling env n n' {v} same s e near steps run = record {
    after = assign n' h.tac.r v;
    near = Near-trans env n n' (assign n' h.tac.r v) near (assign-Near t env n' h.tac.r s.2 e);
    holds = ap (λ z. value deref (assign n' h.tac.r v).env (result z)) same ∙ ground (arith, s.3);
    steps = λ rest. Steps_trans deref code (steps rest) (step (run rest) stop);
  }

  binop_steps :
      (h : Head) (a b c sibling : Node) (m n : Machine) {v : ℕ}
      → Listed cl_expression biop_t h a b c sibling
      → Same owner m n
      → Sound deref owner a
      → Sound deref owner b
      → SoundNode deref owner cl_expression biop_t h (node h a b c sibling) a b sibling
      → eval deref (node h a b c sibling) m.env ≡ some v
      → eval_node deref cl_expression biop_t h (eval deref a m.env) (eval deref b m.env) m.env
        ≡ some v
      → Evaluated a
      → Evaluated b
      → Evaluates (node h a b c sibling) m.env v n
  binop_steps h a b c sibling m n {v} l s sa sb sound e e' ih_a ih_b =
      let t = node h a b c sibling in
      let (x, ea, e₁) = >>=-eq-some (eval deref a m.env) _ e' in
      let (y, eb, e₂) = >>=-eq-some (eval deref b m.env) _ e₁ in
      let A = ih_a m n x s sa ea in
      let B = ih_b m A.after y (Same-Near m n A.after s A.near) sb eb in
      let at_a =
        result_kept a m.env A.after B.after (Sound-owned a m.env sa ea) ea A.holds B.near in
      temp_steps h t a b c sibling m.env n B.after refl sound.0 e
        (Near-trans m.env n A.after B.after A.near B.near)
        (λ rest.
          subst (λ z. Steps deref code z n (h.tac ∷ rest) B.after)
            (sym (operand-Listed h a b c sibling cl_expression biop_t l sound.0.0 sound.0.1 rest))
            (Steps_trans deref code (A.steps (operand b (listing b) (h.tac ∷ rest)))
              (B.steps (h.tac ∷ rest))))
        (binop_runs (token_op h.op) h.tac B.after sound.1
          (ap (value deref B.after.env) sound.2 ∙ at_a)
          (ap (value deref B.after.env) sound.3 ∙ B.holds) e₂)

  uop_steps :
      (h : Head) (a b c sibling : Node) (m n : Machine) {v : ℕ}
      → Listed cl_expression uop_t h a b c sibling
      → Same owner m n
      → Sound deref owner a
      → SoundNode deref owner cl_expression uop_t h (node h a b c sibling) a b sibling
      → eval deref (node h a b c sibling) m.env ≡ some v
      → eval_node deref cl_expression uop_t h (eval deref a m.env) (eval deref b m.env) m.env
        ≡ some v
      → Evaluated a
      → Evaluates (node h a b c sibling) m.env v n
  unfolding value binop_value mul32 neg32
  uop_steps h a b c sibling m n {v} l s sa sound e e' ih_a =
      let t = node h a b c sibling in
      let (x, ea, e₁) = >>=-eq-some (eval deref a m.env) _ e' in
      let A = ih_a m n x s sa ea in
      let minus : value deref A.after.env h.tac.a2 ≡ minus_one = ground (arith, sound.3, sound.4) in
      let product : (x * minus_one) % word_mod ≡ (word_mod - x % word_mod) % word_mod =
        omega arith in
      temp_steps h t a b c sibling m.env n A.after refl sound.0 e A.near
        (λ rest.
          subst (λ z. Steps deref code z n (h.tac ∷ rest) A.after)
            (sym (operand-Listed h a b c sibling cl_expression uop_t l sound.0.0 sound.0.1 rest))
            (A.steps (h.tac ∷ rest)))
        (binop_runs tmul h.tac A.after sound.1 (ap (value deref A.after.env) sound.2 ∙ A.holds)
          minus (ap some product ∙ e₁))

  node_steps :
      (k : NodeClass) (ty : NodeType) (h : Head) (a b c sibling : Node) (m n : Machine) {v : ℕ}
      → Listed k ty h a b c sibling
      → Same owner m n
      → Sound deref owner a
      → Sound deref owner b
      → SoundNode deref owner k ty h (node h a b c sibling) a b sibling
      → eval deref (node h a b c sibling) m.env ≡ some v
      → eval_node deref k ty h (eval deref a m.env) (eval deref b m.env) m.env ≡ some v
      → Evaluated a
      → Evaluated b
      → Evaluates (node h a b c sibling) m.env v n
  node_steps cl_expression id_t h a b c sibling m n l s sa sb sound e e' ih_a ih_b =
      subst (λ z. Evaluates (node h a b c sibling) m.env z n) (some-injective _ _ e')
        (leaf_steps h a b c sibling m n s sound.0 sound.1 sound.2)
  node_steps cl_expression const_t h a b c sibling m n l s sa sb sound e e' ih_a ih_b =
      subst (λ z. Evaluates (node h a b c sibling) m.env z n) (some-injective _ _ e')
        (leaf_steps h a b c sibling m n s sound.0 sound.1 sound.2)
  node_steps cl_expression biop_t h a b c sibling m n l s sa sb sound e e' ih_a ih_b =
      binop_steps h a b c sibling m n l s sa sb sound e e' ih_a ih_b
  node_steps cl_expression uop_t h a b c sibling m n l s sa sb sound e e' ih_a ih_b =
      uop_steps h a b c sibling m n l s sa sound e e' ih_a
  node_steps _ _ h a b c sibling m n l s sa sb sound e e' ih_a ih_b = cc

  pub eval-Evaluated : (t : Node) → Evaluated t
  unfolding eval listing
  eval-Evaluated null m n v s sound e = cc
  eval-Evaluated (node h a b c sibling) m n v s sound e =
      node_steps h.klass h.type h a b c sibling m n (λ rest. refl) s sound.1 sound.2 sound.0 e e
        (eval-Evaluated a) (eval-Evaluated b)
