-- ===== src/TacGen/Suffix.antt =====
-- What follows the code of a tree of src/3ac.c is an end of the whole code, and a jump goes behind
-- its label.
use milac.Prelude.{
  ℕ, List, [], ◌∷◌, ◌++◌, ◌≡◌, ◌≢◌, refl, sym, ◌∙◌, subst, if◌then◌else◌, some, Bool, true, false,
  ◌==◌, ◌&&◌, arith, Bool-cases, inl, inr,
}
use mathlib.Core.List.{append_assoc}
use milac.Tac.Steps.{after_label, is_label}
use milac.Tac.{Tac, tlabel}
use milac.TacGen.Listing.{operand, else_listing, node_listing, listing}
use milac.TacGen.{op_tac}
use milac.Tree.{
  NodeClass, NodeType, Head, Node, null, node, cl_statement, cl_expression, if_t, while_t, read_t,
  write_t, assign_t, biop_t, uop_t,
}

-- `rest` is an end of the code.
abbrev pub Suffix : List Tac → List Tac → Type 0
Suffix code rest = (front : List Tac) × (code ≡ front ++ rest)

module _ (code : List Tac) where
  pub Suffix-tail : (i : Tac) (rest : List Tac) → Suffix code (i ∷ rest) → Suffix code rest
  Suffix-tail i rest (front, e) = (front ++ (i ∷ []), e ∙ sym (append_assoc front (i ∷ []) rest))

  abbrev Shortens : (List Tac → List Tac) → Type 0
  Shortens l = (rest : List Tac) → Suffix code (l rest) → Suffix code rest

  pub operand-Suffix : (t : Node) → Shortens (listing t) → Shortens (operand t (listing t))
  operand-Suffix null s rest f = f
  operand-Suffix (node h a b c sibling) s rest f = by_leaf h.leaf (s rest) f
    where
      by_leaf :
          (leaf : Bool)
          → (Suffix code (listing (node h a b c sibling) rest) → Suffix code rest)
          → Suffix code (if leaf then rest else listing (node h a b c sibling) rest)
          → Suffix code rest
      by_leaf true s f = f
      by_leaf false s f = s f

  else-Suffix :
      (h : Head) (c : Node) → Shortens (listing c) → Shortens (else_listing h c (listing c))
  else-Suffix h null s rest f = Suffix-tail _ _ f
  else-Suffix h (node _ _ _ _ _) s rest f =
      Suffix-tail _ _ (s _ (Suffix-tail _ _ (Suffix-tail _ _ f)))

  node-Suffix :
      (k : NodeClass) (ty : NodeType) (h : Head) (a b c : Node)
      → Shortens (listing a)
      → Shortens (listing b)
      → Shortens (listing c)
      → Shortens (node_listing k ty h a b c (listing a) (listing b) (listing c))
  node-Suffix cl_statement if_t h a b c sa sb sc rest f =
      else-Suffix h c sc rest (sb _ (Suffix-tail _ _ (operand-Suffix a sa _ f)))
  node-Suffix cl_statement while_t h a b c sa sb sc rest f =
      let body = Suffix-tail _ _ (operand-Suffix a sa _ (Suffix-tail _ _ f)) in
      Suffix-tail _ _ (Suffix-tail _ _ (sb _ body))
  node-Suffix cl_statement read_t h a b c sa sb sc rest f = Suffix-tail _ _ f
  node-Suffix cl_statement write_t h a b c sa sb sc rest f =
      Suffix-tail _ _ (operand-Suffix a sa _ f)
  node-Suffix cl_statement assign_t h a b c sa sb sc rest f =
      Suffix-tail _ _ (operand-Suffix a sa _ f)
  node-Suffix cl_expression biop_t h a b c sa sb sc rest f =
      Suffix-tail _ _ (operand-Suffix b sb _ (operand-Suffix a sa _ f))
  node-Suffix cl_expression uop_t h a b c sa sb sc rest f =
      Suffix-tail _ _ (operand-Suffix a sa _ f)
  node-Suffix _ _ h a b c sa sb sc rest f = f

  pub listing-Suffix : (t : Node) → Shortens (listing t)
  unfolding listing
  listing-Suffix null rest f = f
  listing-Suffix (node h a b c sibling) rest f = listing-Suffix sibling rest (
      node-Suffix h.klass h.type h a b c (listing-Suffix a) (listing-Suffix b) (listing-Suffix c)
        (listing sibling rest) f)

  pub node_listing-Suffix :
      (h : Head) (a b c : Node)
      → Shortens (node_listing h.klass h.type h a b c (listing a) (listing b) (listing c))
  node_listing-Suffix h a b c =
      node-Suffix h.klass h.type h a b c (listing-Suffix a) (listing-Suffix b) (listing-Suffix c)

-- No instruction sets the label.
abbrev pub Unlabelled : ℕ → List Tac → Type 0
Unlabelled l [] = Unit
Unlabelled l (i ∷ is) = (is_label i.op ≡ true → i.r ≢ l) × Unlabelled l is

-- No label is set twice.
abbrev pub DistinctLabels : List Tac → Type 0
DistinctLabels [] = Unit
DistinctLabels (i ∷ is) = (is_label i.op ≡ true → Unlabelled i.r is) × DistinctLabels is

Unlabelled-none :
    (l : ℕ) (front rest : List Tac) → Unlabelled l (front ++ (op_tac tlabel l ∷ rest)) → ⊥
Unlabelled-none l [] rest u = u.0 refl refl
Unlabelled-none l (i ∷ front) rest u = Unlabelled-none l front rest u.1

after_label-front :
    (l : ℕ) (front rest : List Tac)
    → DistinctLabels (front ++ (op_tac tlabel l ∷ rest))
    → after_label l (front ++ (op_tac tlabel l ∷ rest)) ≡ some rest
unfolding after_label
after_label-front l [] rest d = ground arith
after_label-front l (i ∷ front) rest d = elim (Bool-cases (is_label i.op && i.r == l)) [
  | inl e ↦
      let label : is_label i.op ≡ true = ground arith in
      let same : i.r ≡ l = ground arith in
      let again = subst (λ z. Unlabelled z (front ++ (op_tac tlabel l ∷ rest))) same (d.0 label) in
      absurd (Unlabelled-none l front rest again)
  | inr e ↦ rw e (after_label-front l front rest d.1)
]

pub after_label-Suffix :
    (code : List Tac) (l : ℕ) (rest : List Tac)
    → DistinctLabels code
    → Suffix code (op_tac tlabel l ∷ rest)
    → after_label l code ≡ some rest
after_label-Suffix code l rest d (front, e) =
    rw e (after_label-front l front rest (subst DistinctLabels e d))
