-- ===== src/TacGen/Sound.antt =====
-- Which syntax trees the code of src/3ac.c is right for: the operands of their instructions are the
-- results of their children, and a temporary holds one value. `owner` gives the node whose value a
-- temporary holds; nodes may be shared, as `new_const` and `new_unop` of src/tree.c share them. It is
-- `null` for all other symbols.
use milac.Prelude.{ℕ, ◌≡◌, true, false, minus_one}
use milac.SymTab.{Symbol}
use milac.Tac.Meaning.{Machine, is_const}
use milac.Tac.{tiff, tin, tout, tassign, tmul}
use milac.Tree.Meaning.{token_op}
use milac.Tree.{
  NodeClass, NodeType, Head, Node, null, node, cl_statement, cl_expression, if_t, while_t, read_t,
  write_t, assign_t, id_t, const_t, biop_t, uop_t,
}

-- `t->tac.r`
abbrev pub result : Node → ℕ
result null = 0
result (node h _ _ _ _) = h.tac.r

module _ (owner : ℕ → Node) where
  -- the same variables, input and output
  pub record Same (m n : Machine) : Type 0 where
    pub env_same : (p : ℕ) → owner p ≡ null → n.env p ≡ m.env p
    pub input_same : n.input ≡ m.input
    pub output_same : n.output ≡ m.output

module _ (deref : ℕ → Symbol) (owner : ℕ → Node) where
  abbrev pub SoundLeaf : Head → Type 0
  SoundLeaf h = (h.leaf ≡ true) × (h.tac.r ≡ h.symbol) × (owner h.symbol ≡ null)

  abbrev pub SoundTemp : Head → Node → Node → Type 0
  SoundTemp h t sibling =
      (h.leaf ≡ false) × (sibling ≡ null) × (owner h.tac.r ≡ t) × (is_const (deref h.tac.r) ≡ false)

  abbrev pub SoundNode : NodeClass → NodeType → Head → Node → Node → Node → Node → Type 0
  SoundNode cl_expression id_t h t a b sibling = SoundLeaf h
  SoundNode cl_expression const_t h t a b sibling = SoundLeaf h
  SoundNode cl_expression biop_t h t a b sibling =
      SoundTemp h t sibling
      × (h.tac.op ≡ token_op h.op)
      × (h.tac.a1 ≡ result a)
      × (h.tac.a2 ≡ result b)
  SoundNode cl_expression uop_t h t a b sibling =
      SoundTemp h t sibling
      × (h.tac.op ≡ tmul)
      × (h.tac.a1 ≡ result a)
      × (is_const (deref h.tac.a2) ≡ true)
      × ((deref h.tac.a2).val ≡ minus_one)
  SoundNode cl_statement if_t h t a b sibling = (h.tac.op ≡ tiff) × (h.tac.a1 ≡ result a)
  SoundNode cl_statement while_t h t a b sibling = (h.tac.op ≡ tiff) × (h.tac.a1 ≡ result a)
  SoundNode cl_statement read_t h t a b sibling =
      (h.tac.op ≡ tin) × (h.tac.r ≡ h.symbol) × (owner h.symbol ≡ null)
  SoundNode cl_statement write_t h t a b sibling = (h.tac.op ≡ tout) × (h.tac.r ≡ result a)
  SoundNode cl_statement assign_t h t a b sibling =
      (h.tac.op ≡ tassign) × (h.tac.a1 ≡ result a) × (h.tac.r ≡ h.symbol) × (owner h.symbol ≡ null)
  SoundNode _ _ h t a b sibling = Unit

  abbrev pub Sound : Node → Type 0
  Sound null = Unit
  Sound (node h a b c sibling) =
      SoundNode h.klass h.type h (node h a b c sibling) a b sibling
      × Sound a
      × Sound b
      × Sound c
      × Sound sibling
