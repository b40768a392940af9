-- ===== src/TacGen/Listing.antt =====
-- The instructions of a tree in order, in front of those that follow them, and that `gen` of
-- src/3ac.c pushes exactly these.
use milac.Prelude.{
  List, [], ◌∷◌, ◌≡◌, refl, ◌∙◌, Option, some, ◌>>=◌, Bool, true, false, if◌then◌else◌, inl, inr,
  Bool-cases,
}
use milac.Tac.{Tac, tlabel, tjmp}
use milac.TacGen.{TacCode, op_tac, push_tac, gen_operand, gen_else, gen_node, gen}
use milac.Tree.{
  NodeClass, NodeType, Head, Node, null, node, cl_statement, cl_expression, if_t, while_t, read_t,
  write_t, assign_t, biop_t, uop_t,
}

-- `ls` is the listing of the operand.
abbrev pub operand : Node → (List Tac → List Tac) → List Tac → List Tac
operand null ls rest = rest
operand (node h _ _ _ _) ls rest = if h.leaf then rest else ls rest

abbrev pub else_listing : Head → Node → (List Tac → List Tac) → List Tac → List Tac
else_listing h null lc rest = op_tac tlabel h.tac.r ∷ rest
else_listing h (node _ _ _ _ _) lc rest =
    op_tac tjmp h.tac.a2 ∷ op_tac tlabel h.tac.r ∷ lc (op_tac tlabel h.tac.a2 ∷ rest)

abbrev pub node_listing :
    NodeClass
    → NodeType
    → Head
    → Node
    → Node
    → Node
    → (List Tac → List Tac)
    → (List Tac → List Tac)
    → (List Tac → List Tac)
    → List Tac
    → List Tac
node_listing cl_statement if_t h a b c la lb lc rest =
    operand a la (h.tac ∷ lb (else_listing h c lc rest))
node_listing cl_statement while_t h a b c la lb lc rest =
    op_tac tlabel h.tac.a2
    ∷ operand a la (h.tac ∷ lb (op_tac tjmp h.tac.a2 ∷ op_tac tlabel h.tac.r ∷ rest))
node_listing cl_statement read_t h a b c la lb lc rest = h.tac ∷ rest
node_listing cl_statement write_t h a b c la lb lc rest = operand a la (h.tac ∷ rest)
node_listing cl_statement assign_t h a b c la lb lc rest = operand a la (h.tac ∷ rest)
node_listing cl_statement _ h a b c la lb lc rest = rest
node_listing cl_expression biop_t h a b c la lb lc rest = operand a la (operand b lb (h.tac ∷ rest))
node_listing cl_expression uop_t h a b c la lb lc rest = operand a la (h.tac ∷ rest)
node_listing cl_expression _ h a b c la lb lc rest = rest

unfoldable pub listing : Node → List Tac → List Tac
listing null rest = rest
listing (node h a b c sibling) rest =
    node_listing h.klass h.type h a b c (listing a) (listing b) (listing c) (listing sibling rest)

unfoldable pub push_all : List Tac → TacCode → TacCode
push_all [] code = code
push_all (i ∷ is) code = push_all is (push_tac i code)

abbrev pub IsNode : Node → Type 0
IsNode null = ◌≡◌ {A = Bool} true false
IsNode (node _ _ _ _ _) = Unit

-- The node has the operands that `gen` follows.
abbrev pub HasOperands : NodeClass → NodeType → Node → Node → Type 0
HasOperands cl_statement if_t a b = IsNode a
HasOperands cl_statement while_t a b = IsNode a
HasOperands cl_statement write_t a b = IsNode a
HasOperands cl_statement assign_t a b = IsNode a
HasOperands cl_statement _ a b = Unit
HasOperands cl_expression biop_t a b = IsNode a × IsNode b
HasOperands cl_expression uop_t a b = IsNode a
HasOperands cl_expression _ a b = Unit

abbrev pub IsComplete : Node → Type 0
IsComplete null = Unit
IsComplete (node h a b c sibling) =
    HasOperands h.klass h.type a b × IsComplete a × IsComplete b × IsComplete c × IsComplete sibling

-- `g` pushes what `l` lists.
abbrev Pushes : (TacCode → Option TacCode) → (List Tac → List Tac) → Type 0
Pushes g l =
    (code : TacCode)
    → (code' : TacCode) × (g code ≡ some code')
      × ((rest : List Tac) → push_all (l rest) code ≡ push_all rest code')

operand-Pushes :
    (t : Node) (g : TacCode → Option TacCode) (l : List Tac → List Tac)
    → IsNode t
    → Pushes g l
    → Pushes (gen_operand t g) (operand t l)
operand-Pushes null g l n p code = cc
operand-Pushes (node h _ _ _ _) g l n p code = elim (Bool-cases h.leaf) [
  | inl e ↦ (code, rw e, λ rest. rw e)
  | inr e ↦ rw e (p code)
]

push-Pushes : (i : Tac) → Pushes (λ code. some (push_tac i code)) (λ rest. i ∷ rest)
unfolding push_all
push-Pushes i code = (push_tac i code, refl, λ rest. refl)

-- pushed in front of `g`
before-Pushes :
    (i : Tac) (g : TacCode → Option TacCode) (l : List Tac → List Tac)
    → Pushes g l
    → Pushes (λ code. g (push_tac i code)) (λ rest. i ∷ l rest)
unfolding push_all
before-Pushes i g l p code = p (push_tac i code)

seq-Pushes :
    (g g' : TacCode → Option TacCode) (l l' : List Tac → List Tac)
    → Pushes g l
    → Pushes g' l'
    → Pushes (λ code. g code >>= g') (λ rest. l (l' rest))
seq-Pushes g g' l l' p p' code =
    let (code₁, e₁, all₁) = p code in
    let (code₂, e₂, all₂) = p' code₁ in (code₂, rw e₁ e₂, λ rest. all₁ (l' rest) ∙ all₂ rest)

operand-push :
    (h : Head) (a : Node) (g : TacCode → Option TacCode) (l : List Tac → List Tac)
    → IsNode a
    → Pushes g l
    → Pushes
        (λ code. gen_operand a g code >>= λ code₁. some (push_tac h.tac code₁))
        (λ rest. operand a l (h.tac ∷ rest))
operand-push h a g l n p =
    seq-Pushes (gen_operand a g) (λ code. some (push_tac h.tac code)) (operand a l)
      (λ rest. h.tac ∷ rest) (operand-Pushes a g l n p) (push-Pushes h.tac)

else-Pushes :
    (h : Head) (c : Node) (g : TacCode → Option TacCode) (l : List Tac → List Tac)
    → Pushes g l
    → Pushes (gen_else h c g) (else_listing h c l)
unfolding gen_else
else-Pushes h null g l p = push-Pushes (op_tac tlabel h.tac.r)
else-Pushes h (node _ _ _ _ _) g l p =
    let label = op_tac tlabel h.tac.r in
    let end_label = op_tac tlabel h.tac.a2 in
    seq-Pushes (λ code. g (push_tac label (push_tac (op_tac tjmp h.tac.a2) code)))
      (λ code. some (push_tac end_label code)) (λ rest. op_tac tjmp h.tac.a2 ∷ label ∷ l rest)
      (λ rest. end_label ∷ rest)
      (before-Pushes (op_tac tjmp h.tac.a2) (λ code. g (push_tac label code))
        (λ rest. label ∷ l rest) (before-Pushes label g l p))
      (push-Pushes end_label)

node-Pushes :
    (k : NodeClass) (ty : NodeType) (h : Head) (a b c : Node)
    → HasOperands k ty a b
    → (ga gb gc : TacCode → Option TacCode) (la lb lc : List Tac → List Tac) → Pushes ga la
    → Pushes gb lb
    → Pushes gc lc
    → Pushes (gen_node k ty h a b c ga gb gc) (node_listing k ty h a b c la lb lc)
unfolding gen_node
node-Pushes cl_statement if_t h a b c n ga gb gc la lb lc pa pb pc =
    seq-Pushes (gen_operand a ga) _ (operand a la) _ (operand-Pushes a ga la n pa) (
      seq-Pushes (λ code. gb (push_tac h.tac code)) (gen_else h c gc) (λ rest. h.tac ∷ lb rest)
        (else_listing h c lc) (before-Pushes h.tac gb lb pb) (else-Pushes h c gc lc pc))
node-Pushes cl_statement while_t h a b c n ga gb gc la lb lc pa pb pc =
    let start = op_tac tlabel h.tac.a2 in
    let back = op_tac tjmp h.tac.a2 in
    let out = op_tac tlabel h.tac.r in
    seq-Pushes (λ code. gen_operand a ga (push_tac start code)) _
      (λ rest. start ∷ operand a la rest) _
      (before-Pushes start (gen_operand a ga) (operand a la) (operand-Pushes a ga la n pa))
      (seq-Pushes (λ code. gb (push_tac h.tac code))
        (λ code. some (push_tac out (push_tac back code))) (λ rest. h.tac ∷ lb rest)
        (λ rest. back ∷ out ∷ rest) (before-Pushes h.tac gb lb pb)
        (before-Pushes back (λ code. some (push_tac out code)) (λ rest. out ∷ rest)
          (push-Pushes out)))
node-Pushes cl_statement read_t h a b c n ga gb gc la lb lc pa pb pc = push-Pushes h.tac
node-Pushes cl_statement write_t h a b c n ga gb gc la lb lc pa pb pc = operand-push h a ga la n pa
node-Pushes cl_statement assign_t h a b c n ga gb gc la lb lc pa pb pc = operand-push h a ga la n pa
node-Pushes cl_expression biop_t h a b c n ga gb gc la lb lc pa pb pc =
    seq-Pushes (gen_operand a ga) _ (operand a la) _ (operand-Pushes a ga la n.0 pa)
      (operand-push h b gb lb n.1 pb)
node-Pushes cl_expression uop_t h a b c n ga gb gc la lb lc pa pb pc = operand-push h a ga la n pa
node-Pushes _ _ h a b c n ga gb gc la lb lc pa pb pc = λ code. (code, refl, λ rest. refl)

pub gen-Pushes : (t : Node) → IsComplete t → Pushes (gen t) (listing t)
unfolding gen listing
gen-Pushes null n = λ code. (code, refl, λ rest. refl)
gen-Pushes (node h a b c sibling) n =
    seq-Pushes (gen_node h.klass h.type h a b c (gen a) (gen b) (gen c)) (gen sibling)
      (node_listing h.klass h.type h a b c (listing a) (listing b) (listing c)) (listing sibling)
      (node-Pushes h.klass h.type h a b c n.0 (gen a) (gen b) (gen c) (listing a) (listing b)
        (listing c) (gen-Pushes a n.1) (gen-Pushes b n.2) (gen-Pushes c n.3))
      (gen-Pushes sibling n.4)
