-- ===== src/TacGen.antt =====
-- src/3ac.c: `gen` and what it calls, which write the three-address code of a syntax tree. The list
-- `tac_code`, of what is to be freed, is not kept; `calloc` is taken to succeed.
pub mod Listing
pub mod Numbered
pub mod Sound
pub mod Expression
pub mod Suffix
pub mod Statement
pub mod Renumbered
pub mod Correct
use milac.Prelude.{
  Option, none, some, ◌>>=◌, ℕ, ◌+◌, ◌%◌, List, [], ◌∷◌, ◌++◌, Bool, true, false, if◌then◌else◌,
  word_mod,
}
use milac.Tac.{Op, Tac, tnone, tjmp, tlabel}
use milac.Tree.{
  NodeClass, NodeType, Head, Node, null, node, cl_statement, cl_expression, if_t, while_t, read_t,
  write_t, assign_t, biop_t, uop_t,
}

-- tac_code_t
pub record TacCode : Type 0 where
  pub count : ℕ
  pub ins : List Tac

-- NEW_TAC
abbrev pub new_tac : Tac
new_tac = record { id = 0; set = false; op = tnone; a1 = 0; a2 = 0; r = 0; bb = 0 }

-- `i->op = op; i->r = r;` on a new instruction
abbrev pub op_tac : Op → ℕ → Tac
op_tac op r = record new_tac { op = op; r = r }

-- `i->id = ++code->count; list_push(code->ins, i);`
unfoldable pub push_tac : Tac → TacCode → TacCode
push_tac i code =
    let n = (code.count + 1) % word_mod in
    record { count = n; ins = code.ins ++ (record i { id = n } ∷ []) }

-- `if(!t->flags.leaf) gen(t, code);`, where `gen_t` is `gen t`. A NULL is a fault.
abbrev pub gen_operand : Node → (TacCode → Option TacCode) → TacCode → Option TacCode
gen_operand null gen_t code = none
gen_operand (node h _ _ _ _) gen_t code = if h.leaf then some code else gen_t code

-- In the functions below `a`, `b` and `c` are `child[0]` to `child[2]`, and `gen_a` is `gen a`.
unfoldable pub gen_statm :
    NodeType → Head → Node → (TacCode → Option TacCode) → TacCode → Option TacCode
gen_statm read_t h a gen_a code = some (push_tac h.tac code)
gen_statm _ h a gen_a code = do code₁ ← gen_operand a gen_a code; some (push_tac h.tac code₁)

unfoldable pub gen_unop : Head → Node → (TacCode → Option TacCode) → TacCode → Option TacCode
gen_unop h a gen_a code = do code₁ ← gen_operand a gen_a code; some (push_tac h.tac code₁)

unfoldable pub gen_binop :
    Head
    → Node
    → Node
    → (TacCode → Option TacCode)
    → (TacCode → Option TacCode)
    → TacCode
    → Option TacCode
gen_binop h a b gen_a gen_b code = do
  code₁ ← gen_operand a gen_a code
  code₂ ← gen_operand b gen_b code₁
  some (push_tac h.tac code₂)

-- what follows the code of `child[1]`
unfoldable pub gen_else : Head → Node → (TacCode → Option TacCode) → TacCode → Option TacCode
gen_else h null gen_c code = some (push_tac (op_tac tlabel h.tac.r) code)
gen_else h (node _ _ _ _ _) gen_c code = do
  code₁ ← gen_c (push_tac (op_tac tlabel h.tac.r) (push_tac (op_tac tjmp h.tac.a2) code))
  some (push_tac (op_tac tlabel h.tac.a2) code₁)

unfoldable pub gen_if :
    Head
    → Node
    → Node
    → (TacCode → Option TacCode)
    → (TacCode → Option TacCode)
    → (TacCode → Option TacCode)
    → TacCode
    → Option TacCode
gen_if h a c gen_a gen_b gen_c code = do
  code₁ ← gen_operand a gen_a code
  code₂ ← gen_b (push_tac h.tac code₁)
  gen_else h c gen_c code₂

unfoldable pub gen_loop :
    Head → Node → (TacCode → Option TacCode) → (TacCode → Option TacCode) → TacCode → Option TacCode
gen_loop h a gen_a gen_b code = do
  code₁ ← gen_operand a gen_a (push_tac (op_tac tlabel h.tac.a2) code)
  code₂ ← gen_b (push_tac h.tac code₁)
  some (push_tac (op_tac tlabel h.tac.r) (push_tac (op_tac tjmp h.tac.a2) code₂))

-- the two `switch`es
unfoldable pub gen_node :
    NodeClass
    → NodeType
    → Head
    → Node
    → Node
    → Node
    → (TacCode → Option TacCode)
    → (TacCode → Option TacCode)
    → (TacCode → Option TacCode)
    → TacCode
    → Option TacCode
unfolding gen_statm gen_unop gen_binop gen_else gen_if gen_loop
gen_node cl_statement if_t h a b c gen_a gen_b gen_c code = gen_if h a c gen_a gen_b gen_c code
gen_node cl_statement while_t h a b c gen_a gen_b gen_c code = gen_loop h a gen_a gen_b code
gen_node cl_statement read_t h a b c gen_a gen_b gen_c code = gen_statm read_t h a gen_a code
gen_node cl_statement write_t h a b c gen_a gen_b gen_c code = gen_statm write_t h a gen_a code
gen_node cl_statement assign_t h a b c gen_a gen_b gen_c code = gen_statm assign_t h a gen_a code
gen_node cl_statement _ h a b c gen_a gen_b gen_c code = some code
gen_node cl_expression biop_t h a b c gen_a gen_b gen_c code = gen_binop h a b gen_a gen_b code
gen_node cl_expression uop_t h a b c gen_a gen_b gen_c code = gen_unop h a gen_a code
gen_node cl_expression _ h a b c gen_a gen_b gen_c code = some code

unfoldable pub gen : Node → TacCode → Option TacCode
unfolding gen_node
gen null code = some code
gen (node h a b c sibling) code = do
  code₁ ← gen_node h.klass h.type h a b c (gen a) (gen b) (gen c) code
  gen sibling code₁

unfoldable pub tac : Node → Option TacCode
unfolding gen
tac t = gen t (record { count = 0; ins = [] })
