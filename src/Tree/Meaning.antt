-- ===== src/Tree/Meaning.antt =====
-- What a syntax tree means: the value of an expression in an environment of variables, and what a
-- statement with its siblings does to the machine. `none` is a fault, or a loop that runs out of
-- `fuel`, the rounds that each loop may take.
use milac.Prelude.{
  ◌>>=◌, ℕ, zero, suc, ◌%◌, ◌∷◌, Option, none, some, true, false, ◌==◌, neg32, word_mod,
  if◌then◌else◌,
}
use milac.SymTab.{Symbol}
use milac.Tac.Meaning.{Machine, value, binop_value, assign, exec_in}
use milac.Tac.{Op, tnone, teq, tneq, tlt, tgt, tle, tge, tadd, tsub, tmul, tdiv}
use milac.Tree.{
  NodeClass, NodeType, Token, plus, minus, times, divide, eq, neq, lt, gt, lte, gte, other_token,
  Head, Node, null, node, cl_statement, cl_expression, if_t, while_t, read_t, write_t, assign_t,
  id_t, const_t, biop_t, uop_t,
}

-- the operation that a token stands for
abbrev pub token_op : Token → Op
token_op plus = tadd
token_op minus = tsub
token_op times = tmul
token_op divide = tdiv
token_op eq = teq
token_op neq = tneq
token_op lt = tlt
token_op gt = tgt
token_op lte = tle
token_op gte = tge
token_op other_token = tnone

-- 0 is false
unfoldable pub run_while :
    ℕ → (Machine → Option ℕ) → (Machine → Option Machine) → Machine → Option Machine
run_while zero test body m = none
run_while (suc fuel) test body m = elim (test m) [
  | none ↦ none
  | some v ↦ elim (v == 0) [
    | true ↦ some m
    | false ↦ elim (body m) [ none ↦ none | some m' ↦ run_while fuel test body m' ]
  ]
]

abbrev pub run_if : Option ℕ → Option Machine → Option Machine → Option Machine
run_if none rb rc = none
run_if (some v) rb rc = if v == 0 then rc else rb

module _ (deref : ℕ → Symbol) where
  -- `ea` and `eb` are the values of the operands.
  abbrev pub eval_node : NodeClass → NodeType → Head → Option ℕ → Option ℕ → (ℕ → ℕ) → Option ℕ
  eval_node cl_expression id_t h ea eb env = some (value deref env h.symbol)
  eval_node cl_expression const_t h ea eb env = some (value deref env h.symbol)
  eval_node cl_expression biop_t h ea eb env = do x ← ea; y ← eb; binop_value (token_op h.op) x y
  eval_node cl_expression uop_t h ea eb env = do x ← ea; some (neg32 (x % word_mod))
  eval_node _ _ h ea eb env = none

  unfoldable pub eval : Node → (ℕ → ℕ) → Option ℕ
  eval null env = none
  eval (node h a b c sibling) env = eval_node h.klass h.type h (eval a env) (eval b env) env

  abbrev pub run_node :
      NodeClass
      → NodeType
      → Head
      → (Machine → Option ℕ)
      → (Machine → Option Machine)
      → (Machine → Option Machine)
      → ℕ
      → Machine
      → Option Machine
  run_node cl_statement if_t h ea rb rc fuel m = run_if (ea m) (rb m) (rc m)
  run_node cl_statement while_t h ea rb rc fuel m = run_while fuel ea rb m
  run_node cl_statement read_t h ea rb rc fuel m = exec_in h.symbol m m.input
  run_node cl_statement write_t h ea rb rc fuel m = do
    v ← ea m
    some (record m { output = v ∷ m.output })
  run_node cl_statement assign_t h ea rb rc fuel m = do v ← ea m; some (assign m h.symbol v)
  run_node _ _ h ea rb rc fuel m = none

  unfoldable pub run_tree : ℕ → Node → Machine → Option Machine
  unfolding run_while
  run_tree fuel null m = some m
  run_tree fuel (node h a b c sibling) m = do
    m₁ ← run_node h.klass h.type h (λ n. eval a n.env) (run_tree fuel b) (run_tree fuel c) fuel m
    run_tree fuel sibling m₁
