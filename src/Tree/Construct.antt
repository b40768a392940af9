-- ===== src/Tree/Construct.antt =====
-- src/tree.c: the functions `new_...` that the grammar calls, and `tac_gen` of src/3ac.c. The text in
-- the uninitialized buffer of `new_binop` is its argument `buff`. What `new_loop` prints is not kept.
use milac.Prelude.{
  ℕ, zero, suc, ◌++◌, [], ◌∷◌, Option, none, some, Bool, true, false, ◌==◌, not, ◌&&◌,
  if◌then◌else◌, Bytes, add32, sub32, mul32, div_faults, div32, neg32, signed_lt, bool32, minus_one,
}
use milac.SymTab.Names.{decimal}
use milac.SymTab.{svar, slabel}
use milac.TacGen.{new_tac}
use milac.TacGen.Sound.{result}
use milac.Tac.{Tac, tiff, tin, tout, tassign, tmul}
use milac.Tree.Builder.{
  M, ◌>>=◌, pure, fault, symbol_val, next_id, insert_const, temp_symbol, lookup_node, insert_node,
  set_node,
}
use milac.Tree.Meaning.{token_op}
use milac.Tree.{
  NodeClass, NodeType, Token, plus, minus, times, divide, eq, neq, lt, gt, lte, gte, other_token,
  Head, Node, null, node, cl_statement, cl_expression, unknown_t, if_t, while_t, read_t, write_t,
  assign_t, id_t, const_t, biop_t, uop_t,
}

-- `nodestr`
unfoldable pub nodestr : NodeType → Bytes
nodestr unknown_t = b'U' ∷ b'N' ∷ b'K' ∷ b'N' ∷ b'O' ∷ b'W' ∷ b'N' ∷ []
nodestr if_t = b'I' ∷ b'F' ∷ []
nodestr while_t = b'W' ∷ b'H' ∷ b'I' ∷ b'L' ∷ b'E' ∷ []
nodestr assign_t = b'A' ∷ b'S' ∷ b'S' ∷ b'I' ∷ b'G' ∷ b'N' ∷ []
nodestr read_t = b'R' ∷ b'E' ∷ b'A' ∷ b'D' ∷ []
nodestr write_t = b'W' ∷ b'R' ∷ b'I' ∷ b'T' ∷ b'E' ∷ []
nodestr id_t = b'I' ∷ b'D' ∷ []
nodestr const_t = b'C' ∷ b'O' ∷ b'N' ∷ b'S' ∷ b'T' ∷ []
nodestr biop_t = b'B' ∷ b'I' ∷ b'O' ∷ b'P' ∷ []
nodestr uop_t = b'U' ∷ b'O' ∷ b'P' ∷ []

unfoldable pub node_str : NodeType → ℕ → ℕ → ℕ → Bytes
unfolding nodestr
node_str type x y z =
    if z == 0
    then (if y == 0 then nodestr type ++ decimal x else nodestr type ++ (decimal x ++ decimal y))
    else nodestr type ++ (decimal x ++ (decimal y ++ decimal z))

-- what `new_node` returns, with the class and type that its caller writes
unfoldable pub new_node : NodeClass → NodeType → M Head
new_node klass type = do
  n ← next_id
  pure (record {
    id = n;
    klass = klass;
    type = type;
    leaf = false;
    op = other_token;
    symbol = 0;
    tac = new_tac;
  })

-- The node is freed where the table does not take it, and then written through NULL.
unfoldable pub finish : Bytes → Node → M Node
finish key t = do taken ← insert_node key t; if taken then pure t else fault

unfoldable pub node_id : Node → M ℕ
node_id null = fault
node_id (node h _ _ _ _) = pure h.id

-- `s->node->id`
unfoldable pub symbol_node_id : ℕ → M ℕ
unfolding node_id
symbol_node_id zero s = none
symbol_node_id (suc p) s = node_id (s.node_of (suc p)) s

unfoldable pub new_write : Node → M Node
unfolding new_node finish node_id
new_write l = do
  h ← new_node cl_statement write_t
  n ← node_id l
  finish (node_str write_t n 0 0)
      (node (record h { tac = record new_tac { op = tout; r = result l } }) l null null null)

unfoldable pub new_assign : Node → ℕ → M Node
unfolding new_node finish node_id symbol_node_id
new_assign l p = do
  h ← new_node cl_statement assign_t
  n ← node_id l
  m ← symbol_node_id p
  finish (node_str assign_t n m 0) (
      node (record h { symbol = p; tac = record new_tac { op = tassign; a1 = result l; r = p } }) l
        null null null)

unfoldable pub new_read : ℕ → M Node
unfolding new_node finish symbol_node_id
new_read p = do
  h ← new_node cl_statement read_t
  m ← symbol_node_id p
  finish (node_str read_t 0 m 0)
      (node (record h { symbol = p; tac = record new_tac { op = tin; r = p } }) null null null null)

-- a constant that the table does not have yet
unfoldable pub fresh_const : ℕ → M Node
unfolding new_node finish
fresh_const val = do
  h ← new_node cl_expression const_t
  p ← insert_const val
  let h' = record h { symbol = p; leaf = true; tac = record new_tac { r = p } }
  t ← finish (node_str const_t val 0 0) (node h' null null null null)
  _ ← set_node p t
  pure t

unfoldable pub new_const : ℕ → M Node
unfolding fresh_const
new_const val = do
  found ← lookup_node (node_str const_t val 0 0)
  elim found [ some t ↦ pure t | none ↦ fresh_const val ]

-- `name` is the name of the symbol. A NULL is returned where the table does not take the node.
unfoldable pub fresh_id : ℕ → Bytes → M Node
unfolding new_node
fresh_id p name = do
  h ← new_node cl_expression id_t
  let t =
      node (record h { symbol = p; leaf = true; tac = record new_tac { r = p } }) null null null
        null
  taken ← insert_node name t
  if taken then pure t else pure null

unfoldable pub new_id : ℕ → Bytes → M Node
unfolding fresh_id
new_id p name s = elim (s.node_of p) [
  | null ↦ fresh_id p name s
  | node h a b c d ↦ some (node h a b c d, s)
]

-- the `switch` of `const_fold`; `none` is a division that is undefined in C
unfoldable pub fold_value : Token → ℕ → ℕ → Option ℕ
fold_value plus a b = some (add32 a b)
fold_value minus a b = some (sub32 a b)
fold_value times a b = some (mul32 a b)
fold_value divide a b = if div_faults a b then none else some (div32 a b)
fold_value eq a b = some (bool32 (a == b))
fold_value neq a b = some (bool32 (not (a == b)))
fold_value lt a b = some (bool32 (signed_lt a b))
fold_value gt a b = some (bool32 (signed_lt b a))
fold_value lte a b = some (bool32 (not (signed_lt b a)))
fold_value gte a b = some (bool32 (not (signed_lt a b)))
fold_value other_token a b = some 0

unfoldable pub const_fold : Token → Head → Head → M Node
unfolding new_const fold_value
const_fold op l r = do
  a ← symbol_val l.symbol
  b ← symbol_val r.symbol
  elim (fold_value op a b) [ none ↦ fault | some v ↦ new_const v ]

-- `tac_gen`, for the types that it is called with. The operands are no NULL.
unfoldable pub tac_gen : NodeType → Head → Node → Node → Node → M Tac
tac_gen biop_t h a b c = do
  r ← temp_symbol svar
  pure (record h.tac { op = token_op h.op; a1 = result a; a2 = result b; r = r })
tac_gen uop_t h a b c = do
  k ← insert_const minus_one
  r ← temp_symbol svar
  pure (record h.tac { op = tmul; a1 = result a; a2 = k; r = r })
tac_gen if_t h a b null = do
  r ← temp_symbol slabel
  pure (record h.tac { op = tiff; a1 = result a; a2 = 0; r = r })
tac_gen if_t h a b (node _ _ _ _ _) = do
  k ← temp_symbol slabel
  r ← temp_symbol slabel
  pure (record h.tac { op = tiff; a1 = result a; a2 = k; r = r })
tac_gen while_t h a b c = do
  k ← temp_symbol slabel
  r ← temp_symbol slabel
  pure (record h.tac { op = tiff; a1 = result a; a2 = k; r = r })
tac_gen _ h a b c = pure h.tac

-- a node with its instruction and its key
unfoldable pub built : Bytes → Head → Node → Node → Node → M Node
unfolding tac_gen finish
built key h a b c = do
  i ← tac_gen h.type h a b c
  finish key (node (record h { tac = i }) a b c null)

abbrev pub is_const_t : NodeType → Bool
is_const_t const_t = true
is_const_t _ = false

unfoldable pub fresh_binop : Bytes → Node → Node → Token → M Node
unfolding new_node built
fresh_binop buff l r op = do
  h ← new_node cl_expression biop_t
  built buff (record h { op = op }) l r null

unfoldable pub new_binop : Bytes → Node → Node → Token → M Node
unfolding const_fold fresh_binop
new_binop buff null r op = fault
new_binop buff (node _ _ _ _ _) null op = fault
new_binop buff (node hl l₀ l₁ l₂ ls) (node hr r₀ r₁ r₂ rs) op =
    if is_const_t hl.type && is_const_t hr.type
    then const_fold op hl hr
    else fresh_binop buff (node hl l₀ l₁ l₂ ls) (node hr r₀ r₁ r₂ rs) op

unfoldable pub fresh_unop : Bytes → Node → Token → M Node
unfolding new_node built
fresh_unop key t op = do
  h ← new_node cl_expression uop_t
  built key (record h { op = op }) t null null

unfoldable pub negated_const : ℕ → M Node
unfolding new_const
negated_const p = do v ← symbol_val p; new_const (neg32 v)

unfoldable pub shared_unop : Head → Node → Token → M Node
unfolding fresh_unop
shared_unop h t op = do
  let key = node_str uop_t h.id 0 0
  found ← lookup_node key
  elim found [ some n ↦ pure n | none ↦ fresh_unop key t op ]

unfoldable pub new_unop : Node → Token → M Node
unfolding negated_const shared_unop
new_unop null op = fault
new_unop (node h a b c d) op =
    if is_const_t h.type then negated_const h.symbol else shared_unop h (node h a b c d) op

-- `val > 0`
abbrev pub is_positive : ℕ → Bool
is_positive v = signed_lt 0 v

abbrev pub id_or_zero : Node → ℕ
id_or_zero null = 0
id_or_zero (node h _ _ _ _) = h.id

unfoldable pub fresh_if : Head → Node → Node → Node → M Node
unfolding new_node built node_id
fresh_if hc c t e = do
  h ← new_node cl_statement if_t
  n ← node_id t
  built (node_str if_t hc.id n (id_or_zero e)) h c t e

unfoldable pub chosen : ℕ → Node → Node → M Node
chosen p t e = do v ← symbol_val p; if is_positive v then pure t else pure e

unfoldable pub new_if : Node → Node → Node → M Node
unfolding fresh_if chosen
new_if null t e = fault
new_if (node hc a b c d) t e =
    if is_const_t hc.type then chosen hc.symbol t e else fresh_if hc (node hc a b c d) t e

unfoldable pub fresh_loop : Head → Node → Node → M Node
unfolding new_node built node_id
fresh_loop hc c b = do
  h ← new_node cl_statement while_t
  n ← node_id b
  built (node_str while_t hc.id n 0) h c b null

-- NULL for a constant condition
unfoldable pub no_loop : ℕ → M Node
no_loop p = do v ← symbol_val p; pure null

unfoldable pub new_loop : Node → Node → M Node
unfolding fresh_loop no_loop
new_loop null body = fault
new_loop (node hc a b c d) body =
    if is_const_t hc.type then no_loop hc.symbol else fresh_loop hc (node hc a b c d) body
