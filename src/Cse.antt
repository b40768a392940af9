-- ===== src/Cse.antt =====
-- src/cse.c: common subexpressions of a block, as a graph of nodes. A `node_t *` is the node's id, from 1,
-- with NULL as 0, and the nodes lie in a store; `calloc` succeeds. `none` is a fault. The field `ins` of a
-- node, which only traces read, is not kept.
pub mod Ends
pub mod Steps
pub mod Total
pub mod Valid
pub mod Gen
use milac.HashTab.{HashTab, hash_tab_init, hash_tab_lookup, hash_tab_insert, hash_tab_update}
use milac.HashTab.MakeHash.{make_hash}
use milac.Prelude.{
  ℕ, zero, suc, ◌+◌, ◌%◌, List, [], ◌∷◌, ◌++◌, Option, none, some, Bool, true, false, not, ◌&&◌,
  ◌||◌, ◌==◌, ◌>>=◌, if◌then◌else◌, Bytes, ltb, word_mod,
}
use milac.SymTab.Names.{decimal}
use milac.SymTab.{Symbol}
use milac.Tac.{
  Op, Tac, tac_is_binop, tnone, teq, tneq, tlt, tgt, tle, tge, tassign, tadd, tsub, tmul, tdiv,
}

-- node_t
pub record Node : Type 0 where
  pub id : ℕ
  pub generated : Bool
  pub op : Op
  pub l : ℕ
  pub r : ℕ
  pub s : ℕ
  pub symbols : List ℕ

-- `nodes_tab`, the nodes, and `node_count`
pub record Graph : Type 0 where
  pub tab : HashTab ℕ
  pub nodes : ℕ → Node
  pub node_count : ℕ

-- CSE_TAB_SIZE
abbrev pub cse_tab_size : ℕ
cse_tab_size = 512

-- `cse_init`; the count of the new table is what `malloc` left there
unfoldable pub cse_init : ℕ → (ℕ → Node) → ℕ → Graph
unfolding hash_tab_init
cse_init left nodes n = record {
  tab = hash_tab_init left cse_tab_size make_hash;
  nodes = nodes;
  node_count = n;
}

-- the operator in the key; another operation is none
unfoldable pub op_text : Op → Bytes
op_text teq = b'=' ∷ []
op_text tneq = b'<' ∷ b'>' ∷ []
op_text tlt = b'<' ∷ []
op_text tgt = b'>' ∷ []
op_text tle = b'=' ∷ b'<' ∷ []
op_text tge = b'>' ∷ b'=' ∷ []
op_text tadd = b'+' ∷ []
op_text tsub = b'-' ∷ []
op_text tmul = b'*' ∷ []
op_text tdiv = b'/' ∷ []
op_text _ = []

abbrev pub commutes : Op → Bool
commutes tadd = true
commutes tmul = true
commutes _ = false

-- `binop`: the operator and the two ids, the smaller one first if the operation commutes
unfoldable pub binop : Op → ℕ → ℕ → Bytes
unfolding op_text decimal
binop op x y =
    if commutes op && ltb y x
    then op_text op ++ (decimal y ++ decimal x)
    else op_text op ++ (decimal x ++ decimal y)

abbrev pub set_node : Graph → ℕ → Node → Graph
set_node g p n = record g { nodes = λ q. if q == p then n else g.nodes q }

-- NEW_NODE, and the fields that the node gets
unfoldable pub new_node : Op → ℕ → ℕ → ℕ → Graph → ℕ × Graph
new_node op l r s g =
    let p = (g.node_count + 1) % word_mod in
    let n : Node = record {
      id = p;
      generated = false;
      op = op;
      l = l;
      r = r;
      s = s;
      symbols = [];
    } in
    (p, record (set_node g p n) { node_count = p })

-- `list_push(p->symbols, s)`
abbrev pub push_symbol : ℕ → ℕ → Graph → Graph
push_symbol p s g = set_node g p (record (g.nodes p) { symbols = (g.nodes p).symbols ++ (s ∷ []) })

-- `list_remove`: the first element that is equal, if there is one
unfoldable pub list_remove : ℕ → List ℕ → List ℕ
list_remove s [] = []
list_remove s (x ∷ xs) = if x == s then xs else x ∷ list_remove s xs

abbrev pub remove_symbol : ℕ → ℕ → Graph → Graph
remove_symbol p s g =
    set_node g p (record (g.nodes p) { symbols = list_remove s (g.nodes p).symbols })

-- `hash_tab_insert(nodes_tab, k, p)`, whose result is not looked at
abbrev pub insert_key : Bytes → ℕ → Graph → Option Graph
insert_key k p g = hash_tab_insert g.tab k (some p) >>= λ t. some (record g { tab = t.1 })

abbrev pub update_key : Bytes → ℕ → Graph → Option Graph
update_key k p g = hash_tab_update g.tab k (some p) >>= λ t. some (record g { tab = t })

module _ (deref : ℕ → Symbol) where
  abbrev pub name : ℕ → Bytes
  name p = (deref p).name

  -- the node of a symbol, with a new one where there is none; `s` is the field of that name
  abbrev pub operand_found : ℕ → ℕ → Option ℕ → Graph → Option (ℕ × Graph)
  operand_found p s (some a) g = some (a, g)
  operand_found p s none g =
      let (a, g₁) = new_node tnone 0 0 s g in
      insert_key (name p) a g₁ >>= λ g₂. some (a, push_symbol a p g₂)

  unfoldable pub operand : ℕ → ℕ → Graph → Option (ℕ × Graph)
  unfolding new_node
  operand p s g = hash_tab_lookup g.tab (name p) >>= λ found. operand_found p s found g

  -- the node of an operation
  abbrev pub operation_found : Op → ℕ → ℕ → Option ℕ → Graph → Option (ℕ × Graph)
  operation_found op a b (some n) g = some (n, g)
  operation_found op a b none g =
      let (n, g₁) = new_node op a b 0 g in
      insert_key (binop op (g₁.nodes a).id (g₁.nodes b).id) n g₁ >>= λ g₂. some (n, g₂)

  unfoldable pub operation : Op → ℕ → ℕ → Graph → Option (ℕ × Graph)
  unfolding new_node
  operation op a b g = hash_tab_lookup g.tab (binop op (g.nodes a).id (g.nodes b).id) >>= λ found.
      operation_found op a b found g

  -- the symbol `p` leaves the node that it had, if there was one, which the table gets again
  abbrev pub leave_old : ℕ → Option ℕ → Graph → Option Graph
  leave_old p none g = some g
  leave_old p (some a) g = update_key (name p) a (remove_symbol a p g)

  unfoldable pub cse_binop : Tac → Graph → Option Graph
  unfolding operand operation list_remove
  cse_binop i g = operand i.a1 i.a1 g >>= λ a. operand i.a2 i.a2 a.1 >>= λ b.
      operation i.op a.0 b.0 b.1 >>= λ n.
      let g₁ = push_symbol n.0 i.r n.1 in
      hash_tab_lookup g₁.tab (name i.r) >>= λ old. leave_old i.r old g₁ >>= λ g₂.
      if (i.r == i.a1) || (i.r == i.a2)
      then update_key (name i.r) n.0 g₂
      else insert_key (name i.r) n.0 g₂

  -- the symbol `p` leaves its node `n`, and the table gets `a`
  abbrev pub replace_old : ℕ → ℕ → Option ℕ → Graph → Option Graph
  replace_old p a none g = some g
  replace_old p a (some n) g = update_key (name p) a (remove_symbol n p g)

  -- A new node of an assignment has `s` NULL.
  unfoldable pub cse_assign : Tac → Graph → Option Graph
  unfolding operand list_remove
  cse_assign i g = operand i.a1 0 g >>= λ a.
      let g₁ = push_symbol a.0 i.r a.1 in
      hash_tab_lookup g₁.tab (name i.r) >>= λ old.
      replace_old i.r a.0 old g₁ >>= insert_key (name i.r) a.0

  abbrev pub cse_other : Op → Tac → Graph → Option Graph
  cse_other tassign i g = cse_assign i g
  cse_other _ i g = some g

  unfoldable pub cse_ins : Tac → Graph → Option Graph
  unfolding cse_binop cse_assign
  cse_ins i g = if tac_is_binop i.op then cse_binop i g else cse_other i.op i g

  -- the first loop of `cse`
  unfoldable pub cse_graph : List Tac → Graph → Option Graph
  unfolding cse_ins
  cse_graph [] g = some g
  cse_graph (i ∷ is) g = cse_ins i g >>= cse_graph is
