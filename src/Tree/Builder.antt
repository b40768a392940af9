-- ===== src/Tree/Builder.antt =====
-- The state in which src/tree.c builds a tree, and the steps on it. A function takes the state and
-- returns its result and the new state; `none` is a fault, such as an access through NULL. A
-- `symbol_t *` is one more than its index in the heap of src/symtab.c, with NULL as 0.
use milac.HashTab.{
  HashTab, hash_ok, hash_error_func, hash_tab_init, hash_tab_insert, hash_tab_lookup,
}
use milac.HashTab.MakeHash.{make_hash}
use milac.Prelude.{
  ◌≡◌, inl, inr, arith, Option-cases, ℕ, zero, suc, ◌+◌, ◌%◌, List, Option, none, some, Bool, true,
  false, ◌==◌, if◌then◌else◌, Bytes, word_mod, get_elem?,
}
use milac.SymTab.{SymTab, Symbol, SymbolType, st_insert_const, st_temp_symbol}
use milac.Tree.{Node, null}

-- `node_of` is the field `node` of a symbol.
pub record Builder : Type 0 where
  pub st : SymTab
  pub nodes_tab : HashTab Node
  pub nodeid : ℕ
  pub node_of : ℕ → Node

abbrev pub M : Type 0 → Type 0
M A = Builder → Option (A × Builder)

infixl 5 ◌>>=◌
abbrev pub ◌>>=◌ : {A B : Type 0} → M A → (A → M B) → M B
◌>>=◌ m f s = elim (m s) [ none ↦ none | some (a, s') ↦ f a s' ]

pub >>=-eq-some :
    {A B : Type 0} (m : M A) (f : A → M B) (s : Builder) {b : B} {s' : Builder}
    → (m >>= f) s ≡ some (b, s')
    → (a : A) × (s₁ : Builder) × (m s ≡ some (a, s₁)) × (f a s₁ ≡ some (b, s'))
>>=-eq-some m f s e = elim (Option-cases (m s)) [
  | inl lost ↦ absurd (ground (arith, lost))
  | inr ((a, s₁), h) ↦ (a, s₁, h, ground (arith, h))
]

abbrev pub pure : {A : Type 0} → A → M A
pure a s = some (a, s)

abbrev pub fault : {A : Type 0} → M A
fault s = none

-- the pointer to a symbol of the heap
abbrev pub address : Option ℕ → ℕ
address none = 0
address (some i) = i + 1

abbrev pub symbol_at : List Symbol → ℕ → Option Symbol
symbol_at heap zero = none
symbol_at heap (suc i) = get_elem? heap i

-- `s->val`
unfoldable pub symbol_val : ℕ → M ℕ
symbol_val p s = elim (symbol_at s.st.heap p) [ none ↦ none | some y ↦ some (y.val, s) ]

-- `new_nodes` on a program that starts; `left` is what `malloc` left in the table's count
unfoldable pub new_nodes : SymTab → ℕ → ℕ → Builder
unfolding hash_tab_init
new_nodes st left size = record {
  st = st;
  nodes_tab = hash_tab_init left size make_hash;
  nodeid = 0;
  node_of = λ p. null;
}

-- `++nodeid`
unfoldable pub next_id : M ℕ
next_id s = let n = (s.nodeid + 1) % word_mod in some (n, record s { nodeid = n })

unfoldable pub insert_const : ℕ → M ℕ
insert_const v s = elim (st_insert_const s.st v) [
  | none ↦ none
  | some (p, st') ↦ some (address p, record s { st = st' })
]

unfoldable pub temp_symbol : SymbolType → M ℕ
temp_symbol ty s = elim (st_temp_symbol s.st ty) [
  | none ↦ none
  | some (p, st') ↦ some (address p, record s { st = st' })
]

unfoldable pub lookup_node : Bytes → M (Option Node)
lookup_node key s = elim (hash_tab_lookup s.nodes_tab key) [ none ↦ none | some t ↦ some (t, s) ]

-- `HASH_OK == hash_tab_insert(nodes_tab, key, t)`. The table holds the pointer to `t`, so the node is
-- the finished one.
unfoldable pub insert_node : Bytes → Node → M Bool
insert_node key t s = elim (hash_tab_insert s.nodes_tab key (some t)) [
  | none ↦ none
  | some (hash_ok, tab') ↦ some (true, record s { nodes_tab = tab' })
  | some (hash_error_func, tab') ↦ some (false, s)
]

-- `s->node = t`
unfoldable pub set_node : ℕ → Node → M (Unit {0})
set_node zero t s = none
set_node (suc i) t s = some (tt, record s { node_of = λ q. if q == suc i then t else s.node_of q })
