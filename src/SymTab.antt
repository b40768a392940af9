-- ===== src/SymTab.antt =====
-- src/symtab.c and src/symtab.h: the symbol table. A `symbol_t *` is the index of its symbol in
-- `heap`, the symbols allocated so far, and NULL is `none`; the hash table holds such pointers. A
-- `none` as the result of an operation is a fault of the hash table. The fields `aux` and `node` are
-- of other components and are not kept here. `malloc` is taken to succeed.
pub mod Names
pub mod Insert
pub mod Constants
use milac.HashTab
use milac.HashTab.{
  HashTab, hash_ok, hash_error_func, hash_tab_init, hash_tab_insert, hash_tab_lookup,
  hash_tab_remove, hash_tab_iterate,
}
use milac.HashTab.MakeHash.{make_hash}
use milac.Prelude.{
  ℕ, ◌+◌, ◌%◌, List, [], ◌∷◌, ◌++◌, Option, none, some, Bool, true, false, if◌then◌else◌, Bytes,
  get_elem?, set, length, word_mod, minus_one,
}
use milac.SymTab.Names.{decimal, temp_name, label_name}

pub data SymbolType : Type 0 where
  svar sconst slabel : SymbolType

pub data VarState : Type 0 where
  vs_empty vs_inmem vs_inreg vs_assigned : VarState

pub record Symbol : Type 0 where
  pub type : SymbolType
  pub id : ℕ
  pub lineno : ℕ
  pub val : ℕ
  pub name : Bytes
  pub reg : ℕ
  pub state : VarState

pub record SymTab : Type 0 where
  pub tab : HashTab ℕ
  pub heap : List Symbol
  pub tmp_symb_id : ℕ
  pub tmp_label_id : ℕ
  pub symb_id : ℕ

-- NO_REGISTER, which is -1
abbrev pub no_register : ℕ
no_register = minus_one

-- `st_init` on a program that starts
unfoldable pub st_init : ℕ → ℕ → SymTab
unfolding hash_tab_init
st_init left size = record {
  tab = hash_tab_init left size make_hash;
  heap = [];
  tmp_symb_id = 0;
  tmp_label_id = 0;
  symb_id = 0;
}

unfoldable pub new_symbol : SymTab → Bytes → ℕ → Bool → ℕ × SymTab
new_symbol st symb lineno has_id =
    let s : Symbol = record {
      type = svar;
      id = if has_id then st.symb_id else minus_one;
      lineno = lineno;
      val = minus_one;
      name = symb;
      reg = no_register;
      state = vs_empty;
    } in
    (
      length st.heap,
      record st {
        heap = st.heap ++ (s ∷ []);
        symb_id = if has_id then (st.symb_id + 1) % word_mod else st.symb_id;
      },
    )

-- The pointer is `none` where the hash function fails and the symbol is freed again.
unfoldable pub st_insert : SymTab → Bytes → ℕ → Bool → Option (Option ℕ × SymTab)
unfolding new_symbol
st_insert st symb lineno has_id = elim (hash_tab_lookup st.tab symb) [
  | none ↦ none
  | some found ↦ elim found [
    | some p ↦ some (some p, st)
    | none ↦
        let (p, st') = new_symbol st symb lineno has_id in
        elim (hash_tab_insert st'.tab symb (some p)) [
          | none ↦ none
          | some (status, tab') ↦ elim status [
            | hash_ok ↦ some (some p, record st' { tab = tab' })
            | hash_error_func ↦ some (none, st')
          ]
        ]
  ]
]

-- `s->type = type; s->val = val` through a pointer
unfoldable pub set_const : ℕ → ℕ → List Symbol → List Symbol
set_const p value heap = elim (get_elem? heap p) [
  | none ↦ heap
  | some s ↦ set heap p (record s { val = value; type = sconst })
]

unfoldable pub st_insert_const : SymTab → ℕ → Option (Option ℕ × SymTab)
unfolding st_insert set_const
st_insert_const st value = elim (st_insert st (decimal value) 0 true) [
  | none ↦ none
  | some (none, st') ↦ some (none, st')
  | some (some p, st') ↦ some (some p, record st' { heap = set_const p value st'.heap })
]

-- `s->type = slabel; s->val = id`, and `s->type = svar`
unfoldable pub set_label : ℕ → ℕ → List Symbol → List Symbol
set_label p value heap = elim (get_elem? heap p) [
  | none ↦ heap
  | some s ↦ set heap p (record s { val = value; type = slabel })
]

unfoldable pub set_type : ℕ → SymbolType → List Symbol → List Symbol
set_type p ty heap = elim (get_elem? heap p) [
  | none ↦ heap
  | some s ↦ set heap p (record s { type = ty })
]

unfoldable pub st_temp_label : SymTab → Option (Option ℕ × SymTab)
unfolding st_insert set_label
st_temp_label st =
    let n = (st.tmp_label_id + 1) % word_mod in
    elim (st_insert (record st { tmp_label_id = n }) (label_name n) 0 false) [
      | none ↦ none
      | some (none, st') ↦ some (none, st')
      | some (some p, st') ↦ some (some p, record st' { heap = set_label p n st'.heap })
    ]

unfoldable pub st_temp_var : SymTab → SymbolType → Option (Option ℕ × SymTab)
unfolding st_insert set_type
st_temp_var st ty =
    let n = st.tmp_symb_id in
    elim (st_insert (record st { tmp_symb_id = (n + 1) % word_mod }) (temp_name n) 0 true) [
      | none ↦ none
      | some (none, st') ↦ some (none, st')
      | some (some p, st') ↦ some (some p, record st' { heap = set_type p ty st'.heap })
    ]

unfoldable pub st_temp_symbol : SymTab → SymbolType → Option (Option ℕ × SymTab)
unfolding st_temp_label st_temp_var
st_temp_symbol st slabel = st_temp_label st
st_temp_symbol st svar = st_temp_var st svar
st_temp_symbol st sconst = st_temp_var st sconst

unfoldable pub st_lookup : SymTab → Bytes → Option (Option ℕ)
st_lookup st symb = hash_tab_lookup st.tab symb

unfoldable pub st_rem_symbol : SymTab → Symbol → Option SymTab
st_rem_symbol st s = elim (hash_tab_remove st.tab s.name) [
  | none ↦ none
  | some (_, tab') ↦ some (record st { tab = tab' })
]

unfoldable pub st_get_var_count : SymTab → ℕ
st_get_var_count st = st.symb_id

-- the pointers that `st_iterate` calls its function on, in order
unfoldable pub st_iterate : SymTab → List (Option ℕ)
st_iterate st = hash_tab_iterate st.tab
