-- ===== src/Optimize/Symbols.antt =====
-- The symbol table of src/symtab.c as what the passes use of it. A pointer is 0 for NULL, and one more than
-- the index of its symbol in the heap.
use milac.Optimize.Pool.{Pool}
use milac.Prelude.{
  ℕ, zero, suc, ◌<◌, ◌%◌, ◌≡◌, refl, ap, ◌∙◌, [], Option, none, some, get_elem?, subst, sym, IsWord,
  word_mod, minus_one, arith,
}
use milac.SymTab.Constants.{NamesConsts, Inserted, insert_const}
use milac.SymTab.Insert.{IsValid, st_init-IsValid}
use milac.SymTab.{SymTab, Symbol, svar, vs_empty, no_register, st_init}

-- a table in which the names of numbers belong to the constants
pub record Table : Type 0 where
  pub st : SymTab
  pub valid : IsValid st
  pub consts : NamesConsts st.heap

-- what a pointer to no symbol gives
abbrev pub no_symbol : Symbol
no_symbol = record {
  type = svar;
  id = minus_one;
  lineno = 0;
  val = 0;
  name = [];
  reg = no_register;
  state = vs_empty;
}

abbrev pub symbol_or : Option Symbol → Symbol
symbol_or none = no_symbol
symbol_or (some s) = s

abbrev pub table_deref : Table → ℕ → Symbol
table_deref t zero = no_symbol
table_deref t (suc p) = symbol_or (get_elem? t.st.heap p)

-- an allocated symbol whose `val` is a word
abbrev pub IsKnown : Table → ℕ → Type 0
IsKnown t zero = ⊥
IsKnown t (suc p) = (s : Symbol) × (get_elem? t.st.heap p ≡ some s) × IsWord s.val

-- `st_insert_const` of the 32 bits of a number
pub inserted : (t : Table) (v : ℕ) → Inserted t.st (v % word_mod)
inserted t v = insert_const t.st t.valid t.consts (v % word_mod) (omega arith)

abbrev pub table_insert : Table → ℕ → ℕ × Table
table_insert t v =
    let i = inserted t v in (suc i.p, record { st = i.st'; valid = i.valid; consts = i.consts })

pub inserted_symbol :
    (t : Table) (v : ℕ) → table_deref (table_insert t v).1 (table_insert t v).0 ≡ (inserted t v).s
inserted_symbol t v = ap symbol_or (inserted t v).at

pub IsKnown-kept : (t : Table) (v p : ℕ) → IsKnown t p → IsKnown (table_insert t v).1 p
IsKnown-kept t v zero known = known
IsKnown-kept t v (suc p) (s, at, w) = (s, (inserted t v).kept p s at, w)

pub known_same :
    (t : Table) (v p : ℕ) → IsKnown t p → table_deref (table_insert t v).1 p ≡ table_deref t p
known_same t v zero known = refl
known_same t v (suc p) (s, at, w) = ap symbol_or (((inserted t v).kept p s at) ∙ sym at)

pub known-IsWord : (t : Table) (p : ℕ) → IsKnown t p → IsWord (table_deref t p).val
known-IsWord t zero known = absurd known
known-IsWord t (suc p) (s, at, w) = subst (λ o. IsWord (symbol_or o).val) (sym at) w

pub same_word : (v : ℕ) → IsWord v → v % word_mod ≡ v
same_word v w = omega arith

-- The table has all that the passes use.
abbrev pub symbol_table : Pool
symbol_table = record {
  State = Table;
  deref = table_deref;
  insert_const = table_insert;
  Known = IsKnown;
  inserted_type = λ t v w. ap (λ (s : Symbol). s.type) (inserted_symbol t v) ∙ (inserted t v).type;
  inserted_val = λ t v w.
      ap (λ (s : Symbol). s.val) (inserted_symbol t v) ∙ ((inserted t v).val ∙ same_word v w);
  inserted-Known =
      λ t v w. let i = inserted t v in (i.s, i.at, subst IsWord (sym (i.val ∙ same_word v w)) w);
  Known-IsWord = known-IsWord;
  Known_kept = IsKnown-kept;
  deref_kept = known_same;
}

-- an empty table with slots for `size` names
pub empty_table : (left size : ℕ) → 0 < size → size < word_mod → Table
unfolding st_init
empty_table left size slots fits = record {
  st = st_init left size;
  valid = st_init-IsValid left size slots fits;
  consts = λ p s v w at named. cc;
}
