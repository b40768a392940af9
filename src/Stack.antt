-- ===== src/Stack.antt =====
-- src/stack.c and src/stack.h: the growing stack of `void *`. A pointer is a number and NULL is 0,
-- as `stack_push` of the register 0 makes them. `realloc` is a parameter that returns the cells of
-- the moved block, or `none` for NULL. `malloc` in `stack_init` is taken to succeed; `stack_destroy`
-- only frees.
pub mod View
use milac.Prelude.{
  ℕ, ◌+◌, ◌-◌, ◌*◌, ◌%◌, List, Option, none, some, Bool, not, get_elem?, set, replicate, ltb, ◌==◌,
  if◌then◌else◌, word_mod,
}

-- stackt_t
pub record Stack : Type 0 where
  pub size : ℕ
  pub cursize : ℕ
  pub stack : List ℕ

-- a cell of the block; past its end is 0
abbrev pub cell : List ℕ → ℕ → ℕ
cell cells i = elim (get_elem? cells i) [ none ↦ 0 | some v ↦ v ]

unfoldable pub stack_init : ℕ → Stack
stack_init init_size =
    let size = if ltb init_size 10 then 10 else init_size in
    record { size = size; cursize = 0; stack = replicate size 0 }

unfoldable pub stack_peek : Stack → ℕ
stack_peek st = if st.cursize == 0 then 0 else cell st.stack (st.cursize - 1)

unfoldable pub stack_size : Stack → ℕ
stack_size st = st.cursize

unfoldable pub stack_not_empty : Stack → Bool
stack_not_empty st = not (st.cursize == 0)

-- `st->stack[st->cursize++] = data; return st->stack[st->cursize - 1];`
unfoldable pub store : Stack → ℕ → ℕ × Stack
store st p =
    let cells = set st.stack st.cursize p in
    (cell cells st.cursize, record st { cursize = st.cursize + 1; stack = cells })

-- The old block is lost when `realloc` fails.
unfoldable pub stack_push : (List ℕ → ℕ → Option (List ℕ)) → Stack → ℕ → ℕ × Stack
unfolding store
stack_push realloc st p =
    if st.cursize == (st.size + word_mod - 1) % word_mod
    then elim (realloc st.stack (st.size * 2 % word_mod)) [
      | none ↦ (0, record st { stack = List.[] })
      | some cells ↦ store (record st { size = st.size * 2 % word_mod; stack = cells }) p
    ]
    else store st p

unfoldable pub stack_pop : Stack → ℕ × Stack
stack_pop st =
    if st.cursize == 0
    then (0, st)
    else let top = st.cursize - 1 in
      (cell st.stack top, record st { cursize = top; stack = set st.stack top 0 })
