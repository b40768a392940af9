-- ===== src/RegAlloc/Intervals.antt =====
-- src/regalloc.c: `intervals` and `reg_alloc`. The interval of a variable, its `aux`, has the pointer of
-- the symbol; other symbols have none, nor has a variable that is not in the table, and to follow it there
-- is a fault. `calloc` succeeds, and ASSERT is empty. `symbols` are the symbols of the table in the order
-- of `st_iterate`.
use milac.Prelude.{
  ℕ, ◌+◌, ◌%◌, List, [], ◌∷◌, Option, none, some, Bool, true, false, ◌&&◌, ◌||◌, ◌==◌, ◌>>=◌,
  if◌then◌else◌, word_mod,
}
use milac.RegAlloc.{Interval, Store, Place, fill_intervals, lin_scan}
use milac.SymTab.{Symbol, SymbolType, svar, sconst, slabel}
use milac.Tac.Meaning.{is_const}
use milac.Tac.{Op, Tac, tac_is_binop, tiff, tin, tout, tassign}

abbrev pub type_is_var : SymbolType → Bool
type_is_var svar = true
type_is_var sconst = false
type_is_var slabel = false

abbrev pub contains : ℕ → List ℕ → Bool
contains p [] = false
contains p (q ∷ qs) = q == p || contains p qs

abbrev pub put : Store → ℕ → Interval → Store
put iv p x = λ q. if q == p then x else iv q

module _ (deref : ℕ → Symbol) where
  -- `s->type == SVAR`
  abbrev pub is_var : ℕ → Bool
  is_var p = type_is_var (deref p).type

  unfoldable pub alloc_intervals : List ℕ → Store → Store
  alloc_intervals [] iv = iv
  alloc_intervals (p ∷ ps) iv = alloc_intervals ps (
      if is_var p
      then put iv p (record { s = p; usecount = 0; start = 0; end = 0; reg = 0 })
      else iv)

  -- `i->end = c; ++i->usecount;`
  abbrev pub ended : ℕ → Interval → Interval
  ended c x = record x { end = c; usecount = (x.usecount + 1) % word_mod }

  module _ (symbols : List ℕ) where
    -- `alloc_intervals` has set `aux`; what `new_symbol` leaves there for another symbol is no pointer
    abbrev pub has_aux : ℕ → Bool
    has_aux p = is_var p && contains p symbols

    -- an operand that is read at `c`
    unfoldable pub use_at : ℕ → ℕ → Store → Option Store
    use_at c p iv =
        if is_const (deref p)
        then some iv
        else if has_aux p
        then some (put iv p (ended c (iv p)))
        else none

    -- a result that is written at `c`
    unfoldable pub def_at : ℕ → ℕ → Store → Option Store
    def_at c p iv =
        if has_aux p
        then some
            (put iv p (ended c (if (iv p).start == 0 then record (iv p) { start = c } else iv p)))
        else none

    abbrev pub interval_other : Op → ℕ → Tac → Store → Option Store
    interval_other tin c i iv = def_at c i.r iv
    interval_other tout c i iv = use_at c i.r iv
    interval_other tiff c i iv = use_at c i.a1 iv
    interval_other tassign c i iv = use_at c i.a1 iv >>= def_at c i.r
    interval_other _ c i iv = some iv

    unfoldable pub interval_ins : ℕ → Tac → Store → Option Store
    interval_ins c i iv =
        if tac_is_binop i.op
        then (use_at c i.a1 iv >>= λ iv₁. use_at c i.a2 iv₁ >>= def_at c i.r)
        else interval_other i.op c i iv

    -- the loops over the blocks and their instructions, where `c` instructions are counted
    unfoldable pub intervals : ℕ → List Tac → Store → Option Store
    intervals c [] iv = some iv
    intervals c (i ∷ is) iv =
        let c' = (c + 1) % word_mod in interval_ins c' i iv >>= intervals c' is

  -- `unused_vars` takes the variables that are not used out of the table; the others get an interval
  unfoldable pub used_vars : Store → List ℕ → List ℕ
  used_vars iv [] = []
  used_vars iv (p ∷ ps) =
      let rest = used_vars iv ps in
      if is_var p then (if (iv p).usecount == 0 then rest else p ∷ rest) else rest

  unfoldable pub reg_alloc : List Tac → List ℕ → Store → Option (Store × List (ℕ × Place))
  unfolding alloc_intervals intervals used_vars
  reg_alloc code symbols iv = intervals symbols 0 code (alloc_intervals symbols iv) >>= λ iv₁.
      lin_scan iv₁ (fill_intervals iv₁ (used_vars iv₁ symbols) [])
