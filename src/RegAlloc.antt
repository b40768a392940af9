-- ===== src/RegAlloc.antt =====
-- src/regalloc.c: linear scan register allocation. An `intp_t` is a number, and `Store` gives the
-- interval that it points to; the two tail queues `intps` and `active` are lists of such pointers.
-- The stack of free registers is its list of items with the top in front, as `Stack.View` justifies.
-- `none` is a fault: the last element of an empty queue.
pub mod Queue
pub mod Safe
pub mod Spill
pub mod Disjoint
pub mod Sorted
pub mod Intervals
pub mod Growth
pub mod Covers
pub mod Spans
pub mod Typed
pub mod Alloc
use milac.Prelude.{
  ℕ, ◌+◌, ◌-◌, List, [], ◌∷◌, ◌++◌, Option, none, some, Bool, true, false, leb, ltb, ◌==◌,
  if◌then◌else◌,
}
use milac.SymTab.{no_register}

-- interval_t
pub record Interval : Type 0 where
  pub s : ℕ
  pub usecount : ℕ
  pub start : ℕ
  pub end : ℕ
  pub reg : ℕ

abbrev pub Store : Type 0
Store = ℕ → Interval

-- `p->i->reg = r`
unfoldable pub set_reg : Store → ℕ → ℕ → Store
set_reg iv p r = λ q. if q == p then record (iv q) { reg = r } else iv q

-- `fill_interval_list` for one interval: before the first that starts later
unfoldable pub fill_interval_list : Store → ℕ → List ℕ → List ℕ
fill_interval_list iv t [] = t ∷ []
fill_interval_list iv t (n ∷ ns) =
    if ltb (iv t).start (iv n).start then t ∷ n ∷ ns else n ∷ fill_interval_list iv t ns

-- over the symbols in the order of `st_iterate`
unfoldable pub fill_intervals : Store → List ℕ → List ℕ → List ℕ
fill_intervals iv [] intps = intps
fill_intervals iv (t ∷ ts) intps = fill_intervals iv ts (fill_interval_list iv t intps)

-- the registers 0 to REGISTER_COUNT - 1, the first on top
abbrev pub init_regs : List ℕ
init_regs = 0 ∷ 1 ∷ 2 ∷ []

-- the active queue and the free registers, once what ends before `now` has expired
unfoldable pub lin_expire_old : Store → ℕ → List ℕ → List ℕ → List ℕ × List ℕ
lin_expire_old iv now [] regs = ([], regs)
lin_expire_old iv now (t ∷ ts) regs =
    if leb now (iv t).end then (t ∷ ts, regs) else lin_expire_old iv now ts ((iv t).reg ∷ regs)

unfoldable pub lin_add_active : Store → ℕ → List ℕ → List ℕ
lin_add_active iv n [] = n ∷ []
lin_add_active iv n (t ∷ ts) =
    if ltb (iv n).end (iv t).end then n ∷ t ∷ ts else t ∷ lin_add_active iv n ts

-- TAILQ_LAST of a queue that is not empty, and the queue without it
unfoldable pub last : ℕ → List ℕ → ℕ
last t [] = t
last t (u ∷ us) = last u us

unfoldable pub front : ℕ → List ℕ → List ℕ
front t [] = []
front t (u ∷ us) = t ∷ front u us

pub record Scan : Type 0 where
  pub iv : Store
  pub active : List ℕ
  pub regs : List ℕ

unfoldable pub spill_last : Scan → ℕ → ℕ → List ℕ → Scan
spill_last s n l rest =
    if ltb (s.iv n).end (s.iv l).end
    then (let iv' = set_reg (set_reg s.iv n (s.iv l).reg) l no_register in
        record s { iv = iv'; active = lin_add_active iv' n rest })
    else record s { iv = set_reg s.iv n no_register }

unfoldable pub lin_spill : Scan → ℕ → Option Scan
unfolding spill_last last front
lin_spill s n = elim s.active [
  | [] ↦ none
  | t ∷ ts ↦ some (spill_last s n (last t ts) (front t ts))
]

-- the registers that are free decide between a spill and an allocation
unfoldable pub lin_alloc : Scan → ℕ → Option Scan
unfolding lin_spill
lin_alloc s n = elim s.regs [
  | [] ↦ lin_spill s n
  | r ∷ rs ↦
      let iv' = set_reg s.iv n r in
      some (record { iv = iv'; active = lin_add_active iv' n s.active; regs = rs })
]

-- one turn of the loop of `lin_scan`
unfoldable pub lin_step : Scan → ℕ → Option Scan
unfolding lin_alloc lin_expire_old
lin_step s n =
    let (active', regs') = lin_expire_old s.iv (s.iv n).start s.active s.regs in
    lin_alloc (record s { active = active'; regs = regs' }) n

unfoldable pub lin_loop : Scan → List ℕ → Option Scan
unfolding lin_step
lin_loop s [] = some s
lin_loop s (n ∷ ns) = elim (lin_step s n) [ none ↦ none | some s' ↦ lin_loop s' ns ]

-- Where a symbol lives: `val` is its memory cell, `reg` its register, `state` is VS_ASSIGNED.
pub data Place : Type 0 where
  memory : ℕ → Place
  register : ℕ → Place

-- the last loop of `lin_scan`: symbols without a register get the memory cells in order
unfoldable pub places : Store → ℕ → List ℕ → List (ℕ × Place)
places iv memloc [] = []
places iv memloc (n ∷ ns) =
    let spilled = (iv n).reg == no_register in
    ((iv n).s, (if spilled then memory memloc else register (iv n).reg))
    ∷ places iv (if spilled then memloc + 1 else memloc) ns

unfoldable pub lin_scan : Store → List ℕ → Option (Store × List (ℕ × Place))
unfolding lin_loop places
lin_scan iv intps = elim (lin_loop (record { iv = iv; active = []; regs = init_regs }) intps) [
  | none ↦ none
  | some s ↦ some (s.iv, places s.iv 0 intps)
]
