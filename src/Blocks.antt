-- ===== src/Blocks.antt =====
-- src/bb.c: the blocks of src/3ac.h and the array `pred` of the predecessors of a block. A `bb_t *` is a
-- number with NULL as 0, and the blocks lie in a store; an array is the list of its cells.
pub mod Preds
pub mod Build
pub mod Partition
pub mod Stuck
pub mod Built
pub mod Compact
use milac.Prelude.{
  ℕ, zero, suc, ◌-◌, length, List, [], ◌∷◌, Option, none, some, Bool, true, false, not, ◌&&◌, ◌==◌,
  map, set, get_elem?, if◌then◌else◌,
}
use milac.Tac.{Tac}

-- what bb.c and `bb_build` use of bb_t
pub record Bb : Type 0 where
  pub unreachable : Bool
  pub id : ℕ
  pub bbid : ℕ
  pub ins : List Tac
  pub pred : List ℕ
  pub next : ℕ
  pub jmp : ℕ

abbrev pub Store : Type 0
Store = ℕ → Bb

abbrev pub store : Store → ℕ → Bb → Store
store h p b = λ q. if q == p then b else h q

-- `last != i - 1 && 0 != i`; the wrap-around of `0 - 1` does not reach the result.
abbrev pub moves : ℕ → ℕ → Bool
moves i last = not (last == i - 1) && not (i == 0)

-- `n` rounds from the cell `i` on
unfoldable pub compact_from : ℕ → ℕ → ℕ → List ℕ → List ℕ
compact_from zero i last ps = ps
compact_from (suc n) i last ps = elim (get_elem? ps i) [
  | none ↦ ps
  | some zero ↦ compact_from n (suc i) last ps
  | some (suc p) ↦ elim (moves i last) [
    | true ↦ compact_from n (suc i) (suc last) (set ps (suc last) (suc p))
    | false ↦ compact_from n (suc i) i ps
  ]
]

unfoldable pub compact_preds : List ℕ → List ℕ
unfolding compact_from
compact_preds ps = compact_from (length ps) 0 0 ps

-- the loop of `bb_remove_predecessors` on the cells of a block, which stops at NULL
unfoldable pub clear_pred : ℕ → List ℕ → List ℕ
clear_pred rem [] = []
clear_pred rem (zero ∷ ps) = zero ∷ ps
clear_pred rem (suc p ∷ ps) =
    let rest = clear_pred rem ps in if suc p == rem then 0 ∷ ps else suc p ∷ rest

unfoldable pub remove_pred : ℕ → Bb → Bb
unfolding compact_preds clear_pred
remove_pred rem b =
    if b.unreachable then b else record b { pred = compact_preds (clear_pred rem b.pred) }

-- `code->blocks` is the list of pointers.
unfoldable pub bb_remove_predecessors : ℕ → List ℕ → Store → Store
bb_remove_predecessors rem [] h = h
bb_remove_predecessors rem (p ∷ ps) h =
    bb_remove_predecessors rem ps (store h p (remove_pred rem (h p)))

-- the loop of `bb_add_predecessor` and of ADD_PREDECESSEOR
unfoldable pub add_pred : List ℕ → ℕ → List ℕ
add_pred [] src = []
add_pred (zero ∷ ps) src = src ∷ ps
add_pred (suc p ∷ ps) src = suc p ∷ add_pred ps src

unfoldable pub bb_add_predecessor : ℕ → ℕ → Store → Store
unfolding add_pred
bb_add_predecessor zero src h = h
bb_add_predecessor (suc dst) src h =
    store h (suc dst) (record (h (suc dst)) { pred = add_pred (h (suc dst)).pred src })

unfoldable pub bb_predecessor_count : List ℕ → ℕ
bb_predecessor_count [] = 0
bb_predecessor_count (zero ∷ ps) = bb_predecessor_count ps
bb_predecessor_count (suc p ∷ ps) = suc (bb_predecessor_count ps)

-- `while(b->pred[i] != NULL)`: the predecessors that a walk reads
unfoldable pub walk : List ℕ → List ℕ
walk [] = []
walk (zero ∷ ps) = []
walk (suc p ∷ ps) = suc p ∷ walk ps
