-- ===== src/Blocks/Compact.antt =====
-- src/bb.c: `bb_compact`, which takes out the blocks that are not reached and merges blocks. A fault is a
-- block without instructions, a NULL that is followed, or a block that is merged with itself, where the
-- source reads the list to which it pushes. `bb_free` only frees.
use milac.Blocks.Build.{is_iff, elem_front}
use milac.Blocks.{
  Store, store, walk, bb_remove_predecessors, bb_add_predecessor, bb_predecessor_count,
}
use milac.Prelude.{
  ℕ, zero, suc, List, [], ◌∷◌, ◌++◌, Option, none, some, Bool, true, false, not, ◌&&◌, ◌==◌, ◌>>=◌,
  if◌then◌else◌, get_elem?,
}
use milac.Tac.Steps.{is_label}
use milac.Tac.{Op, Tac, tjmp}

abbrev pub is_jmp : Op → Bool
is_jmp tjmp = true
is_jmp _ = false

-- `code->blocks`, the store and `*changed`
pub record Compaction : Type 0 where
  pub blocks : List ℕ
  pub heap : Store
  pub changed : Bool

-- the last instruction and those before it; `list_back` of an empty list is a fault
unfoldable pub split_back : List Tac → Option (List Tac × Tac)
split_back [] = none
split_back (i ∷ is) = elim (split_back is) [ none ↦ some ([], i) | some (js, j) ↦ some (i ∷ js, j) ]

unfoldable pub split_front : List Tac → Option (Tac × List Tac)
split_front [] = none
split_front (i ∷ is) = some (i, is)

-- the `while` loop over the predecessors of `b`, which is not reached
unfoldable pub bypass : ℕ → List ℕ → Store → Store
bypass b [] h = h
bypass b (p ∷ ps) h =
    let h₁ = if (h p).next == b then store h p (record (h p) { next = (h b).next }) else h in
    let h₂ = if (h₁ p).jmp == b then store h₁ p (record (h₁ p) { jmp = (h₁ b).jmp }) else h₁ in
    bypass b ps h₂

-- the first loop, over the blocks `ps` of `all`
unfoldable pub detach : List ℕ → List ℕ → Store → Bool → Store × Bool
unfolding bypass walk
detach all [] h changed = (h, changed)
detach all (b ∷ ps) h changed =
    if (h b).unreachable
    then (let h' = bb_remove_predecessors b all h in
        detach all ps (bypass b (walk (h' b).pred) h') true)
    else detach all ps h changed

-- the loops that remove the blocks that are not reached
unfoldable pub drop_unreachable : List ℕ → Store → List ℕ
drop_unreachable [] h = []
drop_unreachable (b ∷ ps) h =
    let rest = drop_unreachable ps h in if (h b).unreachable then rest else b ∷ rest

-- `next` is put behind the instructions `is` of `b`, where `js` are those of `next` that are kept
unfoldable pub merge : List ℕ → ℕ → ℕ → List Tac → List Tac → Store → Option Store
merge all b next is js h =
    if next == b
    then none
    else (let n = record (h next) { ins = js } in
        let h₁ = store h next (record n { unreachable = true }) in
        let h₂ = store h₁ b (record (h b) { ins = is ++ js; next = n.next; jmp = n.jmp }) in
        let h₃ = bb_remove_predecessors next all h₂ in some (bb_add_predecessor n.next b h₃))

-- NULL is followed at `next->ins`
abbrev pub merge_next : List ℕ → ℕ → List Tac → ℕ → Store → Option Store
merge_next all b is zero h = none
merge_next all b is (suc n) h = merge all b (suc n) is (h (suc n)).ins h

-- the first instruction of `next` goes, too
abbrev pub merge_behind : List ℕ → ℕ → List Tac → ℕ → Store → Option Store
merge_behind all b is zero h = none
merge_behind all b is (suc n) h =
    split_front (h (suc n)).ins >>= λ front. merge all b (suc n) is front.1 h

-- `next` is the block behind the element, or NULL
abbrev pub or_null : Option ℕ → ℕ
or_null none = 0
or_null (some p) = p

-- a turn of the third loop on a block that is reached, whose last instruction is `i` behind `is`
unfoldable pub shorten : List ℕ → ℕ → ℕ → List Tac → Tac → Store → Bool → Option (Store × Bool)
unfolding merge split_front
shorten all behind b is i h changed =
    if is_iff i.op && (h b).jmp == 0
    then (merge_next all b is (h b).next h >>= λ h'. some (h', true))
    else if is_iff i.op && (h b).next == 0
    then (merge_behind all b is (h b).jmp h >>= λ h'. some (h', true))
    else if is_jmp i.op && (behind == (h b).jmp) && not ((h b).jmp == 0)
    then (merge_behind all b is (h b).jmp h >>= λ h'. some (h', true))
    else some (h, changed)

unfoldable pub shorten_all : List ℕ → List ℕ → Store → Bool → Option (Store × Bool)
unfolding shorten split_back
shorten_all all [] h changed = some (h, changed)
shorten_all all (b ∷ ps) h changed = split_back (h b).ins >>= λ back.
    (if (h b).unreachable
      then some (h, changed)
      else shorten all (or_null (elem_front ps)) b back.0 back.1 h changed)
    >>= λ s. shorten_all all ps s.0 s.1

-- a turn of the last loop on a block with one predecessor, whose first instruction is `i` before `is`;
-- `pred` is `b->pred[0]`
abbrev pub unlabel : List ℕ → ℕ → ℕ → Tac → List Tac → Store → Bool → Option (Store × Bool)
unlabel all b zero i is h changed = none
unlabel all b (suc pred) i is h changed =
    if (b == (h (suc pred)).next) && is_label i.op
    then (merge all (suc pred) b (h (suc pred)).ins is h >>= λ h'. some (h', true))
    else some (h, changed)

unfoldable pub unlabel_all : List ℕ → List ℕ → Store → Bool → Option (Store × Bool)
unfolding merge split_front bb_predecessor_count
unlabel_all all [] h changed = some (h, changed)
unlabel_all all (b ∷ ps) h changed =
    (if bb_predecessor_count (h b).pred == 1
      then (split_front (h b).ins >>= λ front.
          get_elem? (h b).pred 0 >>= λ pred. unlabel all b pred front.0 front.1 h changed)
      else some (h, changed))
    >>= λ s. unlabel_all all ps s.0 s.1

unfoldable pub bb_compact : Compaction → Option Compaction
unfolding detach drop_unreachable shorten_all unlabel_all
bb_compact c =
    let s₁ = detach c.blocks c.blocks c.heap c.changed in
    let bs₁ = drop_unreachable c.blocks s₁.0 in
    shorten_all bs₁ bs₁ s₁.0 s₁.1 >>= λ s₂.
    let bs₂ = drop_unreachable bs₁ s₂.0 in
    unlabel_all bs₂ bs₂ s₂.0 s₂.1 >>= λ s₃.
    some (record { blocks = drop_unreachable bs₂ s₃.0; heap = s₃.0; changed = s₃.1 })
