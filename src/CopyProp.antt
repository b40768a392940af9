-- ===== src/CopyProp.antt =====
-- src/copy_prop.c: copy propagation. An instruction is the same as another where it stands at the
-- same place of its block; `bb` is 0 where the pass has set it to NULL. `out` is `bb->lva.out`.
pub mod Replace
pub mod Ends
use mathlib.Core.List.{reverse}
use milac.Lva.{Bits, Block, Store, store}
use milac.Prelude.{
  ℕ, zero, suc, length, List, [], ◌∷◌, Option, none, some, Bool, true, false, not, ◌&&◌, ◌||◌, ◌==◌,
  if◌then◌else◌,
}
use milac.SymTab.{Symbol}
use milac.Tac.Meaning.{is_const}
use milac.Tac.{Op, Tac, tac_is_binop, tiff, tin, tout, tassign}

-- `if(p == r) p = a;`
abbrev pub renamed : ℕ → ℕ → ℕ → ℕ
renamed r a p = if p == r then a else p

-- the instructions that are no binary operation: whether the loop stops, and the instruction
abbrev pub stops_other : ℕ → Op → Tac → Bool
stops_other r tassign i = i.r == r
stops_other r tin i = i.r == r
stops_other r _ i = false

abbrev pub replace_other : ℕ → ℕ → Op → Tac → Tac
replace_other r a tout i = record i { r = renamed r a i.r }
replace_other r a tiff i = record i { a1 = renamed r a i.a1 }
replace_other r a _ i = i

abbrev pub stops : ℕ → Tac → Bool
stops r i = if tac_is_binop i.op then i.r == r else stops_other r i.op i

abbrev pub replace_ins : ℕ → ℕ → Tac → Tac
replace_ins r a i =
    if tac_is_binop i.op
    then record i { a1 = renamed r a i.a1; a2 = renamed r a i.a2 }
    else replace_other r a i.op i

-- `cpp_replace` on the instructions behind `i`, where `r` is `i->r` and `a` is `i->a1`
unfoldable pub cpp_replace : ℕ → ℕ → List Tac → List Tac
cpp_replace r a [] = []
cpp_replace r a (i ∷ is) =
    let rest = cpp_replace r a is in if stops r i then i ∷ is else replace_ins r a i ∷ rest

abbrev pub is_assign : Op → Bool
is_assign tassign = true
is_assign _ = false

-- `tac != NULL && tac->r == p`, where `tac` is the instruction before
abbrev pub writes_back : List Tac → ℕ → Bool
writes_back [] p = false
writes_back (t ∷ ts) p = t.r == p

-- `tac->r = r`
abbrev pub set_result : List Tac → ℕ → List Tac
set_result [] r = []
set_result (t ∷ ts) r = record t { r = r } ∷ ts

module _ (deref : ℕ → Symbol) (out : Bits) where
  abbrev pub is_copy : Tac → Bool
  is_copy i = is_assign i.op && not (is_const (deref i.a1))

  abbrev pub is_live : Tac → Bool
  is_live i = out (deref i.r).id

  -- a copy to a symbol that is not live at the end of the block
  abbrev pub dead_copy : List Tac → Tac → Tac
  dead_copy done i = if writes_back done i.a1 then record i { bb = 0 } else i

  -- The first loop of `cpp_bb` on the instructions that are done, the last in front, and on as many
  -- of the others as `n` says, all of them: those that are done in the end, and `changed`.
  unfoldable pub cpp_loop : ℕ → List Tac → List Tac → Bool → List Tac × Bool
  unfolding cpp_replace
  cpp_loop n done [] changed = (done, changed)
  cpp_loop zero done (i ∷ is) changed = (done, changed)
  cpp_loop (suc n) done (i ∷ is) changed =
      let dead = cpp_loop n (dead_copy done i ∷ done) (cpp_replace i.r i.a1 is) changed in
      let live = cpp_loop n (record i { bb = 0 } ∷ set_result done i.r) is true in
      let other = cpp_loop n (i ∷ done) is changed in
      if is_copy i
      then (if not (is_live i) then dead else if writes_back done i.a1 then live else other)
      else other

-- the second loop
unfoldable pub remove_marked : List Tac → List Tac
remove_marked [] = []
remove_marked (i ∷ is) = let rest = remove_marked is in if i.bb == 0 then rest else i ∷ rest

unfoldable pub cpp_bb : (ℕ → Symbol) → Block → Block × Bool
unfolding cpp_loop remove_marked
cpp_bb deref b =
    let (done, changed) = cpp_loop deref b.lva.out (length b.ins) [] b.ins false in
    (record b { ins = remove_marked (reverse done) }, changed)

-- `list_each(code->blocks, b) changed = cpp_bb(b);`
unfoldable pub cpp_blocks : (ℕ → Symbol) → List ℕ → Store → Bool → Store × Bool
unfolding cpp_bb
cpp_blocks deref [] h changed = (h, changed)
cpp_blocks deref (p ∷ ps) h changed =
    let (b, changed') = cpp_bb deref (h p) in cpp_blocks deref ps (store h p b) changed'

-- `while(changed)`; `none` means that the fuel ran out
unfoldable pub copy_prop : (ℕ → Symbol) → ℕ → List ℕ → Store → Option Store
unfolding cpp_blocks
copy_prop deref zero ps h = none
copy_prop deref (suc fuel) ps h =
    let (h', changed) = cpp_blocks deref ps h false in
    let rest = copy_prop deref fuel ps h' in if changed then rest else some h'
