-- ===== src/Lva.antt =====
-- src/lva.c: the analysis of live variables, on the blocks of src/3ac.h. A `bb_t *` is a number with
-- NULL as 0, and the blocks lie in a store. A bit set is a function from the symbols' ids, as
-- src/bitset.h keeps one; `calloc` is taken to succeed. `lva_delete` and `lva_bb_delete` only free.
pub mod Exposed
pub mod Live
pub mod Grows
pub mod Ends
pub mod Settled
pub mod Inside
use milac.Prelude.{
  ℕ, zero, suc, ◌+◌, List, [], ◌∷◌, Option, none, some, Bool, true, false, not, ◌&&◌, ◌||◌, ◌==◌,
  if◌then◌else◌, ltb,
}
use milac.SymTab.{Symbol}
use milac.Tac.Meaning.{is_const}
use milac.Tac.{Op, Tac, tac_is_binop, tiff, tin, tout, tassign}

abbrev pub Bits : Type 0
Bits = ℕ → Bool

-- lva_t
pub record Lva : Type 0 where
  pub count : ℕ
  pub def : Bits
  pub use_ : Bits
  pub in_ : Bits
  pub out : Bits

-- what the passes use of bb_t
pub record Block : Type 0 where
  pub bbid : ℕ
  pub ins : List Tac
  pub lva : Lva
  pub next : ℕ
  pub jmp : ℕ

abbrev pub no_bits : Bits
no_bits = λ i. false

abbrev pub bitset : Bits → ℕ → Bits
bitset s b = λ i. i == b || s i

abbrev pub Store : Type 0
Store = ℕ → Block

abbrev pub store : Store → ℕ → Block → Store
store h p b = λ q. if q == p then b else h q

-- the list of pointers `code->blocks`, and each block with empty bit sets
unfoldable pub lva_init : ℕ → List ℕ → Store → Store
lva_init symb_count [] h = h
lva_init symb_count (p ∷ ps) h = lva_init symb_count ps (
    store h p (record (h p) {
      lva = record {
        count = symb_count;
        def = no_bits;
        use_ = no_bits;
        in_ = no_bits;
        out = no_bits;
      };
    }))

module _ (deref : ℕ → Symbol) where
  -- USEBIT
  abbrev pub usebit : ℕ → Lva → Lva
  usebit p l =
      if not (is_const (deref p)) && not (l.def (deref p).id)
      then record l { use_ = bitset l.use_ (deref p).id }
      else l

  -- `BITSET(b->lva.def, p->id)`
  abbrev pub defbit : ℕ → Lva → Lva
  defbit p l = record l { def = bitset l.def (deref p).id }

  -- the instructions that are no binary operation
  abbrev pub defuse_other : Op → Tac → Lva → Lva
  defuse_other tin i l = defbit i.r l
  defuse_other tout i l = usebit i.r l
  defuse_other tiff i l = usebit i.a1 l
  defuse_other tassign i l = defbit i.r (usebit i.a1 l)
  defuse_other _ i l = l

  unfoldable pub defuse_ins : Tac → Lva → Lva
  defuse_ins i l =
      if tac_is_binop i.op then defbit i.r (usebit i.a2 (usebit i.a1 l)) else defuse_other i.op i l

  unfoldable pub defuse_bb : List Tac → Lva → Lva
  unfolding defuse_ins
  defuse_bb [] l = l
  defuse_bb (i ∷ is) l = defuse_bb is (defuse_ins i l)

  unfoldable pub lva_defuse : List ℕ → Store → Store
  unfolding defuse_bb
  lva_defuse [] h = h
  lva_defuse (p ∷ ps) h =
      lva_defuse ps (store h p (record (h p) { lva = defuse_bb (h p).ins (h p).lva }))

-- the first loop over the bits
abbrev pub live_in : Lva → Bits
live_in l =
    λ i. if ltb i l.count then (if l.out i && not (l.def i) then true else l.use_ i) else l.in_ i

-- `if(NULL != succ)`, the loop over the bits
abbrev pub add_succ : Store → ℕ → ℕ → Bits → Bits
add_succ h zero count out = out
add_succ h (suc p) count out = λ i. ltb i count && (h (suc p)).lva.in_ i || out i

-- some bit below `n` differs
unfoldable pub bits_differ : ℕ → Bits → Bits → Bool
bits_differ zero s t = false
bits_differ (suc n) s t = bits_differ n s t || (if s n then not (t n) else t n)

-- the sets of a block after its turn in the loop
unfoldable pub block_lva : ℕ → Store → Lva
block_lva p h =
    let l = (h p).lva in
    let h₁ = store h p (record (h p) { lva = record l { in_ = live_in l } }) in
    let out₁ = add_succ h₁ (h p).jmp l.count l.out in
    let out₂ = add_succ h₁ (h p).next l.count out₁ in record l { in_ = live_in l; out = out₂ }

-- a block's turn: the store, and whether its `out` has changed
unfoldable pub lva_block : ℕ → Store → Store × Bool
unfolding bits_differ block_lva
lva_block p h =
    let l = block_lva p h in
    (store h p (record (h p) { lva = l }), bits_differ (h p).lva.count l.out (h p).lva.out)

-- `list_each_r`: the last block of the list comes first
unfoldable pub lva_pass : List ℕ → Store → Store × Bool
unfolding lva_block
lva_pass [] h = (h, false)
lva_pass (p ∷ ps) h =
    let (h₁, later) = lva_pass ps h in let (h₂, here) = lva_block p h₁ in (h₂, later || here)

-- `while(changed)`; `none` means that the fuel ran out
unfoldable pub lva_while : ℕ → List ℕ → Store → Option Store
unfolding lva_pass
lva_while zero ps h = none
lva_while (suc fuel) ps h =
    let (h', changed) = lva_pass ps h in
    let rest = lva_while fuel ps h' in if changed then rest else some h'

unfoldable pub lva : (ℕ → Symbol) → ℕ → ℕ → List ℕ → Store → Option Store
unfolding lva_while lva_init lva_defuse
lva deref fuel symb_count ps h = lva_while fuel ps (lva_defuse deref ps (lva_init symb_count ps h))
