-- ===== src/Gen/Blocks.antt =====
-- src/gen.c: the loop `gen` over the blocks and their instructions. `h` is the store of the blocks. A
-- block without instructions leaves the sets of `lva_bb` unallocated, and has no use for them.
use mathlib.Core.List.{reverse}
use milac.Code.{emit_comment, emit_ro, inop_halt}
use milac.Gen.Select.{gen_ins}
use milac.Gen.{Gen, emitted, note, gen_bb_loads, free_regs}
use milac.Lva.Inside.{lva_bb}
use milac.Lva.{Bits, Block, Store}
use milac.Prelude.{
  ◌>>=◌, ℕ, List, [], ◌∷◌, Option, none, some, Bool, true, false, ◌||◌, if◌then◌else◌,
}
use milac.Tac.{Op, Tac, tiff, tjmp}

abbrev pub is_jump : Op → Bool
is_jump tiff = true
is_jump tjmp = true
is_jump _ = false

-- `loaded`, at the end of a block
abbrev pub has_jump : List Tac → Bool
has_jump [] = false
has_jump (i ∷ is) = is_jump i.op || has_jump is

-- the instructions with their `out`, and the one before them
unfoldable pub gen_all : Store → List Tac → List Bits → Option Tac → Gen → Option (Option Tac × Gen)
unfolding gen_ins free_regs
gen_all h [] outs prev g = some (prev, g)
gen_all h (i ∷ is) [] prev g = none
gen_all h (i ∷ is) (out ∷ outs) prev g = do
  g₁ ← gen_ins (h i.bb).lva.out i prev g
  gen_all h is outs (some i) (free_regs out g₁)

-- the sets that `lva_bb` computes, in the order of the instructions
abbrev pub ins_out : Gen → Block → List Bits
ins_out g b = elim (lva_bb g.sym (reverse b.ins) b.lva.out) [ none ↦ [] | some outs ↦ reverse outs ]

unfoldable pub gen_block : Store → ℕ → Option Tac → Gen → Option (Option Tac × Gen)
unfolding gen_all gen_bb_loads lva_bb
gen_block h p prev g = do
  let g₁ = record g { registers = λ i. 0 }
  (prev', g₂) ← gen_all h (h p).ins (ins_out g₁ (h p)) prev g₁
  some (prev', if has_jump (h p).ins then g₂ else gen_bb_loads (h p).lva.out g₂)

unfoldable pub gen_blocks : Store → List ℕ → Option Tac → Gen → Option Gen
unfolding gen_block
gen_blocks h [] prev g = some g
gen_blocks h (p ∷ ps) prev g = do (prev', g₁) ← gen_block h p prev g; gen_blocks h ps prev' g₁

unfoldable pub gen : Store → List ℕ → Gen → Option Gen
unfolding gen_blocks
gen h ps g = do
  g₁ ← gen_blocks h ps none g
  some (emitted (emit_ro inop_halt 0 0 0 note) (emitted (emit_comment note) g₁))
