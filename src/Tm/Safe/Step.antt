-- ===== src/Tm/Safe/Step.antt =====
-- src/tm.c: the faults of `stepTM`, and of the loop that runs it.
use milac.Prelude.{
  ℕ, zero, suc, ◌≤◌, ◌≡◌, refl, ◌⊎◌, inl, inr, List, [], ◌∷◌, none, some, Bool, true, false, ltb,
  if_both, Bytes, length, get_elem?, set, get_elem?-none, IsWord, add32, minus_one, is_neg,
  add32-IsWord, arith,
}
use milac.Tm.Lexer.{get_terms, get_num}
use milac.Tm.Safe.{IsValid}
use milac.Tm.Execute.{counted, step_tm}
use milac.Tm.{
  OpClass, opcl_rr, opcl_rm, opcl_ra, Opcode, op_in, op_div, op_shl, op_shr, Instruction, Tm,
  pc_reg, op_class, read_reg, line_size, addr_size,
}

get_terms-IsWord :
    (fuel num : ℕ) (temp : Bool) (cs : Bytes) → IsWord num → IsWord (get_terms fuel num temp cs).0
unfolding get_terms
get_terms-IsWord zero num temp cs w = w
get_terms-IsWord (suc fuel) num temp cs w =
    if_both {A = ℕ × Bool × Bytes} (λ r. IsWord r.0) _
      (get_terms-IsWord fuel _ _ _ (add32-IsWord _ _)) (add32-IsWord _ _)

pub get_num-IsWord : (cs : Bytes) → IsWord (get_num cs).0
unfolding get_num
get_num-IsWord cs = get_terms-IsWord (suc (length cs)) 0 false cs (omega arith)

-- The lines end, or there is one that does not fit in `in_Line`, before one with a number.
abbrev pub InputFault : List Bytes → Type 0
InputFault [] = Unit
InputFault (line ∷ lines) =
    (line_size ≤ length line) ⊎ (((get_num line).1 ≡ false) × InputFault lines)

-- a shift by a register that is negative or above 31
abbrev pub ShiftFault : Tm → Instruction → Type 0
ShiftFault tm i = (n : ℕ) × (read_reg tm i.iarg3 ≡ some n) × (32 ≤ n)

-- the faults of an instruction without an address
abbrev pub RrFault : Opcode → Tm → Instruction → Type 0
RrFault op_in tm i = InputFault tm.input
RrFault op_div tm i =
    (read_reg tm i.iarg2 ≡ some 2147483648) × (read_reg tm i.iarg3 ≡ some minus_one)
RrFault op_shl tm i = ShiftFault tm i
RrFault op_shr tm i = ShiftFault tm i
RrFault _ tm i = ⊥

-- the address of an instruction
abbrev pub AddressFault : Tm → Instruction → Type 0
AddressFault tm i = (s : ℕ) × (read_reg tm i.iarg3 ≡ some s) × (add32 i.iarg2 s ≡ addr_size)

abbrev pub InstructionFault : OpClass → Tm → Instruction → Type 0
InstructionFault opcl_rr tm i = RrFault i.iop tm i
InstructionFault opcl_rm tm i = AddressFault tm i
InstructionFault opcl_ra tm i = ⊥

pub class-cases : (c : OpClass) → (c ≡ opcl_rr) ⊎ (c ≡ opcl_rm) ⊎ (c ≡ opcl_ra)
class-cases opcl_rr = inl refl
class-cases opcl_rm = inr (inl refl)
class-cases opcl_ra = inr (inr refl)

-- the machine that executes the instruction `i` at `pc`
abbrev pub fetched : Tm → ℕ → Instruction → Tm
fetched tm pc i = counted i.iop (record tm { reg = set tm.reg pc_reg (add32 pc 1) })

-- The step reads past the instructions, or executes an instruction that faults.
abbrev pub StepFault : Tm → Type 0
StepFault tm =
    (pc : ℕ) × (read_reg tm pc_reg ≡ some pc)
    × ((pc ≡ addr_size)
        ⊎ ((i : Instruction) × (get_elem? tm.imem pc ≡ some i)
            × InstructionFault (op_class i.iop) (fetched tm pc i) i))

-- A valid machine whose program counter is 1024 faults: the test `pc > IADDR_SIZE` lets the step read
-- past the last instruction, and srIMEM_ERR is not returned.
pub step_tm_past_end :
    (tm : Tm) → IsValid tm → read_reg tm pc_reg ≡ some addr_size → step_tm tm ≡ none
unfolding step_tm is_neg
step_tm_past_end tm valid e =
    let room : ltb pc_reg (length tm.reg) ≡ true = ground (arith, valid.reg_size) in
    let missing = get_elem?-none tm.imem addr_size (omega (arith, valid.imem_size)) in
    rw (e, room, missing) refl
