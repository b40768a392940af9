-- ===== src/Tests/MachineTests.antt =====
-- src/tm.c and src/code.c at small machines.
use milac.Code.Bounds.{
  Emit, comment, register_only, register_memory, absolute, skip, emit_all, total, Laid,
  emit_all-Laid,
}
use milac.Code.Jump.{equal, loaded, emit_rm_abs-lands}
use milac.Code.{Tmins, Emitter, inop_in, inop_ldc, inop_jeq, inop_lda, rm, emit_rm_abs}
use milac.Prelude.{
  Bytes, ℕ, ◌+◌, ◌<◌, ◌≡◌, ◌≢◌, refl, subst, List, [], ◌∷◌, some, none, true, ◌==◌, if◌then◌else◌,
  length, replicate, length-replicate, replicate_elem, set, set_all, length-set, get_elem?,
  get_elem?-replicate, IsWord, arith,
}
use milac.SymTab.Names.{decimal}
use milac.Tm.Execute.{step_tm}
use milac.Tm.Lexer.Decimal.{get_num-decimal}
use milac.Tm.Lexer.{get_num}
use milac.Tm.Read.Load.{FileFault, read_instructions-IsValid}
use milac.Tm.Read.Outcome.{Outcome}
use milac.Tm.Read.{fgets_lines, read_instructions}
use milac.Tm.Safe.Step.{step_tm_past_end}
use milac.Tm.Safe.{IsInstruction, IsValid}
use milac.Tm.{Instruction, Tm, sr_okay, op_inc, op_jeq, read_reg, pc_reg, addr_size}

-- -7
get_num-decimal_example : get_num (decimal 4294967289) ≡ (4294967289, true, [])
get_num-decimal_example = get_num-decimal 4294967289 (omega arith)

-- a machine with one instruction everywhere, the program counter at `pc` and 0 elsewhere
machine : Instruction → ℕ → Tm
machine i pc = record {
  imem = replicate addr_size i;
  dmem = replicate addr_size 0;
  reg = 0 ∷ 0 ∷ 0 ∷ 0 ∷ 0 ∷ 0 ∷ 0 ∷ pc ∷ [];
  op_code_simulation_counter = λ k. 0;
  input = [];
  output = [];
}

machine-IsValid : (i : Instruction) (pc : ℕ) → IsInstruction i → IsWord pc → IsValid (machine i pc)
unfolding machine
machine-IsValid i pc ok w = record {
  imem_size = length-replicate addr_size i;
  dmem_size = length-replicate {A = ℕ} addr_size 0;
  reg_size = refl;
  dmem_words = λ k v e. subst IsWord (replicate_elem addr_size k 0 e) (omega arith);
  reg_words =
      set_all (λ k v. IsWord v) (replicate 8 0) 7 pc w
        (λ k v e. subst IsWord (replicate_elem 8 k 0 e) (omega arith));
  instructions = λ k j e. subst IsInstruction (replicate_elem addr_size k i e) ok;
}

abbrev increment : Instruction
increment = record { iop = op_inc; iarg1 = 2; iarg2 = 0; iarg3 = 0 }

increment-IsInstruction : IsInstruction increment
increment-IsInstruction = record {
  first = omega arith;
  second = omega arith;
  third = omega arith;
  source = λ e. omega arith;
}

pc_of_machine : (i : Instruction) (pc : ℕ) → read_reg (machine i pc) pc_reg ≡ some pc
unfolding machine
pc_of_machine i pc = refl

step_tm_past_end_example : step_tm (machine increment 1024) ≡ none
step_tm_past_end_example =
    step_tm_past_end (machine increment 1024)
      (machine-IsValid increment 1024 increment-IsInstruction (omega arith))
      (pc_of_machine increment 1024)

abbrev start : Emitter
start = record { tm_code = []; tm_count = 0; emit_loc = 3; high_emit_loc = 3; trace_code = true }

start-Laid : Laid start
start-Laid = record { high = refl; below = λ i t e n. cc; ordered = λ i j t u lt e h n m. cc }

abbrev calls : List Emit
calls =
    register_only inop_in 2 0 0 []
    ∷ skip 2
    ∷ comment []
    ∷ register_memory inop_ldc 1 7 0 []
    ∷ absolute inop_lda 7 0 []
    ∷ []

emit_all-Laid_example :
    Laid (emit_all calls start) × ((emit_all calls start).emit_loc ≡ start.emit_loc + total calls)
emit_all-Laid_example = emit_all-Laid calls start start-Laid (omega arith)

-- `JEQ 2, 5(7)` at location 3, which goes to 9
abbrev emitted : Tmins
emitted = record { type = rm; line = 3; op = inop_jeq; r1 = 2; r2 = 5; r3 = 7; comment = [] }

abbrev jump_machine : Tm
jump_machine = machine (loaded op_jeq emitted) 3

emitted_there :
    get_elem? (emit_rm_abs inop_jeq 2 9 [] start).tm_code (length start.tm_code) ≡ some emitted
unfolding emit_rm_abs milac.Prelude.add32 milac.Prelude.sub32
emitted_there = refl

loaded_there : get_elem? jump_machine.imem 3 ≡ some (loaded op_jeq emitted)
unfolding machine
loaded_there = get_elem?-replicate addr_size 3 (loaded op_jeq emitted) (omega arith)

loaded-IsInstruction : IsInstruction (loaded op_jeq emitted)
loaded-IsInstruction = record {
  first = omega arith;
  second = omega arith;
  third = omega arith;
  source = λ e. cc;
}

register_zero : read_reg jump_machine 2 ≡ some 0
unfolding machine
register_zero = refl

emit_rm_abs-lands_example :
    (tm' : Tm) × (step_tm jump_machine ≡ some (sr_okay, tm'))
    × (read_reg tm' pc_reg ≡ some (if 0 == 0 then 9 else start.emit_loc + 1))
emit_rm_abs-lands_example =
    emit_rm_abs-lands equal start 2 9 0 [] emitted jump_machine emitted_there loaded_there
      (machine-IsValid (loaded op_jeq emitted) 3 loaded-IsInstruction (omega arith)) (omega arith)
      (omega arith) (pc_of_machine (loaded op_jeq emitted) 3) register_zero
      (λ e. absurd (omega arith))

-- `3: INC 2,0,0`
abbrev program : List Bytes
program =
    (b'3' ∷ b':' ∷ b' ' ∷ b'I' ∷ b'N' ∷ b'C' ∷ b' ' ∷ b'2' ∷ b',' ∷ b'0' ∷ b',' ∷ b'0' ∷ []) ∷ []

read_instructions-IsValid_example :
    Outcome (FileFault [] (fgets_lines program)) IsValid (read_instructions program)
read_instructions-IsValid_example = read_instructions-IsValid program
