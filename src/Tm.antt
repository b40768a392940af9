-- ===== src/Tm.antt =====
-- src/tm.c: the Tiny Machine. A register, a data cell and an argument of an instruction are 32-bit
-- words, on which signed arithmetic wraps. `none` is a fault of the C program: an access outside an
-- array, a shift by 32 or more, -2 ^ 31 divided by -1, or `gets` at the end of the input or with a line
-- that does not fit in `in_Line`. `input` has the lines still to be
-- read, and `output` what OUT has printed, the last in front. No line has a NUL.
pub mod Lexer
pub mod Execute
pub mod Safe
pub mod Read
use milac.Prelude.{
  ℕ, zero, suc, ◌+◌, ◌-◌, ◌*◌, ◌/◌, ◌%◌, ◌^◌, List, [], ◌∷◌, Option, none, some, Bool, true, false,
  not, ◌||◌, ◌==◌, leb, ltb, if◌then◌else◌, Bytes, length, get_elem?, set, word_mod, minus_one,
  add32, sub32, mul32, div32, is_neg, ◌>>=◌,
}

pub data OpClass : Type 0 where
  opcl_rr opcl_rm opcl_ra : OpClass

pub data Opcode : Type 0 where
  op_halt op_in op_out op_add op_sub op_mul op_div op_inc op_dec op_shl op_shr op_rr_lim op_ld :
      Opcode
  op_st op_rm_lim op_lda op_ldc op_jlt op_jle op_jgt op_jge op_jeq op_jne op_ra_lim op_lim : Opcode

-- the number of an enumerator
abbrev pub op_number : Opcode → ℕ
op_number op_halt = 0
op_number op_in = 1
op_number op_out = 2
op_number op_add = 3
op_number op_sub = 4
op_number op_mul = 5
op_number op_div = 6
op_number op_inc = 7
op_number op_dec = 8
op_number op_shl = 9
op_number op_shr = 10
op_number op_rr_lim = 11
op_number op_ld = 12
op_number op_st = 13
op_number op_rm_lim = 14
op_number op_lda = 15
op_number op_ldc = 16
op_number op_jlt = 17
op_number op_jle = 18
op_number op_jgt = 19
op_number op_jge = 20
op_number op_jeq = 21
op_number op_jne = 22
op_number op_ra_lim = 23
op_number op_lim = 24

pub data StepResult : Type 0 where
  sr_okay sr_halt sr_imem_err sr_dmem_err sr_zerodivide : StepResult

pub record Instruction : Type 0 where
  pub iop : Opcode
  pub iarg1 : ℕ
  pub iarg2 : ℕ
  pub iarg3 : ℕ

pub record Tm : Type 0 where
  pub imem : List Instruction
  pub dmem : List ℕ
  pub reg : List ℕ
  pub op_code_simulation_counter : ℕ → ℕ
  pub input : List Bytes
  pub output : List ℕ

-- IADDR_SIZE and DADDR_SIZE, NO_REGS, PC_REG
abbrev pub addr_size : ℕ
addr_size = 1024

-- LINESIZE
abbrev pub line_size : ℕ
line_size = 121

abbrev pub no_regs : ℕ
no_regs = 8

abbrev pub pc_reg : ℕ
pc_reg = 7

abbrev pub op_class : Opcode → OpClass
op_class c =
    if leb (op_number c) (op_number op_rr_lim)
    then opcl_rr
    else if leb (op_number c) (op_number op_rm_lim)
    then opcl_rm
    else opcl_ra

abbrev pub op_class_counter_index : Opcode → Opcode
op_class_counter_index c =
    if leb (op_number c) (op_number op_rr_lim)
    then op_rr_lim
    else if leb (op_number c) (op_number op_rm_lim)
    then op_rm_lim
    else op_ra_lim

abbrev pub count_op : Opcode → (ℕ → ℕ) → ℕ → ℕ
count_op c counter = λ k. if k == op_number c then add32 (counter k) 1 else counter k

-- `(a < 0) || (a > IADDR_SIZE)`
abbrev pub out_of_range : ℕ → Bool
out_of_range a = is_neg a || ltb addr_size a

abbrev pub read_reg : Tm → ℕ → Option ℕ
read_reg tm r = get_elem? tm.reg r

abbrev pub write_reg : Tm → ℕ → ℕ → Option Tm
write_reg tm r v = if ltb r (length tm.reg) then some (record tm { reg = set tm.reg r v }) else none

-- `srOKAY` at the end of `stepTM`
abbrev pub okay : Tm → Option (StepResult × Tm)
okay tm = some (sr_okay, tm)
