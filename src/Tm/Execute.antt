-- ===== src/Tm/Execute.antt =====
-- src/tm.c: `stepTM`, and the loop that runs it.
use milac.Prelude.{
  ℕ, zero, suc, ◌-◌, ◌*◌, ◌/◌, ◌%◌, ◌^◌, List, [], ◌∷◌, Option, none, some, Bool, not, ◌||◌, ◌==◌,
  ltb, leb, if◌then◌else◌, Bytes, length, get_elem?, set, word_mod, add32, sub32, mul32, div_faults,
  div32, is_neg, ◌>>=◌,
}
use milac.Tm.Lexer.{get_num}
use milac.Tm.{
  opcl_rr, opcl_rm, opcl_ra, Opcode, op_halt, op_in, op_out, op_add, op_sub, op_mul, op_div, op_inc,
  op_dec, op_shl, op_shr, op_ld, op_st, op_lda, op_ldc, op_jlt, op_jle, op_jgt, op_jge, op_jeq,
  op_jne, op_lim, line_size, StepResult, sr_okay, sr_halt, sr_imem_err, sr_dmem_err, sr_zerodivide,
  Instruction, Tm, pc_reg, op_class, op_class_counter_index, count_op, out_of_range, read_reg,
  write_reg, okay,
}

-- `reg[r] = reg[s] op reg[t]`
unfoldable pub binary : Tm → Instruction → (ℕ → ℕ → Option ℕ) → Option (StepResult × Tm)
binary tm i f = read_reg tm i.iarg2 >>= λ a.
    read_reg tm i.iarg3 >>= λ b. f a b >>= λ v. write_reg tm i.iarg1 v >>= okay

-- `reg[r] = op reg[r]`
unfoldable pub unary : Tm → Instruction → (ℕ → ℕ) → Option (StepResult × Tm)
unary tm i f = read_reg tm i.iarg1 >>= λ a. write_reg tm i.iarg1 (f a) >>= okay

-- `<<` and `>>` on an int
unfoldable pub shift_left : ℕ → ℕ → Option ℕ
shift_left a n = if ltb n 32 then some ((a * 2 ^ n) % word_mod) else none

unfoldable pub shift_right : ℕ → ℕ → Option ℕ
shift_right a n =
    if ltb n 32
    then some (if is_neg a then word_mod - 1 - (word_mod - 1 - a) / 2 ^ n else a / 2 ^ n)
    else none

-- the loop of opIN: lines are read until one has a number; `gets` writes past `in_Line` with a line that
-- does not fit
unfoldable pub read_num : List Bytes → Option (ℕ × List Bytes)
unfolding get_num
read_num [] = none
read_num (line ∷ lines) =
    let (num, ok, _) = get_num line in
    let rest = read_num lines in
    if leb line_size (length line) then none else if ok then some (num, lines) else rest

unfoldable pub step_rr : Opcode → Tm → Instruction → Option (StepResult × Tm)
unfolding binary unary read_num shift_left shift_right
step_rr op_halt tm i = some (sr_halt, tm)
step_rr op_in tm i = read_num tm.input >>= λ (num, lines).
    write_reg (record tm { input = lines }) i.iarg1 num >>= okay
step_rr op_out tm i = read_reg tm i.iarg1 >>= λ v. okay (record tm { output = v ∷ tm.output })
step_rr op_add tm i = binary tm i (λ a b. some (add32 a b))
step_rr op_sub tm i = binary tm i (λ a b. some (sub32 a b))
step_rr op_mul tm i = binary tm i (λ a b. some (mul32 a b))
step_rr op_div tm i = read_reg tm i.iarg3 >>= λ b.
    if b == 0
    then some (sr_zerodivide, tm)
    else binary tm i (λ a b. if div_faults a b then none else some (div32 a b))
step_rr op_inc tm i = unary tm i (λ a. add32 a 1)
step_rr op_dec tm i = unary tm i (λ a. sub32 a 1)
step_rr op_shl tm i = binary tm i shift_left
step_rr op_shr tm i = binary tm i shift_right
step_rr _ tm i = okay tm

-- with `m`, the address
unfoldable pub step_rm : Opcode → Tm → Instruction → ℕ → Option (StepResult × Tm)
step_rm op_ld tm i m = get_elem? tm.dmem m >>= λ v. write_reg tm i.iarg1 v >>= okay
step_rm op_st tm i m = read_reg tm i.iarg1 >>= λ v.
    if ltb m (length tm.dmem) then okay (record tm { dmem = set tm.dmem m v }) else none
step_rm _ tm i m = okay tm

unfoldable pub jump : Tm → Instruction → ℕ → (ℕ → Bool) → Option (StepResult × Tm)
jump tm i m test =
    read_reg tm i.iarg1 >>= λ v. if test v then (write_reg tm pc_reg m >>= okay) else okay tm

unfoldable pub step_ra : Opcode → Tm → Instruction → ℕ → Option (StepResult × Tm)
unfolding jump
step_ra op_lda tm i m = write_reg tm i.iarg1 m >>= okay
step_ra op_ldc tm i m = write_reg tm i.iarg1 i.iarg2 >>= okay
step_ra op_jlt tm i m = jump tm i m is_neg
step_ra op_jle tm i m = jump tm i m (λ v. is_neg v || v == 0)
step_ra op_jgt tm i m = jump tm i m (λ v. not (is_neg v || v == 0))
step_ra op_jge tm i m = jump tm i m (λ v. not (is_neg v))
step_ra op_jeq tm i m = jump tm i m (λ v. v == 0)
step_ra op_jne tm i m = jump tm i m (λ v. not (v == 0))
step_ra _ tm i m = okay tm

-- the two switches on an instruction that was fetched and counted
unfoldable pub execute : Tm → Instruction → Option (StepResult × Tm)
unfolding step_rr step_rm step_ra
execute tm i = elim (op_class i.iop) [
  | opcl_rr ↦ step_rr i.iop tm i
  | opcl_rm ↦ read_reg tm i.iarg3 >>= λ s.
      let m = add32 i.iarg2 s in
      if out_of_range m then some (sr_dmem_err, tm) else step_rm i.iop tm i m
  | opcl_ra ↦ read_reg tm i.iarg3 >>= λ s. step_ra i.iop tm i (add32 i.iarg2 s)
]

-- the three counters of an instruction
abbrev pub counted : Opcode → Tm → Tm
counted c tm = record tm {
  op_code_simulation_counter =
      count_op (op_class_counter_index c)
        (count_op op_lim (count_op c tm.op_code_simulation_counter));
}

unfoldable pub step_tm : Tm → Option (StepResult × Tm)
unfolding execute
step_tm tm = read_reg tm pc_reg >>= λ pc.
    if out_of_range pc
    then some (sr_imem_err, tm)
    else (write_reg tm pc_reg (add32 pc 1) >>= λ next.
        get_elem? tm.imem pc >>= λ i. execute (counted i.iop next) i)

-- the loop of the command `s`, with `stepcnt`
unfoldable pub steps : ℕ → StepResult → Tm → Option (StepResult × Tm)
unfolding step_tm
steps zero result tm = some (result, tm)
steps (suc stepcnt) sr_okay tm = step_tm tm >>= λ (result, tm'). steps stepcnt result tm'
steps (suc stepcnt) result tm = some (result, tm)
