-- ===== src/Tm/Read.antt =====
-- src/tm.c: `readInstructions`, on the lines of a file that ends with a newline. When `fgets` fails at
-- the end of such a file, `in_Line` still has the last line, which is read a second time.
pub mod Outcome
pub mod Load
use milac.Prelude.{
  ℕ, zero, suc, ◌+◌, ◌-◌, List, [], ◌∷◌, ◌++◌, Option, none, some, Bool, true, false, ◌||◌, ◌==◌,
  leb, ltb, if◌then◌else◌, Bytes, bytes_eq, length, set, replicate, take, is_neg,
}
use milac.Tm.Lexer.{get_num, get_word, skip_ch, non_blank}
use milac.Tm.{
  OpClass, opcl_rr, opcl_rm, opcl_ra, Opcode, op_halt, op_in, op_out, op_add, op_sub, op_mul,
  op_div, op_inc, op_dec, op_shl, op_shr, op_rr_lim, op_ld, op_st, op_rm_lim, op_lda, op_ldc,
  op_jlt, op_jle, op_jgt, op_jge, op_jeq, op_jne, op_ra_lim, op_lim, Instruction, Tm, line_size,
  addr_size, no_regs, op_class, op_class_counter_index, count_op,
}

-- the messages of `error`
pub data ReadError : Type 0 where
  bad_location location_too_large missing_colon missing_opcode illegal_opcode : ReadError
  bad_register missing_comma bad_displacement missing_lparen : ReadError

-- a fault of the program, FALSE with a message, or a value
pub data Read {ℓ} (A : Type ℓ) : Type ℓ where
  fault : Read A
  error : ReadError → Read A
  ok : A → Read A

infixl 5 ◌>>=◌
abbrev pub ◌>>=◌ {ℓ κ} : {A : Type ℓ} {B : Type κ} → Read A → (A → Read B) → Read B
fault >>= f = fault
error e >>= f = error e
ok a >>= f = f a

-- opCodeTab with the opcodes, up to opRALim
abbrev pub op_code_tab : List (Opcode × Bytes)
op_code_tab =
    (op_halt, b'H' ∷ b'A' ∷ b'L' ∷ b'T' ∷ [])
    ∷ (op_in, b'I' ∷ b'N' ∷ [])
    ∷ (op_out, b'O' ∷ b'U' ∷ b'T' ∷ [])
    ∷ (op_add, b'A' ∷ b'D' ∷ b'D' ∷ [])
    ∷ (op_sub, b'S' ∷ b'U' ∷ b'B' ∷ [])
    ∷ (op_mul, b'M' ∷ b'U' ∷ b'L' ∷ [])
    ∷ (op_div, b'D' ∷ b'I' ∷ b'V' ∷ [])
    ∷ (op_inc, b'I' ∷ b'N' ∷ b'C' ∷ [])
    ∷ (op_dec, b'D' ∷ b'E' ∷ b'C' ∷ [])
    ∷ (op_shl, b'S' ∷ b'H' ∷ b'L' ∷ [])
    ∷ (op_shr, b'S' ∷ b'H' ∷ b'R' ∷ [])
    ∷ (op_rr_lim, b'?' ∷ b'R' ∷ b'R' ∷ [])
    ∷ (op_ld, b'L' ∷ b'D' ∷ [])
    ∷ (op_st, b'S' ∷ b'T' ∷ [])
    ∷ (op_rm_lim, b'?' ∷ b'R' ∷ b'M' ∷ [])
    ∷ (op_lda, b'L' ∷ b'D' ∷ b'A' ∷ [])
    ∷ (op_ldc, b'L' ∷ b'D' ∷ b'C' ∷ [])
    ∷ (op_jlt, b'J' ∷ b'L' ∷ b'T' ∷ [])
    ∷ (op_jle, b'J' ∷ b'L' ∷ b'E' ∷ [])
    ∷ (op_jgt, b'J' ∷ b'G' ∷ b'T' ∷ [])
    ∷ (op_jge, b'J' ∷ b'G' ∷ b'E' ∷ [])
    ∷ (op_jeq, b'J' ∷ b'E' ∷ b'Q' ∷ [])
    ∷ (op_jne, b'J' ∷ b'N' ∷ b'E' ∷ [])
    ∷ (op_ra_lim, b'?' ∷ b'R' ∷ b'A' ∷ [])
    ∷ []

-- `strncmp(a, b, 4) == 0`
abbrev pub same_start : Bytes → Bytes → Bool
same_start a b = bytes_eq (take 4 (a ++ (0 ∷ []))) (take 4 (b ++ (0 ∷ [])))

unfoldable pub find_op : List (Opcode × Bytes) → Bytes → Read Opcode
find_op [] word = error illegal_opcode
find_op ((op, name) ∷ rest) word =
    let more = find_op rest word in if same_start name word then ok op else more

-- `(! getNum ()) || (num < 0) || (num >= NO_REGS)`
unfoldable pub read_register : Bytes → Read (ℕ × Bytes)
read_register cs =
    let (num, found, rest) = get_num cs in
    if found
    then (if ltb num no_regs then ok (num, rest) else error bad_register)
    else error bad_register

unfoldable pub expect : ℕ → ReadError → Bytes → Read Bytes
expect c message cs = let (found, rest) = skip_ch c cs in if found then ok rest else error message

-- `! skipCh('(') && ! skipCh(',')`
unfoldable pub expect_paren : Bytes → Read Bytes
unfolding expect
expect_paren cs =
    let (found, rest) = skip_ch b'(' cs in
    if found then ok rest else expect b',' missing_lparen rest

-- the arguments of an instruction: the first case of the `switch`, and the other two
unfoldable pub read_rr : Opcode → Bytes → Read Instruction
unfolding read_register expect
read_rr op cs = read_register cs >>= λ (arg1, cs₁). expect b',' missing_comma cs₁ >>= λ cs₂.
    read_register cs₂ >>= λ (arg2, cs₃). expect b',' missing_comma cs₃ >>= λ cs₄.
    read_register cs₄ >>= λ (arg3, cs₅).
    ok (record { iop = op; iarg1 = arg1; iarg2 = arg2; iarg3 = arg3 })

unfoldable pub read_rm : Opcode → Bytes → Read Instruction
unfolding read_register expect expect_paren
read_rm op cs = read_register cs >>= λ (arg1, cs₁). expect b',' missing_comma cs₁ >>= λ cs₂.
    let (num, found, cs₃) = get_num cs₂ in
    if found
    then (expect_paren cs₃ >>= λ cs₄. read_register cs₄ >>= λ (arg3, cs₅).
        ok (record { iop = op; iarg1 = arg1; iarg2 = num; iarg3 = arg3 }))
    else error bad_displacement

unfoldable pub read_arguments : Opcode → Bytes → Read Instruction
unfolding read_rr read_rm
read_arguments op cs = elim (op_class op) [ opcl_rr ↦ read_rr op cs | _ ↦ read_rm op cs ]

-- iMem and opCodeOverallCounter
pub record Program : Type 0 where
  pub imem : List Instruction
  pub op_code_overall_counter : ℕ → ℕ

-- the writes to `iMem[loc]`
unfoldable pub store_instruction : ℕ → Instruction → Program → Read Program
store_instruction loc i p =
    if ltb loc (length p.imem)
    then ok (record {
      imem = set p.imem loc i;
      op_code_overall_counter =
          count_op (op_class_counter_index i.iop)
            (count_op op_lim (count_op i.iop p.op_code_overall_counter));
    })
    else fault

-- a line that is not empty and no comment
unfoldable pub read_instruction : Bytes → Program → Read Program
unfolding find_op read_arguments store_instruction
read_instruction cs p =
    let (loc, found, cs₁) = get_num cs in
    if found
    then (if is_neg loc || leb loc addr_size
        then (expect b':' missing_colon cs₁ >>= λ cs₂.
            let (word, cs₃) = get_word cs₂ in
            elim word [
              | none ↦ error missing_opcode
              | some name ↦ find_op op_code_tab name >>= λ op.
                  read_arguments op cs₃ >>= λ i. store_instruction loc i p
            ])
        else error location_too_large)
    else error bad_location

unfoldable pub read_line : Bytes → Program → Read Program
unfolding read_instruction
read_line line p = elim (non_blank line) [
  | [] ↦ ok p
  | c ∷ cs ↦ if c == b'*' then ok p else read_instruction (c ∷ cs) p
]

-- The line before is read again at the end; with an empty one, `in_Line[-1]` is looked at.
unfoldable pub read_lines : Bytes → List Bytes → Program → Read Program
unfolding read_line
read_lines before [] p = if length before == 0 then fault else read_line before p
read_lines before (line ∷ lines) p = read_line line p >>= λ p'. read_lines line lines p'

-- `iMem` and the counters before the first line
abbrev pub no_program : Program
no_program = record {
  imem = replicate addr_size (record { iop = op_halt; iarg1 = 0; iarg2 = 0; iarg3 = 0 });
  op_code_overall_counter = λ k. 0;
}

-- the cleared registers and data with a program
abbrev pub ready : Program → Tm
ready p = record {
  imem = p.imem;
  dmem = set (replicate addr_size 0) 0 1023;
  reg = replicate no_regs 0;
  op_code_simulation_counter = λ k. 0;
  input = [];
  output = [];
}

-- `c` in front of the first of the chunks
abbrev pub push_front : ℕ → List Bytes → List Bytes
push_front c [] = (c ∷ []) ∷ []
push_front c (chunk ∷ chunks) = (c ∷ chunk) ∷ chunks

-- what `fgets(in_Line, LINESIZE-2, pgm)` reads in turn of a line, where `room` characters still fit; the
-- newline, which is not kept, takes a place, too
unfoldable pub split_line : ℕ → Bytes → List Bytes
split_line zero [] = [] ∷ [] ∷ []
split_line (suc room) [] = [] ∷ []
split_line zero (c ∷ cs) = [] ∷ push_front c (split_line 117 cs)
split_line (suc room) (c ∷ cs) = push_front c (split_line room cs)

unfoldable pub fgets_lines : List Bytes → List Bytes
unfolding split_line
fgets_lines [] = []
fgets_lines (line ∷ lines) = split_line (line_size - 3) line ++ fgets_lines lines

unfoldable pub read_instructions : List Bytes → Read Tm
unfolding read_lines fgets_lines
read_instructions lines = read_lines [] (fgets_lines lines) no_program >>= λ p. ok (ready p)
