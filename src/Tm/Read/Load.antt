-- ===== src/Tm/Read/Load.antt =====
-- src/tm.c: a program that `readInstructions` accepts is a valid machine.
use milac.Prelude.{
  ℕ, ◌≡◌, ◌≤◌, ◌∙◌, ◌⊎◌, inl, inr, List, [], ◌∷◌, none, some, true, ◌||◌, ◌==◌, leb, ltb,
  if◌then◌else◌, Bool-cases, Option-cases, Bytes, length, set_all, length-set, replicate,
  length-replicate, replicate_elem, get_elem?, subst, is_neg, IsWord, arith,
}
use milac.Tm.Lexer.{get_num, get_word, non_blank}
use milac.Tm.Read.{
  missing_colon, missing_opcode, error, ok, ◌>>=◌, find_op, op_code_tab, expect, read_arguments,
  Program, store_instruction, read_instruction, read_line, read_lines, no_program, ready,
  fgets_lines, read_instructions,
}
use milac.Tm.Safe.{AllWords, IsInstruction, IsValid}
use milac.Tm.{op_halt, Instruction, addr_size, no_regs}
use milac.Tm.Read.Outcome.{
  Outcome, bind-Outcome, weaken-Outcome, expect-Outcome, arguments-Outcome, find_op-Outcome,
}

-- The location of the line is negative or 1024.
abbrev pub LineFault : Bytes → Type 0
LineFault line = let loc = (get_num (non_blank line)).0 in (is_neg loc ≡ true) ⊎ (loc ≡ addr_size)

-- A line has such a location, or the last one, which is read again, is empty or not there.
abbrev pub FileFault : Bytes → List Bytes → Type 0
FileFault before [] = (length before ≡ 0) ⊎ LineFault before
FileFault before (line ∷ lines) = LineFault line ⊎ FileFault line lines

pub record IsProgram (p : Program) : Type 0 where
  pub imem_size : length p.imem ≡ addr_size
  pub instructions : (k : ℕ) (i : Instruction) → get_elem? p.imem k ≡ some i → IsInstruction i

location_cases :
    (loc : ℕ)
    → (is_neg loc || leb loc addr_size) ≡ true
    → addr_size ≤ loc
    → (is_neg loc ≡ true) ⊎ (loc ≡ addr_size)
location_cases loc range le = ground arith

halt-IsInstruction : IsInstruction (record { iop = op_halt; iarg1 = 0; iarg2 = 0; iarg3 = 0 })
halt-IsInstruction = record {
  first = omega arith;
  second = omega arith;
  third = omega arith;
  source = λ e. omega arith;
}

zeros-AllWords : (n : ℕ) → AllWords (replicate n 0)
zeros-AllWords n k v e = subst IsWord (replicate_elem n k 0 e) (omega arith)

module _ (F : Type 0) where
  store-Outcome :
      (loc : ℕ) (i : Instruction) (p : Program)
      → IsProgram p
      → IsInstruction i
      → (addr_size ≤ loc → F)
      → Outcome F IsProgram (store_instruction loc i p)
  unfolding store_instruction
  store-Outcome loc i p valid good past = elim (Bool-cases (ltb loc (length p.imem))) [
    | inl inside ↦ rw inside record {
      imem_size = length-set p.imem loc i ∙ valid.imem_size;
      instructions = set_all (λ k j. IsInstruction j) p.imem loc i good valid.instructions;
    }
    | inr outside ↦ rw outside (past (ground (arith, valid.imem_size)))
  ]

  -- what follows the location on the line
  rest-Outcome :
      (loc : ℕ) (cs₂ : Bytes) (p : Program)
      → IsProgram p
      → (addr_size ≤ loc → F)
      → Outcome F IsProgram (elim (get_word cs₂).0 [
        | none ↦ error missing_opcode
        | some name ↦ find_op op_code_tab name >>= λ op.
            read_arguments op (get_word cs₂).1 >>= λ i. store_instruction loc i p
      ])
  rest-Outcome loc cs₂ p valid past = elim (Option-cases (get_word cs₂).0) [
    | inl missing ↦ rw missing tt
    | inr (name, e) ↦ rw e (
        bind-Outcome F (λ op. Unit) IsProgram (find_op op_code_tab name) _
          (find_op-Outcome F op_code_tab name)
          (λ op _.
            bind-Outcome F IsInstruction IsProgram (read_arguments op (get_word cs₂).1) _
              (arguments-Outcome F op (get_word cs₂).1)
              (λ i good. store-Outcome loc i p valid good past)))
  ]

  instruction-Outcome :
      (cs : Bytes) (p : Program)
      → IsProgram p
      → ((is_neg (get_num cs).0 ≡ true) ⊎ ((get_num cs).0 ≡ addr_size) → F)
      → Outcome F IsProgram (read_instruction cs p)
  unfolding read_instruction
  instruction-Outcome cs p valid bad =
      let loc = (get_num cs).0 in
      elim (Bool-cases (get_num cs).1) [
        | inl found ↦ elim (Bool-cases (is_neg loc || leb loc addr_size)) [
          | inl range ↦
              let past : addr_size ≤ loc → F = λ le. bad (location_cases loc range le) in
              rw (found, range)
                (bind-Outcome F (λ rest. Unit) IsProgram (expect b':' missing_colon (get_num cs).2)
                  _ (expect-Outcome F _ _ _) (λ cs₂ _. rest-Outcome loc cs₂ p valid past))
          | inr large ↦ rw (found, large) tt
        ]
        | inr missing ↦ rw missing tt
      ]

text-Outcome :
    (F : Type 0) (text : Bytes) (p : Program)
    → IsProgram p
    → ((is_neg (get_num text).0 ≡ true) ⊎ ((get_num text).0 ≡ addr_size) → F)
    → Outcome F IsProgram
        (elim text [ [] ↦ ok p | c ∷ cs ↦ if c == b'*' then ok p else read_instruction (c ∷ cs) p ])
text-Outcome F [] p valid bad = valid
text-Outcome F (c ∷ cs) p valid bad = elim (Bool-cases (c == b'*')) [
  | inl comment ↦ rw comment valid
  | inr code ↦ rw code (instruction-Outcome F (c ∷ cs) p valid bad)
]

line-Outcome :
    (line : Bytes) (p : Program)
    → IsProgram p
    → Outcome (LineFault line) IsProgram (read_line line p)
unfolding read_line
line-Outcome line p valid = text-Outcome (LineFault line) (non_blank line) p valid (λ h. h)

lines-Outcome :
    (before : Bytes) (lines : List Bytes) (p : Program)
    → IsProgram p
    → Outcome (FileFault before lines) IsProgram (read_lines before lines p)
unfolding read_lines
lines-Outcome before [] p valid = elim (Bool-cases (length before == 0)) [
  | inl empty ↦ rw empty (inl (ground arith))
  | inr full ↦ rw full (
      weaken-Outcome (LineFault before) (FileFault before []) IsProgram (read_line before p) inr
        (line-Outcome before p valid))
]
lines-Outcome before (line ∷ lines) p valid =
    bind-Outcome _ IsProgram IsProgram (read_line line p) _
      (weaken-Outcome (LineFault line) (FileFault before (line ∷ lines)) IsProgram
        (read_line line p) inl (line-Outcome line p valid))
      (λ p' valid'.
        weaken-Outcome (FileFault line lines) (FileFault before (line ∷ lines)) IsProgram
          (read_lines line lines p') inr (lines-Outcome line lines p' valid'))

no_program-IsProgram : IsProgram no_program
no_program-IsProgram =
    let halt : Instruction = record { iop = op_halt; iarg1 = 0; iarg2 = 0; iarg3 = 0 } in
    record {
      imem_size = length-replicate addr_size halt;
      instructions =
          λ k i e. subst IsInstruction (replicate_elem addr_size k halt e) halt-IsInstruction;
    }

ready-IsValid : (p : Program) → IsProgram p → IsValid (ready p)
ready-IsValid p valid =
    let zeros : List ℕ = replicate addr_size 0 in
    record {
      imem_size = valid.imem_size;
      dmem_size = length-set zeros 0 1023 ∙ length-replicate {A = ℕ} addr_size 0;
      reg_size = length-replicate {A = ℕ} no_regs 0;
      dmem_words = set_all (λ k v. IsWord v) zeros 0 1023 (omega arith) (zeros-AllWords addr_size);
      reg_words = zeros-AllWords no_regs;
      instructions = valid.instructions;
    }

-- `readInstructions` on the lines of a file that ends with a newline gives a message or a valid machine
-- that is ready to run, unless the location of what `fgets` reads at a time is negative or 1024, or the
-- last that it reads, which is read twice, is empty or not there.
pub read_instructions-IsValid :
    (lines : List Bytes)
    → Outcome (FileFault [] (fgets_lines lines)) IsValid (read_instructions lines)
unfolding read_instructions
read_instructions-IsValid lines =
    bind-Outcome (FileFault [] (fgets_lines lines)) IsProgram IsValid
      (read_lines [] (fgets_lines lines) no_program) (λ p. ok (ready p))
      (lines-Outcome [] (fgets_lines lines) no_program no_program-IsProgram) ready-IsValid
