-- ===== src/Tm/Read/Outcome.antt =====
-- src/tm.c: what `readInstructions` finds in the arguments of an instruction.
use milac.Prelude.{
  ℕ, ◌<◌, ◌≡◌, ◌∙◌, sym, inl, inr, List, [], ◌∷◌, ltb, if◌then◌else◌, Bool-cases, Bytes, IsWord,
  arith,
}
use milac.Tm.Lexer.{get_num, skip_ch}
use milac.Tm.Read.{
  ReadError, missing_comma, bad_displacement, Read, fault, error, ok, ◌>>=◌, find_op, read_register,
  expect, expect_paren, read_rr, read_rm, read_arguments, same_start,
}
use milac.Tm.Safe.Step.{class-cases, get_num-IsWord}
use milac.Tm.Safe.{IsInstruction}
use milac.Tm.{opcl_rr, opcl_rm, opcl_ra, Opcode, op_class, no_regs}

-- what holds where the reader faults, and of what it returns
abbrev pub Outcome {ℓ} : {A : Type ℓ} → Type 0 → (A → Type 0) → Read A → Type 0
Outcome F P fault = F
Outcome F P (error e) = Unit
Outcome F P (ok a) = P a

pub bind-Outcome {ℓ κ} :
    {A : Type ℓ} {B : Type κ} (F : Type 0) (P : A → Type 0) (Q : B → Type 0) (r : Read A)
    (f : A → Read B)
    → Outcome F P r
    → ((a : A) → P a → Outcome F Q (f a))
    → Outcome F Q (r >>= f)
bind-Outcome F P Q fault f h k = h
bind-Outcome F P Q (error e) f h k = tt
bind-Outcome F P Q (ok a) f h k = k a h

pub weaken-Outcome {ℓ} :
    {A : Type ℓ} (F G : Type 0) (P : A → Type 0) (r : Read A)
    → (F → G)
    → Outcome F P r
    → Outcome G P r
weaken-Outcome F G P fault f h = f h
weaken-Outcome F G P (error e) f h = tt
weaken-Outcome F G P (ok a) f h = h

opcl_rm-ne : opcl_rm ≡ opcl_rr → ⊥
opcl_rm-ne e = cc

opcl_ra-ne : opcl_ra ≡ opcl_rr → ⊥
opcl_ra-ne e = cc

module _ (F : Type 0) where
  register-Outcome : (cs : Bytes) → Outcome F (λ (n, rest). n < no_regs) (read_register cs)
  unfolding read_register
  register-Outcome cs = elim (Bool-cases (get_num cs).1) [
    | inl found ↦ elim (Bool-cases (ltb (get_num cs).0 no_regs)) [
      | inl small ↦ rw (found, small) (ground arith)
      | inr large ↦ rw (found, large) tt
    ]
    | inr missing ↦ rw missing tt
  ]

  pub expect-Outcome :
      (c : ℕ) (e : ReadError) (cs : Bytes) → Outcome F (λ rest. Unit) (expect c e cs)
  unfolding expect
  expect-Outcome c e cs = elim (Bool-cases (skip_ch c cs).0) [
    | inl found ↦ rw found tt
    | inr missing ↦ rw missing tt
  ]

  paren-Outcome : (cs : Bytes) → Outcome F (λ rest. Unit) (expect_paren cs)
  unfolding expect_paren
  paren-Outcome cs = elim (Bool-cases (skip_ch b'(' cs).0) [
    | inl found ↦ rw found tt
    | inr missing ↦ rw missing (expect-Outcome _ _ _)
  ]

  small-IsWord : (n : ℕ) → n < no_regs → IsWord n
  small-IsWord n h = omega arith

  number-Outcome :
      (op : Opcode) (a : ℕ) (cs : Bytes)
      → a < no_regs
      → (op_class op ≡ opcl_rr → ⊥)
      → Outcome F IsInstruction (
          if (get_num cs).1
          then (expect_paren (get_num cs).2 >>= λ cs₄. read_register cs₄ >>= λ (arg3, cs₅).
              ok (record { iop = op; iarg1 = a; iarg2 = (get_num cs).0; iarg3 = arg3 }))
          else error bad_displacement)
  number-Outcome op a cs first other = elim (Bool-cases (get_num cs).1) [
    | inl found ↦ rw found (
        bind-Outcome F (λ rest. Unit) IsInstruction (expect_paren (get_num cs).2) _
          (paren-Outcome (get_num cs).2)
          (λ cs₄ _.
            bind-Outcome F (λ (n, rest). n < no_regs) IsInstruction (read_register cs₄) _
              (register-Outcome cs₄)
              (λ (arg3, cs₅) third. record {
                first = first;
                second = get_num-IsWord cs;
                third = third;
                source = λ rr. absurd (other rr);
              })))
    | inr missing ↦ rw missing tt
  ]

  rr-Outcome :
      (op : Opcode) (cs : Bytes) → op_class op ≡ opcl_rr → Outcome F IsInstruction (read_rr op cs)
  unfolding read_rr
  rr-Outcome op cs rr =
      (bind-Outcome F (λ (n, rest). n < no_regs) IsInstruction (read_register cs) _
        (register-Outcome cs)
        (λ (a, cs₁) first.
          bind-Outcome F (λ rest. Unit) IsInstruction (expect b',' missing_comma cs₁) _
            (expect-Outcome _ _ _)
            (λ cs₂ _.
              bind-Outcome F (λ (n, rest). n < no_regs) IsInstruction (read_register cs₂) _
                (register-Outcome cs₂)
                (λ (b, cs₃) second.
                  bind-Outcome F (λ rest. Unit) IsInstruction (expect b',' missing_comma cs₃) _
                    (expect-Outcome _ _ _)
                    (λ cs₄ _.
                      bind-Outcome F (λ (n, rest). n < no_regs) IsInstruction (read_register cs₄) _
                        (register-Outcome cs₄)
                        (λ (c, cs₅) third. record {
                          first = first;
                          second = small-IsWord b second;
                          third = third;
                          source = λ _. second;
                        }))))))

  rm-Outcome :
      (op : Opcode) (cs : Bytes)
      → (op_class op ≡ opcl_rr → ⊥)
      → Outcome F IsInstruction (read_rm op cs)
  unfolding read_rm
  rm-Outcome op cs other =
      bind-Outcome F (λ (n, rest). n < no_regs) IsInstruction (read_register cs) _
        (register-Outcome cs)
        (λ (a, cs₁) first.
          bind-Outcome F (λ rest. Unit) IsInstruction (expect b',' missing_comma cs₁) _
            (expect-Outcome _ _ _) (λ cs₂ _. number-Outcome op a cs₂ first other))

  pub arguments-Outcome :
      (op : Opcode) (cs : Bytes) → Outcome F IsInstruction (read_arguments op cs)
  unfolding read_arguments
  arguments-Outcome op cs = elim (class-cases (op_class op)) [
    | inl rr ↦ rw (read_arguments, rr) (rr-Outcome op cs rr)
    | inr (inl rm) ↦ rw (read_arguments, rm) (rm-Outcome op cs (λ rr. opcl_rm-ne (sym rm ∙ rr)))
    | inr (inr ra) ↦ rw (read_arguments, ra) (rm-Outcome op cs (λ rr. opcl_ra-ne (sym ra ∙ rr)))
  ]

  pub find_op-Outcome :
      (tab : List (Opcode × Bytes)) (name : Bytes) → Outcome F (λ op. Unit) (find_op tab name)
  unfolding find_op
  find_op-Outcome [] name = tt
  find_op-Outcome ((op, text) ∷ rest) name = elim (Bool-cases (same_start text name)) [
    | inl same ↦ rw same tt
    | inr other ↦ rw other (find_op-Outcome rest name)
  ]
