-- ===== src/Tm/Safe.antt =====
-- src/tm.c: which steps fault, and that all others keep a machine as it should be.
pub mod Step
use milac.Prelude.{
  ℕ, zero, suc, ◌+◌, ◌-◌, ◌*◌, ◌/◌, ◌%◌, ◌^◌, ◌≤◌, ◌<◌, ◌≡◌, refl, sym, subst, ◌⊎◌, inl, inr, List,
  [], ◌∷◌, Option, none, some, Bool, true, false, not, ◌||◌, ◌==◌, ltb, if◌then◌else◌, Bool-cases,
  Bytes, length, get_elem?, set, get_elem?-some, get_elem?-none, length-set, set_all, word_mod,
  IsWord, add32, sub32, mul32, div32, is_neg, add32-IsWord, sub32-IsWord, div32-IsWord, ◌>>=◌,
  arith,
}
use milac.Tm.Execute.{
  binary, unary, shift_left, shift_right, read_num, step_rr, step_rm, jump, step_ra, execute,
  step_tm, steps,
}
use milac.Tm.{
  OpClass, opcl_rr, opcl_rm, opcl_ra, Opcode, op_halt, op_in, op_out, op_add, op_sub, op_mul,
  op_div, op_inc, op_dec, op_shl, op_shr, op_rr_lim, op_ld, op_st, op_rm_lim, op_lda, op_ldc,
  op_jlt, op_jle, op_jgt, op_jge, op_jeq, op_jne, op_ra_lim, op_lim, StepResult, sr_okay, sr_halt,
  sr_imem_err, sr_dmem_err, sr_zerodivide, Instruction, Tm, pc_reg, op_class,
  op_class_counter_index, count_op, out_of_range, read_reg, write_reg, okay, addr_size, no_regs,
}

abbrev pub AllWords : List ℕ → Type 0
AllWords xs = (i v : ℕ) → get_elem? xs i ≡ some v → IsWord v

-- the ranges that `readInstructions` checks
pub record IsInstruction (i : Instruction) : Type 0 where
  pub first : i.iarg1 < no_regs
  pub second : IsWord i.iarg2
  pub third : i.iarg3 < no_regs
  pub source : op_class i.iop ≡ opcl_rr → i.iarg2 < no_regs

pub record IsValid (tm : Tm) : Type 0 where
  pub imem_size : length tm.imem ≡ addr_size
  pub dmem_size : length tm.dmem ≡ addr_size
  pub reg_size : length tm.reg ≡ no_regs
  pub dmem_words : AllWords tm.dmem
  pub reg_words : AllWords tm.reg
  pub instructions : (k : ℕ) (i : Instruction) → get_elem? tm.imem k ≡ some i → IsInstruction i

-- a fault, or a value with the property
abbrev pub Unless {ℓ κ} : {A : Type ℓ} → Type κ → (A → Type κ) → Option A → Type κ
Unless F P none = F
Unless F P (some a) = P a

pub bind-Unless {ℓ κ} :
    {A B : Type ℓ} (F : Type κ) (P : A → Type κ) (Q : B → Type κ) (o : Option A) (f : A → Option B)
    → Unless F P o
    → ((a : A) → P a → Unless F Q (f a))
    → Unless F Q (o >>= f)
bind-Unless F P Q none f h k = h
bind-Unless F P Q (some a) f h k = k a h

pub map-Unless {ℓ κ} :
    {A : Type ℓ} {F G : Type κ} (P : A → Type κ) (o : Option A)
    → (F → G)
    → Unless F P o
    → Unless G P o
map-Unless P none f h = f h
map-Unless P (some a) f h = h

abbrev pub Valid : StepResult × Tm → Type 0
Valid r = IsValid r.1

module _ (tm : Tm) (valid : IsValid tm) where
  pub read_valid : (r : ℕ) → r < no_regs → (v : ℕ) × (read_reg tm r ≡ some v) × IsWord v
  read_valid r h =
      let (v, e) = get_elem?-some tm.reg r (omega (arith, valid.reg_size)) in
      (v, e, valid.reg_words r v e)

  pub set_reg-IsValid : (r v : ℕ) → IsWord v → IsValid (record tm { reg = set tm.reg r v })
  set_reg-IsValid r v w = record {
    imem_size = valid.imem_size;
    dmem_size = valid.dmem_size;
    reg_size = omega (arith, length-set tm.reg r v, valid.reg_size);
    dmem_words = valid.dmem_words;
    reg_words = set_all (λ i x. IsWord x) tm.reg r v w valid.reg_words;
    instructions = valid.instructions;
  }

  set_dmem-IsValid : (m v : ℕ) → IsWord v → IsValid (record tm { dmem = set tm.dmem m v })
  set_dmem-IsValid m v w = record {
    imem_size = valid.imem_size;
    dmem_size = omega (arith, length-set tm.dmem m v, valid.dmem_size);
    reg_size = valid.reg_size;
    dmem_words = set_all (λ i x. IsWord x) tm.dmem m v w valid.dmem_words;
    reg_words = valid.reg_words;
    instructions = valid.instructions;
  }

  -- what the invariant does not read
  pub rest-IsValid :
      (input : List Bytes) (output : List ℕ) (counter : ℕ → ℕ)
      → IsValid (record tm { input = input; output = output; op_code_simulation_counter = counter })
  rest-IsValid input output counter = record {
    imem_size = valid.imem_size;
    dmem_size = valid.dmem_size;
    reg_size = valid.reg_size;
    dmem_words = valid.dmem_words;
    reg_words = valid.reg_words;
    instructions = valid.instructions;
  }

  pub write_valid :
      (r v : ℕ) → r < no_regs → IsWord v → (tm' : Tm) × (write_reg tm r v ≡ some tm') × IsValid tm'
  write_valid r v h w =
      let test : ltb r (length tm.reg) ≡ true = ground (arith, valid.reg_size) in
      (_, rw test refl, set_reg-IsValid r v w)

  module _ (F : Type 0) (i : Instruction) (ok : IsInstruction i) where
    pub write-Unless : (v : ℕ) → IsWord v → Unless F Valid (write_reg tm i.iarg1 v >>= okay)
    write-Unless v w = let (tm', e, done) = write_valid i.iarg1 v ok.first w in rw e done

    pub binary-Unless :
        (f : ℕ → ℕ → Option ℕ)
        → i.iarg2 < no_regs
        → ((a b : ℕ) → IsWord a → get_elem? tm.reg i.iarg3 ≡ some b → Unless F IsWord (f a b))
        → Unless F Valid (binary tm i f)
    unfolding binary
    binary-Unless f second h =
        let (a, ea, wa) = read_valid i.iarg2 second in
        let (b, eb, wb) = read_valid i.iarg3 ok.third in
        rw (ea, eb) (bind-Unless F IsWord Valid (f a b) _ (h a b wa eb) write-Unless)

    pub unary-Unless : (f : ℕ → ℕ) → ((a : ℕ) → IsWord (f a)) → Unless F Valid (unary tm i f)
    unfolding unary
    unary-Unless f h =
        let (a, ea, wa) = read_valid i.iarg1 ok.first in rw ea (write-Unless (f a) (h a))

    jump-Unless : (m : ℕ) (test : ℕ → Bool) → IsWord m → Unless F Valid (jump tm i m test)
    unfolding jump
    jump-Unless m test w =
        let (v, e, _) = read_valid i.iarg1 ok.first in
        let (tm', to, done) = write_valid pc_reg m (omega arith) w in
        elim (Bool-cases (test v)) [
          | inl goes ↦ rw (e, goes, to) done
          | inr stays ↦ rw (e, stays) valid
        ]

    pub step_ra-Unless : (op : Opcode) (m : ℕ) → IsWord m → Unless F Valid (step_ra op tm i m)
    unfolding step_ra
    step_ra-Unless op_lda m w = write-Unless m w
    step_ra-Unless op_ldc m w = write-Unless i.iarg2 ok.second
    step_ra-Unless op_jlt m w = jump-Unless m _ w
    step_ra-Unless op_jle m w = jump-Unless m _ w
    step_ra-Unless op_jgt m w = jump-Unless m _ w
    step_ra-Unless op_jge m w = jump-Unless m _ w
    step_ra-Unless op_jeq m w = jump-Unless m _ w
    step_ra-Unless op_jne m w = jump-Unless m _ w
    step_ra-Unless _ m w = valid

    pub step_rm-Unless :
        (op : Opcode) (m : ℕ) → (addr_size ≤ m → F) → Unless F Valid (step_rm op tm i m)
    unfolding step_rm
    step_rm-Unless op_ld m past = elim (Bool-cases (ltb m addr_size)) [
      | inl inside ↦
          let (v, e) = get_elem?-some tm.dmem m (ground (arith, valid.dmem_size)) in
          rw e (write-Unless v (valid.dmem_words m v e))
      | inr outside ↦
          let missing = get_elem?-none tm.dmem m (ground (arith, valid.dmem_size)) in
          rw missing (past (ground arith))
    ]
    step_rm-Unless op_st m past =
        let (v, e, w) = read_valid i.iarg1 ok.first in
        elim (Bool-cases (ltb m (length tm.dmem))) [
          | inl inside ↦ rw (e, inside) (set_dmem-IsValid m v w)
          | inr outside ↦ rw (e, outside) (past (ground (arith, valid.dmem_size)))
        ]
    step_rm-Unless _ m past = valid
