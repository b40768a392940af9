-- ===== src/Gen/Operands.antt =====
-- The registers that `get_reg` of src/gen.c gives the operands of a binary operation.
use milac.Gen.Registers.{IsValid, Found, find_reg-Found}
use milac.Gen.{Gen, reg_of, get_reg_binop}
use milac.Prelude.{
  ℕ, ◌<◌, ◌≤◌, ◌≡◌, ◌≢◌, ◌⊎◌, refl, sym, ap, ◌∙◌, ◌==◌, ==_iff, arith, Bool-cases, inl, inr, leb,
}
use milac.SymTab.{no_register}
use milac.Tac.{Tac}

-- a register of the six, or none
abbrev pub HasRegister : Gen → ℕ → Type 0
HasRegister g p = ((g.sym p).reg ≡ no_register) ⊎ ((g.sym p).reg < 6)

module _ (g : Gen) (s ex1 ex2 : ℕ) (real : s ≢ 0) (real1 : ex1 ≢ 0) (real2 : ex2 ≢ 0)
    (v : IsValid g) (one : HasRegister g s) where
  reg_of-Found : Found g s ex1 ex2 (reg_of s ex1 ex2 g)
  unfolding reg_of
  reg_of-Found = elim (Bool-cases ((g.sym s).reg == no_register)) [
    | inl free ↦
        rw free (
          find_reg-Found g s ex1 ex2 real real1 real2 v ((==_iff (g.sym s).reg no_register).0 free))
    | inr has ↦ rw has (record {
      valid = v;
      below = ground arith;
      here = refl;
      had = λ n. refl;
      spare = λ f. absurd (ground arith);
      kept1 = λ n. refl;
      kept2 = λ n. refl;
    })
  ]

-- Of two symbols that have registers of the six, one has one of R0 to R2 that the other does not have,
-- or the registers are different.
apart :
    (g : Gen) (p q : ℕ) {a b : ℕ}
    → IsValid g
    → p ≢ 0
    → q ≢ 0
    → p ≢ q
    → a < 6
    → (g.sym p).reg ≡ a
    → (g.sym q).reg ≡ b
    → (a < 3 → a ≢ b)
    → a ≢ b
apart g p q {a} {b} v real_p real_q n small rp rq low same = elim (Bool-cases (leb 3 a)) [
  | inr below ↦ low (ground arith) same
  | inl high ↦
      let (i, _, at_p, reg_p) = v.held p real_p (λ z. absurd (omega arith)) (ground arith) in
      let (j, _, at_q, reg_q) = v.held q real_q (λ z. absurd (omega arith)) (ground arith) in
      let index : i ≡ j = omega arith in n (sym at_p ∙ (ap g.registers index ∙ at_q))
]

-- The two symbols do not share a register that both had.
abbrev pub ApartBefore : Gen → ℕ → ℕ → Type 0
ApartBefore g p q = (g.sym p).reg < 3 → (g.sym p).reg ≢ (g.sym q).reg

-- the register that the symbol had, or one of R3 to R5
abbrev pub Chosen : Gen → ℕ → ℕ → Type 0
Chosen g p r =
    ((g.sym p).reg ≢ no_register → r ≡ (g.sym p).reg) × ((g.sym p).reg ≡ no_register → 3 ≤ r)

-- the low register of a symbol is the one that it had
low_had :
    (g : Gen) (p q : ℕ) {a b : ℕ} → Chosen g p a → Chosen g q b → ApartBefore g p q → a < 3 → a ≢ b
low_had g p q (h1, s1) (h2, s2) before low same = elim (Bool-cases ((g.sym p).reg == no_register)) [
  | inl free ↦ absurd (ground arith)
  | inr has ↦ elim (Bool-cases ((g.sym q).reg == no_register)) [
    | inl free ↦ absurd (ground arith)
    | inr has' ↦ absurd (ground arith)
  ]
]

-- In a valid state `get_reg` gives the result and the operands of a binary operation three different
-- registers of R0 to R5, in which the symbols are in the state that it leaves, which is valid again. A
-- symbol that has a register keeps it, and another one gets one of R3 to R5. The three symbols are
-- different, and those that have one of R0 to R2 do not share it.
pub get_reg_binop-IsValid :
    (g : Gen) (i : Tac)
    → IsValid g
    → i.r ≢ 0
    → i.a1 ≢ 0
    → i.a2 ≢ 0
    → i.r ≢ i.a1
    → i.r ≢ i.a2
    → i.a1 ≢ i.a2
    → HasRegister g i.r
    → HasRegister g i.a1
    → HasRegister g i.a2
    → ApartBefore g i.r i.a1
    → ApartBefore g i.r i.a2
    → ApartBefore g i.a1 i.a2
    → (r1 : ℕ) × (r2 : ℕ) × (r3 : ℕ) × (g' : Gen) × (get_reg_binop i g ≡ ((r1, r2, r3), g'))
      × IsValid g'
      × (r1 < 6)
      × (r2 < 6)
      × (r3 < 6)
      × (r1 ≢ r2)
      × (r1 ≢ r3)
      × (r2 ≢ r3)
      × ((g'.sym i.r).reg ≡ r1)
      × ((g'.sym i.a1).reg ≡ r2)
      × ((g'.sym i.a2).reg ≡ r3)
      × Chosen g i.r r1
      × Chosen g i.a1 r2
      × Chosen g i.a2 r3
unfolding get_reg_binop
get_reg_binop-IsValid g i v real real1 real2 n1 n2 n12 o o1 o2 p1 p2 p12 =
    let A = reg_of-Found g i.r i.a1 i.a2 real real1 real2 v o in
    let (s1, g₁) = reg_of i.r i.a1 i.a2 g in
    let k1 : (g₁.sym i.a1).reg ≡ (g.sym i.a1).reg = A.kept1 (λ z. n1 (sym z)) in
    let k2 : (g₁.sym i.a2).reg ≡ (g.sym i.a2).reg = A.kept2 (λ z. n2 (sym z)) in
    let B = reg_of-Found g₁ i.a1 i.a2 i.r real1 real2 real A.valid (rw k1 o1) in
    let (s2, g₂) = reg_of i.a1 i.a2 i.r g₁ in
    let k22 : (g₂.sym i.a2).reg ≡ (g.sym i.a2).reg = B.kept1 (λ z. n12 (sym z)) ∙ k2 in
    let C = reg_of-Found g₂ i.a2 i.a1 i.r real2 real1 real B.valid (rw k22 o2) in
    let (s3, g₃) = reg_of i.a2 i.a1 i.r g₂ in
    let r : (g₃.sym i.r).reg ≡ s1 = C.kept2 n2 ∙ (B.kept2 n1 ∙ A.here) in
    let a1 : (g₃.sym i.a1).reg ≡ s2 = C.kept1 n12 ∙ B.here in
    let a2 : (g₃.sym i.a2).reg ≡ s3 = C.here in
    let c1 : Chosen g i.r s1 = (A.had, A.spare) in
    let c2 : Chosen g i.a1 s2 = (λ z. B.had (rw k1 z) ∙ k1, λ z. B.spare (k1 ∙ z)) in
    let c3 : Chosen g i.a2 s3 = (λ z. C.had (rw k22 z) ∙ k22, λ z. C.spare (k22 ∙ z)) in
    (
      s1,
      s2,
      s3,
      g₃,
      refl,
      C.valid,
      A.below,
      B.below,
      C.below,
      apart g₃ i.r i.a1 C.valid real real1 n1 A.below r a1 (low_had g i.r i.a1 c1 c2 p1),
      apart g₃ i.r i.a2 C.valid real real2 n2 A.below r a2 (low_had g i.r i.a2 c1 c3 p2),
      apart g₃ i.a1 i.a2 C.valid real1 real2 n12 B.below a1 a2 (low_had g i.a1 i.a2 c2 c3 p12),
      r,
      a1,
      a2,
      c1,
      c2,
      c3,
    )
