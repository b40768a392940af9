-- ===== src/SymTab/Constants.antt =====
-- src/symtab.c: `st_insert_const` in a table in which each symbol that has the name of a number is that
-- constant.
use mathlib.Core.Option.{some-injective}
use milac.Prelude.{
  ℕ, ◌≡◌, ◌≢◌, refl, sym, ap, ◌∙◌, List, some, true, inl, inr, Bool-cases, ◌==◌, ==_iff, get_elem?,
  get_elem?-lt, get_elem?-set_self, get_elem?-set_ne, set, IsWord, arith,
}
use milac.SymTab.Insert.{IsValid, Extends, insert_some}
use milac.SymTab.Names.{decimal}
use milac.SymTab.{SymTab, Symbol, sconst, set_const, st_insert_const}
use milac.Tm.Lexer.Decimal.{get_num-decimal}
use milac.Tm.Lexer.{get_num}

-- Two words with the same decimal name are equal.
decimal-injective : (v w : ℕ) → IsWord v → IsWord w → decimal v ≡ decimal w → v ≡ w
decimal-injective v w a b e =
    sym (ap (λ x. x.0) (get_num-decimal v a))
    ∙ (ap (λ x. (get_num x).0) e ∙ ap (λ x. x.0) (get_num-decimal w b))

-- A symbol with the name of a word is the constant of that word.
abbrev pub NamesConsts : List Symbol → Type 0
NamesConsts heap =
    (p : ℕ) (s : Symbol) (v : ℕ)
    → IsWord v
    → get_elem? heap p ≡ some s
    → s.name ≡ decimal v
    → (s.type ≡ sconst) × (s.val ≡ v)

abbrev made_const : ℕ → Symbol → Symbol
made_const v s = record s { val = v; type = sconst }

same_const : (v : ℕ) (s : Symbol) → (s.type ≡ sconst) × (s.val ≡ v) → made_const v s ≡ s
same_const v s (t, e) =
    ap (λ a. record s { val = a; type = sconst }) (sym e) ∙ ap (λ b. record s { type = b }) (sym t)

set_const-at :
    (p v : ℕ) (heap : List Symbol) (s : Symbol)
    → get_elem? heap p ≡ some s
    → set_const p v heap ≡ set heap p (made_const v s)
unfolding set_const
set_const-at p v heap s e = rw (set_const, e) refl

-- what `st_insert_const` returns, and what it does to the heap
pub record Inserted (st : SymTab) (v : ℕ) : Type 0 where
  pub p : ℕ
  pub st' : SymTab
  pub run : st_insert_const st v ≡ some (some p, st')
  pub valid : IsValid st'
  pub consts : NamesConsts st'.heap
  pub s : Symbol
  pub at : get_elem? st'.heap p ≡ some s
  pub type : s.type ≡ sconst
  pub val : s.val ≡ v
  pub kept : Extends st.heap st'.heap

pub insert_const :
    (st : SymTab) → IsValid st → NamesConsts st.heap → (v : ℕ) → IsWord v → Inserted st v
unfolding st_insert_const
insert_const st valid consts v w =
    let (p, st₁, run, ok, (x, at, name), more, only) = insert_some st valid (decimal v) 0 true in
    let written = set_const-at p v st₁.heap x at in
    let here : get_elem? (set_const p v st₁.heap) p ≡ some (made_const v x) =
      rw written (get_elem?-set_self st₁.heap p (made_const v x) (get_elem?-lt st₁.heap p at)) in
    let else_ : (q : ℕ) → q ≢ p → get_elem? (set_const p v st₁.heap) q ≡ get_elem? st₁.heap q =
      λ q n. rw written (get_elem?-set_ne st₁.heap (made_const v x) (λ e. n (sym e))) in
    record {
      p = p;
      st' = record st₁ { heap = set_const p v st₁.heap };
      run = rw (st_insert_const, run) refl;
      valid = record {
        table = ok.table;
        full = ok.full;
        points = λ k r found.
            let (y, there, named) = ok.points k r found in
            elim (Bool-cases (r == p)) [
              | inl e ↦
                  let same : r ≡ p = (==_iff r p).0 e in
                  let y_x : y ≡ x =
                    some-injective _ _ (sym there ∙ (ap (get_elem? st₁.heap) same ∙ at)) in
                  (
                    made_const v x,
                    ap (get_elem? (set_const p v st₁.heap)) same ∙ here,
                    ap (λ (z : Symbol). z.name) (sym y_x) ∙ named,
                  )
              | inr e ↦ (y, else_ r (ground arith) ∙ there, named)
            ];
      };
      consts = λ q y u word there named. elim (Bool-cases (q == p)) [
        | inl e ↦
            let same : q ≡ p = (==_iff q p).0 e in
            let y_x : made_const v x ≡ y =
              some-injective _ _
                (sym here ∙ (ap (get_elem? (set_const p v st₁.heap)) (sym same) ∙ there)) in
            let names : decimal v ≡ decimal u =
              sym name ∙ (ap (λ (z : Symbol). z.name) y_x ∙ named) in
            (
              ap (λ (z : Symbol). z.type) (sym y_x),
              ap (λ (z : Symbol). z.val) (sym y_x) ∙ decimal-injective v u w word names,
            )
        | inr e ↦
            let n : q ≢ p = ground arith in
            elim (only q y (sym (else_ q n) ∙ there)) [
              | inl old ↦ consts q y u word old named
              | inr new ↦ absurd (n new)
            ]
      ];
      s = made_const v x;
      at = here;
      type = refl;
      val = refl;
      kept = λ q y old. elim (Bool-cases (q == p)) [
        | inl e ↦
            let same : q ≡ p = (==_iff q p).0 e in
            let y_x : y ≡ x =
              some-injective _ _ (sym (more q y old) ∙ (ap (get_elem? st₁.heap) same ∙ at)) in
            let was = consts q y v w old (ap (λ (z : Symbol). z.name) y_x ∙ name) in
            ap (get_elem? (set_const p v st₁.heap)) same
            ∙ (here ∙ ap some (ap (made_const v) (sym y_x) ∙ same_const v y was))
        | inr e ↦ else_ q (ground arith) ∙ more q y old
      ];
    }
