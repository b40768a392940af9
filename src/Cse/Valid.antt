-- ===== src/Cse/Valid.antt =====
-- src/cse.c: what the graph of a block is like. The nodes of the block have the numbers above `lo`, the count
-- of nodes when it began.
use milac.Cse.{Node, Graph, set_node, new_node, push_symbol, remove_symbol, insert_key, update_key}
use milac.Cse.Gen.{is_none}
use milac.HashTab.Values.{insert_reads, insert_total, update_reads, update_total}
use milac.HashTab.{hash_tab_lookup, hash_tab_insert, hash_tab_update}
use milac.Prelude.{
  ℕ, ◌+◌, ◌%◌, ◌≤◌, ◌<◌, ◌≡◌, refl, sym, subst, Option, none, some, false, inl, inr, Bool-cases,
  Bytes, ◌==◌, ==_iff, ◌>>=◌, word_mod, arith,
}
use milac.Tac.{Op}
use mathlib.Core.Option.{some-injective}

-- the number of a node of the block
abbrev pub Among : ℕ → Graph → ℕ → Type 0
Among lo g p = (lo < p) × (p ≤ g.node_count)

-- An operation has its number as its id, and older nodes of the block as operands.
abbrev pub NodeValid : ℕ → ℕ → Node → Type 0
NodeValid lo p n =
    is_none n.op ≡ false → (n.id ≡ p) × ((lo < n.l) × (n.l < p)) × ((lo < n.r) × (n.r < p))

pub record IsValid (lo : ℕ) (g : Graph) : Type 0 where
  pub older : (p : ℕ) → Among lo g p → NodeValid lo p (g.nodes p)
  pub named : (q : Bytes) (p : ℕ) → hash_tab_lookup g.tab q ≡ some (some p) → Among lo g p
  pub total : (q : Bytes) → (x : Option ℕ) × (hash_tab_lookup g.tab q ≡ some x)
  pub start : lo ≤ g.node_count

-- `g'` is valid and has at most `k` nodes more than `g`.
abbrev pub Grows : ℕ → ℕ → Graph → Graph → Type 0
Grows lo k g g' =
    IsValid lo g' × (g.node_count ≤ g'.node_count) × (g'.node_count ≤ g.node_count + k)

-- what holds of a result, if there is one
abbrev pub After {ℓ κ} : {A : Type ℓ} → (A → Type κ) → Option A → Type (ℓ ⊔ κ)
After {A = A} P o = (a : A) → o ≡ some a → P a

pub After-bind {ℓ κ μ ν} :
    {A : Type ℓ} {B : Type μ} (P : A → Type κ) (Q : B → Type ν) (o : Option A) (f : A → Option B)
    → After P o
    → ((a : A) → P a → After Q (f a))
    → After Q (o >>= f)
After-bind P Q none f p q b e = absurd cc
After-bind P Q (some a) f p q b e = q a (p a refl) b e

pub After-some {ℓ κ} : {A : Type ℓ} (P : A → Type κ) (a : A) → P a → After P (some a)
After-some P a p b e = subst P (some-injective _ _ e) p

module _ (lo : ℕ) (g : Graph) (valid : IsValid lo g) where
  -- A new content of a node that is as it should be.
  pub set_node-IsValid :
      (p : ℕ) (n : Node) → (Among lo g p → NodeValid lo p n) → IsValid lo (set_node g p n)
  set_node-IsValid p n ok = record {
    older = λ q here. elim (Bool-cases (q == p)) [
      | inl same ↦
          let there : q ≡ p = (==_iff _ _).0 same in
          rw same (subst (λ x. NodeValid lo x n) (sym there) (ok (subst (Among lo g) there here)))
      | inr other ↦ rw other (valid.older q here)
    ];
    named = valid.named;
    total = valid.total;
    start = valid.start;
  }

  pub push_symbol-IsValid : (p s : ℕ) → IsValid lo (push_symbol p s g)
  push_symbol-IsValid p s = set_node-IsValid p _ (λ here. valid.older p here)

  pub remove_symbol-IsValid : (p s : ℕ) → IsValid lo (remove_symbol p s g)
  remove_symbol-IsValid p s = set_node-IsValid p _ (λ here. valid.older p here)

  pub new_node-IsValid :
      (op : Op) (l r s : ℕ)
      → g.node_count + 1 < word_mod
      → (is_none op ≡ false → Among lo g l × Among lo g r)
      → let (p, g') = new_node op l r s g in Grows lo 1 g g' × Among lo g' p
  unfolding new_node
  new_node-IsValid op l r s small operands =
      let p = g.node_count + 1 in
      let fits : p % word_mod ≡ p = omega arith in
      rw fits (
        (
          record {
            older = λ q here. elim (Bool-cases (q == p)) [
              | inl same ↦ rw same (λ o. let ((a₀, a₁), (b₀, b₁)) = operands o in ground arith)
              | inr other ↦ rw other (valid.older q (here.0, ground arith))
            ];
            named = λ q k e. let (above, below) = valid.named q k e in (above, omega arith);
            total = valid.total;
            start = omega (arith, valid.start);
          },
          omega arith,
          omega arith,
        ),
        (omega (arith, valid.start), omega arith),
      )

  pub insert_key-IsValid :
      (k : Bytes) (p : ℕ) → Among lo g p → After (Grows lo 0 g) (insert_key k p g)
  insert_key-IsValid k p here =
      After-bind (λ t. hash_tab_insert g.tab k (some p) ≡ some t) _ _ _ (λ t e. e)
        (λ t e. After-some _ _ (
          record {
            older = valid.older;
            named = λ q r found. elim (insert_reads g.tab t.1 k q (some p) t.0 r e found) [
              | inl new ↦ subst (Among lo g) (some-injective _ _ new) here
              | inr was ↦ valid.named q r was
            ];
            total = λ q. insert_total g.tab t.1 k q (some p) t.0 e (valid.total q);
            start = valid.start;
          },
          omega arith,
          omega arith,
        ))

  pub update_key-IsValid :
      (k : Bytes) (p : ℕ) → Among lo g p → After (Grows lo 0 g) (update_key k p g)
  update_key-IsValid k p here =
      After-bind (λ t. hash_tab_update g.tab k (some p) ≡ some t) _ _ _ (λ t e. e)
        (λ t e. After-some _ _ (
          record {
            older = valid.older;
            named = λ q r found. elim (update_reads g.tab t k q (some p) r e found) [
              | inl new ↦ subst (Among lo g) (some-injective _ _ new) here
              | inr was ↦ valid.named q r was
            ];
            total = λ q. update_total g.tab t k q (some p) e (valid.total q);
            start = valid.start;
          },
          omega arith,
          omega arith,
        ))
