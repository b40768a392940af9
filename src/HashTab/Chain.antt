-- ===== src/HashTab/Chain.antt =====
-- src/hashtab.c: a chain of items and what the writes do to a search along it.
use milac.Prelude.{
  ℕ, ◌+◌, ◌≤◌, ◌≡◌, refl, List, [], ◌∷◌, ◌++◌, Option, none, some, inl, inr, Bool-cases,
  Option-cases, not, ◌&&◌, ◌==◌, if◌then◌else◌, Bytes, bytes_eq, bytes_eq→eq, bytes_eq_congr, arith,
}
use milac.HashTab.{Item, find, item_of, chain_remove, chain_update}

module _ {ℓ} {V : Type ℓ} where
  -- how many items of the chain are under the key
  unfoldable pub occurs : Bytes → List (Item V) → ℕ
  occurs k [] = 0
  occurs k (x ∷ xs) = if bytes_eq x.txt k then 1 + occurs k xs else occurs k xs

  pub find-snoc :
      (q k : Bytes) (v : Option V) (xs : List (Item V))
      → item_of (find q (xs ++ (record { txt = k; item = v } ∷ [])))
        ≡ elim (find q xs) [ some x ↦ x.item | none ↦ if bytes_eq k q then v else none ]
  unfolding find
  find-snoc q k v [] = ground arith
  find-snoc q k v (x ∷ xs) = ground (arith, find-snoc q k v xs)

  pub occurs-zero : (q : Bytes) (xs : List (Item V)) → occurs q xs ≡ 0 → find q xs ≡ none
  unfolding find occurs
  occurs-zero q [] h = refl
  occurs-zero q (x ∷ xs) h = ground (arith, occurs-zero q xs)

  pub find-none : (q : Bytes) (xs : List (Item V)) → find q xs ≡ none → occurs q xs ≡ 0
  unfolding find occurs
  find-none q [] h = refl
  find-none q (x ∷ xs) h = ground (arith, find-none q xs)

  pub find-chain_remove :
      (k q : Bytes) (xs : List (Item V))
      → occurs k xs ≤ 1
      → item_of (find q (chain_remove k xs)) ≡ (if bytes_eq k q then none else item_of (find q xs))
  unfolding find chain_remove occurs
  find-chain_remove k q [] h = ground arith
  find-chain_remove k q (x ∷ xs) h =
      ground (
        arith,
        find-chain_remove k q xs,
        bytes_eq_congr x.txt k q,
        occurs-zero k xs,
        bytes_eq→eq k q,
      )

  pub occurs-chain_remove :
      (k q : Bytes) (xs : List (Item V)) → occurs q (chain_remove k xs) ≤ occurs q xs
  unfolding chain_remove occurs
  occurs-chain_remove k q [] = omega arith
  occurs-chain_remove k q (x ∷ xs) = ground (arith, occurs-chain_remove k q xs)

  pub find-chain_update :
      (k q : Bytes) (v : Option V) (old : Item V) (xs : List (Item V))
      → find k xs ≡ some old
      → item_of (find q (chain_update k v xs)) ≡ (if bytes_eq k q then v else item_of (find q xs))
  unfolding find chain_update
  find-chain_update k q v old [] h = cc
  find-chain_update k q v old (x ∷ xs) h = elim (Bool-cases (bytes_eq x.txt k)) [
    | inl same ↦ rw same (ground (arith, bytes_eq_congr x.txt k q))
    | inr other ↦ rw other (ground (arith, find-chain_update k q v old xs, bytes_eq→eq k q))
  ]

  pub find-chain_update_absent :
      (k q : Bytes) (v : Option V) (xs : List (Item V))
      → find k xs ≡ none
      → chain_update k v xs ≡ xs
  unfolding find chain_update
  find-chain_update_absent k q v [] h = refl
  find-chain_update_absent k q v (x ∷ xs) h = ground (arith, find-chain_update_absent k q v xs)

  pub occurs-snoc :
      (q k : Bytes) (v : Option V) (xs : List (Item V))
      → occurs q (xs ++ (record { txt = k; item = v } ∷ []))
        ≡ (if bytes_eq k q then 1 + occurs q xs else occurs q xs)
  unfolding occurs
  occurs-snoc q k v [] = ground arith
  occurs-snoc q k v (x ∷ xs) = ground (arith, occurs-snoc q k v xs)

  pub occurs-chain_update :
      (k q : Bytes) (v : Option V) (xs : List (Item V))
      → occurs q (chain_update k v xs) ≡ occurs q xs
  unfolding chain_update occurs
  occurs-chain_update k q v [] = refl
  occurs-chain_update k q v (x ∷ xs) = ground (arith, occurs-chain_update k q v xs)

  -- `chain_update` writes the first item under the key, if there is one.
  pub find-chain_update-occurs :
      (k q : Bytes) (v : Option V) (xs : List (Item V))
      → item_of (find q (chain_update k v xs))
        ≡ (if bytes_eq k q && not (occurs k xs == 0) then v else item_of (find q xs))
  find-chain_update-occurs k q v xs = elim (Option-cases (find k xs)) [
    | inl missing ↦
        rw (find-chain_update_absent k q v xs missing, find-none k xs missing) (ground arith)
    | inr (old, there) ↦ ground (arith, find-chain_update k q v old xs there, occurs-zero k xs)
  ]
