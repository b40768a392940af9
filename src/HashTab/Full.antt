-- ===== src/HashTab/Full.antt =====
-- src/hashtab.c: tables whose data is never NULL, so that a lookup that returns NULL shows that the
-- key is not in the table.
use milac.HashTab.Chain.{occurs, occurs-snoc}
use milac.HashTab.Lookup.{
  slot_occurs, SlotValid, IsValid, IsAbsent, inserted, insert_eq, inserted-lookup, home, slot_of,
  lookup_eq,
}
use milac.HashTab.{
  Item, Slot, HashTab, hash_ok, hash_tab_init, empty_slot, hash_tab_insert, hash_tab_lookup,
  slot_insert, slot_lookup,
}
use milac.Prelude.{
  ℕ, ◌≡◌, refl, sym, subst, ◌∙◌, List, Option, none, some, true, false, not, ◌&&◌, inl, inr,
  Bool-cases, Bytes, bytes_eq, ◌==◌, ==_iff, get_elem?, get_elem?-lt, get_elem?-set_self,
  get_elem?-set_ne, replicate_elem, arith,
}

module _ {ℓ} {V : Type ℓ} where
  abbrev pub IsFull : HashTab V → Type ℓ
  IsFull t = (k : Bytes) → hash_tab_lookup t k ≡ some none → IsAbsent t k

  pub hash_tab_init-IsFull :
      (left size : ℕ) (hash_fn : Bytes → ℕ → ℕ) → IsFull (hash_tab_init {V = V} left size hash_fn)
  unfolding hash_tab_init slot_occurs
  hash_tab_init-IsFull left size hash_fn k missing s e =
      subst (λ z. slot_occurs k z ≡ 0) (replicate_elem size _ empty_slot e) refl

  pub init-lookup :
      (left size : ℕ) (hash_fn : Bytes → ℕ → ℕ) (k : Bytes)
      → IsValid (hash_tab_init {V = V} left size hash_fn)
      → hash_tab_lookup (hash_tab_init {V = V} left size hash_fn) k ≡ some none
  unfolding hash_tab_init slot_lookup
  init-lookup left size hash_fn k valid =
      let (s, e) = slot_of (hash_tab_init left size hash_fn) valid k in
      lookup_eq (hash_tab_init left size hash_fn) valid k e
      ∙ subst (λ z. some (slot_lookup k z) ≡ some none) (replicate_elem size _ empty_slot e) refl

  -- a key that is not in a slot is not after an insertion of another, nor after one at index 0
  slot-insert_occurs :
      (i : ℕ) (k q : Bytes) (v : Option V) (key : ℕ) (txt : Option Bytes) (it : Option V)
      (next : List (Item V))
      → let s : Slot V = record { key = key; key_txt = txt; item = it; next = next } in
        SlotValid i s
        → (bytes_eq k q && not (i == 0)) ≡ false
        → slot_occurs q s ≡ 0
        → slot_occurs q (slot_insert k i v s) ≡ 0
  unfolding slot_insert slot_occurs occurs
  slot-insert_occurs i k q v key none it next valid other absent = ground arith
  slot-insert_occurs i k q v key (some t) it next valid other absent =
      let test : (key == i) ≡ true = ground arith in
      rw test (ground (arith, occurs-snoc q k v next))

  module _ (t : HashTab V) (valid : IsValid t) (full : IsFull t) where
    inserted-IsFull :
        (k : Bytes) (v : V) (s : Slot V)
        → get_elem? t.tab (home t k) ≡ some s
        → IsAbsent t k
        → IsFull (inserted t valid k (some v) s)
    inserted-IsFull k v s e absent q missing s' e' =
        let (_, read) = inserted-lookup t valid k (some v) e absent in
        let other : (bytes_eq k q && not (home t k == 0)) ≡ false = ground (arith, read q) in
        let old : hash_tab_lookup t q ≡ some none = ground (arith, read q) in
        elim (Bool-cases (home t k == home t q)) [
          | inl same ↦
              let index : home t k ≡ home t q = (==_iff _ _).0 same in
              let wrote =
                get_elem?-set_self t.tab (home t k) (slot_insert k (home t k) (some v) s)
                  (get_elem?-lt t.tab (home t k) e) in
              let here : slot_insert k (home t k) (some v) s ≡ s' = cc (index, wrote, e') in
              let before : get_elem? t.tab (home t q) ≡ some s = cc (index, e) in
              rw (← here) (
                slot-insert_occurs (home t k) k q (some v) s.key s.key_txt s.item s.next
                  (valid.placed (home t k) s e) other (full q old s before))
          | inr apart ↦ full q old s' (
              sym (get_elem?-set_ne t.tab (slot_insert k (home t k) (some v) s) (ground arith))
              ∙ e')
        ]

    -- Inserting data that is not NULL under a key that is not there keeps the table full.
    pub insert-IsFull :
        (k : Bytes) (v : V)
        → IsAbsent t k
        → (t' : HashTab V) → hash_tab_insert t k (some v) ≡ some (hash_ok, t')
        → IsFull t'
    insert-IsFull k v absent t' run =
        let (s, e) = slot_of t valid k in
        let shape : inserted t valid k (some v) s ≡ t' = cc (insert_eq t valid k (some v) e, run) in
        subst IsFull shape (inserted-IsFull k v s e absent)
