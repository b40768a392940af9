-- ===== src/HashTab/Remove.antt =====
-- src/hashtab.c: what a removal does to lookups.
use milac.Prelude.{
  ℕ, ◌+◌, ◌-◌, ◌%◌, ◌≡◌, refl, sym, subst, List, [], ◌∷◌, Option, none, some, Bool, true, false,
  not, ◌&&◌, inl, inr, Bool-cases, Option-cases, if◌then◌else◌, Bytes, bytes_eq, bytes_eq→eq,
  bytes_eq_congr, ◌==◌, length, set, get_elem?, word_mod, arith,
}
use milac.HashTab.Chain.{occurs, occurs-zero, find-chain_remove, occurs-chain_remove}
use milac.HashTab.Lookup.{
  slot_occurs, SlotValid, IsValid, home, no_error, set-IsValid, lookup-write,
}
use milac.HashTab.{
  Item, Slot, HashTab, find, slot_lookup, hash_tab_lookup, chain_remove, head_remove, slot_remove,
  hash_tab_remove,
}

module _ {ℓ} {V : Type ℓ} where
  -- What `slot_remove` leaves, where the slot has a key at all: the key is gone, other keys stay. Its
  -- data is returned, unless it stood in the array with a chain behind it.
  abbrev Removed : ℕ → Bytes → Slot V → Option V × Bool × Slot V → Type ℓ
  Removed i k s (v, found, s') =
      SlotValid i s'
      × ((q : Bytes) → slot_lookup q s' ≡ (if bytes_eq k q then none else slot_lookup q s))

  head-remove :
      (i : ℕ) (k t : Bytes) (key : ℕ) (it : Option V) (next : List (Item V))
      → let s : Slot V = record { key = key; key_txt = some t; item = it; next = next } in
        SlotValid i s
        → bytes_eq t k ≡ true
        → Removed i k s ((head_remove s).0, true, (head_remove s).1)
  unfolding head_remove slot_lookup slot_occurs find occurs
  head-remove i k t key it [] valid same =
      ((refl, λ n. refl), λ q. ground (arith, bytes_eq_congr t k q))
  head-remove i k t key it (x ∷ next) valid same = (
    (valid.0, valid.1, λ q. ground (arith, valid.2 q)),
    λ q. ground (arith, valid.2 q, bytes_eq_congr t k q, occurs-zero q next),
  )

  chain-remove :
      (i : ℕ) (k t : Bytes) (key : ℕ) (it : Option V) (next : List (Item V))
      → let s : Slot V = record { key = key; key_txt = some t; item = it; next = next } in
        SlotValid i s
        → bytes_eq t k ≡ false
        → (v : Option V) (found : Bool)
        → Removed i k s (v, found, record s { next = chain_remove k next })
  unfolding slot_lookup slot_occurs
  chain-remove i k t key it next valid other v found = (
    (valid.0, valid.1, λ q. ground (arith, valid.2 q, occurs-chain_remove k q next)),
    λ q. ground (
      arith,
      find-chain_remove k q next,
      valid.2 k,
      bytes_eq_congr t q k,
      bytes_eq_congr k q t,
      bytes_eq→eq k q,
    ),
  )

  -- where the key is not found nothing changes, and lookups of it return NULL as they did
  absent-remove :
      (i : ℕ) (k t : Bytes) (key : ℕ) (it : Option V) (next : List (Item V))
      → let s : Slot V = record { key = key; key_txt = some t; item = it; next = next } in
        SlotValid i s → bytes_eq t k ≡ false → find k next ≡ none → Removed i k s (none, false, s)
  unfolding slot_lookup
  absent-remove i k t key it next valid other missing =
      (valid, λ q. ground (arith, bytes_eq→eq k q))

  head-returns :
      (t : Bytes) (key : ℕ) (it : Option V) (next : List (Item V))
      → let s : Slot V = record { key = key; key_txt = some t; item = it; next = next } in
        (head_remove s).0 ≡ (if not (length next == 0) then none else it)
  unfolding head_remove
  head-returns t key it [] = refl
  head-returns t key it (x ∷ next) = ground arith

  slot-remove :
      (i : ℕ) (k t : Bytes) (key : ℕ) (it : Option V) (next : List (Item V))
      → let s : Slot V = record { key = key; key_txt = some t; item = it; next = next } in
        SlotValid i s
        → (r : Option V × Bool × Slot V) × (slot_remove k s ≡ some r)
          × Removed i k s r
          × (r.0 ≡ (if bytes_eq t k && not (length next == 0) then none else slot_lookup k s))
  unfolding slot_remove
  slot-remove i k t key it next valid =
      let s : Slot V = record { key = key; key_txt = some t; item = it; next = next } in
      elim (Bool-cases (bytes_eq t k)) [
        | inl same ↦ (
          ((head_remove s).0, true, (head_remove s).1),
          rw same,
          head-remove i k t key it next valid same,
          unfold slot_lookup in rw same (head-returns t key it next),
        )
        | inr other ↦ elim (Option-cases (find k next)) [
          | inl missing ↦ (
            (none, false, s),
            rw (other, missing),
            absent-remove i k t key it next valid other missing,
            unfold slot_lookup in rw (other, missing),
          )
          | inr (x, there) ↦ (
            (x.item, true, record s { next = chain_remove k next }),
            rw (other, there),
            chain-remove i k t key it next valid other x.item true,
            unfold slot_lookup in rw (other, there),
          )
        ]
      ]

  -- the same, where the key is known by an equation
  slot-remove_keyed :
      (i : ℕ) (k t : Bytes) (s : Slot V)
      → s.key_txt ≡ some t
      → SlotValid i s
      → (r : Option V × Bool × Slot V) × (slot_remove k s ≡ some r)
        × Removed i k s r
        × (r.0 ≡ (if bytes_eq t k && not (length s.next == 0) then none else slot_lookup k s))
  slot-remove_keyed i k t s e =
      subst
        (λ o.
          let s' : Slot V = record s { key_txt = o } in
          SlotValid i s'
          → (r : Option V × Bool × Slot V) × (slot_remove k s' ≡ some r)
            × Removed i k s' r
            × (r.0 ≡ (if bytes_eq t k && not (length s.next == 0) then none else slot_lookup k s')))
        (sym e) (slot-remove i k t s.key s.item s.next)

  module _ (t : HashTab V) (valid : IsValid t) (k : Bytes) where
    -- A removal from a slot that has a key succeeds, keeps the invariant, and afterwards lookups of
    -- the key return NULL and all others what they returned before. It returns what a lookup of the
    -- key returned, except where the key stands in the array with a chain behind it: then NULL.
    pub remove-lookup :
        (s : Slot V) (txt : Bytes)
        → get_elem? t.tab (home t k) ≡ some s
        → s.key_txt ≡ some txt
        → (v : Option V) × (t' : HashTab V) × (hash_tab_remove t k ≡ some (v, t'))
          × IsValid t'
          × ((q : Bytes)
              → hash_tab_lookup t' q ≡ (if bytes_eq k q then some none else hash_tab_lookup t q))
          × (v ≡ (if bytes_eq txt k && not (length s.next == 0) then none else slot_lookup k s))
    unfolding hash_tab_remove
    remove-lookup s txt e key =
        let ((v, found, s'), run, (ok, read), returned) =
          slot-remove_keyed (home t k) k txt s key (valid.placed (home t k) s e) in
        (
          v,
          record t {
            count = if found then (t.count + word_mod - 1) % word_mod else t.count;
            tab = set t.tab (home t k) s';
          },
          rw (no_error t valid k, e, run),
          set-IsValid t valid k s' _ ok refl refl refl,
          λ q.
              lookup-write t valid k q s s' _ (bytes_eq k q) none e refl refl refl (λ h. h)
                (read q),
          returned,
        )

    -- A removal from a slot that has no key faults: `strcmp` gets NULL.
    pub remove_fault :
        (s : Slot V)
        → get_elem? t.tab (home t k) ≡ some s
        → s.key_txt ≡ none
        → hash_tab_remove t k ≡ none
    unfolding hash_tab_remove slot_remove
    remove_fault s e bare = rw (no_error t valid k, e, bare)
