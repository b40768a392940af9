-- ===== src/HashTab/Lookup.antt =====
-- src/hashtab.c: the invariant of a table, and what an insertion does to lookups.
use milac.Prelude.{
  ℕ, ◌+◌, ◌%◌, ◌≤◌, ◌<◌, ◌≡◌, ◌≢◌, refl, ap, subst, ◌∙◌, Bool, not, ◌&&◌, List, Option, none, some,
  true, false, inl, inr, Bool-cases, if◌then◌else◌, Bytes, bytes_eq, bytes_eq→eq, ◌==◌, ==_iff,
  get_elem?, set, length, length-set, get_elem?-some, get_elem?-lt, get_elem?-set_self,
  get_elem?-set_ne, length-replicate, set_all, replicate_elem, word_mod, arith,
}
use milac.HashTab.Chain.{occurs, occurs-zero, find-snoc, occurs-snoc}
use milac.HashTab.{
  Item, Slot, HashTab, hash_error, hash_ok, empty_slot, hash_tab_init, find, slot_insert,
  hash_tab_insert, slot_lookup, hash_tab_lookup,
}

module _ {ℓ} {V : Type ℓ} where
  -- how many items of the slot a lookup of the key could meet
  unfoldable pub slot_occurs : Bytes → Slot V → ℕ
  unfolding occurs
  slot_occurs q s = elim s.key_txt [
    | none ↦ 0
    | some t ↦ if bytes_eq t q then 1 + occurs q s.next else occurs q s.next
  ]

  -- The item of the array at index 0 never gets a key. Elsewhere `key` is the index exactly where
  -- there is a text, and no text comes twice.
  abbrev pub SlotValid : ℕ → Slot V → Type 0
  SlotValid i s = elim s.key_txt [
    | none ↦ (s.key ≡ 0) × (i ≢ 0 → length s.next ≡ 0)
    | some t ↦ (s.key ≡ i) × (i ≢ 0) × ((q : Bytes) → slot_occurs q s ≤ 1)
  ]

  -- What a lookup reads after an insertion of a key that is not there.
  abbrev Inserted : ℕ → Bytes → Option V → Slot V → Slot V → Type ℓ
  Inserted i k v s s' =
      SlotValid i s'
      × ((q : Bytes)
          → slot_lookup q s'
            ≡ (if i == 0 then slot_lookup q s else if bytes_eq k q then v else slot_lookup q s))

  slot-insert :
      (i : ℕ) (k : Bytes) (v : Option V) (key : ℕ) (txt : Option Bytes) (it : Option V)
      (next : List (Item V))
      → let s : Slot V = record { key = key; key_txt = txt; item = it; next = next } in
        SlotValid i s → slot_occurs k s ≡ 0 → Inserted i k v s (slot_insert k i v s)
  unfolding slot_insert slot_lookup slot_occurs occurs find
  slot-insert i k v key none it next valid absent = elim (Bool-cases (i == 0)) [
    | inl zero ↦
        let test : (key == i) ≡ true = ground arith in
        rw (test, zero) ((valid.0, λ n. ground arith), λ q. refl)
    | inr other ↦
        let test : (key == i) ≡ false = ground arith in
        rw (test, other) ((refl, ground arith, λ q. ground arith), λ q. ground arith)
  ]
  slot-insert i k v key (some t) it next valid absent =
      let test : (key == i) ≡ true = ground arith in
      let other : (i == 0) ≡ false = ground arith in
      rw (test, other)
        (
          (
            valid.0,
            valid.1,
            λ q. ground (arith, valid.2 q, occurs-snoc q k v next, bytes_eq→eq k q),
          ),
          λ q. ground (arith, find-snoc q k v next, occurs-zero k next, bytes_eq→eq k q),
        )

module _ {ℓ} {V : Type ℓ} where
  slot-lookup_zero :
      (k : Bytes) (key : ℕ) (txt : Option Bytes) (it : Option V) (next : List (Item V))
      → let s : Slot V = record { key = key; key_txt = txt; item = it; next = next } in
        SlotValid 0 s → slot_lookup k s ≡ none
  unfolding slot_lookup
  slot-lookup_zero k key none it next valid = refl
  slot-lookup_zero k key (some t) it next valid = absurd (valid.1 refl)

-- Each slot is as it should be, and a hash is an index of the table.
pub record IsValid {ℓ} {V : Type ℓ} (t : HashTab V) : Type ℓ where
  pub width : length t.tab ≡ t.slots
  pub small : t.slots < word_mod
  pub hashes : (k : Bytes) → t.hash_func k t.slots < t.slots
  pub placed : (i : ℕ) (s : Slot V) → get_elem? t.tab i ≡ some s → SlotValid i s

module _ {ℓ} {V : Type ℓ} where
  abbrev pub home : HashTab V → Bytes → ℕ
  home t k = t.hash_func k t.slots

  -- no item of the key's slot is under the key
  abbrev pub IsAbsent : HashTab V → Bytes → Type ℓ
  IsAbsent t k = (s : Slot V) → get_elem? t.tab (home t k) ≡ some s → slot_occurs k s ≡ 0

  pub hash_tab_init-IsValid :
      (left size : ℕ) (hash_fn : Bytes → ℕ → ℕ)
      → size < word_mod
      → ((k : Bytes) → hash_fn k size < size)
      → IsValid (hash_tab_init {V = V} left size hash_fn)
  unfolding hash_tab_init
  hash_tab_init-IsValid left size hash_fn small hashes = record {
    width = length-replicate size empty_slot;
    small = small;
    hashes = hashes;
    placed = λ i s e. subst (SlotValid i) (replicate_elem size i empty_slot e) (refl, λ n. refl);
  }

  module _ (t : HashTab V) (valid : IsValid t) where
    -- the slot that a key belongs to
    pub slot_of : (k : Bytes) → (s : Slot V) × (get_elem? t.tab (home t k) ≡ some s)
    slot_of k = get_elem?-some t.tab (home t k) (omega (arith, valid.hashes k, valid.width))

    pub no_error : (k : Bytes) → (home t k == hash_error) ≡ false
    no_error k = ground (arith, valid.hashes k, valid.small)

    pub lookup_eq :
        (k : Bytes) {s : Slot V}
        → get_elem? t.tab (home t k) ≡ some s
        → hash_tab_lookup t k ≡ some (slot_lookup k s)
    unfolding hash_tab_lookup
    lookup_eq k e = rw (no_error k, e)

    -- Replacing the slot of a key changes lookups of keys in that slot only.
    pub lookup-set :
        (k q : Bytes) (s s' : Slot V) (t' : HashTab V)
        → get_elem? t.tab (home t k) ≡ some s
        → t'.tab ≡ set t.tab (home t k) s'
        → t'.slots ≡ t.slots
        → t'.hash_func ≡ t.hash_func
        → hash_tab_lookup t' q
          ≡ (if home t k == home t q then some (slot_lookup q s') else hash_tab_lookup t q)
    unfolding hash_tab_lookup
    lookup-set k q s s' t' e tabs slots hash = elim (Bool-cases (home t k == home t q)) [
      | inl same ↦
          let here : get_elem? (set t.tab (home t k) s') (home t q) ≡ some s' =
            rw (← (==_iff _ _).0 same)
              (get_elem?-set_self t.tab (home t k) s' (get_elem?-lt t.tab (home t k) e)) in
          rw (tabs, slots, hash, same, no_error q, here)
      | inr other ↦
          let there : get_elem? (set t.tab (home t k) s') (home t q) ≡ get_elem? t.tab (home t q) =
            get_elem?-set_ne t.tab s' (ground arith) in
          rw (tabs, slots, hash, other, no_error q, there)
    ]

    -- A write of a good slot keeps the table good.
    pub set-IsValid :
        (k : Bytes) (s' : Slot V) (t' : HashTab V)
        → SlotValid (home t k) s'
        → t'.tab ≡ set t.tab (home t k) s'
        → t'.slots ≡ t.slots
        → t'.hash_func ≡ t.hash_func
        → IsValid t'
    set-IsValid k s' t' ok tabs slots hash = record {
      width = rw (tabs, slots) (length-set t.tab (home t k) s' ∙ valid.width);
      small = rw slots valid.small;
      hashes = rw (slots, hash) valid.hashes;
      placed = rw tabs (set_all SlotValid t.tab (home t k) s' ok valid.placed);
    }

    pub home_congr : (k q : Bytes) → bytes_eq k q ≡ true → home t k ≡ home t q
    home_congr k q same = ap (home t) (bytes_eq→eq k q same)

    -- A write to the slot of a key that changes what the slot answers as `f` does changes what the
    -- table answers so.
    pub lookup-write :
        (k q : Bytes) (s s' : Slot V) (t' : HashTab V) (hit : Bool) (v : Option V)
        → get_elem? t.tab (home t k) ≡ some s
        → t'.tab ≡ set t.tab (home t k) s'
        → t'.slots ≡ t.slots
        → t'.hash_func ≡ t.hash_func
        → (hit ≡ true → bytes_eq k q ≡ true)
        → slot_lookup q s' ≡ (if hit then v else slot_lookup q s)
        → hash_tab_lookup t' q ≡ (if hit then some v else hash_tab_lookup t q)
    lookup-write k q s s' t' hit v e tabs slots hash hits read =
        lookup-set k q s s' t' e tabs slots hash ∙ elim (Bool-cases (home t k == home t q)) [
          | inl same ↦
              let there : get_elem? t.tab (home t q) ≡ some s = rw (← (==_iff _ _).0 same) e in
              let old = lookup_eq q there in rw (same, read, old) (ground arith)
          | inr other ↦ rw other (ground (arith, hits, home_congr k q))
        ]

    -- the table that an insertion into the slot `s` leaves
    abbrev pub inserted : Bytes → Option V → Slot V → HashTab V
    inserted k v s = record t {
      count = (t.count + 1) % word_mod;
      collision_count =
          if s.key == home t k then (t.collision_count + 1) % word_mod else t.collision_count;
      tab = set t.tab (home t k) (slot_insert k (home t k) v s);
    }

    pub insert_eq :
        (k : Bytes) (v : Option V) {s : Slot V}
        → get_elem? t.tab (home t k) ≡ some s
        → hash_tab_insert t k v ≡ some (hash_ok, inserted k v s)
    unfolding hash_tab_insert
    insert_eq k v e = rw (no_error k, e)

    pub inserted-lookup :
        (k : Bytes) (v : Option V) {s : Slot V}
        → get_elem? t.tab (home t k) ≡ some s
        → IsAbsent t k
        → IsValid (inserted k v s)
          × ((q : Bytes)
              → hash_tab_lookup (inserted k v s) q ≡ (
                  if home t k == 0
                  then hash_tab_lookup t q
                  else if bytes_eq k q
                  then some v
                  else hash_tab_lookup t q))
    inserted-lookup k v {s} e absent =
        let h = home t k in
        let s' = slot_insert k h v s in
        let (ok, read) =
          slot-insert h k v s.key s.key_txt s.item s.next (valid.placed h s e) (absent s e) in
        (
          set-IsValid k s' _ ok refl refl refl,
          λ q.
              lookup-write k q s s' _ (bytes_eq k q && not (h == 0)) v e refl refl refl
                (ground arith) (read q ∙ ground arith)
              ∙ ground arith,
        )

    -- The insertion of a key that is not in the table succeeds and keeps the invariant. Afterwards a
    -- lookup of the key returns its data and any other lookup what it returned before; but if the
    -- hash of the key is 0, lookups of the key too return what they returned before.
    pub insert-lookup :
        (k : Bytes) (v : Option V)
        → IsAbsent t k
        → (t' : HashTab V) × (hash_tab_insert t k v ≡ some (hash_ok, t'))
          × IsValid t'
          × ((q : Bytes)
              → hash_tab_lookup t' q ≡ (
                  if home t k == 0
                  then hash_tab_lookup t q
                  else if bytes_eq k q
                  then some v
                  else hash_tab_lookup t q))
    insert-lookup k v absent =
        let (s, e) = slot_of k in
        let (ok, read) = inserted-lookup k v e absent in (inserted k v s, insert_eq k v e, ok, read)

    -- A key whose hash is 0 is never found.
    pub lookup_zero : (k : Bytes) → home t k ≡ 0 → hash_tab_lookup t k ≡ some none
    lookup_zero k zero =
        let (s, e) = slot_of k in
        let empty =
          slot-lookup_zero k s.key s.key_txt s.item s.next
            (subst (λ i. SlotValid i s) zero (valid.placed (home t k) s e)) in
        lookup_eq k e ∙ ap some empty
