-- ===== src/HashTab.antt =====
-- src/hashtab.c and src/hashtab.h: the chained hash table under the symbol table. An item of the
-- array is a `Slot` with the chain that hangs on it; a hash function is a parameter, as in
-- `hasht_tab_t`, and `MakeHash` has the default one. `void *` data is `Option V`, with `none` for
-- NULL, and a key of the array's item is `none` where `key_txt` is NULL. `none` as the result of an
-- operation is a fault: an access outside the array, or `strcmp` of NULL. `malloc` and `strdup` are
-- taken to succeed. A slot is the index that the hash gives, as it is for tables of at most 2^31 slots: C
-- keeps it in an `int32_t`. The tables of the compiler have some thousand slots. `hash_tab_dump` and
-- `hash_tab_destroy` are I/O and `free` only.
pub mod MakeHash
pub mod Chain
pub mod Lookup
pub mod Full
pub mod Remove
pub mod Update
pub mod Values
use milac.Prelude.{
  ℕ, ◌+◌, ◌-◌, ◌%◌, List, [], ◌∷◌, ◌++◌, Option, none, some, Bool, true, false, ◌==◌, if◌then◌else◌,
  Bytes, bytes_eq, get_elem?, set, replicate, word_mod,
}

-- An allocated hasht_data_t in a chain: its text and its data. Its `key` is that of the array's item,
-- since `hash_tab_insert` chains it only where the two are equal.
pub record Item {ℓ} (V : Type ℓ) : Type ℓ where
  pub txt : Bytes
  pub item : Option V

-- a hasht_data_t of the array; `next` is the chain behind it
pub record Slot {ℓ} (V : Type ℓ) : Type ℓ where
  pub key : ℕ
  pub key_txt : Option Bytes
  pub item : Option V
  pub next : List (Item V)

pub record HashTab {ℓ} (V : Type ℓ) : Type ℓ where
  pub slots : ℕ
  pub count : ℕ
  pub collision_count : ℕ
  pub hash_func : Bytes → ℕ → ℕ
  pub tab : List (Slot V)

-- `hash_key == -1`
abbrev pub hash_error : ℕ
hash_error = 4294967295

pub data Status : Type 0 where
  hash_ok hash_error_func : Status

abbrev pub empty_slot {ℓ} : {V : Type ℓ} → Slot V
empty_slot = record { key = 0; key_txt = none; item = none; next = [] }

-- `count` is not written: it is what `malloc` left there.
unfoldable pub hash_tab_init {ℓ} : {V : Type ℓ} → ℕ → ℕ → (Bytes → ℕ → ℕ) → HashTab V
hash_tab_init left size hash_fn = record {
  slots = size;
  count = left;
  collision_count = 0;
  hash_func = hash_fn;
  tab = replicate size empty_slot;
}

module _ {ℓ} {V : Type ℓ} where
  -- the walk to a key along a chain
  unfoldable pub find : Bytes → List (Item V) → Option (Item V)
  find k [] = none
  find k (x ∷ xs) = if bytes_eq x.txt k then some x else find k xs

  -- the data of an item found
  abbrev pub item_of : Option (Item V) → Option V
  item_of none = none
  item_of (some x) = x.item

  unfoldable pub slot_insert : Bytes → ℕ → Option V → Slot V → Slot V
  slot_insert k h v s =
      if s.key == h
      then record s { next = s.next ++ (record { txt = k; item = v } ∷ []) }
      else record { key = h; key_txt = some k; item = v; next = [] }

  unfoldable pub hash_tab_insert : HashTab V → Bytes → Option V → Option (Status × HashTab V)
  unfolding slot_insert
  hash_tab_insert t k v =
      let h = t.hash_func k t.slots in
      if h == hash_error then some (hash_error_func, t) else elim (get_elem? t.tab h) [
        | none ↦ none
        | some s ↦ some (
          hash_ok,
          record t {
            count = (t.count + 1) % word_mod;
            collision_count =
                if s.key == h then (t.collision_count + 1) % word_mod else t.collision_count;
            tab = set t.tab h (slot_insert k h v s);
          },
        )
      ]

  unfoldable pub slot_lookup : Bytes → Slot V → Option V
  unfolding find
  slot_lookup k s = elim s.key_txt [
    | none ↦ none
    | some t ↦ if bytes_eq t k then s.item else item_of (find k s.next)
  ]

  unfoldable pub hash_tab_lookup : HashTab V → Bytes → Option (Option V)
  unfolding slot_lookup
  hash_tab_lookup t k =
      let h = t.hash_func k t.slots in
      if h == hash_error
      then some none
      else elim (get_elem? t.tab h) [ none ↦ none | some s ↦ some (slot_lookup k s) ]

  -- the chain without its first item under the key
  unfoldable pub chain_remove : Bytes → List (Item V) → List (Item V)
  chain_remove k [] = []
  chain_remove k (x ∷ xs) = if bytes_eq x.txt k then xs else x ∷ chain_remove k xs

  -- The item of the array itself is removed. With a chain behind it, the first of the chain is
  -- copied over it and nothing is returned.
  unfoldable pub head_remove : Slot V → Option V × Slot V
  head_remove s = elim s.next [
    | [] ↦ (s.item, record { key = 0; key_txt = none; item = none; next = [] })
    | x ∷ rest ↦ (none, record { key = s.key; key_txt = some x.txt; item = x.item; next = rest })
  ]

  -- what `hash_tab_remove` returns, whether it counts one item less, and the slot
  unfoldable pub slot_remove : Bytes → Slot V → Option (Option V × Bool × Slot V)
  unfolding find chain_remove head_remove
  slot_remove k s = elim s.key_txt [
    | none ↦ none
    | some t ↦
        if bytes_eq t k
        then (let (v, s') = head_remove s in some (v, true, s'))
        else elim (find k s.next) [
          | none ↦ some (none, false, s)
          | some x ↦ some (x.item, true, record s { next = chain_remove k s.next })
        ]
  ]

  unfoldable pub hash_tab_remove : HashTab V → Bytes → Option (Option V × HashTab V)
  unfolding slot_remove
  hash_tab_remove t k =
      let h = t.hash_func k t.slots in
      if h == hash_error then some (none, t) else elim (get_elem? t.tab h) [
        | none ↦ none
        | some s ↦ elim (slot_remove k s) [
          | none ↦ none
          | some (v, found, s') ↦ some (
            v,
            record t {
              count = if found then (t.count + word_mod - 1) % word_mod else t.count;
              tab = set t.tab h s';
            },
          )
        ]
      ]

  unfoldable pub chain_update : Bytes → Option V → List (Item V) → List (Item V)
  chain_update k v [] = []
  chain_update k v (x ∷ xs) =
      if bytes_eq x.txt k then record x { item = v } ∷ xs else x ∷ chain_update k v xs

  unfoldable pub slot_update : Bytes → Option V → Slot V → Slot V
  unfolding chain_update
  slot_update k v s = elim s.key_txt [
    | none ↦ record s { item = v }
    | some t ↦
        if bytes_eq t k then record s { item = v } else record s { next = chain_update k v s.next }
  ]

  unfoldable pub hash_tab_update : HashTab V → Bytes → Option V → Option (HashTab V)
  unfolding slot_update
  hash_tab_update t k v =
      let h = t.hash_func k t.slots in
      if h == hash_error then some t else elim (get_elem? t.tab h) [
        | none ↦ none
        | some s ↦ some (record t { tab = set t.tab h (slot_update k v s) })
      ]

  -- the data that `hash_tab_iterate` calls its function on, in order
  unfoldable pub slot_items : Slot V → List (Option V)
  slot_items s = elim s.key_txt [
    | none ↦ []
    | some t ↦ s.item ∷ mathlib.Core.List.map (λ x. x.item) s.next
  ]

  unfoldable pub hash_tab_iterate : HashTab V → List (Option V)
  unfolding slot_items
  hash_tab_iterate t = mathlib.Core.List.flat_map slot_items t.tab
