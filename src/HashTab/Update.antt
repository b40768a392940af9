-- ===== src/HashTab/Update.antt =====
-- src/hashtab.c: what an update does to lookups.
use milac.Prelude.{
  ℕ, ◌≡◌, refl, sym, subst, List, Option, some, true, false, not, ◌&&◌, inl, inr, Bool-cases,
  if◌then◌else◌, Bytes, bytes_eq, bytes_eq→eq, bytes_eq_congr, bytes_eq_symm, ◌==◌, set, get_elem?,
  arith,
}
use milac.HashTab.Chain.{occurs-chain_update, find-chain_update-occurs}
use milac.HashTab.Lookup.{
  slot_occurs, SlotValid, IsValid, home, no_error, set-IsValid, lookup-write,
}
use milac.HashTab.{Item, Slot, HashTab, slot_lookup, hash_tab_lookup, slot_update, hash_tab_update}

other_text : (k t q : Bytes) → bytes_eq t k ≡ false → bytes_eq k q ≡ true → bytes_eq t q ≡ false
other_text k t q h e = rw (← bytes_eq→eq k q e) h

module _ {ℓ} {V : Type ℓ} where
  slot-update :
      (i : ℕ) (k : Bytes) (v : Option V) (t : Bytes) (key : ℕ) (it : Option V)
      (next : List (Item V))
      → let s : Slot V = record { key = key; key_txt = some t; item = it; next = next } in
        SlotValid i s
        → SlotValid i (slot_update k v s)
          × ((q : Bytes)
              → slot_lookup q (slot_update k v s)
                ≡ (if bytes_eq k q && not (slot_occurs k s == 0) then v else slot_lookup q s))
  unfolding slot_update slot_occurs slot_lookup
  slot-update i k v t key it next valid = elim (Bool-cases (bytes_eq t k)) [
    | inl same ↦ rw same (
      (valid.0, valid.1, λ q. ground (arith, valid.2 q)),
      λ q. ground (arith, bytes_eq_congr t k q),
    )
    | inr other ↦ rw other (
      (valid.0, valid.1, λ q. ground (arith, valid.2 q, occurs-chain_update k q v next)),
      λ q. ground (
        arith,
        find-chain_update-occurs k q v next,
        bytes_eq_congr t q k,
        bytes_eq_congr k q t,
        bytes_eq_symm k q,
        other_text k t q,
      ),
    )
  ]

  slot-update_keyed :
      (i : ℕ) (k : Bytes) (v : Option V) (t : Bytes) (s : Slot V)
      → s.key_txt ≡ some t
      → SlotValid i s
      → SlotValid i (slot_update k v s)
        × ((q : Bytes)
            → slot_lookup q (slot_update k v s)
              ≡ (if bytes_eq k q && not (slot_occurs k s == 0) then v else slot_lookup q s))
  slot-update_keyed i k v t s e =
      subst
        (λ o.
          let s' : Slot V = record s { key_txt = o } in
          SlotValid i s'
          → SlotValid i (slot_update k v s')
            × ((q : Bytes)
                → slot_lookup q (slot_update k v s')
                  ≡ (if bytes_eq k q && not (slot_occurs k s' == 0) then v else slot_lookup q s')))
        (sym e) (slot-update i k v t s.key s.item s.next)

  -- An update in a slot that has a key succeeds, keeps the invariant, and makes lookups of the key
  -- return the new data if the key is in the table. All other lookups return what they did before.
  pub update-lookup :
      (t : HashTab V)
      → IsValid t
      → (k : Bytes) (v : Option V) (s : Slot V) (txt : Bytes) → get_elem? t.tab (home t k) ≡ some s
      → s.key_txt ≡ some txt
      → (t' : HashTab V) × (hash_tab_update t k v ≡ some t')
        × IsValid t'
        × ((q : Bytes)
            → hash_tab_lookup t' q ≡ (
                if bytes_eq k q && not (slot_occurs k s == 0) then some v else hash_tab_lookup t q))
  unfolding hash_tab_update
  update-lookup t valid k v s txt e key =
      let s' = slot_update k v s in
      let (ok, read) = slot-update_keyed (home t k) k v txt s key (valid.placed (home t k) s e) in
      let hit = λ (q : Bytes). bytes_eq k q && not (slot_occurs k s == 0) in
      (
        record t { tab = set t.tab (home t k) s' },
        rw (no_error t valid k, e),
        set-IsValid t valid k s' _ ok refl refl refl,
        λ q.
            lookup-write t valid k q s s' _ (hit q) v e refl refl refl (λ h. ground arith) (read q),
      )
