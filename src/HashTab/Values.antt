-- ===== src/HashTab/Values.antt =====
-- src/hashtab.c: where the data come from that lookups read, in any table.
use mathlib.Core.Option.{some-injective}
use milac.HashTab.Chain.{find-snoc, find-chain_update-occurs}
use milac.HashTab.{
  Item, Slot, HashTab, Status, hash_error, find, slot_insert, hash_tab_insert, slot_lookup,
  hash_tab_lookup, slot_update, hash_tab_update,
}
use milac.Prelude.{
  ℕ, ◌≡◌, refl, ap, sym, ◌⊎◌, List, Option, none, some, inl, inr, Bool-cases, Option-cases, Bytes,
  ◌==◌, ==_iff, set, get_elem?, get_elem?-lt, get_elem?-set_self, get_elem?-set_ne, arith,
}

module _ {ℓ} {V : Type ℓ} where
  -- What the second reads is `v` or what the first reads.
  abbrev pub ReadsOf : Option V → Option V → Option V → Type ℓ
  ReadsOf v old new = (p : V) → new ≡ some p → (v ≡ some p) ⊎ (old ≡ some p)

  slot-insert_reads :
      (k q : Bytes) (h : ℕ) (v : Option V) (key : ℕ) (txt : Option Bytes) (it : Option V)
      (next : List (Item V))
      → let s : Slot V = record { key = key; key_txt = txt; item = it; next = next } in
        ReadsOf v (slot_lookup q s) (slot_lookup q (slot_insert k h v s))
  unfolding slot_insert slot_lookup find
  slot-insert_reads k q h v key none it next p = ground arith
  slot-insert_reads k q h v key (some t) it next p = ground (arith, find-snoc q k v next)

  slot-update_reads :
      (k q : Bytes) (v : Option V) (key : ℕ) (txt : Option Bytes) (it : Option V)
      (next : List (Item V))
      → let s : Slot V = record { key = key; key_txt = txt; item = it; next = next } in
        ReadsOf v (slot_lookup q s) (slot_lookup q (slot_update k v s))
  unfolding slot_update slot_lookup
  slot-update_reads k q v key none it next p = λ e. inr e
  slot-update_reads k q v key (some t) it next p =
      ground (arith, find-chain_update-occurs k q v next)

  -- A write to a slot.
  lookup-set_reads :
      (t : HashTab V) (q : Bytes) (h : ℕ) (v : Option V) (s s' : Slot V) (t' : HashTab V)
      → get_elem? t.tab h ≡ some s
      → t'.tab ≡ set t.tab h s'
      → t'.slots ≡ t.slots
      → t'.hash_func ≡ t.hash_func
      → ReadsOf v (slot_lookup q s) (slot_lookup q s')
      → (p : V) → hash_tab_lookup t' q ≡ some (some p)
      → (v ≡ some p) ⊎ (hash_tab_lookup t q ≡ some (some p))
  unfolding hash_tab_lookup
  lookup-set_reads t q h v s s' t' e tabs slots hash reads p =
      let i = t.hash_func q t.slots in
      elim (Bool-cases (i == hash_error)) [
        | inl bad ↦ rw (slots, hash, bad) (λ f. inr f)
        | inr good ↦ elim (Bool-cases (h == i)) [
          | inl same ↦
              let here : get_elem? (set t.tab h s') i ≡ some s' =
                rw (← (==_iff _ _).0 same)
                  (get_elem?-set_self t.tab h s' (get_elem?-lt t.tab h e)) in
              let old : get_elem? t.tab i ≡ some s = rw (← (==_iff _ _).0 same) e in
              rw (tabs, slots, hash, good, here, old)
                (λ f. elim (reads p (some-injective _ _ f)) [
                  | inl new ↦ inl new
                  | inr was ↦ inr (ap some was)
                ])
          | inr other ↦
              let there : get_elem? (set t.tab h s') i ≡ get_elem? t.tab i =
                get_elem?-set_ne t.tab s' (ground arith) in
              rw (tabs, slots, hash, good, there) (λ f. inr f)
        ]
      ]

  -- What a lookup finds is no fault after a write either.
  lookup-set_total :
      (t : HashTab V) (q : Bytes) (h : ℕ) (s s' : Slot V) (t' : HashTab V)
      → get_elem? t.tab h ≡ some s
      → t'.tab ≡ set t.tab h s'
      → t'.slots ≡ t.slots
      → t'.hash_func ≡ t.hash_func
      → (f : Option V) × (hash_tab_lookup t q ≡ some f)
      → (f : Option V) × (hash_tab_lookup t' q ≡ some f)
  unfolding hash_tab_lookup
  lookup-set_total t q h s s' t' e tabs slots hash =
      let i = t.hash_func q t.slots in
      elim (Bool-cases (i == hash_error)) [
        | inl bad ↦ rw (slots, hash, bad) (λ f. (none, refl))
        | inr good ↦ elim (Bool-cases (h == i)) [
          | inl same ↦
              let here : get_elem? (set t.tab h s') i ≡ some s' =
                rw (← (==_iff _ _).0 same)
                  (get_elem?-set_self t.tab h s' (get_elem?-lt t.tab h e)) in
              rw (tabs, slots, hash, good, here) (λ f. (_, refl))
          | inr other ↦
              let there : get_elem? (set t.tab h s') i ≡ get_elem? t.tab i =
                get_elem?-set_ne t.tab s' (ground arith) in
              rw (tabs, slots, hash, good, there) (λ f. f)
        ]
      ]

  -- The second table is the first, or the first with `f` of a slot of it.
  abbrev Written : HashTab V → ℕ → (Slot V → Slot V) → HashTab V → Type ℓ
  Written t h f t' =
      (t ≡ t')
      ⊎ ((s : Slot V) × (get_elem? t.tab h ≡ some s)
          × (t'.tab ≡ set t.tab h (f s))
          × (t'.slots ≡ t.slots)
          × (t'.hash_func ≡ t.hash_func))

  insert-Written :
      (t t' : HashTab V) (k : Bytes) (v : Option V) (st : Status)
      → hash_tab_insert t k v ≡ some (st, t')
      → let h = t.hash_func k t.slots in Written t h (slot_insert k h v) t'
  unfolding hash_tab_insert
  insert-Written t t' k v st =
      let h = t.hash_func k t.slots in
      elim (Bool-cases (h == hash_error)) [
        | inl bad ↦ rw bad (λ e. inl (ap (λ x. x.1) (some-injective _ _ e)))
        | inr good ↦ elim (Option-cases (get_elem? t.tab h)) [
          | inl out ↦ rw (good, out) (λ e. absurd cc)
          | inr (s, there) ↦
              rw (good, there)
                (λ e.
                  let made = ap (λ x. x.1) (some-injective _ _ e) in
                  inr (
                    s,
                    refl,
                    sym (ap (λ x. x.tab) made),
                    sym (ap (λ x. x.slots) made),
                    sym (ap (λ x. x.hash_func) made),
                  ))
        ]
      ]

  update-Written :
      (t t' : HashTab V) (k : Bytes) (v : Option V)
      → hash_tab_update t k v ≡ some t'
      → Written t (t.hash_func k t.slots) (slot_update k v) t'
  unfolding hash_tab_update
  update-Written t t' k v =
      let h = t.hash_func k t.slots in
      elim (Bool-cases (h == hash_error)) [
        | inl bad ↦ rw bad (λ e. inl (some-injective _ _ e))
        | inr good ↦ elim (Option-cases (get_elem? t.tab h)) [
          | inl out ↦ rw (good, out) (λ e. absurd cc)
          | inr (s, there) ↦
              rw (good, there)
                (λ e.
                  let made = some-injective _ _ e in
                  inr (
                    s,
                    refl,
                    sym (ap (λ x. x.tab) made),
                    sym (ap (λ x. x.slots) made),
                    sym (ap (λ x. x.hash_func) made),
                  ))
        ]
      ]

  Written-reads :
      (t t' : HashTab V) (q : Bytes) (h : ℕ) (f : Slot V → Slot V) (v : Option V) (p : V)
      → Written t h f t'
      → ((s : Slot V) → ReadsOf v (slot_lookup q s) (slot_lookup q (f s)))
      → hash_tab_lookup t' q ≡ some (some p)
      → (v ≡ some p) ⊎ (hash_tab_lookup t q ≡ some (some p))
  Written-reads t t' q h f v p (inl same) reads e = inr (rw same e)
  Written-reads t t' q h f v p (inr (s, there, tabs, slots, hash)) reads e =
      lookup-set_reads t q h v s (f s) t' there tabs slots hash (reads s) p e

  Written-total :
      (t t' : HashTab V) (q : Bytes) (h : ℕ) (f : Slot V → Slot V)
      → Written t h f t'
      → (x : Option V) × (hash_tab_lookup t q ≡ some x)
      → (x : Option V) × (hash_tab_lookup t' q ≡ some x)
  Written-total t t' q h f (inl same) x = rw (← same) x
  Written-total t t' q h f (inr (s, there, tabs, slots, hash)) x =
      lookup-set_total t q h s (f s) t' there tabs slots hash x

  -- The data that lookups read after an insertion are the new ones or were read before.
  pub insert_reads :
      (t t' : HashTab V) (k q : Bytes) (v : Option V) (st : Status) (p : V)
      → hash_tab_insert t k v ≡ some (st, t')
      → hash_tab_lookup t' q ≡ some (some p)
      → (v ≡ some p) ⊎ (hash_tab_lookup t q ≡ some (some p))
  insert_reads t t' k q v st p e =
      let h = t.hash_func k t.slots in
      Written-reads t t' q h (slot_insert k h v) v p (insert-Written t t' k v st e)
        (λ s. slot-insert_reads k q h v s.key s.key_txt s.item s.next)

  pub insert_total :
      (t t' : HashTab V) (k q : Bytes) (v : Option V) (st : Status)
      → hash_tab_insert t k v ≡ some (st, t')
      → (x : Option V) × (hash_tab_lookup t q ≡ some x)
      → (x : Option V) × (hash_tab_lookup t' q ≡ some x)
  insert_total t t' k q v st e = Written-total t t' q _ _ (insert-Written t t' k v st e)

  -- and so after an update
  pub update_reads :
      (t t' : HashTab V) (k q : Bytes) (v : Option V) (p : V)
      → hash_tab_update t k v ≡ some t'
      → hash_tab_lookup t' q ≡ some (some p)
      → (v ≡ some p) ⊎ (hash_tab_lookup t q ≡ some (some p))
  update_reads t t' k q v p e =
      Written-reads t t' q _ (slot_update k v) v p (update-Written t t' k v e)
        (λ s. slot-update_reads k q v s.key s.key_txt s.item s.next)

  pub update_total :
      (t t' : HashTab V) (k q : Bytes) (v : Option V)
      → hash_tab_update t k v ≡ some t'
      → (x : Option V) × (hash_tab_lookup t q ≡ some x)
      → (x : Option V) × (hash_tab_lookup t' q ≡ some x)
  update_total t t' k q v e = Written-total t t' q _ _ (update-Written t t' k v e)
