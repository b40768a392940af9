-- ===== src/SymTab/Insert.antt =====
-- src/symtab.c: interning. `st_insert` returns the pointer under a name, with a new symbol where
-- there is none.
use milac.HashTab.Full.{IsFull, insert-IsFull, hash_tab_init-IsFull, init-lookup}
use milac.HashTab.Lookup.{
  home, IsAbsent, hash_tab_init-IsValid, slot_of, lookup_eq, lookup_zero, insert-lookup,
}
use milac.HashTab.Lookup
use milac.HashTab.MakeHash.{make_hash, make_hash-lt}
use milac.HashTab.{hash_tab_lookup}
use milac.Prelude.{
  ℕ, zero, suc, ◌⊎◌, ◌<◌, word_mod, ◌≡◌, ◌≢◌, refl, ap, ◌∙◌, List, [], ◌∷◌, ◌++◌, Option, none,
  some, Bool, not, ◌&&◌, inl, inr, Bool-cases, Option-cases, if◌then◌else◌, Bytes, bytes_eq,
  bytes_eq_refl, bytes_eq→eq, ◌==◌, get_elem?, length, get_elem?-append_left, get_elem?-snoc, arith,
}
use milac.SymTab.{SymTab, Symbol, st_init, new_symbol, st_insert, st_lookup}

-- the pointer is allocated, and its symbol has the name
abbrev pub Points : List Symbol → ℕ → Bytes → Type 0
Points heap p k = (s : Symbol) × (get_elem? heap p ≡ some s) × (s.name ≡ k)

pub record IsValid (st : SymTab) : Type 0 where
  pub table : Lookup.IsValid st.tab
  pub full : IsFull st.tab
  pub points : (k : Bytes) (p : ℕ) → hash_tab_lookup st.tab k ≡ some (some p) → Points st.heap p k

pub st_init-IsValid : (left size : ℕ) → 0 < size → size < word_mod → IsValid (st_init left size)
unfolding st_init
st_init-IsValid left size slots fits =
    let valid =
      hash_tab_init-IsValid {V = ℕ} left size make_hash fits (λ k. make_hash-lt k size slots) in
    record {
      table = valid;
      full = hash_tab_init-IsFull left size make_hash;
      points = λ k p found. cc (found, init-lookup left size make_hash k valid);
    }

-- Nothing is lost of the symbols allocated before.
abbrev pub Extends : List Symbol → List Symbol → Type 0
Extends heap heap' = (p : ℕ) (s : Symbol) → get_elem? heap p ≡ some s → get_elem? heap' p ≡ some s

-- A symbol of the second heap is one of the first, or the one at `p`.
abbrev pub AddsOnly : ℕ → List Symbol → List Symbol → Type 0
AddsOnly p heap heap' =
    (q : ℕ) (s : Symbol) → get_elem? heap' q ≡ some s → (get_elem? heap q ≡ some s) ⊎ (q ≡ p)

snoc_cases :
    (heap : List Symbol) (new : Symbol) (q : ℕ) (s : Symbol)
    → get_elem? (heap ++ (new ∷ [])) q ≡ some s
    → (get_elem? heap q ≡ some s) ⊎ (q ≡ length heap)
snoc_cases [] new zero s e = inr refl
snoc_cases [] new (suc q) s e = cc
snoc_cases (x ∷ heap) new zero s e = inl e
snoc_cases (x ∷ heap) new (suc q) s e = elim (snoc_cases heap new q s e) [
  | inl old ↦ inl old
  | inr last ↦ inr (ap suc last)
]

insert_found :
    (st : SymTab) (symb : Bytes) (lineno : ℕ) (has_id : Bool) (p : ℕ)
    → st_lookup st symb ≡ some (some p)
    → st_insert st symb lineno has_id ≡ some (some p, st)
unfolding st_insert st_lookup
insert_found st symb lineno has_id p e = rw (st_insert, e)

-- In a valid table no lookup faults.
lookup_total : (st : SymTab) (k : Bytes) → IsValid st → (r : Option ℕ) × (st_lookup st k ≡ some r)
unfolding st_lookup
lookup_total st k valid =
    let (s, e) = slot_of st.tab valid.table k in (_, lookup_eq st.tab valid.table k e)

module _ (st : SymTab) (valid : IsValid st) (symb : Bytes) (lineno : ℕ) (has_id : Bool) where
  -- A name in the new table is the new one, or was there before.
  Points-fresh :
      (k : Bytes) (r : ℕ) (s : Symbol) {new : Option (Option ℕ)}
      → s.name ≡ symb
      → new ≡ (
          if home st.tab symb == 0
          then hash_tab_lookup st.tab k
          else if bytes_eq symb k
          then some (some (length st.heap))
          else hash_tab_lookup st.tab k)
      → new ≡ some (some r)
      → Points (st.heap ++ (s ∷ [])) r k
  Points-fresh k r s name read e =
      elim (Bool-cases (bytes_eq symb k && not (home st.tab symb == 0))) [
        | inl here ↦
            let last : length st.heap ≡ r = ground arith in
            let same : symb ≡ k = bytes_eq→eq symb k (ground arith) in
            (s, rw (← last) (get_elem?-snoc st.heap s), name ∙ same)
        | inr before ↦
            let (s₀, at, named) = valid.points k r (ground arith) in
            (s₀, get_elem?-append_left st.heap (s ∷ []) r at, named)
      ]

  -- the table and the heap after an insertion of a name that is not there
  insert_fresh :
      st_lookup st symb ≡ some none
      → (st' : SymTab) × (st_insert st symb lineno has_id ≡ some (some (length st.heap), st'))
        × IsValid st'
        × Points st'.heap (length st.heap) symb
        × Extends st.heap st'.heap
        × AddsOnly (length st.heap) st.heap st'.heap
        × ((q : Bytes)
            → st_lookup st' q ≡ (
                if home st.tab symb == 0
                then st_lookup st q
                else if bytes_eq symb q
                then some (some (length st.heap))
                else st_lookup st q))
  unfolding st_insert st_lookup new_symbol
  insert_fresh missing =
      let absent = valid.full symb missing in
      let (p, st₁) = new_symbol st symb lineno has_id in
      let (tab', run, ok, read) = insert-lookup st.tab valid.table symb (some p) absent in
      (
        record st₁ { tab = tab' },
        rw (st_insert, missing, run),
        record {
          table = ok;
          full = insert-IsFull st.tab valid.table valid.full symb p absent tab' run;
          points = λ k r e. Points-fresh k r _ refl (read k) e;
        },
        (_, get_elem?-snoc st.heap _, refl),
        λ r s. get_elem?-append_left st.heap _ r,
        λ r s. snoc_cases st.heap _ r s,
        read,
      )

  -- `st_insert` succeeds, with a pointer to a symbol of the name, and allocates nothing else.
  pub insert_some :
      (p : ℕ) × (st' : SymTab) × (st_insert st symb lineno has_id ≡ some (some p, st'))
      × IsValid st'
      × Points st'.heap p symb
      × Extends st.heap st'.heap
      × AddsOnly p st.heap st'.heap
  insert_some =
      let (r, e) = lookup_total st symb valid in
      elim (Option-cases r) [
        | inl missing ↦
            let (st', run, ok, at, more, only, _) = insert_fresh (e ∙ ap some missing) in
            (length st.heap, st', run, ok, at, more, only)
        | inr (p, found) ↦
            let there : st_lookup st symb ≡ some (some p) = e ∙ ap some found in
            (
              p,
              st,
              insert_found st symb lineno has_id p there,
              valid,
              unfold st_lookup in valid.points symb p there,
              λ r s h. h,
              λ q s h. inl h,
            )
      ]

  -- `st_insert` succeeds, and again with the same pointer and no change; the pointer is to an
  -- allocated symbol of the name, which lookups of the name return. Other lookups and the symbols
  -- allocated before stay, and the invariant holds.
  abbrev pub Interned : Type 0
  Interned =
      (p : ℕ) × (st' : SymTab) × (st_insert st symb lineno has_id ≡ some (some p, st'))
      × ((lineno' : ℕ) (has_id' : Bool) → st_insert st' symb lineno' has_id' ≡ some (some p, st'))
      × IsValid st'
      × Points st'.heap p symb
      × Extends st.heap st'.heap
      × ((q : Bytes)
          → st_lookup st' q ≡ (if bytes_eq symb q then some (some p) else st_lookup st q))

  Interned_new : home st.tab symb ≢ 0 → st_lookup st symb ≡ some none → Interned
  Interned_new nonzero missing =
      let (st', run, ok, at, more, _, read) = insert_fresh missing in
      let known : st_lookup st' symb ≡ some (some (length st.heap)) =
        ground (arith, read symb, bytes_eq_refl symb) in
      (
        length st.heap,
        st',
        run,
        λ l b. insert_found st' symb l b _ known,
        ok,
        at,
        more,
        λ q. ground (arith, read q),
      )

  Interned_old : (p : ℕ) → st_lookup st symb ≡ some (some p) → Interned
  Interned_old p e = (
    p,
    st,
    insert_found st symb lineno has_id p e,
    λ l b. insert_found st symb l b p e,
    valid,
    unfold st_lookup in valid.points symb p e,
    λ r s h. h,
    λ q. ground (arith, bytes_eq→eq symb q),
  )

  -- A name whose hash is not 0 is interned: `st_insert` succeeds, and a second `st_insert` of the name
  -- returns the same pointer and changes nothing. The pointer is to an allocated symbol of that name,
  -- `st_lookup` of the name returns it, lookups of other names and the symbols allocated before stay,
  -- and the invariant holds.
  pub st_insert-Interned : home st.tab symb ≢ 0 → Interned
  st_insert-Interned nonzero =
      let (r, e) = lookup_total st symb valid in
      elim (Option-cases r) [
        | inl missing ↦ Interned_new nonzero (e ∙ ap some missing)
        | inr (p, found) ↦ Interned_old p (e ∙ ap some found)
      ]

  -- A name whose hash is 0 is not: `st_insert` succeeds and keeps the invariant, but all lookups return
  -- what they did before, and the pointer is to a new symbol, also where the name was inserted before.
  pub st_insert_lost :
      home st.tab symb ≡ 0
      → (st' : SymTab) × (st_insert st symb lineno has_id ≡ some (some (length st.heap), st'))
        × IsValid st'
        × ((q : Bytes) → st_lookup st' q ≡ st_lookup st q)
  st_insert_lost at_zero =
      let missing : st_lookup st symb ≡ some none =
        unfold st_lookup in lookup_zero st.tab valid.table symb at_zero in
      let (st', run, ok, _, _, _, read) = insert_fresh missing in
      (st', run, ok, λ q. ground (arith, read q))
