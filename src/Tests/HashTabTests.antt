-- ===== src/Tests/HashTabTests.antt =====
-- src/hashtab.c and src/symtab.c at small tables under the default hash function.
use mathlib.Core.Option.{some-injective}
use milac.HashTab.Chain.{occurs}
use milac.HashTab.Lookup.{
  IsValid, IsAbsent, home, hash_tab_init-IsValid, insert-lookup, inserted, inserted-lookup,
  slot_occurs,
}
use milac.HashTab.MakeHash.{make_hash, make_hash-lt}
use milac.HashTab.Remove.{remove-lookup}
use milac.HashTab.Update.{update-lookup}
use milac.HashTab.{
  Slot, HashTab, hash_ok, empty_slot, hash_tab_init, hash_tab_insert, hash_tab_lookup,
  hash_tab_remove, hash_tab_update, slot_lookup, slot_insert,
}
use milac.Prelude.{
  ℕ, ◌≡◌, ◌≢◌, refl, sym, subst, ◌∙◌, [], ◌∷◌, Option, none, some, true, not, ◌&&◌, Bytes, bytes_eq,
  ◌==◌, if◌then◌else◌, get_elem?, length, arith,
}
use milac.SymTab.Insert.{st_init-IsValid, st_insert-Interned, st_insert_lost, Interned}
use milac.SymTab.Insert
use milac.SymTab.{SymTab, st_init, st_insert, st_lookup}

abbrev alpha : Bytes
alpha = b'a' ∷ b'l' ∷ b'p' ∷ b'h' ∷ b'a' ∷ []

abbrev beta : Bytes
beta = b'b' ∷ []

abbrev lost : Bytes
lost = b't' ∷ b'b' ∷ b'd' ∷ []

abbrev empty : HashTab ℕ
empty = hash_tab_init 0 3 make_hash

empty-IsValid : IsValid empty
empty-IsValid =
    hash_tab_init-IsValid 0 3 make_hash (omega arith) (λ k. make_hash-lt k 3 (omega arith))

-- in the slot of `alpha`
abbrev other : Bytes
other = b'e' ∷ []

empty_at : get_elem? empty.tab (home empty alpha) ≡ some empty_slot
unfolding hash_tab_init make_hash
empty_at = refl

-- A key is absent where the one slot that it could be in does not have it.
IsAbsent-from :
    (t : HashTab ℕ) (k : Bytes) (s : Slot ℕ)
    → get_elem? t.tab (home t k) ≡ some s
    → slot_occurs k s ≡ 0
    → IsAbsent t k
IsAbsent-from t k s e none_there s' e' =
    subst (λ z. slot_occurs k z ≡ 0) (some-injective _ _ (sym e ∙ e')) none_there

lost-IsAbsent : IsAbsent empty lost
unfolding hash_tab_init make_hash slot_occurs
lost-IsAbsent = IsAbsent-from empty lost empty_slot refl refl

insert-lookup_example :
    (t' : HashTab ℕ) × (hash_tab_insert empty lost (some 5) ≡ some (hash_ok, t'))
    × IsValid t'
    × ((q : Bytes)
        → hash_tab_lookup t' q ≡ (
            if home empty lost == 0
            then hash_tab_lookup empty q
            else if bytes_eq lost q
            then some (some 5)
            else hash_tab_lookup empty q))
insert-lookup_example = insert-lookup empty empty-IsValid lost (some 5) lost-IsAbsent

-- `alpha` in the array, `other` in the chain behind it
abbrev one : HashTab ℕ
one = inserted empty empty-IsValid alpha (some 10) empty_slot

one-IsValid : IsValid one
unfolding hash_tab_init make_hash slot_occurs
one-IsValid =
    (inserted-lookup empty empty-IsValid alpha (some 10) refl
      (IsAbsent-from empty alpha empty_slot refl refl)).0

abbrev alpha_slot : Slot ℕ
alpha_slot = record { key = 2; key_txt = some alpha; item = some 10; next = [] }

abbrev two : HashTab ℕ
two = inserted one one-IsValid other (some 20) alpha_slot

two-IsValid : IsValid two
unfolding hash_tab_init make_hash slot_occurs slot_insert occurs bytes_eq
two-IsValid =
    (inserted-lookup one one-IsValid other (some 20) {s = alpha_slot} refl
      (IsAbsent-from one other alpha_slot refl refl)).0

abbrev full_slot : Slot ℕ
full_slot = record {
  key = 2;
  key_txt = some alpha;
  item = some 10;
  next = record { txt = other; item = some 20 } ∷ [];
}

full_slot_at : (k : Bytes) → make_hash k 3 ≡ 2 → get_elem? two.tab (home two k) ≡ some full_slot
unfolding hash_tab_init make_hash slot_insert
full_slot_at k e = rw e

other_at : make_hash other 3 ≡ 2
unfolding make_hash
other_at = refl

alpha_at : make_hash alpha 3 ≡ 2
unfolding make_hash
alpha_at = refl

remove-lookup_example :
    (v : Option ℕ) × (t' : HashTab ℕ) × (hash_tab_remove two other ≡ some (v, t'))
    × IsValid t'
    × ((q : Bytes)
        → hash_tab_lookup t' q ≡ (if bytes_eq other q then some none else hash_tab_lookup two q))
    × (v ≡ (
        if bytes_eq alpha other && not (length full_slot.next == 0)
        then none
        else slot_lookup other full_slot))
remove-lookup_example =
    remove-lookup two two-IsValid other full_slot alpha (full_slot_at other other_at) refl

update-lookup_example :
    (t' : HashTab ℕ) × (hash_tab_update two other (some 21) ≡ some t')
    × IsValid t'
    × ((q : Bytes)
        → hash_tab_lookup t' q ≡ (
            if bytes_eq other q && not (slot_occurs other full_slot == 0)
            then some (some 21)
            else hash_tab_lookup two q))
update-lookup_example =
    update-lookup two two-IsValid other (some 21) full_slot alpha (full_slot_at other other_at) refl

abbrev symbols : SymTab
symbols = st_init 0 4086

symbols-IsValid : Insert.IsValid symbols
symbols-IsValid = st_init-IsValid 0 4086 (omega arith) (omega arith)

alpha_nonzero : home symbols.tab alpha ≢ 0
unfolding st_init hash_tab_init make_hash
alpha_nonzero e = absurd (omega arith)

st_insert-Interned_example : Interned symbols symbols-IsValid alpha 7 true
st_insert-Interned_example = st_insert-Interned symbols symbols-IsValid alpha 7 true alpha_nonzero

lost_zero : home symbols.tab lost ≡ 0
unfolding st_init hash_tab_init make_hash
lost_zero = refl

st_insert_lost_example :
    (st' : SymTab) × (st_insert symbols lost 7 true ≡ some (some (length symbols.heap), st'))
    × Insert.IsValid st'
    × ((q : Bytes) → st_lookup st' q ≡ st_lookup symbols q)
st_insert_lost_example = st_insert_lost symbols symbols-IsValid lost 7 true lost_zero
