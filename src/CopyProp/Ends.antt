-- ===== src/CopyProp/Ends.antt =====
-- The loop of `copy_prop` in src/copy_prop.c ends: each round but the last takes an instruction out.
use mathlib.Core.List.{reverse, reverse-append}
use milac.CopyProp.{
  cpp_replace, writes_back, set_result, dead_copy, is_copy, is_live, cpp_loop, remove_marked,
  cpp_bb, cpp_blocks, copy_prop,
}
use milac.Lva.{Bits, Block, Store, store}
use milac.Optimize.UnusedVars.{In}
use milac.Prelude.{
  ℕ, zero, suc, ◌+◌, ◌≤◌, ◌<◌, List, [], ◌∷◌, ◌++◌, ◌≡◌, refl, ap, ◌∙◌, some, Bool, true, false,
  not, ◌==◌, if◌then◌else◌, arith, length, if_both, ◌⊎◌, Bool-cases, inl, inr,
}
use milac.SymTab.{Symbol}
use milac.Tac.{Tac}

-- the instructions that are not marked
unmarked : List Tac → ℕ
unmarked [] = 0
unmarked (i ∷ is) = (if i.bb == 0 then 0 else 1) + unmarked is

unmarked-append : (xs ys : List Tac) → unmarked (xs ++ ys) ≡ unmarked xs + unmarked ys
unfolding unmarked
unmarked-append [] ys = omega arith
unmarked-append (x ∷ xs) ys = omega (arith, unmarked-append xs ys)

unmarked-reverse : (xs : List Tac) → unmarked (reverse xs) ≡ unmarked xs
unfolding unmarked
unmarked-reverse [] = refl
unmarked-reverse (x ∷ xs) =
    ap unmarked (reverse-append (x ∷ []) xs)
    ∙ (unmarked-append (reverse xs) (x ∷ []) ∙ omega (arith, unmarked-reverse xs))

length-remove_marked : (xs : List Tac) → length (remove_marked xs) ≡ unmarked xs
unfolding unmarked remove_marked
length-remove_marked [] = refl
length-remove_marked (x ∷ xs) = ground (arith, length-remove_marked xs)

length-cpp_replace : (r a : ℕ) (xs : List Tac) → length (cpp_replace r a xs) ≡ length xs
unfolding cpp_replace
length-cpp_replace r a [] = refl
length-cpp_replace r a (x ∷ xs) = ground (arith, length-cpp_replace r a xs)

unmarked-set_result : (xs : List Tac) (r : ℕ) → unmarked (set_result xs r) ≡ unmarked xs
unfolding unmarked
unmarked-set_result [] r = refl
unmarked-set_result (x ∷ xs) r = refl

-- 1 where a change is new
abbrev new_change : Bool → Bool → ℕ
new_change true c = 0
new_change false c = if c then 1 else 0

no_change : (b : Bool) → new_change b b ≡ 0
no_change true = refl
no_change false = refl

new_change_le : (b c : Bool) → new_change b c ≤ 1
new_change_le b c = ground arith

unmarked_nil : unmarked [] ≡ 0
unfolding unmarked
unmarked_nil = refl

unmarked_one : (i : Tac) (xs : List Tac) → unmarked (i ∷ xs) ≤ 1 + unmarked xs
unfolding unmarked
unmarked_one i xs = ground arith

unmarked_mark :
    (i : Tac) (xs : List Tac) (r : ℕ)
    → unmarked (record i { bb = 0 } ∷ set_result xs r) ≡ unmarked xs
unfolding unmarked
unmarked_mark i xs r = omega (arith, unmarked-set_result xs r)

module _ (deref : ℕ → Symbol) where
  cpp_loop_le :
      (out : Bits) (n : ℕ) (done is : List Tac) (changed : Bool)
      → let result = cpp_loop deref out n done is changed in
        unmarked result.0 + new_change changed result.1 ≤ unmarked done + length is
  unfolding cpp_loop
  cpp_loop_le out n done [] changed = omega (arith, no_change changed)
  cpp_loop_le out zero done (i ∷ is) changed = omega (arith, no_change changed)
  cpp_loop_le out (suc n) done (i ∷ is) changed =
      let Bound : List Tac × Bool → Type 0 = λ result.
        unmarked result.0 + new_change changed result.1 ≤ unmarked done + suc (length is) in
      let dead =
        cpp_loop_le out n (dead_copy deref out done i ∷ done) (cpp_replace i.r i.a1 is) changed in
      let live = cpp_loop_le out n (record i { bb = 0 } ∷ set_result done i.r) is true in
      let other = cpp_loop_le out n (i ∷ done) is changed in
      let same = length-cpp_replace i.r i.a1 is in
      let dead_one = unmarked_one (dead_copy deref out done i) done in
      let one = unmarked_one i done in
      let mark = unmarked_mark i done i.r in
      let result = cpp_loop deref out n (record i { bb = 0 } ∷ set_result done i.r) is true in
      let few = new_change_le changed result.1 in
      if_both Bound (is_copy deref out i)
        (if_both Bound (not (is_live deref out i)) (omega arith)
          (if_both Bound (writes_back done i.a1) (omega arith) (omega arith)))
        (omega arith)

  cpp_bb_le :
      (b : Block)
      → let result = cpp_bb deref b in
        length result.0.ins + (if result.1 then 1 else 0) ≤ length b.ins
  unfolding cpp_bb
  cpp_bb_le b =
      let d = (cpp_loop deref b.lva.out (length b.ins) [] b.ins false).0 in
      omega (
        arith,
        cpp_loop_le b.lva.out (length b.ins) [] b.ins false,
        length-remove_marked (reverse d),
        unmarked-reverse d,
        unmarked_nil,
      )

-- the instructions of the blocks of a list
unfoldable pub total : List ℕ → Store → ℕ
total [] h = 0
total (p ∷ ps) h = length (h p).ins + total ps h

store_le :
    (h : Store) (p q : ℕ) (b : Block)
    → length b.ins ≤ length (h p).ins
    → length (store h p b q).ins ≤ length (h q).ins
store_le h p q b s = ground (arith, s, λ (e : q ≡ p). ap (λ z. length (h z).ins) e)

total_le :
    (ps : List ℕ) (h : Store) (p : ℕ) (b : Block)
    → length b.ins ≤ length (h p).ins
    → total ps (store h p b) ≤ total ps h
unfolding total
total_le [] h p b s = omega arith
total_le (q ∷ ps) h p b s = omega (arith, store_le h p q b s, total_le ps h p b s)

store_here : (h : Store) (p q : ℕ) (b : Block) → p ≡ q → length (store h p b q).ins ≡ length b.ins
store_here h p q b e = ground (arith, e)

total_lt :
    (ps : List ℕ) (h : Store) (p : ℕ) (b : Block)
    → length b.ins < length (h p).ins
    → In p ps
    → total ps (store h p b) < total ps h
unfolding total
total_lt [] h p b s m = absurd (cc m)
total_lt (q ∷ ps) h p b s (inl e) =
    let here = store_here h p q b e in
    let old : length (h p).ins ≡ length (h q).ins = ap (λ z. length (h z).ins) e in
    omega (arith, here, old, total_le ps h p b (omega arith))
total_lt (q ∷ ps) h p b s (inr m) =
    omega (arith, store_le h p q b (omega arith), total_lt ps h p b s m)

module _ (deref : ℕ → Symbol) where
  -- A round that reports a change has taken an instruction out.
  cpp_blocks_lt :
      (ps all : List ℕ) (h : Store) (changed : Bool)
      → ((p : ℕ) → In p ps → In p all)
      → (total all (cpp_blocks deref ps h changed).0 ≤ total all h)
        × ((cpp_blocks deref ps h changed).1 ≡ true
            → (changed ≡ true) ⊎ (total all (cpp_blocks deref ps h changed).0 < total all h))
  unfolding cpp_blocks
  cpp_blocks_lt [] all h changed within = (omega arith, λ c. inl c)
  cpp_blocks_lt (p ∷ ps) all h changed within =
      let (b, new) = cpp_bb deref (h p) in
      let shorter = cpp_bb_le deref (h p) in
      let here : total all (store h p b) ≤ total all h =
        total_le all h p b (ground (arith, shorter)) in
      let (le, lt) = cpp_blocks_lt ps all (store h p b) new (λ q m. within q (inr m)) in
      (
        omega arith,
        λ c. elim (lt c) [
          | inl e ↦ inr (
              let less = total_lt all h p b (ground (arith, shorter)) (within p (inl refl)) in
              omega arith)
          | inr less ↦ inr (omega arith)
        ],
      )

  -- Copy propagation ends: it takes no more rounds than the blocks have instructions, and one.
  pub copy_prop-ends :
      (fuel : ℕ) (ps : List ℕ) (h : Store)
      → total ps h < fuel
      → (h' : Store) × (copy_prop deref fuel ps h ≡ some h')
  unfolding copy_prop
  copy_prop-ends zero ps h t = absurd (omega arith)
  copy_prop-ends (suc fuel) ps h t =
      let (le, lt) = cpp_blocks_lt ps ps h false (λ p m. m) in
      elim (Bool-cases (cpp_blocks deref ps h false).1) [
        | inl c ↦ elim (lt c) [
          | inl e ↦ absurd (cc e)
          | inr less ↦ rw c (copy_prop-ends fuel ps (cpp_blocks deref ps h false).0 (omega arith))
        ]
        | inr quiet ↦ ((cpp_blocks deref ps h false).0, rw quiet refl)
      ]
