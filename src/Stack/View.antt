-- ===== src/Stack/View.antt =====
-- src/stack.c against a list with its top in front.
use milac.Prelude.{
  ℕ, zero, suc, ◌+◌, ◌-◌, ◌*◌, ◌%◌, ◌≤◌, ◌<◌, ◌≡◌, refl, ap, ◌∙◌, inl, inr, List, [], ◌∷◌, Option,
  some, true, false, get_elem?, ltb, set, length, length-replicate, length-set, get_elem?-set_self,
  get_elem?-set_ne, ◌==◌, ==_iff, Bool-cases, if◌then◌else◌, word_mod, arith, ◌⊎◌,
}
use native.Mathlib.Numerals.{add-one}
use milac.Stack.{
  Stack, cell, stack_init, stack_peek, stack_size, stack_not_empty, store, stack_push, stack_pop,
}

pub record IsValid (st : Stack) : Type 0 where
  pub width : length st.stack ≡ st.size
  pub room : st.cursize < st.size
  pub least : 10 ≤ st.size
  pub fits : st.size < word_mod

-- the first `n` cells, the last of them in front
abbrev pub items : ℕ → List ℕ → List ℕ
items zero cells = []
items (suc n) cells = cell cells n ∷ items n cells

abbrev pub view : Stack → List ℕ
view st = items st.cursize st.stack

-- What C documents of `realloc` where it succeeds: the block has the new size and keeps its cells.
abbrev pub Reallocates : (List ℕ → ℕ → Option (List ℕ)) → Type 0
Reallocates realloc =
    (cells : List ℕ) (n : ℕ)
    → length cells ≤ n
    → (moved : List ℕ) × (realloc cells n ≡ some moved)
      × (length moved ≡ n)
      × ((i : ℕ) → i < length cells → get_elem? moved i ≡ get_elem? cells i)

-- the view at length `n` reads the cells below `n` only
items_congr :
    (n : ℕ) (xs ys : List ℕ)
    → ((i : ℕ) → i < n → get_elem? xs i ≡ get_elem? ys i)
    → items n xs ≡ items n ys
items_congr zero xs ys h = refl
items_congr (suc n) xs ys h =
    ground (arith, h n (omega arith), items_congr n xs ys (λ i p. h i (omega arith)))

module _ (st : Stack) (valid : IsValid st) where
  store-view :
      (p : ℕ)
      → (st.cursize + 1 < st.size)
      → ((store st p).0 ≡ p) × IsValid (store st p).1 × (view (store st p).1 ≡ p ∷ view st)
  unfolding store
  store-view p h =
      let here = get_elem?-set_self st.stack st.cursize p (omega arith) in
      (
        ground arith,
        record {
          width = length-set st.stack st.cursize p ∙ valid.width;
          room = h;
          least = valid.least;
          fits = valid.fits;
        },
        rw add-one (
            ground (
              arith,
              here,
              items_congr st.cursize (set st.stack st.cursize p) st.stack
                  (λ i q. get_elem?-set_ne st.stack p (omega arith)),
            )),
      )

items_realloc :
    (st : Stack) (moved : List ℕ)
    → st.cursize < length st.stack
    → ((i : ℕ) → i < length st.stack → get_elem? moved i ≡ get_elem? st.stack i)
    → items st.cursize moved ≡ view st
items_realloc st moved h keep = items_congr st.cursize moved st.stack (λ i q. keep i (omega arith))

-- what a push is to do; where the block has to grow, its size doubles
abbrev Pushed : Stack → ℕ → ℕ × Stack → Type 0
Pushed st p r =
    (r.0 ≡ p)
    × IsValid r.1
    × (view r.1 ≡ p ∷ view st)
    × ((r.1.size ≡ st.size) ⊎ ((r.1.size ≡ st.size * 2) × (st.size ≡ st.cursize + 1)))

module _ (realloc : List ℕ → ℕ → Option (List ℕ)) (law : Reallocates realloc) where
  push_grow :
      (st : Stack) (p : ℕ) {moved : List ℕ}
      → st.size < word_mod
      → st.size * 2 < word_mod
      → st.size ≡ st.cursize + 1
      → realloc st.stack (st.size * 2) ≡ some moved
      → stack_push realloc st p ≡ store (record st { size = st.size * 2; stack = moved }) p
  unfolding stack_push
  push_grow st p small fits full run =
      let test : (st.cursize == (st.size + word_mod - 1) % word_mod) ≡ true = ground arith in
      let twice : st.size * 2 % word_mod ≡ st.size * 2 = omega arith in
      rw (test, twice, run) (rw twice)

  push_stay :
      (st : Stack) (p : ℕ)
      → st.size < word_mod
      → st.cursize + 1 < st.size
      → stack_push realloc st p ≡ store st p
  unfolding stack_push
  push_stay st p small room =
      let test : (st.cursize == (st.size + word_mod - 1) % word_mod) ≡ false = ground arith in
      rw test

  pub push-view :
      (st : Stack) (p : ℕ)
      → IsValid st
      → st.size * 2 < word_mod
      → Pushed st p (stack_push realloc st p)
  unfolding store
  push-view st p valid fits = elim (Bool-cases (st.size == st.cursize + 1)) [
    | inl test ↦
        let full : st.size ≡ st.cursize + 1 = (==_iff _ _).0 test in
        let (moved, run, width, keep) = law st.stack (st.size * 2) (omega (arith, valid.width)) in
        let grown : Stack = record st { size = st.size * 2; stack = moved } in
        let grown_valid : IsValid grown = record {
          width = width;
          room = omega arith;
          least = omega arith;
          fits = fits;
        } in
        let (a, b, c) = store-view grown grown_valid p (omega arith) in
        let same = items_realloc st moved (omega arith) keep in
        rw (push_grow st p (omega arith) fits full run) (a, b, rw same at c, inr (refl, full))
    | inr test ↦
        let room : st.cursize + 1 < st.size = ground arith in
        let (a, b, c) = store-view st valid p room in
        rw (push_stay st p valid.fits room) (a, b, c, inl refl)
  ]

-- what a pop returns and leaves, as one list
abbrev popped : List ℕ → List ℕ
popped [] = 0 ∷ []
popped (x ∷ xs) = x ∷ xs

pop_eq :
    (n : ℕ) (st : Stack)
    → st.cursize ≡ suc n
    → stack_pop st ≡ (cell st.stack n, record st { cursize = n; stack = set st.stack n 0 })
unfolding stack_pop
pop_eq n st e =
    let test : (st.cursize == 0) ≡ false = ground arith in
    let top : st.cursize - 1 ≡ n = omega arith in simp (test, top)

pop_empty : (st : Stack) → st.cursize ≡ 0 → stack_pop st ≡ (0, st)
unfolding stack_pop
pop_empty st e = let test : (st.cursize == 0) ≡ true = ground arith in rw test

pop_top :
    (n : ℕ) (st : Stack)
    → st.cursize ≡ suc n
    → IsValid st
    → let r = stack_pop st in IsValid r.1 × (r.1.size ≡ st.size) × (r.0 ∷ view r.1 ≡ view st)
pop_top n st e valid = rw (pop_eq n st e) (
  record {
    width = length-set st.stack n 0 ∙ valid.width;
    room = omega arith;
    least = valid.least;
    fits = valid.fits;
  },
  refl,
  simp e (
      ap (◌∷◌ (cell st.stack n)) (
        items_congr n (set st.stack n 0) st.stack
          (λ i q. get_elem?-set_ne st.stack 0 (omega arith)))),
)

-- Every operation but the destructor.
pub data Op : Type 0 where
  push : ℕ → Op
  pop peek size not_empty : Op

-- An operation's answer and the state that it leaves; `stack_not_empty` returns the item count.
unfoldable pub step : (List ℕ → ℕ → Option (List ℕ)) → Stack → Op → ℕ × Stack
step realloc st (push p) = stack_push realloc st p
step realloc st pop = stack_pop st
step realloc st peek = (stack_peek st, st)
step realloc st size = (stack_size st, st)
step realloc st not_empty = (if stack_not_empty st then 1 else 0, st)

-- The same on a list with its top in front.
unfoldable pub spec : List ℕ → Op → ℕ × List ℕ
spec xs (push p) = (p, p ∷ xs)
spec [] pop = (0, [])
spec (x ∷ xs) pop = (x, xs)
spec [] peek = (0, [])
spec (x ∷ xs) peek = (x, x ∷ xs)
spec xs size = (length xs, xs)
spec [] not_empty = (0, [])
spec (x ∷ xs) not_empty = (1, x ∷ xs)

unfoldable pub run {ℓ} : {S : Type ℓ} → (S → Op → ℕ × S) → S → List Op → List ℕ
run f s [] = []
run f s (o ∷ os) = (f s o).0 ∷ run f (f s o).1 os

length-items : (n : ℕ) (cells : List ℕ) → length (items n cells) ≡ n
length-items zero cells = refl
length-items (suc n) cells = ap suc (length-items n cells)

-- One operation answers as the list does, and keeps the invariant; the block doubles only when full.
abbrev Agrees : Stack → (ℕ × Stack) → ℕ × List ℕ → Type 0
Agrees st r q =
    (r.0 ≡ q.0)
    × (view r.1 ≡ q.1)
    × IsValid r.1
    × ((r.1.size ≡ st.size) ⊎ ((r.1.size ≡ st.size * 2) × (st.size ≡ st.cursize + 1)))
    × (r.1.cursize ≤ st.cursize + 1)

-- An operation that changes nothing.
keep-Agrees :
    (st : Stack) {a b : ℕ} {xs : List ℕ}
    → IsValid st
    → a ≡ b
    → view st ≡ xs
    → Agrees st (a, st) (b, xs)
keep-Agrees st valid h k = (h, k, valid, inl refl, omega arith)

module _ (realloc : List ℕ → ℕ → Option (List ℕ)) (law : Reallocates realloc) where
  step-view :
      (st : Stack) (o : Op) (n : ℕ)
      → st.cursize ≡ n
      → IsValid st
      → st.size * 2 < word_mod
      → Agrees st (step realloc st o) (spec (items n st.stack) o)
  unfolding step spec
  step-view st (push p) n e valid fits =
      let (a, b, c, d) = push-view realloc law st p valid fits in
      let r = (stack_push realloc st p).1 in
      let count : r.cursize ≤ st.cursize + 1 =
        omega
          (arith, ap length c, length-items r.cursize r.stack, length-items st.cursize st.stack) in
      rw (← e) (a, c, b, d, count)
  step-view st pop zero e valid fits = rw (pop_empty st e) (keep-Agrees st valid refl (simp e))
  step-view st pop (suc n) e valid fits =
      let (a, b, c) = pop_top n st e valid in
      let split : view st ≡ cell st.stack n ∷ items n st.stack = simp e in
      let both : (stack_pop st).0 ∷ view (stack_pop st).1 ≡ cell st.stack n ∷ items n st.stack =
        c ∙ split in
      (cc both, cc both, a, inl b, rw (pop_eq n st e) (omega arith))
  step-view st peek zero e valid fits =
      keep-Agrees st valid (unfold stack_peek in ground arith) (simp e)
  step-view st peek (suc n) e valid fits =
      let top : st.cursize - 1 ≡ n = omega arith in
      let test : (st.cursize == 0) ≡ false = ground arith in
      keep-Agrees st valid (unfold stack_peek in simp (test, top)) (simp e)
  step-view st size n e valid fits =
      keep-Agrees st valid (unfold stack_size in omega (arith, length-items n st.stack)) (simp e)
  step-view st not_empty zero e valid fits =
      keep-Agrees st valid (unfold stack_not_empty in ground arith) (simp e)
  step-view st not_empty (suc n) e valid fits =
      keep-Agrees st valid (unfold stack_not_empty in ground arith) (simp e)

  -- By induction on the operations. `bound` is above every item count on the way.
  run-view :
      (os : List Op) (st : Stack) (bound : ℕ)
      → IsValid st
      → st.size ≤ bound * 2
      → st.cursize + length os ≤ bound
      → bound * 4 < word_mod
      → run (step realloc) st os ≡ run spec (view st) os
  unfolding run
  run-view [] st bound valid small few fits = refl
  run-view (o ∷ os) st bound valid small few fits =
      let (a, b, c, d, e) = step-view st o st.cursize refl valid (omega arith) in
      let rest = run-view os (step realloc st o).1 bound c (ground arith) (omega arith) fits in
      cc (a, b, rest)

-- A new stack of `init_size` cells answers any sequence of operations as a list does that starts
-- empty, if four times the sum of `init_size`, the number of operations and 10 is below 2 ^ 32, and
-- `realloc` gives memory and keeps the cells.
pub run-stack_init :
    (realloc : List ℕ → ℕ → Option (List ℕ)) (init_size : ℕ) (os : List Op)
    → Reallocates realloc
    → (init_size + length os + 10) * 4 < word_mod
    → run (step realloc) (stack_init init_size) os ≡ run spec [] os
unfolding stack_init
run-stack_init realloc init_size os law fits =
    let size = if ltb init_size 10 then 10 else init_size in
    run-view realloc law os (stack_init init_size) (init_size + length os + 10)
      (record {
        width = length-replicate size 0;
        room = ground arith;
        least = ground arith;
        fits = ground arith;
      })
      (ground arith) (omega arith) fits
