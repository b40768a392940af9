-- ===== src/Bitset/Laws.antt =====
-- The macros of src/bitset.h keep a set of numbers: one is in it from the time it is set until it is
-- cleared.
use Prim.Native.Nat.{bit_and, bit_or}
use milac.Bitset.{bitset, bitclear, bittest, bitnslots, empty_bits}
use milac.Prelude.{
  ℕ, zero, suc, ◌-◌, ◌/◌, ◌%◌, ◌^◌, ◌<◌, ◌≡◌, ◌≢◌, refl, sym, ap, ◌∙◌, List, some, Bool, true,
  false, not, ◌&&◌, ◌||◌, ◌==◌, ltb, Bool-cases, inl, inr, ==_iff, get_elem?, set, replicate,
  length, arith, if◌then◌else◌, get_elem?-set_self, get_elem?-set_ne, get_elem?-lt,
  get_elem?-replicate, set_all, get_elem?-some, length-set,
}

-- every byte of the array is a byte
abbrev pub AreBytes : List ℕ → Type 0
AreBytes a = (i x : ℕ) → get_elem? a i ≡ some x → x < 256

-- a test that holds of the numbers from 0 to n - 1
each_of : (ℕ → Bool) → ℕ → Bool
each_of test zero = true
each_of test (suc n) = each_of test n && test n

each_of_at : (test : ℕ → Bool) (n : ℕ) {k : ℕ} → k < n → each_of test n ≡ true → test k ≡ true
unfolding each_of
each_of_at test zero {k} small passed = absurd (omega arith)
each_of_at test (suc n) {k} small passed = elim (Bool-cases (k == n)) [
  | inl e ↦ ap test ((==_iff k n).0 e) ∙ ground arith
  | inr e ↦ each_of_at test n (ground arith) (ground arith)
]

-- what a bit of a byte is after a bit is set or cleared
abbrev same_bit : Bool → Bool → Bool
same_bit true b = b
same_bit false b = not b

abbrev bit_of : ℕ → ℕ → Bool
bit_of x j = not (bit_and x (2 ^ j) == 0)

abbrev set_right : ℕ → ℕ → ℕ → Bool
set_right x i j =
    same_bit (bit_of (bit_or x (2 ^ i)) j) (i == j || bit_of x j)
    && same_bit (bit_of (bit_and x (255 - 2 ^ i)) j) (not (i == j) && bit_of x j)
    && ltb (bit_or x (2 ^ i)) 256
    && ltb (bit_and x (255 - 2 ^ i)) 256

table : each_of (λ x. each_of (λ i. each_of (set_right x i) 8) 8) 256 ≡ true
unfolding each_of
table = refl

same_bit-eq : (a b : Bool) → same_bit a b ≡ true → a ≡ b
same_bit-eq true b h = sym h
same_bit-eq false true h = h
same_bit-eq false false h = refl

four :
    (a b c d : Bool) → (a && b && c && d) ≡ true → (a ≡ true) × (b ≡ true) × (c ≡ true) × (d ≡ true)
four a b c d h = ground arith

-- the bits of a byte after a change of its bit `i`
byte_bits :
    (x i j : ℕ)
    → x < 256
    → i < 8
    → j < 8
    → (bit_of (bit_or x (2 ^ i)) j ≡ (i == j || bit_of x j))
      × (bit_of (bit_and x (255 - 2 ^ i)) j ≡ (not (i == j) && bit_of x j))
      × (bit_or x (2 ^ i) < 256)
      × (bit_and x (255 - 2 ^ i) < 256)
byte_bits x i j hx hi hj =
    let row = each_of_at (λ y. each_of (λ k. each_of (set_right y k) 8) 8) 256 hx table in
    let cell = each_of_at (λ k. each_of (set_right x k) 8) 8 hi row in
    let here = each_of_at (set_right x i) 8 hj cell in
    let (a, b, c, d) = four _ _ _ _ here in
    (same_bit-eq _ _ a, same_bit-eq _ _ b, ground arith, ground arith)

bittest_byte :
    (a : List ℕ) (b : ℕ) {x : ℕ}
    → get_elem? a (b / 8) ≡ some x
    → bittest a b ≡ some (bit_of x (b % 8))
unfolding bittest
bittest_byte a b e = ground (arith, e)

bittest_congr :
    (a a' : List ℕ) (b : ℕ)
    → get_elem? a (b / 8) ≡ get_elem? a' (b / 8)
    → bittest a b ≡ bittest a' b
unfolding bittest
bittest_congr a a' b e = ground (arith, e)

bitset_byte :
    (a : List ℕ) (b : ℕ) {x : ℕ}
    → get_elem? a (b / 8) ≡ some x
    → bitset a b ≡ some (set a (b / 8) (bit_or x (2 ^ (b % 8))))
unfolding bitset
bitset_byte a b e = ground (arith, e)

bitclear_byte :
    (a : List ℕ) (b : ℕ) {x : ℕ}
    → get_elem? a (b / 8) ≡ some x
    → bitclear a b ≡ some (set a (b / 8) (bit_and x (255 - 2 ^ (b % 8))))
unfolding bitclear
bitclear_byte a b e = ground (arith, e)

-- A byte of the array is replaced by one that differs in the bit `b` only.
module _ (a : List ℕ) (b y : ℕ) (v : Bool) where
  abbrev Changed : ℕ → Type 0
  Changed x = (y < 256) × ((j : ℕ) → j < 8 → bit_of y j ≡ (if b % 8 == j then v else bit_of x j))

  bittest-set :
      {x : ℕ}
      → get_elem? a (b / 8) ≡ some x
      → Changed x
      → (c : ℕ) → bittest (set a (b / 8) y) c ≡ (if c == b then some v else bittest a c)
  unfolding bittest
  bittest-set {x} at_b (small, bits) c = elim (Bool-cases (c / 8 == b / 8)) [
    | inl e ↦
        let slot : c / 8 ≡ b / 8 = (==_iff _ _).0 e in
        let new = get_elem?-set_self a (b / 8) y (get_elem?-lt a (b / 8) at_b) in
        let bit = bits (c % 8) (omega arith) in
        let test : (b % 8 == c % 8) ≡ (c == b) = ground arith in
        let at_c : get_elem? a (c / 8) ≡ some x = rw slot at_b in
        let new_c : get_elem? (set a (b / 8) y) (c / 8) ≡ some y = rw slot new in
        bittest_byte (set a (b / 8) y) c new_c
        ∙ (ap some (bit ∙ ap (λ t. if t then v else bit_of x (c % 8)) test)
            ∙ (by_test (c == b) (bit_of x (c % 8))
                ∙ ap (λ o. if c == b then some v else o) (sym (bittest_byte a c at_c))))
    | inr e ↦
        let slot : b / 8 ≢ c / 8 = ground arith in
        let other : (c == b) ≡ false = ground arith in
        bittest_congr (set a (b / 8) y) a c (get_elem?-set_ne a y slot)
        ∙ ap (λ t. if t then some v else bittest a c) (sym other)
  ]
    where
      by_test : (t z : Bool) → some (if t then v else z) ≡ (if t then some v else some z)
      by_test true z = refl
      by_test false z = refl

-- Setting and clearing a bit inside the array succeeds, keeps the array's length and its bytes, and
-- changes the answer for that bit only.
pub bitset-bittest :
    (a : List ℕ) (b : ℕ)
    → AreBytes a
    → b / 8 < length a
    → (set_ : List ℕ) × (cleared : List ℕ) × (bitset a b ≡ some set_)
      × (bitclear a b ≡ some cleared)
      × (length set_ ≡ length a)
      × (length cleared ≡ length a)
      × AreBytes set_
      × AreBytes cleared
      × ((c : ℕ) → bittest set_ c ≡ (if c == b then some true else bittest a c))
      × ((c : ℕ) → bittest cleared c ≡ (if c == b then some false else bittest a c))
bitset-bittest a b bytes h =
    let (x, at_b) = get_elem?-some a (b / 8) h in
    let byte = bytes (b / 8) x at_b in
    let i = b % 8 in
    let y = bit_or x (2 ^ i) in
    let z = bit_and x (255 - 2 ^ i) in
    let small = byte_bits x i i byte (omega arith) (omega arith) in
    (
      set a (b / 8) y,
      set a (b / 8) z,
      bitset_byte a b at_b,
      bitclear_byte a b at_b,
      length-set a (b / 8) y,
      length-set a (b / 8) z,
      set_all (λ k v. v < 256) a (b / 8) y small.2 bytes,
      set_all (λ k v. v < 256) a (b / 8) z small.3 bytes,
      bittest-set a b y true at_b
          (small.2, λ j hj. ground (arith, byte_bits x i j byte (omega arith) hj)),
      bittest-set a b z false at_b
          (small.3, λ j hj. ground (arith, byte_bits x i j byte (omega arith) hj)),
    )

b_mod : (b : ℕ) → b % 8 < 8
b_mod b = omega arith

zero_table : each_of (λ k. not (bit_of 0 k)) 8 ≡ true
unfolding each_of
zero_table = refl

slot_lt : (nb b : ℕ) → b < nb → b / 8 < bitnslots nb
unfolding bitnslots
slot_lt nb b h = omega arith

-- A new bit set has a place for each of its numbers and holds none of them.
pub empty_bits-bittest : (nb b : ℕ) → b < nb → bittest (empty_bits nb) b ≡ some false
unfolding empty_bits
empty_bits-bittest nb b h =
    let j = b % 8 in
    let clear = each_of_at (λ k. not (bit_of 0 k)) 8 (b_mod b) zero_table in
    bittest_byte (replicate (bitnslots nb) 0) b
      (get_elem?-replicate (bitnslots nb) (b / 8) 0 (slot_lt nb b h))
    ∙ ground arith
