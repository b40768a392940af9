-- ===== src/HashTab/MakeHash.antt =====
-- src/hashtab.c: the default hash function, on `unsigned long` of 64 bits.
use Prim.Native.Nat.{bit_and, bit_or, bit_xor}
use milac.Prelude.{ℕ, ◌+◌, ◌*◌, ◌/◌, ◌%◌, ◌<◌, List, [], ◌∷◌, none, some, get_elem?, Bytes, arith}

abbrev randbox : List ℕ
randbox =
    0x49848f1b ∷ 0xe6255dba ∷ 0x36da5bdc ∷ 0x47bf94e9 ∷ 0x8cbcce22 ∷ 0x559fc06a ∷ 0xd268f536
    ∷ 0xe10af79a ∷ 0xc1af4d69 ∷ 0x1d2917b5 ∷ 0xec4c304d ∷ 0x9ee5016c ∷ 0x69232f74 ∷ 0xfead7bb3
    ∷ 0xe9089ab6 ∷ 0xf012f6ae ∷ []

abbrev ulong_mod : ℕ
ulong_mod = 18446744073709551616

random : ℕ → ℕ
random i = elim (get_elem? randbox (bit_and i 0xf)) [ none ↦ 0 | some r ↦ r ]

-- One turn of the loop: two mixing steps and two rotations, each cut to 32 bits.
mix : ℕ → ℕ → ℕ
unfolding random
mix acc c =
    let a = bit_xor acc (random ((c + acc) % ulong_mod)) in
    let b = bit_and (bit_or (a * 2 % ulong_mod) (a / 2147483648)) 0xffffffff in
    let d = bit_xor b (random ((c / 16 + b) % ulong_mod)) in
    bit_and (bit_or (d * 4 % ulong_mod) (d / 1073741824)) 0xffffffff

accumulate : ℕ → Bytes → ℕ
unfolding mix
accumulate acc [] = acc
accumulate acc (c ∷ s) = accumulate (mix acc c) s

unfoldable pub make_hash : Bytes → ℕ → ℕ
unfolding accumulate
make_hash s slots = accumulate 0 s % slots % 4294967296

-- The default hash of a key is an index of the table.
pub make_hash-lt : (s : Bytes) (slots : ℕ) → 0 < slots → make_hash s slots < slots
unfolding make_hash
make_hash-lt s slots h = omega arith
