-- ===== src/Bitset.antt =====
-- src/bitset.h: the macros on a `char` array, which is the list of its bytes. CHAR_BIT is 8.
pub mod Laws
use Prim.Native.Nat.{bit_and, bit_or}
use milac.Prelude.{
  ℕ, ◌+◌, ◌-◌, ◌/◌, ◌%◌, ◌^◌, List, Option, none, some, Bool, not, ◌==◌, get_elem?, set, replicate,
}

-- `1 << (b % CHAR_BIT)`
unfoldable pub bitmask : ℕ → ℕ
bitmask b = 2 ^ (b % 8)

unfoldable pub bitslot : ℕ → ℕ
bitslot b = b / 8

unfoldable pub bitnslots : ℕ → ℕ
bitnslots nb = (nb + 8 - 1) / 8

-- `calloc(1, BITNSLOTS(nb))`
unfoldable pub empty_bits : ℕ → List ℕ
unfolding bitnslots
empty_bits nb = replicate (bitnslots nb) 0

-- `none` is a place outside the array.
unfoldable pub bitset : List ℕ → ℕ → Option (List ℕ)
unfolding bitmask bitslot
bitset a b = elim (get_elem? a (bitslot b)) [
  | none ↦ none
  | some x ↦ some (set a (bitslot b) (bit_or x (bitmask b)))
]

-- `a & ~mask` on a byte
unfoldable pub bitclear : List ℕ → ℕ → Option (List ℕ)
unfolding bitmask bitslot
bitclear a b = elim (get_elem? a (bitslot b)) [
  | none ↦ none
  | some x ↦ some (set a (bitslot b) (bit_and x (255 - bitmask b)))
]

unfoldable pub bittest : List ℕ → ℕ → Option Bool
unfolding bitmask bitslot
bittest a b = elim (get_elem? a (bitslot b)) [
  | none ↦ none
  | some x ↦ some (not (bit_and x (bitmask b) == 0))
]
