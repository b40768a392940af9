-- ===== src/SymTab/Names.antt =====
-- src/symtab.c: the names that `sprintf` writes for constants, temporaries and labels.
use milac.Prelude.{
  ℕ, zero, suc, ◌+◌, ◌-◌, ◌/◌, ◌%◌, [], ◌∷◌, Bytes, ltb, if◌then◌else◌, word_mod, is_neg,
}

-- the decimal digits of a number in front of a text; ten digits hold a 32-bit number
unfoldable pub digits : ℕ → ℕ → Bytes → Bytes
digits zero n rest = rest
digits (suc fuel) n rest =
    let more = digits fuel (n / 10) ((b'0' + n % 10) ∷ rest) in
    if ltb n 10 then (b'0' + n) ∷ rest else more

-- `%d` of an int32_t
unfoldable pub decimal : ℕ → Bytes
unfolding digits is_neg
decimal w = if is_neg w then b'-' ∷ digits 10 (word_mod - w) [] else digits 10 w []

-- `_t%d`
unfoldable pub temp_name : ℕ → Bytes
unfolding decimal
temp_name n = b'_' ∷ b't' ∷ decimal n

-- `_L%d`
unfoldable pub label_name : ℕ → Bytes
unfolding decimal
label_name n = b'_' ∷ b'L' ∷ decimal n
