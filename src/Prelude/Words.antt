-- ===== src/Prelude/Words.antt =====
-- An `int32_t` is its bit pattern, a number below 2 ^ 32. Addition, subtraction and multiplication
-- wrap; `signed_lt` compares the numbers that the patterns stand for.
use Prim.Native.Nat.{ℕ, ◌+◌, ◌-◌, ◌*◌, ◌/◌, ◌%◌, ◌<◌}
use mathlib.Core.Bool.{Bool, true, false, ◌&&◌, ◌||◌}
use mathlib.Core.Path.{◌≡◌}
use native.Mathlib.Omega.{arith}
use milac.Prelude.Tests.{◌==◌, ltb, leb, if◌then◌else◌}

abbrev pub word_mod : ℕ
word_mod = 4294967296

abbrev pub IsWord : ℕ → Type 0
IsWord a = a < word_mod

-- -1
abbrev pub minus_one : ℕ
minus_one = 4294967295

unfoldable pub add32 : ℕ → ℕ → ℕ
add32 a b = (a + b) % word_mod

unfoldable pub sub32 : ℕ → ℕ → ℕ
sub32 a b = (a + word_mod - b) % word_mod

unfoldable pub mul32 : ℕ → ℕ → ℕ
mul32 a b = (a * b) % word_mod

-- the sign bit
unfoldable pub is_neg : ℕ → Bool
is_neg a = leb 2147483648 a

unfoldable pub neg32 : ℕ → ℕ
neg32 a = (word_mod - a) % word_mod

unfoldable pub magnitude : ℕ → ℕ
unfolding is_neg neg32
magnitude a = if is_neg a then word_mod - a else a

-- Where C's division of ints is undefined: by 0, and -2 ^ 31 by -1.
abbrev pub div_faults : ℕ → ℕ → Bool
div_faults a b = b == 0 || (a == 2147483648 && b == minus_one)

-- C's division elsewhere, which truncates towards 0
unfoldable pub div32 : ℕ → ℕ → ℕ
unfolding is_neg neg32 magnitude
div32 a b =
    let q = magnitude a / magnitude b in
    if is_neg a
    then (if is_neg b then q % word_mod else neg32 q)
    else (if is_neg b then neg32 q else q)

unfoldable pub signed_lt : ℕ → ℕ → Bool
signed_lt a b = ltb ((a + 2147483648) % word_mod) ((b + 2147483648) % word_mod)

abbrev pub bool32 : Bool → ℕ
bool32 true = 1
bool32 false = 0

pub zero-add32 : (a : ℕ) → IsWord a → add32 0 a ≡ a
unfolding add32
zero-add32 a h = omega arith

pub add32-zero : (a : ℕ) → IsWord a → add32 a 0 ≡ a
unfolding add32
add32-zero a h = omega arith

pub sub32-zero : (a : ℕ) → IsWord a → sub32 a 0 ≡ a
unfolding sub32
sub32-zero a h = omega arith

-- -1 * a is 0 - a
pub minus_one-mul32 : (a : ℕ) → IsWord a → mul32 minus_one a ≡ sub32 0 a
unfolding mul32 sub32
minus_one-mul32 a h = omega arith

pub zero-mul32 : (a : ℕ) → mul32 0 a ≡ 0
unfolding mul32
zero-mul32 a = omega arith

pub mul32-zero : (a : ℕ) → mul32 a 0 ≡ 0
unfolding mul32
mul32-zero a = omega arith

pub one-mul32 : (a : ℕ) → IsWord a → mul32 1 a ≡ a
unfolding mul32
one-mul32 a h = omega arith

pub mul32-one : (a : ℕ) → IsWord a → mul32 a 1 ≡ a
unfolding mul32
mul32-one a h = omega arith

pub two-mul32 : (a : ℕ) → mul32 2 a ≡ add32 a a
unfolding mul32 add32
two-mul32 a = omega arith

pub mul32-two : (a : ℕ) → mul32 a 2 ≡ add32 a a
unfolding mul32 add32
mul32-two a = omega arith

pub div32-one : (a : ℕ) → IsWord a → div32 a 1 ≡ a
unfolding div32
div32-one a h = ground arith

pub add32-IsWord : (a b : ℕ) → IsWord (add32 a b)
unfolding add32
add32-IsWord a b = omega arith

pub sub32-IsWord : (a b : ℕ) → IsWord (sub32 a b)
unfolding sub32
sub32-IsWord a b = omega arith

pub mul32-IsWord : (a b : ℕ) → IsWord (mul32 a b)
unfolding mul32
mul32-IsWord a b = omega arith

pub div32-IsWord : (a b : ℕ) → IsWord a → IsWord (div32 a b)
unfolding div32
div32-IsWord a b h = ground arith
