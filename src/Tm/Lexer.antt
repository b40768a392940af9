-- ===== src/Tm/Lexer.antt =====
-- src/tm.c: the lexer of the Tiny Machine. Its state is the text of `in_Line` from `inCol` on; `ch` is
-- the first of it, or a blank at its end. Numbers are 32-bit words.
pub mod Decimal
use milac.Prelude.{
  ℕ, zero, suc, ◌+◌, ◌-◌, ◌*◌, ◌%◌, List, [], ◌∷◌, Option, none, some, Bool, true, false, not, ◌&&◌,
  ◌||◌, ◌==◌, leb, ltb, if◌then◌else◌, Bytes, length, word_mod, minus_one, add32, mul32, neg32,
}

abbrev pub is_digit : ℕ → Bool
is_digit c = leb b'0' c && leb c b'9'

abbrev pub is_alnum : ℕ → Bool
is_alnum c = is_digit c || (leb b'a' c && leb c b'z') || (leb b'A' c && leb c b'Z')

-- `(ch == '+') || (ch == '-')`
abbrev pub is_sign : ℕ → Bool
is_sign c = c == b'+' || c == b'-'

-- `nonBlank` returns whether something is left.
unfoldable pub non_blank : Bytes → Bytes
non_blank [] = []
non_blank (c ∷ cs) = let more = non_blank cs in if c == b' ' then more else c ∷ cs

-- the current character passes a test
abbrev pub at : (ℕ → Bool) → Bytes → Bool
at test [] = false
at test (c ∷ cs) = test c

-- the inner loop of `getNum` over signs: `sign`, `temp` and the text
unfoldable pub get_signs : ℕ → Bool → Bytes → ℕ × Bool × Bytes
get_signs sign temp [] = (sign, temp, [])
get_signs sign temp (c ∷ cs) =
    let more =
      get_signs (if c == b'-' then neg32 sign else sign) (if c == b' ' then temp else false) cs in
    if c == b' ' || is_sign c then more else (sign, temp, c ∷ cs)

-- the inner loop over digits: `term`, `temp` and the text
unfoldable pub get_digits : ℕ → Bool → Bytes → ℕ × Bool × Bytes
get_digits term temp [] = (term, temp, [])
get_digits term temp (c ∷ cs) =
    let more = get_digits ((term * 10 + (c - b'0')) % word_mod) true cs in
    if is_digit c then more else (term, temp, c ∷ cs)

-- The outer loop. Every turn but the first begins at a sign, so the length of the text is fuel enough.
unfoldable pub get_terms : ℕ → ℕ → Bool → Bytes → ℕ × Bool × Bytes
unfolding get_signs get_digits non_blank
get_terms zero num temp cs = (num, temp, cs)
get_terms (suc fuel) num temp cs =
    let (sign, temp₁, cs₁) = get_signs 1 temp cs in
    let (term, temp₂, cs₂) = get_digits 0 temp₁ cs₁ in
    let num' = add32 num (mul32 term sign) in
    let cs₃ = non_blank cs₂ in
    let more = get_terms fuel num' temp₂ cs₃ in if at is_sign cs₃ then more else (num', temp₂, cs₃)

-- `num`, what `getNum` returns, and the text after it
unfoldable pub get_num : Bytes → ℕ × Bool × Bytes
unfolding get_terms
get_num cs = get_terms (suc (length cs)) 0 false cs

-- letters and digits; of them at most `room` are kept
unfoldable pub word_chars : ℕ → Bytes → Bytes × Bytes
word_chars room [] = ([], [])
word_chars room (c ∷ cs) =
    let (word, rest) = word_chars (room - 1) cs in
    if is_alnum c then (if room == 0 then word else c ∷ word, rest) else ([], c ∷ cs)

-- `none` where `getWord` returns FALSE
unfoldable pub get_word : Bytes → Option Bytes × Bytes
unfolding word_chars non_blank
get_word cs =
    let (word, rest) = word_chars 19 (non_blank cs) in
    if length word == 0 then (none, rest) else (some word, rest)

unfoldable pub skip_ch : ℕ → Bytes → Bool × Bytes
unfolding non_blank
skip_ch c cs = elim (non_blank cs) [
  | [] ↦ (false, [])
  | d ∷ ds ↦ if d == c then (true, ds) else (false, d ∷ ds)
]

unfoldable pub at_eol : Bytes → Bool
unfolding non_blank
at_eol cs = length (non_blank cs) == 0
