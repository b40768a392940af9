-- ===== src/Tm/Lexer/Decimal.antt =====
-- src/tm.c: `getNum` reads back what `%d` prints.
use milac.Prelude.{
  ℕ, zero, suc, ◌+◌, ◌-◌, ◌*◌, ◌%◌, ◌/◌, ◌≤◌, ◌==◌, ◌<◌, ◌≡◌, refl, sym, [], ◌∷◌, Bool, true, false,
  inl, inr, ltb, Bool-cases, if◌then◌else◌, word_mod, IsWord, is_neg, neg32, mul32, add32, Bytes,
  ◌∙◌, ap, arith, length,
}
use milac.SymTab.Names.{digits, decimal}
use milac.Tm.Lexer.{is_digit, get_signs, get_digits, get_terms, get_num}

-- a digit is read as its value
get_digits-cons :
    (term d : ℕ) (temp : Bool) (rest : Bytes)
    → d < 10
    → get_digits term temp ((b'0' + d) ∷ rest) ≡ get_digits ((term * 10 + d) % word_mod) true rest
unfolding get_digits
get_digits-cons term d temp rest h =
    let test : is_digit (b'0' + d) ≡ true = ground arith in
    let back : b'0' + d - b'0' ≡ d = omega arith in rw (test, back) refl

-- what `fuel + 1` digits can hold
abbrev capacity : ℕ → ℕ
capacity zero = 10
capacity (suc fuel) = 10 * capacity fuel

get_digits-digits :
    (fuel n : ℕ) (temp : Bool) (rest : Bytes)
    → n < capacity fuel
    → n < word_mod
    → get_digits 0 temp (digits (suc fuel) n rest) ≡ get_digits n true rest
unfolding digits
get_digits-digits zero n temp rest h w =
    let test : ltb n 10 ≡ true = ground arith in
    rw test (get_digits-cons 0 n temp rest h ∙ ap (λ z. get_digits z true rest) (omega arith))
get_digits-digits (suc fuel) n temp rest h w = elim (Bool-cases (ltb n 10)) [
  | inl last ↦ rw last (
      get_digits-cons 0 n temp rest (ground arith) ∙ ap (λ z. get_digits z true rest) (omega arith))
  | inr more ↦ rw more (
      get_digits-digits fuel (n / 10) temp ((b'0' + n % 10) ∷ rest) (omega arith) (omega arith)
      ∙ get_digits-cons (n / 10) (n % 10) true rest (omega arith)
      ∙ ap (λ z. get_digits z true rest) (omega arith))
]

-- The text of a number begins with a digit.
digits_head :
    (fuel n : ℕ) (rest : Bytes)
    → (d : ℕ) × (ds : Bytes) × (digits (suc fuel) n rest ≡ d ∷ ds) × (is_digit d ≡ true)
unfolding digits
digits_head zero n rest = elim (Bool-cases (ltb n 10)) [
  | inl last ↦ rw last (_, _, refl, ground arith)
  | inr more ↦ rw more (_, _, refl, ground arith)
]
digits_head (suc fuel) n rest = elim (Bool-cases (ltb n 10)) [
  | inl last ↦ rw last (_, _, refl, ground arith)
  | inr more ↦ rw more (digits_head fuel (n / 10) ((b'0' + n % 10) ∷ rest))
]

-- One number without anything behind it is read in one turn.
get_terms-single :
    (fuel sign n : ℕ) (temp : Bool) (cs ds : Bytes)
    → get_signs 1 false cs ≡ (sign, temp, ds)
    → get_digits 0 temp ds ≡ (n, true, [])
    → get_terms (suc fuel) 0 false cs ≡ (add32 0 (mul32 n sign), true, [])
unfolding get_terms
get_terms-single fuel sign n temp cs ds e h = rw (e, h) refl

get_num_single :
    (sign n : ℕ) (temp : Bool) (cs ds : Bytes)
    → get_signs 1 false cs ≡ (sign, temp, ds)
    → get_digits 0 temp ds ≡ (n, true, [])
    → get_num cs ≡ (add32 0 (mul32 n sign), true, [])
unfolding get_num
get_num_single sign n temp cs ds e h = get_terms-single (length cs) sign n temp cs ds e h

get_signs-digit :
    (d : ℕ) (ds : Bytes)
    → is_digit d ≡ true
    → (get_signs 1 false (d ∷ ds) ≡ (1, false, d ∷ ds))
      × (get_signs 1 false (b'-' ∷ d ∷ ds) ≡ (neg32 1, false, d ∷ ds))
unfolding get_signs
get_signs-digit d ds h =
    let blank : (d == b' ') ≡ false = ground arith in (ground arith, ground arith)

decimal_eq :
    (w : ℕ) → decimal w ≡ (if is_neg w then b'-' ∷ digits 10 (word_mod - w) [] else digits 10 w [])
unfolding decimal
decimal_eq w = refl

above_sign : (w : ℕ) → is_neg w ≡ true → 2147483648 ≤ w
unfolding is_neg
above_sign w h = ground arith

negative_word : (w : ℕ) → IsWord w → 1 ≤ w → add32 0 (mul32 (word_mod - w) (neg32 1)) ≡ w
unfolding add32 mul32 neg32
negative_word w h some_word = omega arith

positive_word : (w : ℕ) → IsWord w → add32 0 (mul32 w 1) ≡ w
unfolding add32 mul32
positive_word w h = omega arith

-- A word that is printed as a signed number is read back as the same word, up to the end of the text.
pub get_num-decimal : (w : ℕ) → IsWord w → get_num (decimal w) ≡ (w, true, [])
unfolding get_digits
get_num-decimal w h = elim (Bool-cases (is_neg w)) [
  | inl negative ↦
      let m = word_mod - w in
      let above = above_sign w negative in
      let (d, ds, e, digit) = digits_head 9 m [] in
      let read = get_digits-digits 9 m false [] (omega arith) (omega arith) in
      let signs =
        ap (λ z. get_signs 1 false (b'-' ∷ z)) e
        ∙ (get_signs-digit d ds digit).1
        ∙ ap (λ z. (neg32 1, false, z)) (sym e) in
      rw (decimal_eq w, negative)
        (get_num_single (neg32 1) m false _ _ signs read
          ∙ ap (λ z. (z, true, [])) (negative_word w h (omega arith)))
  | inr positive ↦
      let (d, ds, e, digit) = digits_head 9 w [] in
      let read = get_digits-digits 9 w false [] (omega arith) h in
      let signs =
        ap (λ z. get_signs 1 false z) e
        ∙ (get_signs-digit d ds digit).0
        ∙ ap (λ z. (1, false, z)) (sym e) in
      rw (decimal_eq w, positive)
        (get_num_single 1 w false _ _ signs read ∙ ap (λ z. (z, true, [])) (positive_word w h))
]
