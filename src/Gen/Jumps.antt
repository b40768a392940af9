-- ===== src/Gen/Jumps.antt =====
-- src/gen.c: where the jump that `gen_cond_jmp` emits goes, once the register has the difference that
-- `gen_binop` leaves there. By `if false a1 goto r` it is to jump where the comparison is 0.
use mathlib.Core.Option.{some-injective}
use milac.Code.Jump.{Jump, less, less_equal, greater, greater_equal, equal, not_equal}
use milac.Code.{Tmins, Emitter}
use milac.Gen.Select.{emit_cond}
use milac.Prelude.{
  ℕ, ◌≤◌, ◌<◌, [], ◌∷◌, ◌++◌, ◌≡◌, refl, some, Bool, true, false, not, ◌==◌, IsWord, sub32,
  signed_lt, bool32, ◌⊎◌, arith,
}
use milac.Tac.Meaning.{binop_value}
use milac.Tac.{Op, teq, tneq, tlt, tgt, tle, tge}
use milac.Tm.{Opcode}

-- a number between -2 ^ 30 and 2 ^ 30
abbrev pub IsSmall : ℕ → Type 0
IsSmall a = (a < 1073741824) ⊎ ((3221225472 ≤ a) × IsWord a)

-- The code gets a jump on the register, which is taken for the value `d` where `taken` is true.
abbrev pub JumpsIf : Emitter → Emitter → ℕ → ℕ → Bool → Type 0
JumpsIf e e' r1 d taken =
    (t : Tmins) × (op : Opcode) × (test : ℕ → Bool) × (e'.tm_code ≡ e.tm_code ++ (t ∷ []))
    × (t.r1 ≡ r1)
    × Jump t.op op test
    × (test d ≡ taken)

abbrev pub is_order : Op → Bool
is_order tlt = true
is_order tgt = true
is_order tle = true
is_order tge = true
is_order _ = false

abbrev pub is_equality : Op → Bool
is_equality teq = true
is_equality tneq = true
is_equality _ = false

sub32_sign :
    (a b : ℕ)
    → IsSmall a
    → IsSmall b
    → (signed_lt (sub32 a b) 0 ≡ signed_lt a b) × (signed_lt 0 (sub32 a b) ≡ signed_lt b a)
unfolding signed_lt sub32
sub32_sign a b s t = (ground arith, ground arith)

sub32_zero : (a b : ℕ) → IsWord a → IsWord b → (sub32 a b == 0) ≡ (a == b)
unfolding sub32
sub32_zero a b v w = ground arith

bool32_zero : (b : Bool) → (bool32 b == 0) ≡ not b
bool32_zero true = refl
bool32_zero false = refl

-- The jump for an ordering of two small numbers is taken where the comparison is 0, as it is to be.
pub emit_cond-orders :
    (op : Op) (r1 r2 r3 : ℕ) (e : Emitter) (a b : ℕ) {v : ℕ}
    → is_order op ≡ true
    → IsSmall a
    → IsSmall b
    → binop_value op a b ≡ some v
    → JumpsIf e (emit_cond op r1 r2 r3 e) r1 (sub32 a b) (v == 0)
unfolding emit_cond binop_value
emit_cond-orders tlt r1 r2 r3 e a b o s t h =
    let value = some-injective _ _ h in
    let sign = sub32_sign a b s t in
    (_, _, _, refl, refl, greater_equal, ground (arith, value, sign, bool32_zero (signed_lt a b)))
emit_cond-orders tgt r1 r2 r3 e a b o s t h =
    let value = some-injective _ _ h in
    let sign = sub32_sign a b s t in
    (_, _, _, refl, refl, less_equal, ground (arith, value, sign, bool32_zero (signed_lt b a)))
emit_cond-orders tle r1 r2 r3 e a b o s t h =
    let value = some-injective _ _ h in
    let sign = sub32_sign a b s t in
    (_, _, _, refl, refl, greater, ground (arith, value, sign, bool32_zero (not (signed_lt b a))))
emit_cond-orders tge r1 r2 r3 e a b o s t h =
    let value = some-injective _ _ h in
    let sign = sub32_sign a b s t in
    (_, _, _, refl, refl, less, ground (arith, value, sign, bool32_zero (not (signed_lt a b))))
emit_cond-orders _ r1 r2 r3 e a b o s t h = absurd (cc o)

-- The jump for `==` and for `!=` is taken where the comparison is not 0, which is the wrong way round.
pub emit_cond-equalities :
    (op : Op) (r1 r2 r3 : ℕ) (e : Emitter) (a b : ℕ) {v : ℕ}
    → is_equality op ≡ true
    → IsWord a
    → IsWord b
    → binop_value op a b ≡ some v
    → JumpsIf e (emit_cond op r1 r2 r3 e) r1 (sub32 a b) (not (v == 0))
unfolding emit_cond binop_value
emit_cond-equalities teq r1 r2 r3 e a b o s t h =
    let value = some-injective _ _ h in
    (_, _, _, refl, refl, equal, ground (arith, value, sub32_zero a b s t, bool32_zero (a == b)))
emit_cond-equalities tneq r1 r2 r3 e a b o s t h =
    let value = some-injective _ _ h in
    (
      _,
      _,
      _,
      refl,
      refl,
      not_equal,
      ground (arith, value, sub32_zero a b s t, bool32_zero (not (a == b))),
    )
emit_cond-equalities _ r1 r2 r3 e a b o s t h = absurd (cc o)
