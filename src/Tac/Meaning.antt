-- ===== src/Tac/Meaning.antt =====
-- What three-address code means, by what src/const_prop.c folds and src/gen.c emits: `r = a1 + a2`,
-- `r := a1`, `read r`, `write r`. Values are 32-bit words. `deref` gives the symbol that a pointer points to; a
-- constant's value is its `val`, any other symbol is a variable of `env`. Input is the list of words
-- still to be read; output is the list of words written, the last in front. `none` is a fault: a
-- division that is undefined in C, or a read at the end of the input.
use milac.Prelude.{
  ◌>>=◌, ℕ, List, [], ◌∷◌, Option, none, some, Bool, true, false, ◌==◌, ◌&&◌, ◌≡◌, not,
  if◌then◌else◌, add32, sub32, mul32, div_faults, div32, signed_lt, bool32,
}
use milac.SymTab.{Symbol, SymbolType, svar, sconst, slabel}
use milac.Tac.{
  Op, Tac, tnone, tiff, tjmp, tin, tout, teq, tneq, tlt, tgt, tle, tge, tassign, tadd, tsub, tmul,
  tdiv, tlabel,
}

pub record Machine : Type 0 where
  pub env : ℕ → ℕ
  pub input : List ℕ
  pub output : List ℕ

abbrev pub type_is_const : SymbolType → Bool
type_is_const sconst = true
type_is_const svar = false
type_is_const slabel = false

-- `s->type == SCONST`
abbrev pub is_const : Symbol → Bool
is_const s = type_is_const s.type

unfoldable pub value : (ℕ → Symbol) → (ℕ → ℕ) → ℕ → ℕ
value deref env p = if is_const (deref p) then (deref p).val else env p

unfoldable pub binop_value : Op → ℕ → ℕ → Option ℕ
binop_value tadd a b = some (add32 a b)
binop_value tsub a b = some (sub32 a b)
binop_value tmul a b = some (mul32 a b)
binop_value tdiv a b = if div_faults a b then none else some (div32 a b)
binop_value teq a b = some (bool32 (a == b))
binop_value tneq a b = some (bool32 (not (a == b)))
binop_value tlt a b = some (bool32 (signed_lt a b))
binop_value tgt a b = some (bool32 (signed_lt b a))
binop_value tle a b = some (bool32 (not (signed_lt b a)))
binop_value tge a b = some (bool32 (not (signed_lt a b)))
binop_value _ a b = none

unfoldable pub assign : Machine → ℕ → ℕ → Machine
assign m p v = record m { env = λ q. if q == p then v else m.env q }

unfoldable pub exec_in : ℕ → Machine → List ℕ → Option Machine
exec_in p m [] = none
exec_in p m (v ∷ rest) = some (assign (record m { input = rest }) p v)

-- The test holds of the variables and constants that the instruction reads and writes.
abbrev pub owns_op : (ℕ → Bool) → Op → Tac → Bool
owns_op own tnone i = true
owns_op own tjmp i = true
owns_op own tlabel i = true
owns_op own tin i = own i.r
owns_op own tout i = own i.r
owns_op own tiff i = own i.a1
owns_op own tassign i = own i.a1 && own i.r
owns_op own _ i = own i.a1 && (own i.a2 && own i.r)

abbrev pub owns : (ℕ → Bool) → Tac → Bool
owns own i = owns_op own i.op i

-- Of the symbols that pass the test, different ones have different ids.
abbrev pub DistinctIds : (ℕ → Symbol) → (ℕ → Bool) → Type 0
DistinctIds deref own =
    (p q : ℕ) → own p ≡ true → own q ≡ true → (deref p).id ≡ (deref q).id → p ≡ q

-- The effect on the data; where control goes next is the block's matter.
unfoldable pub exec_op : (ℕ → Symbol) → Op → Tac → Machine → Option Machine
unfolding exec_in
exec_op deref tin i m = exec_in i.r m m.input
exec_op deref tout i m = some (record m { output = value deref m.env i.r ∷ m.output })
exec_op deref tassign i m = some (assign m i.r (value deref m.env i.a1))
exec_op deref tnone i m = some m
exec_op deref tiff i m = some m
exec_op deref tjmp i m = some m
exec_op deref tlabel i m = some m
exec_op deref op i m = do
  v ← binop_value op (value deref m.env i.a1) (value deref m.env i.a2)
  some (assign m i.r v)

unfoldable pub exec : (ℕ → Symbol) → Tac → Machine → Option Machine
unfolding exec_op
exec deref i m = exec_op deref i.op i m

unfoldable pub run : (ℕ → Symbol) → List Tac → Machine → Option Machine
run deref [] m = some m
run deref (i ∷ is) m = exec deref i m >>= run deref is
