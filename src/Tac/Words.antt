-- ===== src/Tac/Words.antt =====
-- What an instruction reads, and that execution keeps all values 32-bit words.
use milac.Prelude.{
  ◌>>=◌, ℕ, List, [], ◌∷◌, ◌≡◌, refl, Option, none, some, IsWord, add32-IsWord, sub32-IsWord,
  mul32-IsWord, div32-IsWord, subst, arith,
}
use mathlib.Core.Option.{some-injective}
use milac.SymTab.{Symbol}
use milac.Tac.Meaning.{Machine, value, binop_value, assign, exec_in, exec_op, exec}
use milac.Tac.{Op, Tac, tnone, tiff, tjmp, tin, tout, tassign, tdiv, tlabel}

-- the pointers whose values an instruction reads
abbrev pub reads : Op → Tac → List ℕ
reads tnone i = []
reads tiff i = []
reads tjmp i = []
reads tlabel i = []
reads tin i = []
reads tout i = i.r ∷ []
reads tassign i = i.a1 ∷ []
reads _ i = i.a1 ∷ i.a2 ∷ []

abbrev pub All {ℓ κ} : {A : Type ℓ} → (A → Type κ) → List A → Type κ
All P [] = Unit
All P (x ∷ xs) = P x × All P xs

-- The symbols behind these pointers decide what an instruction does.
abbrev pub Agree : (ℕ → Symbol) → (ℕ → Symbol) → List ℕ → Type 0
Agree d d' = All (λ p. d' p ≡ d p)

exec-Agree_op :
    (d d' : ℕ → Symbol) (op : Op) (i : Tac) (m : Machine)
    → Agree d d' (reads op i)
    → exec_op d' op i m ≡ exec_op d op i m
unfolding exec_op value
exec-Agree_op d d' tin i m h = refl
exec-Agree_op d d' tout i m h = rw h.0
exec-Agree_op d d' tassign i m h = rw h.0
exec-Agree_op d d' tnone i m h = refl
exec-Agree_op d d' tiff i m h = refl
exec-Agree_op d d' tjmp i m h = refl
exec-Agree_op d d' tlabel i m h = refl
exec-Agree_op d d' _ i m h = rw (h.0, h.1.0)

pub exec-Agree :
    (d d' : ℕ → Symbol) (i : Tac) (m : Machine)
    → Agree d d' (reads i.op i)
    → exec d' i m ≡ exec d i m
unfolding exec
exec-Agree d d' i m = exec-Agree_op d d' i.op i m

pub record WordMachine (m : Machine) : Type 0 where
  pub env_words : (p : ℕ) → IsWord (m.env p)
  pub input_words : All IsWord m.input

-- constants that are words, where they are read
abbrev pub WordReads : (ℕ → Symbol) → List ℕ → Type 0
WordReads d = All (λ p. IsWord (d p).val)

pub value-IsWord :
    (d : ℕ → Symbol) (m : Machine) (p : ℕ)
    → WordMachine m
    → IsWord (d p).val
    → IsWord (value d m.env p)
unfolding value
value-IsWord d m p w h = ground (arith, w.env_words p)

assign-Words : (m : Machine) (p v : ℕ) → WordMachine m → IsWord v → WordMachine (assign m p v)
unfolding assign
assign-Words m p v w h = record {
  env_words = λ q. ground (arith, w.env_words q);
  input_words = w.input_words;
}

pub binop_value-IsWord :
    (op : Op) (a b : ℕ) {v : ℕ} → IsWord a → binop_value op a b ≡ some v → IsWord v
unfolding binop_value
binop_value-IsWord tdiv a b wa h = ground (arith, div32-IsWord a b)
binop_value-IsWord _ a b wa h = ground (arith, add32-IsWord a b, sub32-IsWord a b, mul32-IsWord a b)

exec_in-Words :
    (p : ℕ) (m : Machine) (input : List ℕ) {m' : Machine}
    → WordMachine m
    → All IsWord input
    → exec_in p m input ≡ some m'
    → WordMachine m'
unfolding exec_in
exec_in-Words p m [] w h e = cc
exec_in-Words p m (v ∷ rest) w h e = subst WordMachine (some-injective _ _ e) (
    assign-Words (record m { input = rest }) p v
      (record { env_words = w.env_words; input_words = h.1 }) h.0)

bind-Words :
    (o : Option ℕ) (m : Machine) (p : ℕ) {m' : Machine}
    → WordMachine m
    → ((v : ℕ) → o ≡ some v → IsWord v)
    → (o >>= λ v. some (assign m p v)) ≡ some m'
    → WordMachine m'
bind-Words none m p w h e = cc
bind-Words (some v) m p w h e =
    subst WordMachine (some-injective _ _ e) (assign-Words m p v w (h v refl))

exec_op-Words :
    (d : ℕ → Symbol) (op : Op) (i : Tac) (m : Machine) {m' : Machine}
    → WordMachine m
    → WordReads d (reads op i)
    → exec_op d op i m ≡ some m'
    → WordMachine m'
unfolding exec_op
exec_op-Words d tin i m w h e = exec_in-Words i.r m m.input w w.input_words e
exec_op-Words d tout i m w h e =
    subst WordMachine (some-injective _ _ e)
      (record { env_words = w.env_words; input_words = w.input_words })
exec_op-Words d tassign i m w h e =
    subst WordMachine (some-injective _ _ e) (assign-Words m i.r _ w (value-IsWord d m i.a1 w h.0))
exec_op-Words d tnone i m w h e = subst WordMachine (some-injective _ _ e) w
exec_op-Words d tiff i m w h e = subst WordMachine (some-injective _ _ e) w
exec_op-Words d tjmp i m w h e = subst WordMachine (some-injective _ _ e) w
exec_op-Words d tlabel i m w h e = subst WordMachine (some-injective _ _ e) w
exec_op-Words d op i m w h e =
    bind-Words (binop_value op (value d m.env i.a1) (value d m.env i.a2)) m i.r w
      (λ v. binop_value-IsWord op _ _ (value-IsWord d m i.a1 w h.0)) e

-- A word machine stays one, if the constants that the instruction reads are words.
pub exec-Words :
    (d : ℕ → Symbol) (i : Tac) (m : Machine) {m' : Machine}
    → WordMachine m
    → WordReads d (reads i.op i)
    → exec d i m ≡ some m'
    → WordMachine m'
unfolding exec
exec-Words d i m w h e = exec_op-Words d i.op i m w h e
