-- ===== src/Tac/Steps.antt =====
-- Three-address code with its jumps, by what `print_tac` of src/3ac.c shows: `if false a1 goto r`,
-- `goto r` and `r :`. A state is what is left of the code and the machine.
use milac.Prelude.{
  ◌>>=◌, ℕ, List, [], ◌∷◌, ◌≡◌, Option, none, some, Bool, true, false, ◌==◌, ◌&&◌, if◌then◌else◌,
}
use milac.SymTab.{Symbol}
use milac.Tac.Meaning.{Machine, value, exec}
use milac.Tac.{Op, Tac, tiff, tjmp, tlabel}

abbrev pub is_label : Op → Bool
is_label tlabel = true
is_label _ = false

-- what follows a label in the code
unfoldable pub after_label : ℕ → List Tac → Option (List Tac)
after_label l [] = none
after_label l (i ∷ is) = if is_label i.op && i.r == l then some is else after_label l is

module _ (deref : ℕ → Symbol) (code : List Tac) where
  abbrev pub jump : ℕ → Machine → Option (List Tac × Machine)
  jump l m = after_label l code >>= λ rest. some (rest, m)

  abbrev pub step_op : Op → Tac → List Tac → Machine → Option (List Tac × Machine)
  step_op tiff i rest m = if value deref m.env i.a1 == 0 then jump i.r m else some (rest, m)
  step_op tjmp i rest m = jump i.r m
  step_op _ i rest m = exec deref i m >>= λ m'. some (rest, m')

  pub data Steps : List Tac → Machine → List Tac → Machine → Type 0 where
    stop : {rest : List Tac} {m : Machine} → Steps rest m rest m
    step :
        {i : Tac} {rest rest' rest'' : List Tac} {m m' m'' : Machine}
        → step_op i.op i rest m ≡ some (rest', m')
        → Steps rest' m' rest'' m''
        → Steps (i ∷ rest) m rest'' m''

  pub Steps_trans :
      {r r' r'' : List Tac} {m m' m'' : Machine}
      → Steps r m r' m'
      → Steps r' m' r'' m''
      → Steps r m r'' m''
  Steps_trans stop t = t
  Steps_trans (step e s) t = step e (Steps_trans s t)
