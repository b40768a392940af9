-- ===== src/TacGen/Renumbered.antt =====
-- The number of an instruction of src/3ac.c does not matter to what the code does.
use milac.Prelude.{
  ◌>>=◌, ℕ, ◌+◌, List, [], ◌∷◌, ◌≡◌, refl, sym, ap, subst, Option, none, some, Bool, true, false,
  ◌==◌, ◌&&◌, if◌then◌else◌,
}
use milac.SymTab.{Symbol}
use milac.Tac.Meaning.{Machine, value, exec, exec_op}
use milac.Tac.Steps.{Steps, stop, step, step_op, jump, after_label, is_label}
use milac.Tac.{Op, Tac, tnone, tiff, tjmp, tin, tout, tassign, tlabel}
use milac.TacGen.Numbered.{numbered}

-- the same instructions but for their numbers
abbrev pub Renumbered : List Tac → List Tac → Type 0
Renumbered [] [] = Unit
Renumbered (i ∷ is) (j ∷ js) = (j ≡ record i { id = j.id }) × Renumbered is js
Renumbered _ _ = ◌≡◌ {A = Bool} true false

pub numbered-Renumbered : (n : ℕ) (is : List Tac) → Renumbered is (numbered n is)
numbered-Renumbered n [] = tt
numbered-Renumbered n (i ∷ is) = (refl, numbered-Renumbered (n + 1) is)

pub Renumbered-nil : (is : List Tac) → Renumbered [] is → is ≡ []
Renumbered-nil [] r = refl
Renumbered-nil (_ ∷ _) r = cc

abbrev Found : Option (List Tac) → Option (List Tac) → Type 0
Found none none = Unit
Found (some is) (some js) = Renumbered is js
Found _ _ = ◌≡◌ {A = Bool} true false

if-Found :
    (b : Bool) (is js : List Tac) (o o' : Option (List Tac))
    → Renumbered is js
    → Found o o'
    → Found (if b then some is else o) (if b then some js else o')
if-Found true is js o o' r f = r
if-Found false is js o o' r f = f

after_label-Found :
    (l : ℕ) (is js : List Tac) → Renumbered is js → Found (after_label l is) (after_label l js)
unfolding after_label
after_label-Found l [] [] r = tt
after_label-Found l [] (j ∷ js) r = cc
after_label-Found l (i ∷ is) [] r = cc
after_label-Found l (i ∷ is) (j ∷ js) r =
    let rest = after_label-Found l is js r.1 in
    subst
      (λ z.
        Found (after_label l (i ∷ is))
          (if is_label z.op && z.r == l then some js else after_label l js))
      (sym r.0) (if-Found (is_label i.op && i.r == l) is js _ _ r.1 rest)

module _ (deref : ℕ → Symbol) where
  exec_op_id :
      (op : Op) (i : Tac) (n : ℕ) (m : Machine)
      → exec_op deref op (record i { id = n }) m ≡ exec_op deref op i m
  unfolding exec_op
  exec_op_id tin i n m = refl
  exec_op_id tout i n m = refl
  exec_op_id tassign i n m = refl
  exec_op_id tnone i n m = refl
  exec_op_id tiff i n m = refl
  exec_op_id tjmp i n m = refl
  exec_op_id tlabel i n m = refl
  exec_op_id _ i n m = refl

  module _ (code code' : List Tac) (same : Renumbered code code') where
    -- the states after a step
    abbrev Next : Option (List Tac × Machine) → Option (List Tac × Machine) → Type 0
    Next none none = Unit
    Next (some (r, m)) (some (r', m')) = Renumbered r r' × (m' ≡ m)
    Next _ _ = ◌≡◌ {A = Bool} true false

    jump-Next : (l : ℕ) (m : Machine) → Next (jump deref code l m) (jump deref code' l m)
    jump-Next l m =
        by_found (after_label l code) (after_label l code') (after_label-Found l code code' same)
      where
        by_found :
            (o o' : Option (List Tac))
            → Found o o'
            → Next (o >>= λ rest. some (rest, m)) (o' >>= λ rest. some (rest, m))
        by_found none none f = tt
        by_found none (some _) f = f
        by_found (some _) none f = f
        by_found (some r) (some r') f = (f, refl)

    go_on :
        (o : Option Machine) (is js : List Tac)
        → Renumbered is js
        → Next (o >>= λ m'. some (is, m')) (o >>= λ m'. some (js, m'))
    go_on none is js r = tt
    go_on (some m) is js r = (r, refl)

    step-Next :
        (op : Op) (i : Tac) (k : ℕ) (is js : List Tac) (m : Machine)
        → Renumbered is js
        → Next (step_op deref code op i is m) (step_op deref code' op (record i { id = k }) js m)
    unfolding exec
    step-Next tiff i k is js m r = by_test (value deref m.env i.a1 == 0)
      where
        by_test :
            (b : Bool)
            → Next
                (if b then jump deref code i.r m else some (is, m))
                (if b then jump deref code' i.r m else some (js, m))
        by_test true = jump-Next i.r m
        by_test false = (r, refl)
    step-Next tjmp i k is js m r = jump-Next i.r m
    step-Next _ i k is js m r =
        subst
          (λ o. Next (exec_op deref i.op i m >>= λ m'. some (is, m')) (o >>= λ m'. some (js, m')))
          (sym (exec_op_id i.op i k m)) (go_on (exec_op deref i.op i m) is js r)

    Next-some :
        (o : Option (List Tac × Machine)) {r : List Tac} {m : Machine}
        → o ≡ some (r, m)
        → (o' : Option (List Tac × Machine)) → Next o o'
        → (r' : List Tac) × (o' ≡ some (r', m)) × Renumbered r r'
    Next-some o {r} {m} e none n = absurd (cc (subst (λ z. Next z none) e n))
    Next-some o {r} {m} e (some (r', m')) n =
        let (alike, same) = subst (λ z. Next z (some (r', m'))) e n in
        (r', ap (λ z. some (r', z)) same, alike)

    -- A run of the code is one of the renumbered code.
    pub Steps-Renumbered :
        {is js rest : List Tac} {m m' : Machine}
        → Steps deref code is m rest m'
        → Renumbered is js
        → (rest' : List Tac) × Steps deref code' js m rest' m' × Renumbered rest rest'
    Steps-Renumbered {js = js} stop r = (js, stop, r)
    Steps-Renumbered {js = []} (step e s) r = absurd (cc r)
    Steps-Renumbered {js = j ∷ js} {m = m} {m' = m'} (step {i = i} {rest = is} e s) r =
        let (r₁, e₁, alike) =
          Next-some (step_op deref code i.op i is m) e
            (step_op deref code' i.op (record i { id = j.id }) js m)
            (step-Next i.op i j.id is js m r.1) in
        let (rest', s', end_alike) = Steps-Renumbered s alike in
        (
          rest',
          subst (λ z. Steps deref code' (z ∷ js) m rest' m') (sym r.0) (step e₁ s'),
          end_alike,
        )
