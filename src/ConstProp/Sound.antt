-- ===== src/ConstProp/Sound.antt =====
-- src/const_prop.c: what `cp_propagate` does to the instructions of a block.
use milac.ConstProp.Known.{
  known, stale, Describes, known_exec, binop_else, binop-Describes, other-Describes,
}
use milac.ConstProp.Propagate.{
  Vars, is_constant, known_ins, known_operand, out_binop, out_ins, out_other, cp_bb,
}
use milac.CopyProp.Replace.{writes}
use milac.Prelude.{
  ℕ, arith, Bool, List, [], ◌∷◌, some, true, false, ◌≡◌, ◌≢◌, refl, sym, ap, ◌∙◌, subst, Bool-cases,
  Option-cases, inl, inr, ==_refl, if◌then◌else◌,
}
use milac.SymTab.{Symbol}
use milac.Tac.Meaning.{
  Machine, is_const, value, assign, exec, exec_op, run, owns, owns_op, DistinctIds,
}
use milac.Tac.Words.{All}
use milac.Tac.{Op, Tac, tac_is_binop, tnone, tiff, tjmp, tin, tout, tassign, tlabel}

binop_writes : (op : Op) → tac_is_binop op ≡ true → writes op ≡ true
unfolding tac_is_binop
binop_writes tnone b = cc
binop_writes tiff b = cc
binop_writes tjmp b = cc
binop_writes tlabel b = cc
binop_writes tout b = cc
binop_writes _ b = refl

pub own_operands :
    (own : ℕ → Bool) (op : Op) (i : Tac)
    → tac_is_binop op ≡ true
    → owns_op own op i ≡ true
    → (own i.a1 ≡ true) × (own i.a2 ≡ true) × (own i.r ≡ true)
unfolding tac_is_binop
own_operands own tnone i b h = cc
own_operands own tiff i b h = cc
own_operands own tjmp i b h = cc
own_operands own tlabel i b h = cc
own_operands own tin i b h = cc
own_operands own tout i b h = cc
own_operands own tassign i b h = cc
own_operands own _ i b h = ground arith

-- `own` are the symbols of the block, which no label is
module _ (deref : ℕ → Symbol) (own : ℕ → Bool) where
  -- An instruction that writes writes no constant.
  abbrev pub WritesVar : Tac → Type 0
  WritesVar i = writes i.op ≡ true → is_const (deref i.r) ≡ false

  -- no instruction leaves its result known as it was
  abbrev pub NeverStale : Vars → List Tac → Type 0
  NeverStale in_ [] = Unit
  NeverStale in_ (i ∷ is) = (stale deref in_ i ≡ false) × NeverStale (out_ins deref in_ i) is

  known_ins-exec :
      (in_ : Vars) (i : Tac) (m : Machine)
      → owns own i ≡ true
      → Describes deref own in_ m
      → exec deref (known_ins deref in_ i) m ≡ exec deref i m
  unfolding exec
  known_ins-exec in_ i m mine d = elim (Bool-cases (tac_is_binop i.op)) [
    | inl b ↦ rw b (
        known_exec deref own i.op in_ i m b (own_operands own i.op i b mine).0
          (own_operands own i.op i b mine).1 d)
    | inr b ↦ rw b refl
  ]

  stale_binop :
      (in_ : Vars) (i : Tac)
      → tac_is_binop i.op ≡ true
      → stale deref in_ i ≡ false
      → known (out_ins deref in_ i (deref i.r).id) ≡ false
  stale_binop in_ i b fresh = rw b at fresh

  out_ins-Describes :
      (in_ : Vars) (i : Tac) (m m' : Machine)
      → DistinctIds deref own
      → owns own i ≡ true
      → WritesVar i
      → Describes deref own in_ m
      → stale deref in_ i ≡ false
      → exec deref i m ≡ some m'
      → Describes deref own (out_ins deref in_ i) m'
  unfolding exec out_ins
  out_ins-Describes in_ i m m' ids mine var d fresh e = elim (Bool-cases (tac_is_binop i.op)) [
    | inl b ↦
        binop-Describes deref own i.op in_ (out_ins deref in_ i) i m m' ids
          (own_operands own i.op i b mine).2 (var (binop_writes i.op b)) b d
          (λ k a. rw b (
            binop_else deref own in_
              (record i { a1 = known_operand deref in_ i.a1; a2 = known_operand deref in_ i.a2 }) k
              a))
          (stale_binop in_ i b fresh) e
    | inr b ↦ rw b (other-Describes deref own i.op in_ i m m' ids var b mine d (rw b at fresh) e)
  ]

  -- The instructions of a block do the same after `cp_propagate`, if what it starts with describes
  -- the machine for a set of symbols that has those which the block reads and writes and in which
  -- different symbols have different ids, no constant is written, and no instruction leaves a
  -- variable that it writes known as it was.
  pub run-cp_bb :
      (in_ : Vars) (is : List Tac) (m : Machine)
      → DistinctIds deref own
      → Describes deref own in_ m
      → All (λ i. owns own i ≡ true) is
      → All WritesVar is
      → NeverStale in_ is
      → run deref (cp_bb deref in_ is).0 m ≡ run deref is m
  unfolding run cp_bb
  run-cp_bb in_ [] m ids d mine vars fresh = refl
  run-cp_bb in_ (i ∷ is) m ids d (first, mine) (var, vars) (now, fresh) =
      elim (Option-cases (exec deref i m)) [
        | inl e ↦ rw (known_ins-exec in_ i m first d, e) refl
        | inr (m', e) ↦
            rw (known_ins-exec in_ i m first d, e)
              (run-cp_bb (out_ins deref in_ i) is m' ids
                (out_ins-Describes in_ i m m' ids first var d now e) mine vars fresh)
      ]

  -- An assignment of a variable that is known not to be constant leaves its result known as it was:
  -- if the result was known to be a constant and the source has another value than it, the array does
  -- not describe the machine behind the assignment.
  pub out_ins_stale :
      (in_ : Vars) (i : Tac) (m : Machine)
      → i.op ≡ tassign
      → own i.r ≡ true
      → is_const (deref i.r) ≡ false
      → is_constant (in_ (deref i.a1).id).c ≡ false
      → known (in_ (deref i.r).id) ≡ true
      → Describes deref own in_ m
      → value deref m.env i.a1 ≢ value deref m.env i.r
      → (m' : Machine) × (exec deref i m ≡ some m')
        × (¬ Describes deref own (out_ins deref in_ i) m')
  unfolding exec out_ins exec_op value assign tac_is_binop
  out_ins_stale in_ i m op mine var source result d other =
      let m' = assign m i.r (value deref m.env i.a1) in
      let here = ==_refl i.r in
      let kept : out_ins deref in_ i ≡ in_ =
        ap
          (λ o.
            if tac_is_binop o
            then out_binop deref in_ (known_ins deref in_ i)
            else out_other deref o in_ i)
          op
        ∙ rw source refl in
      (
        m',
        ap (λ o. exec_op deref o i m) op,
        λ holds.
            let now = (subst (λ v. Describes deref own v m') kept holds i.r mine result).1 in
            let before = (d i.r mine result).1 in other ((rw (var, here) at now) ∙ sym before),
      )
