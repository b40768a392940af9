-- ===== src/Tests/ConstPropTests.antt =====
-- Tests of src/const_prop.c, where the variable 1 is known to be 5 and the others not to be constant.
use milac.Blocks.Build.{new_bb}
use milac.Blocks.{Store, store}
use milac.ConstProp.Fold.{changed, fold_ins}
use milac.ConstProp.Known.{Describes}
use milac.ConstProp.Propagate.{Vars, nac, constant, cp_bb, out_ins}
use milac.ConstProp.Replaced.{Untaken, NoNull, fold_ins-exec}
use milac.ConstProp.Sound.{run-cp_bb, out_ins_stale}
use milac.ConstProp.{fold_value}
use milac.Optimize.Pool.{Pool}
use milac.Optimize.Symbols.{table_deref, symbol_table}
use milac.Tests.OptimizeTests.{zero_table, two_table}
use milac.Prelude.{
  ℕ, ◌+◌, ◌-◌, ◌≡◌, refl, sym, subst, Bool, true, false, ==_iff, ==_refl, some, IsWord, arith, List,
  [], ◌∷◌, minus_one, signed_lt, ltb, ◌==◌, if◌then◌else◌,
}
use milac.SymTab.{Symbol, svar, sconst, vs_empty, no_register}
use milac.Tac.Meaning.{DistinctIds, Machine, exec, run, value, is_const}
use milac.Tac.{tiff, Tac, tac_is_binop, tlt, tadd, tassign, tout}
use milac.Tests.OptimizeTests.{instruction}

-- the symbol behind a pointer: from 100 on they are constants
abbrev symbol : ℕ → Symbol
symbol p = record {
  type = if ltb p 100 then svar else sconst;
  id = if ltb p 200 then p else minus_one;
  lineno = 0;
  val = p - 100;
  name = [];
  reg = no_register;
  state = vs_empty;
}

symbol_const : (v : ℕ) → (symbol (v + 100)).type ≡ sconst
symbol_const v = ground arith

abbrev symbols : Pool
symbols = record {
  State = ℕ;
  deref = λ s p. symbol p;
  insert_const = λ s v. (v + 100, s);
  Known = λ s p. IsWord (symbol p).val;
  inserted_type = λ s v w. symbol_const v;
  inserted_val = λ s v w. omega arith;
  inserted-Known = λ s v w. omega arith;
  Known-IsWord = λ s p known. known;
  Known_kept = λ s v p known. known;
  deref_kept = λ s v p known. refl;
}

abbrev five_machine : Machine
five_machine = record { env = λ p. if p == 1 then 5 else 9; input = []; output = [] }

abbrev five_vars : Vars
five_vars k =
    if k == 1
    then record { c = constant; s = 105 }
    else if ltb k 100
    then record { c = nac; s = 0 }
    else record { c = constant; s = k }

-- The comparison is one of signed words.
minus_one_less : fold_value tlt minus_one 0 ≡ some 1
unfolding fold_value signed_lt
minus_one_less = refl

five_ids : DistinctIds symbol (λ p. ltb p 200)
five_ids p q mine yours e = ground arith

five_known : Describes symbol (λ p. ltb p 200) five_vars five_machine
unfolding value
five_known p mine k = ground arith

five_null : NoNull symbols five_vars
five_null k c = ground arith

-- `x2 = x1 + x1; x3 = x2; write x3`
abbrev five_block : List Tac
five_block = instruction tadd 1 1 2 ∷ instruction tassign 2 0 3 ∷ instruction tout 0 0 3 ∷ []

run-cp_bb_example :
    run symbol (cp_bb symbol five_vars five_block).0 five_machine
    ≡ run symbol five_block five_machine
unfolding out_ins tac_is_binop
run-cp_bb_example =
    run-cp_bb symbol (λ p. ltb p 200) five_vars five_block five_machine five_ids five_known
      (refl, (refl, (refl, tt))) (λ w. refl, (λ w. refl, (λ w. cc, tt))) (refl, (refl, (refl, tt)))

out_ins_stale_example :
    (m' : Machine) × (exec symbol (instruction tassign 2 0 1) five_machine ≡ some m')
    × (¬ Describes symbol
        (λ p. ltb p 200)
        (out_ins symbol five_vars (instruction tassign 2 0 1))
        m')
unfolding value
out_ins_stale_example =
    out_ins_stale symbol (λ p. ltb p 200) five_vars (instruction tassign 2 0 1) five_machine refl
      refl refl refl refl five_known (omega arith)

-- `if false 5 goto ...` at the end of the block 1, before the block 3
abbrev five_iff : Tac
five_iff = instruction tiff two_table.0 0 9

abbrev five_entry : Vars
five_entry k = record { c = constant; s = two_table.0 }

abbrev is_five : ℕ → Bool
is_five p = p == two_table.0

abbrev three_blocks : Store
three_blocks p = record (new_bb 0 0) { jmp = 2; next = 3 }

five-Describes : Describes (table_deref two_table.1) is_five five_entry five_machine
unfolding value
five-Describes p mine k =
    let is = symbol_table.inserted_type zero_table.1 5 (omega arith) in
    let same : two_table.0 ≡ p = sym ((==_iff _ _).0 mine) in
    subst
      (λ q.
        (is_const (table_deref two_table.1 two_table.0) ≡ true)
        × (value (table_deref two_table.1) five_machine.env q
            ≡ (table_deref two_table.1 two_table.0).val))
      same (rw is refl, rw is refl)

five-NoNull : NoNull symbol_table five_entry
five-NoNull k c = omega arith

-- the jump is not taken
abbrev jmp_marked : Store
jmp_marked = store three_blocks 2 (record (three_blocks 2) { unreachable = true })

five_folded :
    fold_ins symbol_table two_table.1 (some five_entry) 1 three_blocks five_iff five_entry
    ≡ some (changed five_iff two_table.1 jmp_marked)
unfolding fold_ins tac_is_binop signed_lt
five_folded =
    let val = symbol_table.inserted_val zero_table.1 5 (omega arith) in
    let real : (two_table.0 == 0) ≡ false = ground arith in rw (val, real) refl

fold_ins-exec_example :
    (exec (table_deref two_table.1) five_iff five_machine
      ≡ exec (table_deref two_table.1) five_iff five_machine)
    × (tiff ≡ tiff
        → Untaken
            (value (table_deref two_table.1) five_machine.env two_table.0)
            1
            three_blocks
            jmp_marked)
unfolding tac_is_binop
fold_ins-exec_example =
    fold_ins-exec symbol_table two_table.1 is_five five_entry five_machine five-Describes
      five-NoNull five_iff five_iff 1 five_entry three_blocks jmp_marked two_table.1
      (==_refl two_table.0) (λ op. cc) five_folded
