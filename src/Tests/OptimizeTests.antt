-- ===== src/Tests/OptimizeTests.antt =====
-- src/optimize.c over a symbol table where pointers from 100 on are constants.
use milac.Optimize.Algebra.Block.{Fits, run-opt_algebra}
use milac.Optimize.Algebra.Inverse.{algebra_div_wrong}
use milac.Optimize.Algebra.{algebra_div, opt_algebra}
use milac.Optimize.Pool.{Pool}
use milac.Optimize.Symbols.{Table, IsKnown, table_deref, table_insert, symbol_table, empty_table}
use milac.Optimize.UnusedVars.{In, opt_unused_vars, opt_unused_vars-keeps}
use milac.Prelude.{
  inl, inr, false, ℕ, ◌+◌, ◌-◌, ◌≡◌, ◌≢◌, refl, List, [], ◌∷◌, true, ltb, if◌then◌else◌, IsWord,
  arith,
}
use milac.SymTab.{Symbol, svar, sconst, vs_empty, no_register}
use milac.Tac.Meaning.{Machine, exec, run, value}
use milac.Tac.Words.{WordMachine, All}
use milac.Tac.{tassign, Op, Tac, tadd, tdiv, tout}

-- the symbol behind a pointer
abbrev pub symbol : ℕ → Symbol
symbol p = record {
  type = if ltb p 100 then svar else sconst;
  id = 0;
  lineno = 0;
  val = p - 100;
  name = [];
  reg = no_register;
  state = vs_empty;
}

pub symbol_const : (v : ℕ) → (symbol (v + 100)).type ≡ sconst
symbol_const v = ground arith

abbrev pub symbols : Pool
symbols = record {
  State = ℕ;
  deref = λ s p. symbol p;
  insert_const = λ s v. (v + 100, s);
  Known = λ s p. IsWord (symbol p).val;
  inserted_type = λ s v w. symbol_const v;
  inserted_val = λ s v w. omega arith;
  inserted-Known = λ s v w. omega arith;
  Known-IsWord = λ s p known. known;
  Known_kept = λ s v p known. known;
  deref_kept = λ s v p known. refl;
}

abbrev pub instruction : Op → ℕ → ℕ → ℕ → Tac
instruction op a b c = record { id = 0; set = true; op = op; a1 = a; a2 = b; r = c; bb = 0 }

abbrev machine : Machine
machine = record { env = λ p. 17; input = []; output = [] }

machine-WordMachine : WordMachine machine
machine-WordMachine = record { env_words = λ p. omega arith; input_words = tt }

-- the symbol table with the constants 0 and 5, and the pointers to them
abbrev pub zero_table : ℕ × Table
zero_table = table_insert (empty_table 0 4 (omega arith) (omega arith)) 0

abbrev pub two_table : ℕ × Table
two_table = table_insert zero_table.1 5

pub five-IsKnown : IsKnown two_table.1 two_table.0
five-IsKnown = symbol_table.inserted-Known zero_table.1 5 (omega arith)

zero-IsKnown : IsKnown two_table.1 zero_table.0
zero-IsKnown =
    symbol_table.Known_kept zero_table.1 5 zero_table.0
      (symbol_table.inserted-Known (empty_table 0 4 (omega arith) (omega arith)) 0 (omega arith))

-- `x = 5 + 0; write 5`
abbrev block : List Tac
block = instruction tadd two_table.0 zero_table.0 9 ∷ instruction tout 0 0 two_table.0 ∷ []

block-Fits : All (Fits symbol_table two_table.1) block
block-Fits = (((five-IsKnown, (zero-IsKnown, tt)), λ e. cc), (((five-IsKnown, tt), λ e. cc), tt))

run-opt_algebra_example :
    run
      (table_deref (opt_algebra symbol_table two_table.1 block).1)
      (opt_algebra symbol_table two_table.1 block).0
      machine
    ≡ run (table_deref two_table.1) block machine
run-opt_algebra_example =
    run-opt_algebra symbol_table block two_table.1 machine machine-WordMachine block-Fits

-- `x3 = 1 / x1`
algebra_div_wrong_example :
    exec (symbols.deref 0) (algebra_div symbols 0 (instruction tdiv 101 1 3)).0 machine
    ≢ exec (symbols.deref 0) (instruction tdiv 101 1 3) machine
unfolding value
algebra_div_wrong_example =
    algebra_div_wrong symbols 0 (instruction tdiv 101 1 3) machine refl (omega arith) (omega arith)
      (λ e. absurd (omega arith))

-- the symbol of a variable with its own id
abbrev variable : ℕ → Symbol
variable p = record (symbol p) { id = p; type = svar }

abbrev copy : Tac
copy = record { id = 0; set = false; op = tassign; a1 = 1; a2 = 0; r = 3; bb = 0 }

abbrev write : Tac
write = record { id = 0; set = false; op = tout; a1 = 0; a2 = 0; r = 3; bb = 0 }

abbrev unused : Tac
unused = record { id = 0; set = false; op = tassign; a1 = 1; a2 = 0; r = 4; bb = 0 }

abbrev blocks : List (List Tac)
blocks = (unused ∷ copy ∷ []) ∷ (write ∷ []) ∷ []

opt_unused_vars-keeps_example :
    (b' : List Tac) × In b' (opt_unused_vars variable blocks) × In copy b'
opt_unused_vars-keeps_example =
    opt_unused_vars-keeps variable blocks (unused ∷ copy ∷ []) copy (inl refl) (inr (inl refl)) refl
      (λ assign. (write ∷ [], write, 3, inr (inl refl), inl refl, inl refl, refl, refl))
