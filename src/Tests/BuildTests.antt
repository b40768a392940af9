-- ===== src/Tests/BuildTests.antt =====
-- Tests of `new_if` and `new_loop` of src/tree.c on constant conditions.
use milac.HashTab.{hash_tab_init}
use milac.HashTab.MakeHash.{make_hash}
use milac.Prelude.{
  ℕ, zero, suc, ◌+◌, ◌≡◌, inr, refl, sym, [], ◌∷◌, none, some, true, arith, signed_lt,
}
use mathlib.Core.Option.{some-injective}
use milac.SymTab.{Symbol, sconst, vs_empty, no_register}
use milac.Tac.Meaning.{Machine, value}
use milac.TacGen.{new_tac}
use milac.Tree.Builder.{Builder, symbol_val}
use milac.Tree.Construct.{new_if, new_loop}
use milac.Tree.Meaning.{eval, run_if, run_while, run_tree}
use milac.Tree.Meant.{Reads, IsTruth, new_if-run, new_loop-run, new_loop_lost}
use milac.Tree.{Head, Node, null, node, cl_expression, const_t, other_token}

abbrev constant : ℕ → Symbol
constant v = record {
  type = sconst;
  id = 0;
  lineno = 0;
  val = v;
  name = [];
  reg = no_register;
  state = vs_empty;
}

-- the state with one symbol, a constant
abbrev state : ℕ → Builder
state v = record {
  st = record {
    tab = hash_tab_init 0 13 make_hash;
    heap = constant v ∷ [];
    tmp_symb_id = 0;
    tmp_label_id = 0;
    symb_id = 1;
  };
  nodes_tab = hash_tab_init 0 1000 make_hash;
  nodeid = 1;
  node_of = λ p. null;
}

abbrev const_head : Head
const_head = record {
  id = 1;
  klass = cl_expression;
  type = const_t;
  leaf = true;
  op = other_token;
  symbol = 1;
  tac = record new_tac { r = 1 };
}

abbrev const_node : Node
const_node = node const_head null null null null

state-Reads : (v : ℕ) → Reads (λ p. constant v) (state v)
state-Reads v zero y e = absurd (cc e)
state-Reads v (suc zero) y e = some-injective _ _ e
state-Reads v (suc (suc p)) y e = absurd (cc e)

one-IsTruth : IsTruth (λ p. constant 1) const_node
unfolding eval value
one-IsTruth env v e = inr (sym (some-injective _ _ e))

abbrev machine : Machine
machine = record { env = λ p. 7; input = []; output = [] }

-- `if 1 then ...` is its first branch.
one_chosen : new_if const_node const_node null (state 1) ≡ some (const_node, state 1)
unfolding new_if symbol_val signed_lt
one_chosen = refl

new_if-run_example :
    run_tree (λ p. constant 1) 2 const_node machine
    ≡ run_if
        (eval (λ p. constant 1) const_node machine.env)
        (run_tree (λ p. constant 1) 2 const_node machine)
        (run_tree (λ p. constant 1) 2 null machine)
new_if-run_example =
    new_if-run (λ p. constant 1) const_node const_node null (state 1) (state-Reads 1)
      (λ e. (refl, refl)) one-IsTruth one_chosen 2 machine

zero_dropped : new_loop const_node const_node (state 0) ≡ some (null, state 0)
unfolding new_loop symbol_val
zero_dropped = refl

zero_value : (env : ℕ → ℕ) → eval (λ p. constant 0) const_node env ≡ some 0
unfolding eval value
zero_value env = refl

new_loop-run_example :
    run_tree (λ p. constant 0) (2 + 1) null machine
    ≡ run_while
        (2 + 1)
        (λ k. eval (λ p. constant 0) const_node k.env)
        (run_tree (λ p. constant 0) (2 + 1) const_node)
        machine
new_loop-run_example =
    new_loop-run (λ p. constant 0) const_node const_node (state 0) (state-Reads 0)
      (λ e. (refl, refl)) (λ e. zero_value) zero_dropped 2 machine

one_dropped : new_loop const_node const_node (state 1) ≡ some (null, state 1)
unfolding new_loop symbol_val
one_dropped = refl

new_loop_lost_example :
    (run_while 5
        (λ k. eval (λ p. constant 1) const_node k.env)
        (run_tree (λ p. constant 1) 5 const_node)
        machine
      ≡ none)
    × (run_tree (λ p. constant 1) 5 null machine ≡ some machine)
new_loop_lost_example =
    new_loop_lost (λ p. constant 1) const_head null null null null const_node (state 1) refl refl
      refl (omega arith) one_dropped 5 machine
