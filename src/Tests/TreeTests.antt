-- ===== src/Tests/TreeTests.antt =====
-- Tests of src/tree.c and src/3ac.c on the program that reads `x`, counts it down to 0 and writes it.
use milac.Prelude.{
  ℕ, [], ◌∷◌, ◌≡◌, refl, Option, none, some, true, false, ◌==◌, ◌||◌, arith, bytes_eq, signed_lt,
  sub32, ◌<◌, length, word_mod, if◌then◌else◌, Bytes,
}
use milac.HashTab.{hash_tab_lookup, hash_tab_insert}
use milac.HashTab.MakeHash.{make_hash}
use milac.SymTab.Names.{decimal, temp_name, label_name}
use milac.SymTab.{
  st_insert_const, st_temp_symbol, Symbol, svar, sconst, vs_empty, no_register, st_init, st_insert,
}
use milac.Tac.Steps.{Steps}
use milac.TacGen.Numbered.{numbered, tac-listing}
use milac.TacGen.Correct.{tac-run_tree}
use milac.Tree.Builder.{
  Builder, M, ◌>>=◌, pure, new_nodes, set_node, next_id, insert_node, lookup_node, insert_const,
  temp_symbol, address,
}
use milac.Tree.Construct.{
  node_str, new_id, new_const, new_read, new_write, new_assign, new_binop, new_loop,
}
use milac.Tree.{
  Head, NodeType, Node, null, node, minus, lt, other_token, cl_statement, cl_expression, read_t,
  while_t, assign_t, write_t, id_t, const_t, biop_t,
}
use milac.Tac.{Tac, tlt, tsub, tin, tiff, tassign, tout}
use milac.Tac.Meaning.{Machine, exec_in, binop_value, value, assign}
use milac.TacGen.{TacCode, new_tac, tac}
use milac.TacGen.Sound.{Sound, Same}
use milac.TacGen.Suffix.{DistinctLabels}
use milac.TacGen.Listing.{listing, IsComplete}
use milac.Tree.Meaning.{run_tree, eval}

abbrev x_name : Bytes
x_name = b'x' ∷ []

insert_x : M ℕ
unfolding st_insert
insert_x s = elim (st_insert s.st x_name 1 true) [
  | none ↦ none
  | some (p, st') ↦ some (address p, record s { st = st' })
]

start : Builder
unfolding new_nodes st_init
start = new_nodes (st_init 0 13) 0 1000

abbrev with_sibling : Node → Node → Node
with_sibling null s = null
with_sibling (node h a b c _) s = node h a b c s

countdown : M Node
unfolding insert_x new_id new_const new_read new_write new_assign new_binop new_loop set_node
countdown = do
  p ← insert_x
  x ← new_id p x_name
  _ ← set_node p x
  first ← new_read p
  k ← new_const 0
  c ← new_binop (b'a' ∷ []) k x lt
  one ← new_const 1
  d ← new_binop (b'b' ∷ []) x one minus
  body ← new_assign d p
  loop ← new_loop c body
  end_ ← new_write x
  pure (with_sibling first (with_sibling loop end_))

result_of : Option (Node × Builder) → Node
result_of none = null
result_of (some (t, s)) = t

tree : Node
unfolding result_of countdown start
tree = result_of (countdown start)

abbrev leaf_head : ℕ → NodeType → ℕ → Head
leaf_head n ty p = record {
  id = n;
  klass = cl_expression;
  type = ty;
  leaf = true;
  op = other_token;
  symbol = p;
  tac = record new_tac { r = p };
}

abbrev x_node : Node
x_node = node (leaf_head 1 id_t 1) null null null null

abbrev cond_node : Node
cond_node =
    node
      (record (leaf_head 4 biop_t 0) {
        leaf = false;
        op = lt;
        tac = record new_tac { op = tlt; a1 = 2; a2 = 1; r = 3 };
      })
      (node (leaf_head 3 const_t 2) null null null null) x_node null null

abbrev less_node : Node
less_node =
    node
      (record (leaf_head 6 biop_t 0) {
        leaf = false;
        op = minus;
        tac = record new_tac { op = tsub; a1 = 1; a2 = 4; r = 5 };
      })
      x_node (node (leaf_head 5 const_t 4) null null null null) null null

abbrev statement_head : ℕ → NodeType → ℕ → Tac → Head
statement_head n ty p i = record (leaf_head n ty p) { klass = cl_statement; leaf = false; tac = i }

abbrev program : Node
program = node (statement_head 2 read_t 1 (record new_tac { op = tin; r = 1 })) null null null (
    node (statement_head 8 while_t 0 (record new_tac { op = tiff; a1 = 3; a2 = 6; r = 7 }))
      cond_node
      (node (statement_head 7 assign_t 1 (record new_tac { op = tassign; a1 = 5; r = 1 })) less_node
        null null null)
      null
      (node (statement_head 9 write_t 0 (record new_tac { op = tout; r = 1 })) x_node null null
        null))

-- `program` is what the functions of src/tree.c build.
countdown_tree : tree ≡ program
unfolding tree hash_tab_lookup make_hash hash_tab_insert next_id insert_node node_str decimal
    lookup_node insert_const st_insert_const temp_symbol st_temp_symbol temp_name bytes_eq
    label_name
countdown_tree = refl

abbrev symbol : ℕ → Symbol
symbol p = record {
  type = if p == 2 || p == 4 then sconst else svar;
  id = p;
  lineno = 0;
  val = if p == 4 then 1 else 0;
  name = [];
  reg = no_register;
  state = vs_empty;
}

abbrev owner : ℕ → Node
owner p = if p == 3 then cond_node else if p == 5 then less_node else null

abbrev before : Machine
before = record { env = λ p. 0; input = 2 ∷ []; output = [] }

abbrev done : Machine
done = record {
  env = λ p. if p == 1 then 0 else if p == 1 then 1 else if p == 1 then 2 else 0;
  input = [];
  output = 0 ∷ [];
}

program_run : run_tree symbol 3 program before ≡ some done
unfolding run_tree eval exec_in binop_value value assign signed_lt sub32
program_run = refl

program_labels : DistinctLabels (listing program [])
unfolding listing
program_labels = ground arith

program-Sound : Sound symbol owner program
program-Sound = ground arith

program-IsComplete : IsComplete program
program-IsComplete = ground arith

program_short : length (listing program []) < word_mod
unfolding listing
program_short = omega arith

-- The code of the program runs to its end and writes 0.
tac-run_tree_example :
    (code : TacCode) × (after : Machine) × (tac program ≡ some code)
    × Steps symbol code.ins code.ins before [] after
    × Same owner done after
tac-run_tree_example =
    tac-run_tree symbol owner program program-IsComplete program_short program_labels program-Sound
      3 before done program_run

tac-listing_example :
    tac program
    ≡ some (record { count = length (listing program []); ins = numbered 0 (listing program []) })
tac-listing_example = tac-listing program program-IsComplete program_short
