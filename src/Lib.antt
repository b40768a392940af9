-- ===== src/Lib.antt =====
-- milac, a compiler from Mila to code for the Tiny Machine. The compiler reads a program into a tree
-- (`src/tree.c`), turns it into three-address code (`src/3ac.c`) whose operands are symbols of a symbol
-- table (`src/symtab.c` over `src/hashtab.c`), optimizes the code block by block (`src/optimize.c` and
-- the passes that it calls), assigns registers by a linear scan (`src/regalloc.c`, with the stack of
-- `src/stack.c`) and emits instructions (`src/gen.c`, `src/code.c`) that `src/tm.c` runs.
--
-- Which file models what:
--   * `Stack.antt`: `stackt_t` and the operations of `src/stack.c`, under their names. `Stack/View.antt`
--     compares them with a list.
--   * `HashTab.antt`: `hasht_tab_t` and the operations of `src/hashtab.c`; `HashTab/MakeHash.antt` has
--     `make_hash`. `HashTab/Lookup.antt`, `Full.antt`, `Remove.antt`, `Update.antt` and `Values.antt` say
--     what the operations do to `hash_tab_lookup`, on lemmas about chains in `HashTab/Chain.antt`.
--   * `SymTab.antt`: the table of `src/symtab.c`, with the symbols allocated so far as a list and a
--     pointer as an index in it; `SymTab/Names.antt` has the names that `sprintf` writes, and
--     `SymTab/Insert.antt` is about `st_insert` and `SymTab/Constants.antt` about `st_insert_const`.
--   * `Tac.antt`: `tac_t` and `codeop_type` of `src/3ac.h`. `Tac/Meaning.antt` runs instructions by the
--     reading of `src/const_prop.c` and `src/gen.c`; `Tac/Words.antt` has what an instruction reads.
--   * `Tree.antt`: `tree_node_t` of `src/tree.h`; `Tree/Builder.antt` has the state in which nodes are made and
--     `Tree/Construct.antt` the functions `new_...` of `src/tree.c`, with `tac_gen`. `Tree/Meaning.antt` says what
--     a tree means, and `Tree/Built.antt` and `Tree/Meant.antt` that conditions and loops are built so.
--   * `TacGen.antt`: `gen` and `tac` of `src/3ac.c`. `TacGen/Listing.antt` lists the instructions of a tree,
--     `Tac/Steps.antt` runs code with jumps, and the other children of `TacGen` compare the two runs.
--   * `Optimize/Algebra.antt`: `opt_algebra` of `src/optimize.c`, over `Optimize/Pool.antt`, the interface
--     to `st_insert_const`. `Optimize/Algebra/` compares blocks before and after it.
--     `Optimize/UnusedVars.antt` has `opt_unused_vars`, `Optimize/Driver.antt` `optimize` over its passes.
--   * `Bitset.antt`: the macros of `src/bitset.h`; `Bitset/Laws.antt` has what they promise. `Lva.antt`:
-- `defuse_bb`
--     and `lva` of `src/lva.c`, and `Lva/Inside.antt` `lva_bb`. `Lva/Exposed.antt` and `Lva/Live.antt` are
--     about a block, `Lva/Grows.antt`, `Lva/Ends.antt` and `Lva/Settled.antt` about the loop.
--   * `RegAlloc.antt`: `fill_interval_list`, `lin_expire_old`, `lin_add_active`, `lin_spill` and `lin_scan` of
--     `src/regalloc.c`. `RegAlloc/Queue.antt` counts elements of the queues, `Safe.antt` and `Spill.antt`
--     have the invariant, `Sorted.antt` the order of the queue, `Disjoint.antt` the scan.
--     `RegAlloc/Intervals.antt` has `intervals` and `reg_alloc`; `Growth.antt`, `Covers.antt` and `Spans.antt` are
--     about the intervals, `Typed.antt` and `Alloc.antt` about the whole.
--   * `CopyProp.antt`: `src/copy_prop.c`; `CopyProp/Replace.antt` is about a block and `CopyProp/Ends.antt` about
--     the loop.
--   * `Blocks.antt`: `bb_t` and the predecessors of a block in `src/bb.c`, which `Blocks/Preds.antt` is about.
--     `Blocks/Build.antt` has `bb_build` of `src/3ac.c`, and `Blocks/Partition.antt`, `Stuck.antt` and
--     `Built.antt` are about it. `Blocks/Compact.antt` has `bb_compact`.
--   * `ConstProp.antt`: `binop_fold` of `src/const_prop.c`, `ConstProp/Propagate.antt` `cp_propagate`, and
--     `ConstProp/Fold.antt` `cp_fold` and `const_prop`. `ConstProp/Known.antt` and `Sound.antt` are about the
--     first pass, `Folded.antt` and `Replaced.antt` about the second.
--   * `Cse.antt`: the graph of a block in `src/cse.c`; `Cse/Gen.antt` has `gen` and `cse`. `Cse/Valid.antt` and
--     `Cse/Steps.antt` are about valid graphs, `Cse/Ends.antt` and `Cse/Total.antt` about the end. The fuel of
--     `gen_node` is the id of the node and one: its operands are older.
--   * `Gen.antt`: the registers of `src/gen.c`, `Gen/Select.antt` the instructions that it chooses and
--     `Gen/Blocks.antt` the loop over the blocks. `Gen/Registers.antt` and `Gen/Operands.antt` have the
--     invariant of the registers, `Gen/Jumps.antt` the jumps of conditions.
--   * `Code.antt`: the emit functions of `src/code.c`, with their globals as the state `Emitter`;
--     `Code/Bounds.antt` is about the locations, `Code/Jump.antt` runs a jump on the machine.
--   * `Tm.antt`: the state of `src/tm.c`; `Tm/Lexer.antt` has its lexer, `Tm/Read.antt` `readInstructions`,
--     `Tm/Execute.antt` `stepTM` and the loop that runs it, `Tm/Read/Load.antt` programs that are read,
--     `Tm/Safe.antt` and `Tm/Safe/Step.antt` its faults, `Tm/Lexer/Decimal.antt` numbers in text.
--   * `Prelude.antt` and its children: names, Boolean tests, lists and 32-bit words that all use;
--     `Tests.antt` and its children apply the theorems to concrete inputs.
--
-- State is passed explicitly. Numbers are natural numbers; a `uint32_t` or `int32_t` is its bit pattern
-- with the wrap-around written out. A fault of the C program (an access outside an array, `strcmp` of
-- NULL, a shift by 32 or more, a division of -2 ^ 31 by -1, `gets` at the end of the input or of a line
-- too long) is `none`, or `fault` in `Tm/Read.antt`.
-- Loops over lists are structural recursion. In the front of the compiler and in the machine, `digits` has
-- ten as its fuel, which hold every 32-bit number, and `get_num` the length of its text and one, since
-- each turn of its loop but the
-- first reads a sign. The fuel of `run_tree` is the number of rounds that each loop may take; a theorem
-- about it holds for every fuel with which the run ends. The fuel of `lva` and of `copy_prop` is the number
-- of their rounds.
--
-- Parameters: `realloc` in `src/stack.c`, whose success and copying are hypotheses, and a hash function,
-- which a table holds as a field. The symbol table stands behind the interface `Pool` for the optimizer,
-- which `Optimize/Symbols.antt` fills from the table, and as the function `deref` from pointers to symbols
-- elsewhere. `malloc` and `strdup` are taken to succeed.
--
-- Not modelled: printing and tracing, freeing, the lexer and the grammar, the list and queue macros
-- (a queue is a list), and the parts of the compiler that the tree of files above does not name.
pub mod Prelude
pub mod Stack
pub mod HashTab
pub mod SymTab
pub mod Tac
pub mod Optimize
pub mod RegAlloc
pub mod Tm
pub mod Tree
pub mod TacGen
pub mod Bitset
pub mod Lva
pub mod Gen
pub mod CopyProp
pub mod Code
pub mod Blocks
pub mod ConstProp
pub mod Cse
mod Tests
