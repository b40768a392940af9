-- ===== src/Tests/CseTests.antt =====
-- Tests of src/cse.c.
use milac.Cse.Gen.{cse, gen_node}
use milac.Cse.Total.{Ready, cse-ends}
use milac.Cse.{Graph, Node, binop, cse_graph, cse_init, cse_ins, op_text}
use mathlib.Core.Option.{some-injective}
use milac.HashTab.MakeHash.{make_hash}
use milac.HashTab.{hash_tab_init, hash_tab_lookup, hash_tab_insert, hash_tab_update}
use milac.Prelude.{
  ℕ, zero, suc, ◌+◌, List, [], ◌∷◌, Option, none, some, false, map, ◌≡◌, refl, subst, bytes_eq,
  get_elem?, arith,
}
use milac.SymTab.Names.{decimal}
use milac.SymTab.{Symbol, svar, vs_empty, no_register}
use milac.Tac.{Op, Tac, tac_is_binop, tnone, tiff, tassign, tadd, tin, tout}
use milac.TacGen.{op_tac}

-- the variables are called a, b, c, ...
abbrev letter_symbol : ℕ → Symbol
letter_symbol p = record {
  type = svar;
  id = p;
  lineno = 0;
  val = 0;
  name = (b'a' + p) ∷ [];
  reg = no_register;
  state = vs_empty;
}

abbrev no_node : Node
no_node = record { id = 0; generated = false; op = tnone; l = 0; r = 0; s = 0; symbols = [] }

abbrev sum_tac : ℕ → ℕ → ℕ → Tac
sum_tac a b r = record (op_tac tadd r) { a1 = a; a2 = b }

abbrev ops : Option (List Tac) → Option (List (Op × ℕ × ℕ × ℕ))
ops none = none
ops (some is) = some (map (λ i. (i.op, i.a1, i.a2, i.r)) is)

abbrev cse_ops : List Tac → Option (List (Op × ℕ × ℕ × ℕ))
cse_ops is = ops (cse 1 letter_symbol (λ p. false) [] 0 (λ p. no_node) 0 is)

-- `d := b + c; e := b + c; write d; write e` adds once.
sums :
    cse_ops (sum_tac 1 2 3 ∷ sum_tac 1 2 4 ∷ op_tac tout 3 ∷ op_tac tout 4 ∷ [])
    ≡ some ((tadd, 1, 2, 3) ∷ (tout, 0, 0, 3) ∷ (tout, 0, 0, 3) ∷ [])
unfolding cse gen_node cse_ins cse_graph cse_init tac_is_binop bytes_eq hash_tab_init
    hash_tab_lookup hash_tab_insert hash_tab_update make_hash binop op_text decimal
sums = refl

-- `d := b + c; write d; read b; e := b + c; write e` writes the old sum.
reread :
    cse_ops (sum_tac 1 2 3 ∷ op_tac tout 3 ∷ op_tac tin 1 ∷ sum_tac 1 2 4 ∷ op_tac tout 4 ∷ [])
    ≡ some ((tadd, 1, 2, 3) ∷ (tout, 0, 0, 3) ∷ (tin, 0, 0, 1) ∷ (tout, 0, 0, 3) ∷ [])
unfolding cse gen_node cse_ins cse_graph cse_init tac_is_binop bytes_eq hash_tab_init
    hash_tab_lookup hash_tab_insert hash_tab_update make_hash binop op_text decimal
reread = refl

-- `d := b + c; d := e + f; write d` adds what d was first given, into a symbol that is NULL.
again :
    cse_ops (sum_tac 1 2 3 ∷ sum_tac 4 5 3 ∷ op_tac tout 3 ∷ [])
    ≡ some ((tadd, 1, 2, 0) ∷ (tout, 0, 0, 0) ∷ [])
unfolding cse gen_node cse_ins cse_graph cse_init tac_is_binop bytes_eq hash_tab_init
    hash_tab_lookup hash_tab_insert hash_tab_update make_hash binop op_text decimal
again = refl

-- `d := b + c; e := d; if e`
abbrev block : List Tac
block =
    sum_tac 1 2 3 ∷ record (op_tac tassign 4) { a1 = 3 } ∷ record (op_tac tiff 5) { a1 = 4 } ∷ []

abbrev block_graph : Graph
unfolding cse_graph cse_init
block_graph = elim (cse_graph letter_symbol block (cse_init 0 (λ p. no_node) 0)) [
  | none ↦ cse_init 0 (λ p. no_node) 0
  | some g ↦ g
]

block_built : cse_graph letter_symbol block (cse_init 0 (λ p. no_node) 0) ≡ some block_graph
unfolding cse_ins cse_graph cse_init tac_is_binop bytes_eq hash_tab_init hash_tab_lookup
    hash_tab_insert hash_tab_update make_hash binop op_text decimal
block_built = refl

block-Ready :
    (n : ℕ) (i : Tac) → get_elem? block n ≡ some i → Ready letter_symbol block_graph i.op i
unfolding cse_ins cse_graph cse_init tac_is_binop bytes_eq hash_tab_init hash_tab_lookup
    hash_tab_insert hash_tab_update make_hash binop op_text decimal
block-Ready zero i e =
    subst (λ j. Ready letter_symbol block_graph j.op j) (some-injective _ _ e)
      ((λ h. absurd cc), (λ h. absurd cc))
block-Ready (suc zero) i e =
    subst (λ j. Ready letter_symbol block_graph j.op j) (some-injective _ _ e)
      ((λ h. absurd cc), (λ h. (3, refl)))
block-Ready (suc (suc zero)) i e =
    subst (λ j. Ready letter_symbol block_graph j.op j) (some-injective _ _ e)
      ((λ h. (3, refl)), (λ h. absurd cc))
block-Ready (suc (suc (suc n))) i e = absurd cc

cse-ends_example :
    (code : List Tac) × (cse 1 letter_symbol (λ p. false) [] 0 (λ p. no_node) 0 block ≡ some code)
cse-ends_example =
    cse-ends letter_symbol 1 (λ p. false) [] 0 (λ p. no_node) 0 block block_graph (omega arith)
      block_built block-Ready
