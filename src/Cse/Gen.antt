-- ===== src/Cse/Gen.antt =====
-- src/cse.c: `gen_node` and `gen`, which write the code of a block from its graph. The operands of a node
-- are older than it, so its id and one is fuel enough; `none` is a fault, too.
use milac.Cse.{Node, Graph, cse_init, cse_graph, set_node, name}
use milac.HashTab.{hash_tab_lookup}
use milac.Lva.{Bits}
use milac.Prelude.{
  ℕ, zero, suc, ◌+◌, List, [], ◌∷◌, ◌++◌, Option, none, some, Bool, true, false, ◌>>=◌,
  if◌then◌else◌,
}
use milac.SymTab.{Symbol, SymbolType, svar, sconst, slabel}
use milac.Tac.{Op, Tac, tnone, tiff, tjmp, tin, tout, tassign, tlabel}
use milac.TacGen.{op_tac}

abbrev pub is_none : Op → Bool
is_none tnone = true
is_none _ = false

abbrev pub type_is_label : SymbolType → Bool
type_is_label slabel = true
type_is_label svar = false
type_is_label sconst = false

-- the front of a node's symbols, or its `s`
abbrev pub front_or : List ℕ → ℕ → ℕ
front_or [] s = s
front_or (x ∷ xs) s = x

abbrev pub symbol_of : Node → ℕ
symbol_of n = front_or n.symbols n.s

-- the nodes and `newcode`
pub record Code : Type 0 where
  pub graph : Graph
  pub newcode : List Tac

module _ (cur_bb : ℕ) where
  -- the instruction of the node `n`
  abbrev pub node_tac : Graph → Node → Tac
  node_tac g n = record (op_tac n.op (symbol_of n)) {
    a1 = symbol_of (g.nodes n.l);
    a2 = symbol_of (g.nodes n.r);
    bb = cur_bb;
  }

  -- whether an instruction was generated, `*gen_s`, and the code
  unfoldable pub gen_node : ℕ → ℕ → ℕ → Code → Option (Bool × ℕ × Code)
  gen_node zero p s c = none
  gen_node (suc fuel) p s c =
      let n = c.graph.nodes p in
      let left : Option Code =
        if is_none (c.graph.nodes n.l).op
        then some c
        else (gen_node fuel n.l s c >>= λ r. some r.2) in
      let all : Option (Bool × ℕ × Code) = left >>= λ c₁.
      (if is_none (c₁.graph.nodes n.r).op
        then some c₁
        else (gen_node fuel n.r s c₁ >>= λ r. some r.2))
      >>= λ c₂. some (
        true,
        symbol_of n,
        record {
          graph = set_node c₂.graph p (record (c₂.graph.nodes p) { generated = true });
          newcode = c₂.newcode ++ (node_tac c₂.graph n ∷ []);
        },
      ) in
      if is_none n.op
      then some (false, s, c)
      else if n.generated
      then some (false, symbol_of n, c)
      else all

  module _ (deref : ℕ → Symbol) (live : Bits) where
    abbrev pub push_code : Tac → Code → Code
    push_code i c = record c { newcode = c.newcode ++ (i ∷ []) }

    -- `gen_node` on the node of a symbol
    abbrev pub gen_at : ℕ → ℕ → Code → Option (Bool × ℕ × Code)
    gen_at p s c = gen_node ((c.graph.nodes p).id + 1) p s c

    abbrev pub gen_found : ℕ → Option ℕ → Code → Option Code
    gen_found s none c = some c
    gen_found s (some p) c = gen_at p s c >>= λ r. some r.2

    -- the loops over the symbols of the table that are live behind the block
    unfoldable pub gen_live : List ℕ → Code → Option Code
    unfolding gen_node
    gen_live [] c = some c
    gen_live (s ∷ ss) c =
        (if live (deref s).id
          then (hash_tab_lookup c.graph.tab (name deref s) >>= λ p. gen_found s p c)
          else some c)
        >>= gen_live ss

    abbrev pub gen_out : Tac → Option ℕ → Code → Option Code
    gen_out i none c = some (push_code i c)
    gen_out i (some p) c = gen_at p i.r c >>= λ r. some (push_code (record i { r = r.1 }) r.2)

    -- NULL is followed in `gen_node`.
    abbrev pub gen_iff : Tac → Option ℕ → Code → Option Code
    gen_iff i none c = none
    gen_iff i (some p) c =
        gen_at p i.a1 c >>= λ r. some (push_code (if r.0 then i else record i { a1 = r.1 }) r.2)

    abbrev pub gen_assign : Tac → Option ℕ → Code → Option Code
    gen_assign i none c = none
    gen_assign i (some p) c =
        gen_at p i.r c >>= λ r. some (if r.0 then r.2 else push_code (record i { r = r.1 }) r.2)

    -- `symbols` are the symbols of the table that are no labels
    abbrev pub gen_op : List ℕ → Op → Tac → Code → Option Code
    gen_op symbols tin i c = some (push_code i c)
    gen_op symbols tlabel i c = some (push_code i c)
    gen_op symbols tout i c = hash_tab_lookup c.graph.tab (name deref i.r) >>= λ p. gen_out i p c
    gen_op symbols tiff i c = gen_live symbols c >>= λ c₁.
        hash_tab_lookup c₁.graph.tab (name deref i.a1) >>= λ p. gen_iff i p c₁
    gen_op symbols tjmp i c = gen_live symbols c >>= λ c₁. some (push_code i c₁)
    gen_op symbols tassign i c =
        hash_tab_lookup c.graph.tab (name deref i.r) >>= λ p. gen_assign i p c
    gen_op symbols _ i c = some c

    -- the loop over the instructions
    unfoldable pub gen_loop : List ℕ → List Tac → Code → Option Code
    unfolding gen_live
    gen_loop symbols [] c = some c
    gen_loop symbols (i ∷ is) c = gen_op symbols i.op i c >>= gen_loop symbols is

    unfoldable pub gen : List ℕ → List Tac → Code → Option Code
    unfolding gen_loop
    gen symbols is c = gen_loop symbols is c >>= gen_live symbols

    -- `symbol_list` on the symbols of the table
    unfoldable pub symbol_list : List ℕ → List ℕ
    symbol_list [] = []
    symbol_list (p ∷ ps) =
        let rest = symbol_list ps in if type_is_label (deref p).type then rest else p ∷ rest

    -- the instructions of the block after the pass; `left` and `nodes` are what is left in the memory
    unfoldable pub cse : List ℕ → ℕ → (ℕ → Node) → ℕ → List Tac → Option (List Tac)
    unfolding gen symbol_list
    cse table left nodes count is = cse_graph deref is (cse_init left nodes count) >>= λ g.
        gen (symbol_list table) is (record { graph = g; newcode = [] }) >>= λ c. some c.newcode
