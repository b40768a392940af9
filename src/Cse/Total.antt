-- ===== src/Cse/Total.antt =====
-- src/cse.c: `gen` and `cse` return.
use milac.Cse.Ends.{Marked, Ended, node-ends}
use milac.Cse.Gen.{
  Code, gen_at, gen_found, gen_live, gen_out, gen_iff, gen_assign, gen_op, gen_loop, gen,
  symbol_list, cse,
}
use milac.Cse.Steps.{cse_graph-Grows}
use milac.Cse.Valid.{IsValid}
use milac.Cse.{Node, Graph, cse_init, cse_tab_size, cse_graph, name}
use milac.HashTab.Full.{init-lookup}
use milac.HashTab.Lookup.{hash_tab_init-IsValid}
use milac.HashTab.MakeHash.{make_hash, make_hash-lt}
use milac.HashTab.{hash_tab_lookup}
use milac.Lva.{Bits}
use milac.Prelude.{
  ℕ, suc, ◌+◌, ◌*◌, ◌<◌, ◌≡◌, refl, ◌∙◌, List, [], ◌∷◌, length, get_elem?, Option, none, some, inl,
  inr, Bool-cases, Bytes, ◌>>=◌, word_mod, arith,
}
use milac.SymTab.{Symbol}
use milac.Tac.{Op, Tac, tiff, tjmp, tin, tout, tassign, tlabel}

-- The code is there, and its graph is valid and has the table and the count of `g`.
abbrev Went : ℕ → Graph → Option Code → Type 0
Went lo g o = (c : Code) × (o ≡ some c) × Marked lo g c.graph

went-bind :
    (lo : ℕ) (g : Graph) (o : Option Code) (f : Code → Option Code)
    → Went lo g o
    → ((c : Code) → Marked lo g c.graph → Went lo g (f c))
    → Went lo g (o >>= f)
went-bind lo g o f (c, e, ok) next = rw e (next c ok)

module _ (deref : ℕ → Symbol) where
  -- A lookup of the name finds a node.
  abbrev pub HasNode : Graph → ℕ → Type 0
  HasNode g p = (n : ℕ) × (hash_tab_lookup g.tab (name deref p) ≡ some (some n))

  -- The instruction has the node that it needs: a jump that of its condition, an assignment that of its
  -- result.
  abbrev pub Ready : Graph → Op → Tac → Type 0
  Ready g op i = (op ≡ tiff → HasNode g i.a1) × (op ≡ tassign → HasNode g i.r)

  module _ (lo bb : ℕ) (live : Bits) (g : Graph) where
    at-ends :
        (k : Bytes) (p s : ℕ) (c : Code)
        → Marked lo g c.graph
        → hash_tab_lookup g.tab k ≡ some (some p)
        → Ended lo g (gen_at bb deref live p s c)
    at-ends k p s c (valid, t, n) e =
        let (x, r, (valid₁, t₁, n₁)) = node-ends lo bb p s c valid (valid.named k p (rw t e)) in
        (x, r, (valid₁, t₁ ∙ t, n₁ ∙ n))

    looked_up :
        (k : Bytes) (c : Code) (f : Option ℕ → Option Code)
        → Marked lo g c.graph
        → ((found : Option ℕ) → hash_tab_lookup g.tab k ≡ some found → Went lo g (f found))
        → Went lo g (hash_tab_lookup c.graph.tab k >>= f)
    looked_up k c f (valid, t, n) next =
        let (found, e) = valid.total k in rw e (next found (rw (← t) e))

    known :
        (k : Bytes) (p : ℕ) (c : Code) (f : Option ℕ → Option Code)
        → Marked lo g c.graph
        → hash_tab_lookup g.tab k ≡ some (some p)
        → Went lo g (f (some p))
        → Went lo g (hash_tab_lookup c.graph.tab k >>= f)
    known k p c f (valid, t, n) e next = rw (t, e) next

    gen_found-ends :
        (s : ℕ) (found : Option ℕ) (c : Code)
        → Marked lo g c.graph
        → hash_tab_lookup g.tab (name deref s) ≡ some found
        → Went lo g (gen_found bb deref live s found c)
    gen_found-ends s none c ok e = (c, refl, ok)
    gen_found-ends s (some p) c ok e =
        let (x, r, ok₁) = at-ends _ p s c ok e in rw r (x.2, refl, ok₁)

    gen_live-ends :
        (ss : List ℕ) (c : Code) → Marked lo g c.graph → Went lo g (gen_live bb deref live ss c)
    unfolding gen_live
    gen_live-ends [] c ok = (c, refl, ok)
    gen_live-ends (s ∷ ss) c ok =
        went-bind lo g _ _
          (elim (Bool-cases (live (deref s).id)) [
            | inl alive ↦
                rw alive (looked_up (name deref s) c _ ok (λ f e. gen_found-ends s f c ok e))
            | inr dead ↦ rw dead (c, refl, ok)
          ])
          (gen_live-ends ss)

    gen_out-ends :
        (i : Tac) (found : Option ℕ) (c : Code)
        → Marked lo g c.graph
        → hash_tab_lookup g.tab (name deref i.r) ≡ some found
        → Went lo g (gen_out bb deref live i found c)
    gen_out-ends i none c ok e = (_, refl, ok)
    gen_out-ends i (some p) c ok e = let (x, r, ok₁) = at-ends _ p i.r c ok e in rw r (_, refl, ok₁)

    gen_iff-ends :
        (i : Tac) (p : ℕ) (c : Code)
        → Marked lo g c.graph
        → hash_tab_lookup g.tab (name deref i.a1) ≡ some (some p)
        → Went lo g (gen_iff bb deref live i (some p) c)
    gen_iff-ends i p c ok e = let (x, r, ok₁) = at-ends _ p i.a1 c ok e in rw r (_, refl, ok₁)

    gen_assign-ends :
        (i : Tac) (p : ℕ) (c : Code)
        → Marked lo g c.graph
        → hash_tab_lookup g.tab (name deref i.r) ≡ some (some p)
        → Went lo g (gen_assign bb deref live i (some p) c)
    gen_assign-ends i p c ok e =
        let (x, r, ok₁) = at-ends _ p i.r c ok e in
        rw r (elim (Bool-cases x.0) [
          | inl new ↦ rw new (x.2, refl, ok₁)
          | inr old ↦ rw old (_, refl, ok₁)
        ])

    gen_op-ends :
        (symbols : List ℕ) (op : Op) (i : Tac) (c : Code)
        → Marked lo g c.graph
        → Ready g op i
        → Went lo g (gen_op bb deref live symbols op i c)
    gen_op-ends symbols tin i c ok ready = (_, refl, ok)
    gen_op-ends symbols tlabel i c ok ready = (_, refl, ok)
    gen_op-ends symbols tout i c ok ready =
        looked_up (name deref i.r) c _ ok (λ f e. gen_out-ends i f c ok e)
    gen_op-ends symbols tiff i c ok ready =
        let (p, e) = ready.0 refl in
        went-bind lo g _ _ (gen_live-ends symbols c ok)
          (λ c₁ ok₁. known (name deref i.a1) p c₁ _ ok₁ e (gen_iff-ends i p c₁ ok₁ e))
    gen_op-ends symbols tjmp i c ok ready =
        went-bind lo g _ _ (gen_live-ends symbols c ok) (λ c₁ ok₁. (_, refl, ok₁))
    gen_op-ends symbols tassign i c ok ready =
        let (p, e) = ready.1 refl in known (name deref i.r) p c _ ok e (gen_assign-ends i p c ok e)
    gen_op-ends symbols _ i c ok ready = (c, refl, ok)

    gen_loop-ends :
        (symbols : List ℕ) (is : List Tac) (c : Code)
        → Marked lo g c.graph
        → ((n : ℕ) (i : Tac) → get_elem? is n ≡ some i → Ready g i.op i)
        → Went lo g (gen_loop bb deref live symbols is c)
    unfolding gen_loop
    gen_loop-ends symbols [] c ok ready = (c, refl, ok)
    gen_loop-ends symbols (i ∷ is) c ok ready =
        went-bind lo g _ _ (gen_op-ends symbols i.op i c ok (ready 0 i refl))
          (λ c₁ ok₁. gen_loop-ends symbols is c₁ ok₁ (λ n. ready (suc n)))

    pub gen-ends :
        (symbols : List ℕ) (is : List Tac)
        → IsValid lo g
        → ((n : ℕ) (i : Tac) → get_elem? is n ≡ some i → Ready g i.op i)
        → (c : Code) × (gen bb deref live symbols is (record { graph = g; newcode = [] }) ≡ some c)
    unfolding gen
    gen-ends symbols is valid ready =
        let (c, e, ok) =
          went-bind lo g _ _ (gen_loop-ends symbols is _ (valid, refl, refl) ready)
            (gen_live-ends symbols) in
        (c, e)

-- a table without a key
init_empty :
    (left : ℕ) (nodes : ℕ → Node) (n : ℕ) (q : Bytes)
    → hash_tab_lookup (cse_init left nodes n).tab q ≡ some none
unfolding cse_init
init_empty left nodes n q = init-lookup {V = ℕ} left cse_tab_size make_hash q (
    hash_tab_init-IsValid left cse_tab_size make_hash (omega arith)
      (λ k. make_hash-lt k cse_tab_size (omega arith)))

init-IsValid : (left : ℕ) (nodes : ℕ → Node) (n : ℕ) → IsValid n (cse_init left nodes n)
unfolding cse_init
init-IsValid left nodes n = record {
  older = λ p here. absurd (omega (arith, here));
  named = λ q p e. let empty = init_empty left nodes n q in absurd cc;
  total = λ q. (none, init_empty left nodes n q);
  start = omega arith;
}

-- If the graph of the block can be built, with at most three nodes for each instruction in its 32 bits,
-- and the condition of each jump and the result of each assignment has a node in it, then `cse` returns
-- the code of the block.
pub cse-ends :
    (deref : ℕ → Symbol) (bb : ℕ) (live : Bits) (table : List ℕ) (left : ℕ) (nodes : ℕ → Node)
    (count : ℕ) (is : List Tac) (g : Graph)
    → count + 3 * length is < word_mod
    → cse_graph deref is (cse_init left nodes count) ≡ some g
    → ((n : ℕ) (i : Tac) → get_elem? is n ≡ some i → Ready deref g i.op i)
    → (code : List Tac) × (cse bb deref live table left nodes count is ≡ some code)
unfolding cse cse_init
cse-ends deref bb live table left nodes count is g small built ready =
    let (valid, more, less) =
      cse_graph-Grows deref count is (cse_init left nodes count) (init-IsValid left nodes count)
        small g built in
    let (c, e) = gen-ends deref count bb live g (symbol_list bb deref live table) is valid ready in
    rw (built, e) (c.newcode, refl)
