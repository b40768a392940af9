-- ===== src/Lva/Live.antt =====
-- What src/lva.c computes for a block is enough: with the variables of its `in` alike, a block does
-- the same and leaves the variables of its `out` alike.
use milac.Lva.Exposed.{is_var, reads_id, writes_id, exposed, written, defuse_bb-exposed}
use milac.Lva.{Bits, Lva, no_bits, defuse_bb}
use milac.Prelude.{
  ◌>>=◌, ℕ, List, [], ◌∷◌, ◌≡◌, refl, ap, Option, none, some, Bool, true, false, not, ◌&&◌, ◌||◌,
  ◌==◌, arith,
}
use milac.SymTab.{Symbol}
use milac.Tac.Meaning.{
  Machine, is_const, value, binop_value, assign, exec_in, exec_op, exec, run, owns_op, owns,
  DistinctIds,
}
use milac.Tac.Words.{All}
use milac.Tac.{Op, Tac, tnone, tiff, tjmp, tin, tout, tassign, tlabel}

-- `own` are the symbols of the block, which no label is
module _ (deref : ℕ → Symbol) (own : ℕ → Bool) where
  -- the same input and output, and the same values of the variables in the set
  pub record Alike (s : Bits) (m n : Machine) : Type 0 where
    pub env_alike :
        (p : ℕ)
        → own p ≡ true
        → is_const (deref p) ≡ false
        → s (deref p).id ≡ true
        → n.env p ≡ m.env p
    pub input_alike : n.input ≡ m.input
    pub output_alike : n.output ≡ m.output

  -- both fault, or both go on alike
  abbrev pub BothAlike : Bits → Option Machine → Option Machine → Type 0
  BothAlike s none none = Unit
  BothAlike s (some m) (some n) = Alike s m n
  BothAlike s _ _ = ◌≡◌ {A = Bool} true false

  -- the ids to be alike before an instruction
  abbrev before : Op → Tac → Bits → Bits
  before op i s = λ k. reads_id deref k op i || not (writes_id deref k op i) && s k

  value-Alike :
      (s : Bits) (m n : Machine) (p : ℕ)
      → own p ≡ true
      → Alike s m n
      → (is_var deref (deref p).id p ≡ true → s (deref p).id ≡ true)
      → value deref n.env p ≡ value deref m.env p
  unfolding value
  value-Alike s m n p o a h = ground (arith, a.env_alike p o)

  assign-Alike :
      (ids : DistinctIds deref own) (s t : Bits) (m n : Machine) (r v : ℕ)
      → own r ≡ true
      → Alike t m n
      → ((k : ℕ) → (k == (deref r).id) ≡ false → s k ≡ true → t k ≡ true)
      → Alike s (assign m r v) (assign n r v)
  unfolding assign
  assign-Alike ids s t m n r v o a h = record {
    env_alike =
        λ p mine var live. ground (arith, ids p r mine o, a.env_alike p mine var, h (deref p).id);
    input_alike = a.input_alike;
    output_alike = a.output_alike;
  }

  weaken :
      (s t : Bits) (m n : Machine) → Alike t m n → ((k : ℕ) → s k ≡ true → t k ≡ true) → Alike s m n
  weaken s t m n a h = record {
    env_alike = λ p mine var live. a.env_alike p mine var (h (deref p).id live);
    input_alike = a.input_alike;
    output_alike = a.output_alike;
  }

  binop-Alike :
      (ids : DistinctIds deref own) (s t : Bits) (m n : Machine) (r : ℕ) (o o' : Option ℕ)
      → o' ≡ o
      → own r ≡ true
      → Alike t m n
      → ((k : ℕ) → (k == (deref r).id) ≡ false → s k ≡ true → t k ≡ true)
      → BothAlike s (o >>= λ v. some (assign m r v)) (o' >>= λ v. some (assign n r v))
  binop-Alike ids s t m n r none o' e mine a h = rw e tt
  binop-Alike ids s t m n r (some v) o' e mine a h = rw e (assign-Alike ids s t m n r v mine a h)

  in-Alike :
      (ids : DistinctIds deref own) (s t : Bits) (m n : Machine) (r : ℕ) (l l' : List ℕ)
      → l' ≡ l
      → own r ≡ true
      → Alike t m n
      → ((k : ℕ) → (k == (deref r).id) ≡ false → s k ≡ true → t k ≡ true)
      → BothAlike s (exec_in r m l) (exec_in r n l')
  unfolding exec_in
  in-Alike ids s t m n r [] l' e mine a h = rw e tt
  in-Alike ids s t m n r (v ∷ l) l' e mine a h =
      let rest : Alike t (record m { input = l }) (record n { input = l }) = record {
        env_alike = a.env_alike;
        input_alike = refl;
        output_alike = a.output_alike;
      } in
      rw e (assign-Alike ids s t (record m { input = l }) (record n { input = l }) r v mine rest h)

  exec_op-Alike :
      (ids : DistinctIds deref own) (op : Op) (i : Tac) (s : Bits) (m n : Machine)
      → owns_op own op i ≡ true
      → Alike (before op i s) m n
      → BothAlike s (exec_op deref op i m) (exec_op deref op i n)
  unfolding exec_op
  exec_op-Alike ids tin i s m n mine a =
      in-Alike ids s (before tin i s) m n i.r m.input n.input a.input_alike mine a
        (λ k e h. ground arith)
  exec_op-Alike ids tout i s m n mine a =
      let v = value-Alike (before tout i s) m n i.r mine a (λ h. ground arith) in
      let w = weaken s (before tout i s) m n a (λ k h. ground arith) in
      record {
        env_alike = w.env_alike;
        input_alike = w.input_alike;
        output_alike = ground (arith, w.output_alike);
      }
  exec_op-Alike ids tassign i s m n mine a =
      let v = value-Alike (before tassign i s) m n i.a1 (ground arith) a (λ h. ground arith) in
      rw v (
        assign-Alike ids s (before tassign i s) m n i.r (value deref m.env i.a1) (ground arith) a
          (λ k e h. ground arith))
  exec_op-Alike ids tnone i s m n mine a = a
  exec_op-Alike ids tiff i s m n mine a = weaken s (before tiff i s) m n a (λ k h. ground arith)
  exec_op-Alike ids tjmp i s m n mine a = a
  exec_op-Alike ids tlabel i s m n mine a = a
  exec_op-Alike ids op i s m n mine a =
      let x = value-Alike (before op i s) m n i.a1 (ground arith) a (λ h. ground arith) in
      let y = value-Alike (before op i s) m n i.a2 (ground arith) a (λ h. ground arith) in
      binop-Alike ids s (before op i s) m n i.r
        (binop_value op (value deref m.env i.a1) (value deref m.env i.a2))
        (binop_value op (value deref n.env i.a1) (value deref n.env i.a2)) (ground (arith, x, y))
        (ground arith) a (λ k e h. ground arith)

  abbrev live_before : List Tac → Bits → Bits
  live_before [] s = s
  live_before (i ∷ is) s = before i.op i (live_before is s)

  live_before-exposed :
      (is : List Tac) (s : Bits) (k : ℕ)
      → live_before is s k ≡ (exposed deref k is || not (written deref k is) && s k)
  live_before-exposed [] s k = ground arith
  live_before-exposed (i ∷ is) s k = ground (arith, live_before-exposed is s k)

  then-Alike :
      (s : Bits) (t : Bits) (is : List Tac) (o o' : Option Machine)
      → BothAlike t o o'
      → ((m n : Machine) → Alike t m n → BothAlike s (run deref is m) (run deref is n))
      → BothAlike s (o >>= run deref is) (o' >>= run deref is)
  then-Alike s t is none none b h = tt
  then-Alike s t is none (some n) b h = absurd (cc b)
  then-Alike s t is (some m) none b h = absurd (cc b)
  then-Alike s t is (some m) (some n) b h = h m n b

  run-Alike :
      (ids : DistinctIds deref own) (is : List Tac) (s : Bits) (m n : Machine)
      → All (λ i. owns own i ≡ true) is
      → Alike (live_before is s) m n
      → BothAlike s (run deref is m) (run deref is n)
  unfolding run exec
  run-Alike ids [] s m n mine a = a
  run-Alike ids (i ∷ is) s m n (first, mine) a =
      then-Alike s (live_before is s) is (exec deref i m) (exec deref i n)
        (exec_op-Alike ids i.op i (live_before is s) m n first a)
        (λ m n. run-Alike ids is s m n mine)

  -- What `defuse_bb` makes of empty sets decides with any `out` which variables a block needs: on two
  -- machines with the same input and output that agree on the variables with an id in `use`, or in
  -- `out` but not in `def`, the block faults on both, or goes on with the same input and output and
  -- the variables with an id in `out` alike. The variables are those of a set that has all symbols that
  -- the block reads and writes and in which different symbols have different ids.
  pub run-defuse_bb :
      (ids : DistinctIds deref own) (is : List Tac) (l : Lva) (out : Bits) (m n : Machine)
      → All (λ i. owns own i ≡ true) is
      → l.def ≡ no_bits
      → l.use_ ≡ no_bits
      → Alike
          (λ k. out k && not ((defuse_bb deref is l).def k) || (defuse_bb deref is l).use_ k)
          m
          n
      → BothAlike out (run deref is m) (run deref is n)
  run-defuse_bb ids is l out m n mine d u a = run-Alike ids is out m n mine (
      weaken (live_before is out) _ m n a (λ k h. ground (
        arith,
        defuse_bb-exposed deref k is l,
        live_before-exposed is out k,
        ap (λ z. z k) d,
        ap (λ z. z k) u,
      )))
