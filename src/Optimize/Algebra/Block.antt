-- ===== src/Optimize/Algebra/Block.antt =====
-- src/optimize.c: `opt_algebra` on a whole block.
use milac.Optimize.Algebra.Meaning.{
  left, right, exec-algebra_add, exec-algebra_sub, exec-algebra_mul, exec-algebra_div,
}
use milac.Optimize.Algebra.{
  is_val, to_assign, algebra_add, algebra_sub, algebra_mul, algebra_div, algebra_op, opt_algebra,
}
use milac.Optimize.Pool.{Pool}
use milac.Prelude.{
  ◌>>=◌, ℕ, List, [], ◌∷◌, ◌≡◌, refl, ap, ◌∙◌, fun_ext, Option, none, some, Bool, true, false, ◌&&◌,
  not, if◌then◌else◌, minus_one, IsWord, arith,
}
use milac.Tac.Meaning.{Machine, value, exec, run}
use milac.Tac.Words.{
  reads, All, Agree, WordReads, WordMachine, exec-Agree, exec-Words, value-IsWord,
}
use milac.Tac.{Op, Tac, tnone, tiff, tjmp, tin, tout, tassign, tadd, tsub, tmul, tdiv, tlabel}

module _ (pool : Pool) where
  open pool use {State, deref, insert_const, Known}

  -- Nothing that was known is lost or changed.
  abbrev Keeps : State → State → Type 0
  Keeps s s' = (p : ℕ) → Known s p → Known s' p × (deref s' p ≡ deref s p)

  abbrev KnownReads : State → Tac → Type 0
  KnownReads s i = All (Known s) (reads i.op i)

  -- `1 / x`, with an `x` that is not the constant 0
  abbrev pub is_inverse : State → Tac → Bool
  is_inverse s i = is_val pool s i.a1 1 && not (is_val pool s i.a2 0)

  -- What the block theorem asks of an instruction: what it reads is known, and it is no `1 / x`.
  abbrev pub Fits : State → Tac → Type 0
  Fits s i = KnownReads s i × (i.op ≡ tdiv → is_inverse s i ≡ false)

  insert-Keeps : (s : State) (v : ℕ) → Keeps s (insert_const s v).1
  insert-Keeps s v p known = (pool.Known_kept s v p known, pool.deref_kept s v p known)

  word :
      (s : State) (m : Machine) (p : ℕ)
      → WordMachine m
      → Known s p
      → IsWord (value (deref s) m.env p)
  word s m p w known = value-IsWord (deref s) m p w (pool.Known-IsWord s p known)

  insert_known : (s : State) (v : ℕ) → IsWord v → Known (insert_const s v).1 (insert_const s v).0
  insert_known s v h = pool.inserted-Known s v h

  -- The new instruction reads known symbols of the new state, which keeps the old one's.
  record Shape (s : State) (r : Tac × State) : Type 0 where
    keeps : Keeps s r.1
    known_reads : KnownReads r.1 r.0

  Shape_if :
      (s : State) (b : Bool) {x y : Tac × State}
      → Shape s x
      → Shape s y
      → Shape s (if b then x else y)
  Shape_if s true h k = h
  Shape_if s false h k = k

  -- where nothing is inserted
  same : (s : State) (i : Tac) → KnownReads s i → Shape s (i, s)
  same s i h = record { keeps = λ p known. (known, refl); known_reads = h }

  -- where the constant `v` is
  new :
      (s : State) (v : ℕ) (i : Tac)
      → KnownReads (insert_const s v).1 i
      → Shape s (i, (insert_const s v).1)
  new s v i h = record { keeps = insert-Keeps s v; known_reads = h }

  module _ (s : State) (i : Tac) (k : Known s i.a1) (l : Known s i.a2) where
    shape_add : Shape s (algebra_add pool s (record i { op = tadd }))
    unfolding algebra_add
    shape_add =
        Shape_if s _
          (Shape_if s _ (same s (to_assign pool i i.a2) (l, tt)) (
            Shape_if s _ (same s (to_assign pool i i.a1) (k, tt))
              (same s (record i { op = tadd }) (k, (l, tt)))))
          (same s (record i { op = tadd }) (k, (l, tt)))

    shape_sub : Shape s (algebra_sub pool s (record i { op = tsub }))
    unfolding algebra_sub
    shape_sub =
        Shape_if s _
          (Shape_if s _
            (new s minus_one (record i { op = tmul; a1 = (insert_const s minus_one).0 })
              (insert_known s minus_one (omega arith), ((insert-Keeps s minus_one i.a2 l).0, tt)))
            (Shape_if s _ (same s (to_assign pool i i.a1) (k, tt))
              (same s (record i { op = tsub }) (k, (l, tt)))))
          (same s (record i { op = tsub }) (k, (l, tt)))

    shape_mul : Shape s (algebra_mul pool s (record i { op = tmul }))
    unfolding algebra_mul
    shape_mul =
        Shape_if s _
          (Shape_if s _
            (new s 0 (to_assign pool i (insert_const s 0).0) (insert_known s 0 (omega arith), tt))
            (Shape_if s _ (same s (to_assign pool i i.a2) (l, tt)) (
              Shape_if s _ (same s (record i { op = tadd; a1 = i.a2 }) (l, (l, tt))) (
                Shape_if s _ (same s (to_assign pool i i.a1) (k, tt)) (
                  Shape_if s _ (same s (record i { op = tadd; a2 = i.a1 }) (k, (k, tt)))
                    (same s (record i { op = tmul }) (k, (l, tt))))))))
          (same s (record i { op = tmul }) (k, (l, tt)))

    shape_div : Shape s (algebra_div pool s (record i { op = tdiv }))
    unfolding algebra_div
    shape_div =
        Shape_if s _
          (Shape_if s _ (same s (record i { op = tdiv }) (k, (l, tt))) (
            Shape_if s _ (same s (to_assign pool i i.a2) (l, tt)) (
              Shape_if s _ (same s (to_assign pool i i.a1) (k, tt))
                (same s (record i { op = tdiv }) (k, (l, tt))))))
          (same s (record i { op = tdiv }) (k, (l, tt)))

  shape_op :
      (op : Op) (s : State) (i : Tac)
      → KnownReads s (record i { op = op })
      → Shape s (algebra_op pool op s (record i { op = op }))
  unfolding algebra_op
  shape_op tadd s i h = shape_add s i h.0 h.1.0
  shape_op tsub s i h = shape_sub s i h.0 h.1.0
  shape_op tmul s i h = shape_mul s i h.0 h.1.0
  shape_op tdiv s i h = shape_div s i h.0 h.1.0
  shape_op _ s i h = same s _ h

  exec-algebra_op :
      (op : Op) (s : State) (i : Tac) (m : Machine)
      → WordMachine m
      → Fits s (record i { op = op })
      → let r = algebra_op pool op s (record i { op = op }) in
        exec (deref r.1) r.0 m ≡ exec (deref s) (record i { op = op }) m
  unfolding algebra_op left right
  exec-algebra_op tadd s i m w h =
      exec-algebra_add pool s i m (word s m i.a1 w h.0.0) (word s m i.a2 w h.0.1.0)
  exec-algebra_op tsub s i m w h =
      exec-algebra_sub pool s i m (word s m i.a1 w h.0.0) (word s m i.a2 w h.0.1.0) h.0.1.0
  exec-algebra_op tmul s i m w h =
      exec-algebra_mul pool s i m (word s m i.a1 w h.0.0) (word s m i.a2 w h.0.1.0)
  exec-algebra_op tdiv s i m w h =
      exec-algebra_div pool s i m (word s m i.a1 w h.0.0) (word s m i.a2 w h.0.1.0) (h.1 refl)
  exec-algebra_op _ s i m w h = refl

  trans : {s s' s'' : State} → Keeps s s' → Keeps s' s'' → Keeps s s''
  trans h h' p known = let (k, e) = h p known in let (k', e') = h' p k in (k', e' ∙ e)

  -- What the rest of a block needs carries over to a later state.
  All-Known : {s s' : State} → Keeps s s' → (ps : List ℕ) → All (Known s) ps → All (Known s') ps
  All-Known h [] k = tt
  All-Known h (p ∷ ps) k = ((h p k.0).0, All-Known h ps k.1)

  Keeps-Agree :
      {s s' : State} → Keeps s s' → (ps : List ℕ) → All (Known s) ps → Agree (deref s) (deref s') ps
  Keeps-Agree h [] k = tt
  Keeps-Agree h (p ∷ ps) k = ((h p k.0).1, Keeps-Agree h ps k.1)

  Known-WordReads : (s : State) (ps : List ℕ) → All (Known s) ps → WordReads (deref s) ps
  Known-WordReads s [] k = tt
  Known-WordReads s (p ∷ ps) k = (pool.Known-IsWord s p k.0, Known-WordReads s ps k.1)

  binop_operands :
      (op : Op) (s : State) (i : Tac)
      → op ≡ tdiv
      → All (Known s) (reads op i)
      → Known s i.a1 × Known s i.a2
  binop_operands tdiv s i e h = (h.0, h.1.0)
  binop_operands tnone s i e h = cc
  binop_operands tiff s i e h = cc
  binop_operands tjmp s i e h = cc
  binop_operands tin s i e h = cc
  binop_operands tout s i e h = cc
  binop_operands tassign s i e h = cc
  binop_operands tlabel s i e h = cc
  binop_operands _ s i e h = (h.0, h.1.0)

  Fits-later : {s s' : State} → Keeps s s' → (i : Tac) → Fits s i → Fits s' i
  Fits-later h i (k, n) = (
    All-Known h (reads i.op i) k,
    λ e. let (k₁, k₂) = binop_operands i.op _ i e k in rw ((h i.a1 k₁).1, (h i.a2 k₂).1) (n e),
  )

  AllFits-later : {s s' : State} → Keeps s s' → (is : List Tac) → All (Fits s) is → All (Fits s') is
  AllFits-later h [] k = tt
  AllFits-later h (i ∷ is) k = (Fits-later h i k.0, AllFits-later h is k.1)

  run-Agree :
      {s s' : State}
      → Keeps s s'
      → (is : List Tac) (m : Machine) → All (Fits s) is
      → run (deref s') is m ≡ run (deref s) is m
  unfolding run
  run-Agree {s} {s'} h [] m k = refl
  run-Agree {s} {s'} h (i ∷ is) m k =
      rw (exec-Agree (deref s) (deref s') i m (Keeps-Agree h (reads i.op i) k.0.0))
        (ap (λ f. exec (deref s) i m >>= f) (fun_ext λ m'. run-Agree h is m' k.1))

  opt_algebra-Keeps :
      (is : List Tac) (s : State) → All (Fits s) is → Keeps s (opt_algebra pool s is).1
  unfolding opt_algebra
  opt_algebra-Keeps [] s k = λ p known. (known, refl)
  opt_algebra-Keeps (i ∷ is) s k =
      let turn = shape_op i.op s i k.0.0 in
      trans turn.keeps (opt_algebra-Keeps is _ (AllFits-later turn.keeps is k.1))

  bind_cong :
      (o : Option Machine) {f g : Machine → Option Machine}
      → ((m : Machine) → o ≡ some m → f m ≡ g m)
      → (o >>= f) ≡ (o >>= g)
  bind_cong none h = refl
  bind_cong (some m) h = h m refl

  -- The pass keeps what a block does, faults included, on every machine of 32-bit words: the block as
  -- the pass leaves it, with the symbols as the pass leaves them, runs as the block did before. The
  -- block has no `1 / x` with an `x` other than the constant 0, and reads symbols in use.
  pub run-opt_algebra :
      (is : List Tac) (s : State) (m : Machine)
      → WordMachine m
      → All (Fits s) is
      → run (deref (opt_algebra pool s is).1) (opt_algebra pool s is).0 m ≡ run (deref s) is m
  unfolding opt_algebra run
  run-opt_algebra [] s m w k = refl
  run-opt_algebra (i ∷ is) s m w k =
      let (i', s₁) = algebra_op pool i.op s i in
      let turn = shape_op i.op s i k.0.0 in
      let later = AllFits-later turn.keeps is k.1 in
      let (is', s₂) = opt_algebra pool s₁ is in
      let first : exec (deref s₂) i' m ≡ exec (deref s) i m =
        exec-Agree (deref s₁) (deref s₂) i' m
          (Keeps-Agree (opt_algebra-Keeps is s₁ later) (reads i'.op i') turn.known_reads)
        ∙ exec-algebra_op i.op s i m w k.0 in
      rw first (
        bind_cong (exec (deref s) i m) (λ m' e.
          run-opt_algebra is s₁ m'
            (exec-Words (deref s) i m w (Known-WordReads s (reads i.op i) k.0.0) e) later
          ∙ run-Agree turn.keeps is m' k.1))
