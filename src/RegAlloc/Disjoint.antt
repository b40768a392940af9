-- ===== src/RegAlloc/Disjoint.antt =====
-- src/regalloc.c: `lin_scan` gives intervals that meet different registers.
use milac.Prelude.{
  ℕ, ◌+◌, ◌≤◌, ◌≡◌, ◌≢◌, refl, sym, ap, subst, ◌∙◌, inl, inr, Bool-cases, List, [], ◌∷◌, ltb, some,
  arith,
}
use milac.RegAlloc.Queue.{occ, held}
use milac.RegAlloc.Safe.{Apart, Inv, alloc-Inv, expire-Inv, reg-set_reg}
use milac.RegAlloc.Spill.{set_reg_comm, l, last_passed, evict-Inv, spare-Inv}
use milac.RegAlloc.Sorted.{SortedFrom, fill_intervals-Sorted, occ-fill_intervals}
use milac.RegAlloc.{
  fill_intervals, Store, set_reg, lin_add_active, last, front, Scan, spill_last, lin_spill,
  lin_alloc, lin_step, lin_loop, lin_scan, places, init_regs,
}
use milac.SymTab.{no_register}

-- Two stores that give each interval one start and one end.
abbrev pub SameSpan : Store → Store → Type 0
SameSpan iv iv' = (q : ℕ) → ((iv' q).start ≡ (iv q).start) × ((iv' q).end ≡ (iv q).end)

span-set_reg : (iv : Store) (n v : ℕ) → SameSpan iv (set_reg iv n v)
span-set_reg iv n v q = let (a, b, c) = reg-set_reg iv n v q in (b, c)

-- A scan that has passed some intervals, and what it was before.
abbrev pub Good : List ℕ → ℕ → Scan → Scan → Type 0
Good passed now s s' = Inv passed now s'.iv s'.active s'.regs × SameSpan s.iv s'.iv

module _ (passed : List ℕ) (iv : Store) (n : ℕ) (new : occ n passed ≡ 0) where
  not_last : (t : ℕ) (ts : List ℕ) → Inv passed (iv n).start iv (t ∷ ts) [] → n ≢ last t ts
  not_last t ts v e =
      let a : occ n passed ≡ occ (last t ts) passed = ap (λ z. occ z passed) e in
      omega (arith, a, (last_passed passed (iv n).start iv t ts v).0)

  spill_held :
      (t : ℕ) (ts : List ℕ)
      → Inv passed (iv n).start iv (t ∷ ts) []
      → let iv' = set_reg (set_reg iv n (iv (last t ts)).reg) (last t ts) no_register in
        Inv (n ∷ passed) (iv n).start iv' (lin_add_active iv' n (front t ts)) []
  spill_held t ts v =
      let evicted : Store = set_reg iv (last t ts) no_register in
      let r : ℕ = (iv (last t ts)).reg in
      let start : (evicted n).start ≡ (iv n).start = (reg-set_reg iv (last t ts) no_register n).1 in
      let w : Inv passed (evicted n).start evicted (front t ts) (r ∷ []) =
        subst (λ z. Inv passed z evicted (front t ts) (r ∷ [])) (sym start)
          (evict-Inv passed (iv n).start iv t ts v) in
      let after : Store → ℕ → Type 0 =
        λ s z. Inv (n ∷ passed) z s (lin_add_active s n (front t ts)) [] in
      subst (λ s. after s (iv n).start)
        (sym (set_reg_comm iv n (last t ts) r no_register (not_last t ts v)))
        (subst (after (set_reg evicted n r)) start
          (alloc-Inv passed evicted (front t ts) [] n r new w))

  span_twice : (l v w : ℕ) → SameSpan iv (set_reg (set_reg iv n v) l w)
  span_twice l v w q =
      let (a, b) = span-set_reg iv n v q in
      let (c, d) = span-set_reg (set_reg iv n v) l w q in (c ∙ a, d ∙ b)

  spill-Good :
      (t : ℕ) (ts : List ℕ)
      → Inv passed (iv n).start iv (t ∷ ts) []
      → let s : Scan = record { iv = iv; active = t ∷ ts; regs = [] } in
        Good (n ∷ passed) (iv n).start s (spill_last s n (last t ts) (front t ts))
  unfolding spill_last
  spill-Good t ts v = elim (Bool-cases (ltb (iv n).end (iv (last t ts)).end)) [
    | inl held ↦ rw held (spill_held t ts v, span_twice _ _ _)
    | inr spare ↦
        rw spare
          (spare-Inv passed (iv n).start iv (t ∷ ts) [] n new v, span-set_reg iv n no_register)
  ]

  alloc-Good :
      (active regs : List ℕ)
      → Inv passed (iv n).start iv active regs
      → let s : Scan = record { iv = iv; active = active; regs = regs } in
        (s' : Scan) × (lin_alloc s n ≡ some s') × Good (n ∷ passed) (iv n).start s s'
  unfolding lin_alloc lin_spill
  alloc-Good [] [] v = absurd (omega (arith, v.size))
  alloc-Good (t ∷ ts) [] v = (_, refl, spill-Good t ts v)
  alloc-Good active (r ∷ regs) v =
      (_, refl, (alloc-Inv passed iv active regs n r new v, span-set_reg iv n r))

step-Good :
    (passed : List ℕ) (now n : ℕ) (s : Scan)
    → occ n passed ≡ 0
    → now ≤ (s.iv n).start
    → Inv passed now s.iv s.active s.regs
    → (s' : Scan) × (lin_step s n ≡ some s') × Good (n ∷ passed) (s.iv n).start s s'
unfolding lin_step
step-Good passed now n s new le v =
    alloc-Good passed s.iv n new _ _
      (expire-Inv passed now s.iv s.active s.regs (s.iv n).start le v)

module _ (first : Store) where
  loop-Apart :
      (ns passed : List ℕ) (now : ℕ) (s : Scan)
      → SortedFrom first now ns
      → ((p : ℕ) → occ p passed + occ p ns ≤ 1)
      → Inv passed now s.iv s.active s.regs
      → SameSpan first s.iv
      → (s' : Scan) × (lin_loop s ns ≡ some s')
        × SameSpan first s'.iv
        × ((p q : ℕ)
            → p ≢ q
            → 1 ≤ occ p passed + occ p ns
            → 1 ≤ occ q passed + occ q ns
            → Apart s'.iv p q)
  unfolding lin_loop occ SortedFrom
  loop-Apart [] passed now s sorted few v span =
      (s, refl, span, λ p q ne h k. v.safe p q ne (omega arith) (omega arith))
  loop-Apart (n ∷ ns) passed now s sorted few v span =
      let (start, end) = span n in
      let (s1, e, (v1, span1)) =
        step-Good passed now n s (ground (arith, few n)) (omega (arith, sorted.0)) v in
      let (s', e', span', apart) =
        loop-Apart ns (n ∷ passed) (s.iv n).start s1
          (subst (λ z. SortedFrom first z ns) (sym start) sorted.1) (λ p. ground (arith, few p)) v1
          (λ q. ((span1 q).0 ∙ (span q).0, (span1 q).1 ∙ (span q).1)) in
      (s', rw (lin_loop, e) e', span', λ p q ne h k. apart p q ne (ground arith) (ground arith))

start-Inv : (iv : Store) → Inv [] 0 iv [] init_regs
unfolding occ held
start-Inv iv = record {
  counts = λ r. ground arith;
  real = omega arith;
  size = omega arith;
  inside = λ p. omega arith;
  once = λ p. omega arith;
  gone = λ p h k m. absurd (omega arith);
  safe = λ p q ne h k a b c d e. absurd (omega arith);
}

-- When the intervals of the symbols, each once, are put in the queue by `fill_interval_list` in any
-- order, `lin_scan` ends without a fault, keeps the start and the end of every interval, and of two
-- different intervals that have a point in common and both a register, it gives them different
-- registers.
pub lin_scan-Apart :
    (iv : Store) (symbols : List ℕ)
    → ((p : ℕ) → occ p symbols ≤ 1)
    → let intps = fill_intervals iv symbols [] in
      (iv' : Store) × (lin_scan iv intps ≡ some (iv', places iv' 0 intps))
      × SameSpan iv iv'
      × ((p q : ℕ) → p ≢ q → 1 ≤ occ p symbols → 1 ≤ occ q symbols → Apart iv' p q)
unfolding lin_scan SortedFrom occ
lin_scan-Apart iv symbols few =
    let intps : List ℕ = fill_intervals iv symbols [] in
    let count : (p : ℕ) → occ p intps ≡ occ p symbols =
      λ p. omega (arith, occ-fill_intervals iv p symbols []) in
    let (s', e, span, apart) =
      loop-Apart iv intps [] 0 (record { iv = iv; active = []; regs = init_regs })
        (fill_intervals-Sorted iv symbols [] tt) (λ p. omega (arith, few p, count p)) (start-Inv iv)
        (λ q. (refl, refl)) in
    (
      s'.iv,
      rw (lin_scan, e) refl,
      span,
      λ p q ne h k. apart p q ne (omega (arith, count p)) (omega (arith, count q)),
    )
