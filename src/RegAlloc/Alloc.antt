-- ===== src/RegAlloc/Alloc.antt =====
-- src/regalloc.c: `reg_alloc` gives different registers to variables that are met in turn.
use milac.Prelude.{
  ℕ, ◌+◌, ◌*◌, ◌<◌, ◌≤◌, List, [], ◌∷◌, some, true, ◌||◌, ◌==◌, ◌≡◌, ◌≢◌, ◌⊎◌, inl, inr, refl, sym,
  subst, arith, word_mod, Bool-cases, length, get_elem?, if◌then◌else◌, ==_iff,
}
use milac.RegAlloc.Covers.{reads_at, writes_at}
use milac.RegAlloc.Disjoint.{lin_scan-Apart}
use milac.RegAlloc.Growth.{Bounded}
use milac.RegAlloc.Intervals.{is_var, put, alloc_intervals, intervals, used_vars, reg_alloc}
use milac.RegAlloc.Queue.{occ}
use milac.RegAlloc.Typed.{typed, intervals-some}
use milac.RegAlloc.Spans.{intervals_met, intervals_begun}
use milac.RegAlloc.{Interval, Store, Place, fill_intervals, places}
use milac.SymTab.{Symbol, no_register}
use milac.Tac.Words.{All}
use milac.Tac.{Tac}

module _ (deref : ℕ → Symbol) where
  -- the interval as `calloc` leaves it
  abbrev Blank : Interval → Type 0
  Blank x = (x.start ≡ 0) × (x.end ≡ 0) × (x.usecount ≡ 0)

  -- the intervals when `alloc_intervals` has passed the symbol `p`
  abbrev allocated : ℕ → Store → Store
  allocated p iv =
      if is_var deref p
      then put iv p (record { s = p; usecount = 0; start = 0; end = 0; reg = 0 })
      else iv

  Blank-kept :
      (ps : List ℕ) (iv : Store) (q : ℕ) → Blank (iv q) → Blank (alloc_intervals deref ps iv q)
  unfolding alloc_intervals
  Blank-kept [] iv q b = b
  Blank-kept (p ∷ ps) iv q b =
      Blank-kept ps (allocated p iv) q (elim (Bool-cases (is_var deref p)) [
        | inl v ↦ elim (Bool-cases (q == p)) [
          | inl e ↦ rw (v, e) (refl, refl, refl)
          | inr e ↦ rw (v, e) b
        ]
        | inr v ↦ rw v b
      ])

  Blank-alloc :
      (ps : List ℕ) (iv : Store) (q : ℕ)
      → is_var deref q ≡ true
      → 1 ≤ occ q ps
      → Blank (alloc_intervals deref ps iv q)
  unfolding alloc_intervals occ
  Blank-alloc [] iv q v h = absurd (omega arith)
  Blank-alloc (p ∷ ps) iv q v h = elim (Bool-cases (p == q)) [
    | inl e ↦
        let same : q ≡ p = sym ((==_iff p q).0 e) in
        let v' : is_var deref p ≡ true = subst (λ x. is_var deref x ≡ true) same v in
        let own : (q == p) ≡ true = (==_iff q p).1 same in
        Blank-kept ps (allocated p iv) q (rw (v', own) (refl, refl, refl))
    | inr e ↦ Blank-alloc ps (allocated p iv) q v (rw e at h)
  ]

  occ-used_vars :
      (iv : Store) (ps : List ℕ) (q : ℕ)
      → is_var deref q ≡ true
      → 1 ≤ (iv q).usecount
      → occ q (used_vars deref iv ps) ≡ occ q ps
  unfolding used_vars occ
  occ-used_vars iv [] q v h = refl
  occ-used_vars iv (p ∷ ps) q v h =
      let ih = occ-used_vars iv ps q v h in
      elim (Bool-cases (p == q)) [
        | inl e ↦
            let same : q ≡ p = sym ((==_iff p q).0 e) in
            let v' : is_var deref p ≡ true = subst (λ x. is_var deref x ≡ true) same v in
            let h' : 1 ≤ (iv p).usecount = subst (λ x. 1 ≤ (iv x).usecount) same h in ground arith
        | inr e ↦ ground arith
      ]

  occ_used_le : (iv : Store) (ps : List ℕ) (q : ℕ) → occ q (used_vars deref iv ps) ≤ occ q ps
  unfolding used_vars occ
  occ_used_le iv [] q = omega arith
  occ_used_le iv (p ∷ ps) q = ground (arith, occ_used_le iv ps q)

  -- the variable `p` is written by the instruction at `k`, and read or written by the one at `l`
  pub record Spans (code : List Tac) (p k l : ℕ) : Type 0 where
    pub writer : Tac
    pub written : get_elem? code k ≡ some writer
    pub writes : writes_at deref writer p ≡ true
    pub user : Tac
    pub met : get_elem? code l ≡ some user
    pub uses : reads_at deref user p || writes_at deref user p ≡ true

  span_interval :
      (symbols : List ℕ) (code : List Tac) (p k l : ℕ) (iv iv' : Store)
      → 3 * length code < word_mod
      → Blank (iv p)
      → intervals deref symbols 0 code iv ≡ some iv'
      → Spans code p k l
      → ((iv' p).start ≤ k + 1) × (l + 1 ≤ (iv' p).end) × (1 ≤ (iv' p).usecount)
  span_interval symbols code p k l iv iv' small (a, b, c) e s =
      let bounded : Bounded 0 0 (iv p) = omega arith in
      let begun =
        intervals_begun deref symbols code 0 0 p k s.writer iv iv' (omega arith) (omega arith)
          bounded e s.written s.writes in
      let met =
        intervals_met deref symbols code 0 0 p l s.user iv iv' (omega arith) (omega arith) bounded e
          s.met s.uses in
      omega arith

  -- `reg_alloc` succeeds on code whose operands are constants and variables of the table and whose
  -- results are such variables, if the code has less than 2 ^ 32 / 3 instructions and the table each
  -- symbol once. Two different variables of the table, of which the first is written at `k` and met
  -- at `l` and the second is written at `k'` and met at `l'`, get different registers if neither is
  -- met for the last of these times before the other is written, unless one of them has no register.
  pub reg_alloc-Apart :
      (code : List Tac) (symbols : List ℕ) (iv : Store) (p q k l k' l' : ℕ)
      → All (λ i. typed deref symbols i ≡ true) code
      → 3 * length code < word_mod
      → ((p : ℕ) → occ p symbols ≤ 1)
      → is_var deref p ≡ true
      → is_var deref q ≡ true
      → 1 ≤ occ p symbols
      → 1 ≤ occ q symbols
      → p ≢ q
      → Spans code p k l
      → Spans code q k' l'
      → k' ≤ l
      → k ≤ l'
      → (iv' : Store) × (cells : List (ℕ × Place)) × (reg_alloc deref code symbols iv
          ≡ some (iv', cells))
        × (((iv' p).reg ≡ no_register)
            ⊎ (((iv' q).reg ≡ no_register) ⊎ ((iv' p).reg ≢ (iv' q).reg)))
  unfolding reg_alloc
  reg_alloc-Apart code symbols iv p q k l k' l' ok small once vp vq ip iq ne sp sq le le' =
      let iv₀ = alloc_intervals deref symbols iv in
      let (iv₁, e) = intervals-some deref symbols code 0 iv₀ ok in
      let (a, b, c) =
        span_interval symbols code p k l iv₀ iv₁ small (Blank-alloc symbols iv p vp ip) e sp in
      let (a', b', c') =
        span_interval symbols code q k' l' iv₀ iv₁ small (Blank-alloc symbols iv q vq iq) e sq in
      let used = used_vars deref iv₁ symbols in
      let (iv', scan, span, apart) =
        lin_scan-Apart iv₁ used (λ r. omega (arith, occ_used_le iv₁ symbols r, once r)) in
      let intps = fill_intervals iv₁ used [] in
      let (sp_p, ep_p) = span p in
      let (sp_q, ep_q) = span q in
      let differ =
        apart p q ne (omega (arith, occ-used_vars iv₁ symbols p vp c))
          (omega (arith, occ-used_vars iv₁ symbols q vq c')) in
      (
        iv',
        places iv' 0 intps,
        rw e scan,
        elim (Bool-cases ((iv' p).reg == no_register)) [
          | inl x ↦ inl ((==_iff (iv' p).reg no_register).0 x)
          | inr x ↦ elim (Bool-cases ((iv' q).reg == no_register)) [
            | inl y ↦ inr (inl ((==_iff (iv' q).reg no_register).0 y))
            | inr y ↦ inr (inr (differ (ground arith) (ground arith) (omega arith) (omega arith)))
          ]
        ],
      )
