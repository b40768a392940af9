-- ===== src/Tree/Built.antt =====
-- What the functions of src/tree.c that build a condition or a loop return.
use milac.Prelude.{
  ℕ, suc, ◌+◌, ◌≡◌, inl, inr, refl, ap, sym, subst, none, some, Bool, true, false, arith,
  if◌then◌else◌, Option-cases, Bytes,
}
use milac.SymTab.{Symbol}
use milac.Tac.{Tac}
use milac.Tree.Builder.{
  Builder, pure, fault, >>=-eq-some, symbol_at, symbol_val, next_id, insert_node,
}
use milac.Tree.Construct.{
  new_if, chosen, fresh_if, new_loop, no_loop, fresh_loop, built, tac_gen, finish, new_node,
  node_id, is_const_t, is_positive,
}
use milac.Tree.{Head, Node, NodeClass, NodeType, null, node, cl_statement, if_t, while_t, const_t}

finish-some :
    (key : Bytes) (t : Node) (s : Builder) {n : Node} {s' : Builder}
    → finish key t s ≡ some (n, s')
    → n ≡ t
unfolding finish
finish-some key t s e =
    let (taken, s₁, _, done) =
      >>=-eq-some (insert_node key t) (λ b. if b then pure t else fault) s e in
    by_status taken s₁ done
  where
    by_status :
        (b : Bool) (s₁ : Builder) {n : Node} {s' : Builder}
        → (if b then pure t else fault) s₁ ≡ some (n, s')
        → n ≡ t
    by_status true s₁ e = ground arith
    by_status false s₁ e = cc

built-some :
    (key : Bytes) (h : Head) (a b c : Node) (s : Builder) {n : Node} {s' : Builder}
    → built key h a b c s ≡ some (n, s')
    → (i : Tac) × (n ≡ node (record h { tac = i }) a b c null)
unfolding built
built-some key h a b c s e =
    let (i, s₁, _, done) = >>=-eq-some (tac_gen h.type h a b c) _ s e in
    (i, finish-some key _ s₁ done)

new_node-some :
    (k : NodeClass) (ty : NodeType) (s : Builder) {h : Head} {s' : Builder}
    → new_node k ty s ≡ some (h, s')
    → (h.klass ≡ k) × (h.type ≡ ty)
unfolding new_node next_id
new_node-some k ty s e = ground arith

pub fresh_if-some :
    (hc : Head) (c t e : Node) (s : Builder) {n : Node} {s' : Builder}
    → fresh_if hc c t e s ≡ some (n, s')
    → (h : Head) × (n ≡ node h c t e null) × (h.klass ≡ cl_statement) × (h.type ≡ if_t)
unfolding fresh_if
fresh_if-some hc c t e s h =
    let (x, s₁, made, h₁) = >>=-eq-some (new_node cl_statement if_t) _ s h in
    let (i, s₂, _, h₂) = >>=-eq-some (node_id t) _ s₁ h₁ in
    let (tac, same) = built-some _ x c t e s₂ h₂ in
    let (klass, type) = new_node-some cl_statement if_t s made in
    (record x { tac = tac }, same, klass, type)

pub fresh_loop-some :
    (hc : Head) (c b : Node) (s : Builder) {n : Node} {s' : Builder}
    → fresh_loop hc c b s ≡ some (n, s')
    → (h : Head) × (n ≡ node h c b null null) × (h.klass ≡ cl_statement) × (h.type ≡ while_t)
unfolding fresh_loop
fresh_loop-some hc c b s h =
    let (x, s₁, made, h₁) = >>=-eq-some (new_node cl_statement while_t) _ s h in
    let (i, s₂, _, h₂) = >>=-eq-some (node_id b) _ s₁ h₁ in
    let (tac, same) = built-some _ x c b null s₂ h₂ in
    let (klass, type) = new_node-some cl_statement while_t s made in
    (record x { tac = tac }, same, klass, type)

pub is_const_t-eq : (ty : NodeType) → is_const_t ty ≡ true → ty ≡ const_t
is_const_t-eq const_t h = refl
is_const_t-eq _ h = absurd (cc h)

symbol_val-some :
    (p : ℕ) (s : Builder) {v : ℕ} {s' : Builder}
    → symbol_val p s ≡ some (v, s')
    → (y : Symbol) × (symbol_at s.st.heap p ≡ some y) × (y.val ≡ v)
unfolding symbol_val
symbol_val-some p s e = elim (Option-cases (symbol_at s.st.heap p)) [
  | inl lost ↦ absurd (ground (arith, lost))
  | inr (y, h) ↦ (y, h, ground (arith, h))
]

pub chosen-some :
    (p : ℕ) (t e : Node) (s : Builder) {n : Node} {s' : Builder}
    → chosen p t e s ≡ some (n, s')
    → (y : Symbol) × (symbol_at s.st.heap p ≡ some y) × (n ≡ (if is_positive y.val then t else e))
unfolding chosen
chosen-some p t e s {n} h =
    let (v, s₁, read, done) = >>=-eq-some (symbol_val p) _ s h in
    let (y, at_p, val) = symbol_val-some p s read in
    (
      y,
      at_p,
      subst (λ z. n ≡ (if is_positive z then t else e)) (sym val) (by_test (is_positive v) s₁ done),
    )
  where
    by_test :
        (b : Bool) (s₁ : Builder) {n : Node} {s' : Builder}
        → (if b then pure t else pure e) s₁ ≡ some (n, s')
        → n ≡ (if b then t else e)
    by_test true s₁ h = ground arith
    by_test false s₁ h = ground arith

pub no_loop-some :
    (p : ℕ) (s : Builder) {n : Node} {s' : Builder}
    → no_loop p s ≡ some (n, s')
    → (y : Symbol) × (symbol_at s.st.heap p ≡ some y) × (n ≡ null)
unfolding no_loop
no_loop-some p s h =
    let (v, s₁, read, done) = >>=-eq-some (symbol_val p) _ s h in
    let (y, at_p, val) = symbol_val-some p s read in (y, at_p, ground arith)

pub new_if_const :
    (hc : Head) (a b c d t e : Node) (s : Builder)
    → is_const_t hc.type ≡ true
    → new_if (node hc a b c d) t e s ≡ chosen hc.symbol t e s
unfolding new_if
new_if_const hc a b c d t e s k = rw k

pub new_if_fresh :
    (hc : Head) (a b c d t e : Node) (s : Builder)
    → is_const_t hc.type ≡ false
    → new_if (node hc a b c d) t e s ≡ fresh_if hc (node hc a b c d) t e s
unfolding new_if
new_if_fresh hc a b c d t e s k =
    ap (λ z. (if z then chosen hc.symbol t e else fresh_if hc (node hc a b c d) t e) s) k

pub new_loop_const :
    (hc : Head) (a b c d body : Node) (s : Builder)
    → is_const_t hc.type ≡ true
    → new_loop (node hc a b c d) body s ≡ no_loop hc.symbol s
unfolding new_loop
new_loop_const hc a b c d body s k = rw k

pub new_loop_fresh :
    (hc : Head) (a b c d body : Node) (s : Builder)
    → is_const_t hc.type ≡ false
    → new_loop (node hc a b c d) body s ≡ fresh_loop hc (node hc a b c d) body s
unfolding new_loop
new_loop_fresh hc a b c d body s k =
    ap (λ z. (if z then no_loop hc.symbol else fresh_loop hc (node hc a b c d) body) s) k

pub new_loop-null : (body : Node) (s : Builder) → new_loop null body s ≡ none
unfolding new_loop
new_loop-null body s = refl

pub add-one : (n : ℕ) → n + 1 ≡ suc n
add-one n = omega arith

abbrev pub is_const_node : Node → Bool
is_const_node null = false
is_const_node (node h _ _ _ _) = is_const_t h.type
