-- ===== src/Optimize/Pool.antt =====
-- What the passes of src/optimize.c and src/const_prop.c use of the symbol table: the symbol behind
-- a pointer, and `st_insert_const`.
use milac.Prelude.{ℕ, ◌≡◌, IsWord}
use milac.SymTab.{Symbol, sconst}

pub record Pool : Type 1 where
  pub State : Type 0
  pub deref : State → ℕ → Symbol
  pub insert_const : State → ℕ → ℕ × State
  -- the pointers to symbols in use, whose constants are words
  pub Known : State → ℕ → Type 0
  pub inserted_type :
      (s : State) (v : ℕ)
      → IsWord v
      → (deref (insert_const s v).1 (insert_const s v).0).type ≡ sconst
  pub inserted_val :
      (s : State) (v : ℕ) → IsWord v → (deref (insert_const s v).1 (insert_const s v).0).val ≡ v
  pub inserted-Known :
      (s : State) (v : ℕ) → IsWord v → Known (insert_const s v).1 (insert_const s v).0
  pub Known-IsWord : (s : State) (p : ℕ) → Known s p → IsWord (deref s p).val
  pub Known_kept : (s : State) (v p : ℕ) → Known s p → Known (insert_const s v).1 p
  pub deref_kept : (s : State) (v p : ℕ) → Known s p → deref (insert_const s v).1 p ≡ deref s p
