-- ===== src/Tac.antt =====
-- src/3ac.h and src/3ac.c: three-address code. Operands are pointers to symbols, which are numbers with
-- NULL as 0; `bb` is the pointer to the block. The fields `in` and `out` belong to the passes that
-- compute them and stand there.
pub mod Meaning
pub mod Words
pub mod Steps
use milac.Prelude.{ℕ, Bool, true, false}

-- codeop_type
pub data Op : Type 0 where
  tnone tiff tjmp tin tout teq tneq tlt tgt tle tge tassign tadd tsub tmul tdiv tlabel : Op

-- tac_t; `set` is `flags.set`
pub record Tac : Type 0 where
  pub id : ℕ
  pub set : Bool
  pub op : Op
  pub a1 : ℕ
  pub a2 : ℕ
  pub r : ℕ
  pub bb : ℕ

unfoldable pub tac_is_binop : Op → Bool
tac_is_binop teq = true
tac_is_binop tneq = true
tac_is_binop tlt = true
tac_is_binop tgt = true
tac_is_binop tle = true
tac_is_binop tge = true
tac_is_binop tadd = true
tac_is_binop tsub = true
tac_is_binop tmul = true
tac_is_binop tdiv = true
tac_is_binop _ = false
