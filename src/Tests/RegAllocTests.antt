-- ===== src/Tests/RegAllocTests.antt =====
-- src/regalloc.c on five intervals with three registers.
use milac.Prelude.{
  ◌==◌, ◌⊎◌, refl, Option, none, if◌then◌else◌, ℕ, ◌+◌, ◌*◌, ◌≤◌, ◌≡◌, ◌≢◌, List, [], ◌∷◌, some,
  arith,
}
use milac.RegAlloc.Disjoint.{SameSpan, lin_scan-Apart}
use milac.RegAlloc.Queue.{occ}
use milac.RegAlloc.Safe.{Apart}
use milac.RegAlloc.Alloc.{Spans, reg_alloc-Apart}
use milac.RegAlloc.Intervals.{reg_alloc, interval_ins, use_at, def_at}
use milac.RegAlloc.{
  fill_interval_list, lin_add_active, set_reg, Store, Place, fill_intervals, lin_scan, places,
}
use milac.SymTab.{Symbol, svar, slabel, vs_empty, no_register}
use milac.Tac.{Tac, tac_is_binop, tin, tout, tjmp, tlabel}
use milac.TacGen.{op_tac}

-- interval `p` from `2 * p` to `p + 6`
abbrev intervals : Store
intervals = λ p. record { s = p; usecount = 1; start = 2 * p; end = p + 6; reg = no_register }

abbrev symbols : List ℕ
symbols = 3 ∷ 0 ∷ 4 ∷ 1 ∷ 2 ∷ []

once : (p : ℕ) → occ p symbols ≤ 1
unfolding occ
once p = ground arith

lin_scan-Apart_example :
    let intps = fill_intervals intervals symbols [] in
    (iv' : Store) × (lin_scan intervals intps ≡ some (iv', places iv' 0 intps))
    × SameSpan intervals iv'
    × ((p q : ℕ) → p ≢ q → 1 ≤ occ p symbols → 1 ≤ occ q symbols → Apart iv' p q)
lin_scan-Apart_example = lin_scan-Apart intervals symbols once

abbrev var_symbol : ℕ → Symbol
var_symbol p = record {
  type = if p == 9 then slabel else svar;
  id = p;
  lineno = 0;
  val = 0;
  name = [];
  reg = no_register;
  state = vs_empty;
}

-- `read x1; 9: write x1; read x2; write x2; goto 9`
abbrev loop_code : List Tac
loop_code =
    op_tac tin 1
    ∷ op_tac tlabel 9
    ∷ op_tac tout 1
    ∷ op_tac tin 2
    ∷ op_tac tout 2
    ∷ op_tac tjmp 9
    ∷ []

abbrev no_intervals : Store
no_intervals p = record { s = 0; usecount = 0; start = 0; end = 0; reg = 0 }

abbrev reg_at : ℕ → Option (Store × List (ℕ × Place)) → Option ℕ
reg_at p none = none
reg_at p (some (iv, cells)) = some (iv p).reg

-- Both variables get the register 0, though the loop writes the first one again after it reads the second.
loop_registers :
    (reg_at 1 (reg_alloc var_symbol loop_code (1 ∷ 2 ∷ []) no_intervals) ≡ some 0)
    × (reg_at 2 (reg_alloc var_symbol loop_code (1 ∷ 2 ∷ []) no_intervals) ≡ some 0)
unfolding reg_alloc lin_scan fill_intervals interval_ins use_at def_at tac_is_binop
    fill_interval_list lin_add_active set_reg
loop_registers = (refl, refl)

-- `read x1; read x2; write x1; write x2`
abbrev pair_code : List Tac
pair_code = op_tac tin 1 ∷ op_tac tin 2 ∷ op_tac tout 1 ∷ op_tac tout 2 ∷ []

first_span : Spans var_symbol pair_code 1 0 2
unfolding tac_is_binop
first_span = record {
  writer = op_tac tin 1;
  written = refl;
  writes = refl;
  user = op_tac tout 1;
  met = refl;
  uses = refl;
}

second_span : Spans var_symbol pair_code 2 1 3
unfolding tac_is_binop
second_span = record {
  writer = op_tac tin 2;
  written = refl;
  writes = refl;
  user = op_tac tout 2;
  met = refl;
  uses = refl;
}

pair_once : (p : ℕ) → occ p (1 ∷ 2 ∷ []) ≤ 1
unfolding occ
pair_once p = ground arith

reg_alloc-Apart_example :
    (iv' : Store) × (cells : List (ℕ × Place)) × (reg_alloc var_symbol pair_code
        (1 ∷ 2 ∷ [])
        no_intervals
      ≡ some (iv', cells))
    × (((iv' 1).reg ≡ no_register) ⊎ (((iv' 2).reg ≡ no_register) ⊎ ((iv' 1).reg ≢ (iv' 2).reg)))
unfolding tac_is_binop occ
reg_alloc-Apart_example =
    reg_alloc-Apart var_symbol pair_code (1 ∷ 2 ∷ []) no_intervals 1 2 0 2 1 3
      (refl, (refl, (refl, (refl, tt)))) (omega arith) pair_once refl refl (omega arith)
      (omega arith) (omega arith) first_span second_span (omega arith) (omega arith)
