-- ===== src/Optimize/Driver.antt =====
-- src/optimize.c: `optimize`, which runs the passes of a level in order. `S` is the code with the store;
-- a global pass is a function on it, and any other one is run on each block.
use milac.Prelude.{
  ℕ, List, [], ◌∷◌, Option, some, Bool, true, false, ◌==◌, ◌>>=◌, if◌then◌else◌, signed_lt,
}

pub data Pass : Type 0 where
  lva const_prop opt_algebra opt_unused_vars copy_prop cse : Pass

-- the field `global`
abbrev pub global : Pass → Bool
global opt_algebra = false
global cse = false
global _ = true

abbrev pub opt_level_0 : List Pass
opt_level_0 = lva ∷ []

abbrev pub opt_level_1 : List Pass
opt_level_1 =
    const_prop ∷ opt_algebra ∷ opt_unused_vars ∷ lva ∷ copy_prop ∷ opt_unused_vars ∷ lva ∷ []

abbrev pub opt_level_2 : List Pass
opt_level_2 =
    const_prop ∷ opt_algebra ∷ opt_unused_vars ∷ lva ∷ copy_prop ∷ opt_unused_vars ∷ lva ∷ cse
    ∷ opt_unused_vars ∷ lva ∷ []

module _ {ℓ} {S : Type ℓ} (blocks : S → List ℕ) (fn : Pass → S → Option S)
    (bbfn : Pass → ℕ → S → Option S) where
  unfoldable pub opt_bb_pass : Pass → List ℕ → S → Option S
  opt_bb_pass f [] s = some s
  opt_bb_pass f (b ∷ bs) s = bbfn f b s >>= opt_bb_pass f bs

  unfoldable pub opt_passes : List Pass → S → Option S
  unfolding opt_bb_pass
  opt_passes [] s = some s
  opt_passes (f ∷ fs) s =
      (if global f then fn f s else opt_bb_pass f (blocks s) s) >>= opt_passes fs

  -- `level` is an `int32_t`
  unfoldable pub optimize : ℕ → S → Option S
  unfolding opt_passes
  optimize level s =
      if level == 0
      then opt_passes opt_level_0 s
      else if level == 1
      then opt_passes opt_level_1 s
      else if signed_lt 1 level
      then opt_passes opt_level_2 s
      else some s
