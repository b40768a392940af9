-- ===== src/TacGen/Correct.antt =====
-- The code that `tac` of src/3ac.c generates for a program does what its syntax tree means.
use milac.Prelude.{ℕ, ◌<◌, [], ◌≡◌, refl, subst, some, length, word_mod}
use milac.SymTab.{Symbol}
use milac.Tac.Meaning.{Machine}
use milac.Tac.Steps.{Steps}
use milac.TacGen.Listing.{listing, IsComplete}
use milac.TacGen.Numbered.{numbered, tac-listing}
use milac.TacGen.Renumbered.{numbered-Renumbered, Renumbered-nil, Steps-Renumbered}
use milac.TacGen.Sound.{Same, Sound}
use milac.TacGen.Statement.{run_tree-Ran}
use milac.TacGen.Suffix.{DistinctLabels}
use milac.TacGen.{TacCode, tac}
use milac.Tree.Meaning.{run_tree}
use milac.Tree.{Node}

-- If a run of the syntax tree ends, `tac` gives code that runs from its first instruction to its end,
-- and ends with the same variables, input and output. The tree has all its operands, sets each label
-- once, is sound for the owners of its temporaries, and its instructions are less than 2 ^ 32.
pub tac-run_tree :
    (deref : ℕ → Symbol) (owner : ℕ → Node) (t : Node)
    → IsComplete t
    → length (listing t []) < word_mod
    → DistinctLabels (listing t [])
    → Sound deref owner t
    → (fuel : ℕ) (m m' : Machine) → run_tree deref fuel t m ≡ some m'
    → (code : TacCode) × (after : Machine) × (tac t ≡ some code)
      × Steps deref code.ins code.ins m [] after
      × Same owner m' after
tac-run_tree deref owner t complete short distinct sound fuel m m' e =
    let ls = listing t [] in
    let start : Same owner m m = record {
      env_same = λ p h. refl;
      input_same = refl;
      output_same = refl;
    } in
    let ran = run_tree-Ran deref ls owner distinct t fuel sound m m m' [] start e ([], refl) in
    let alike = numbered-Renumbered 0 ls in
    let (rest, steps, ended) = Steps-Renumbered deref ls (numbered 0 ls) alike ran.steps alike in
    let done =
      subst (λ z. Steps deref (numbered 0 ls) (numbered 0 ls) m z ran.after)
        (Renumbered-nil rest ended) steps in
    (
      record { count = length ls; ins = numbered 0 ls },
      ran.after,
      tac-listing t complete short,
      done,
      ran.same,
    )
