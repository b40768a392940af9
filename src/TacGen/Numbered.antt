-- ===== src/TacGen/Numbered.antt =====
-- `tac` of src/3ac.c numbers the instructions from 1.
use mathlib.Core.List.{append_assoc, append-nil}
use milac.Prelude.{
  ℕ, ◌+◌, ◌<◌, List, [], ◌∷◌, ◌++◌, ◌≡◌, sym, ap, ◌∙◌, some, length, word_mod, arith, ◌%◌,
}
use milac.Tac.{Tac}
use milac.TacGen.Listing.{listing, push_all, IsComplete, gen-Pushes}
use milac.TacGen.{push_tac, tac}
use milac.Tree.{Node}

abbrev pub numbered : ℕ → List Tac → List Tac
numbered n [] = []
numbered n (i ∷ is) = record i { id = n + 1 } ∷ numbered (n + 1) is

push_all-numbered :
    (is : List Tac) (n : ℕ) (xs : List Tac)
    → n + length is < word_mod
    → push_all is (record { count = n; ins = xs })
      ≡ record { count = n + length is; ins = xs ++ numbered n is }
unfolding push_all push_tac
push_all-numbered [] n xs h = ground (arith, append-nil xs)
push_all-numbered (i ∷ is) n xs h =
    let next : (n + 1) % word_mod ≡ n + 1 = omega arith in
    let front = append_assoc xs (record i { id = n + 1 } ∷ []) (numbered (n + 1) is) in
    rw next (
      push_all-numbered is (n + 1) (xs ++ (record i { id = n + 1 } ∷ [])) (omega arith)
      ∙ ground (arith, front))

-- `tac` gives the instructions of the tree in the order of their listing, numbered from 1, and their
-- count, if every operand is there and the count fits its 32 bits.
pub tac-listing :
    (t : Node)
    → IsComplete t
    → length (listing t []) < word_mod
    → tac t ≡ some (record { count = length (listing t []); ins = numbered 0 (listing t []) })
unfolding tac push_all
tac-listing t n h =
    let (code, e, all) = gen-Pushes t n (record { count = 0; ins = [] }) in
    let counted : 0 + length (listing t []) ≡ length (listing t []) = omega arith in
    rw e
      (ap some (sym (all []) ∙ (push_all-numbered (listing t []) 0 [] (omega arith) ∙ rw counted)))
