-- ===== src/Tests/StackTests.antt =====
-- src/stack.c at a stack that grows.
use milac.Prelude.{
  ℕ, ◌≡◌, refl, List, [], ◌∷◌, ◌++◌, Option, some, length, replicate, ◌-◌, length-append,
  get_elem?-some, get_elem?-append_left, sym, ◌∙◌, length-replicate, arith,
}
use milac.Stack.View.{Op, push, pop, step, spec, run, Reallocates, run-stack_init}
use milac.Stack.{stack_init}

-- a `realloc` that clears the new cells
realloc : List ℕ → ℕ → Option (List ℕ)
realloc cells n = some (cells ++ replicate (n - length cells) 7)

realloc-Reallocates : Reallocates realloc
unfolding realloc
realloc-Reallocates cells n le = (
  _,
  refl,
  omega (
    arith,
    length-append cells (replicate (n - length cells) 7),
    length-replicate {A = ℕ} (n - length cells) 7,
  ),
  λ i h. let (x, e) = get_elem?-some cells i h in get_elem?-append_left cells _ i e ∙ sym e,
)

abbrev session : List Op
session =
    push 1
    ∷ push 2
    ∷ push 3
    ∷ push 4
    ∷ push 5
    ∷ push 6
    ∷ push 7
    ∷ push 8
    ∷ push 9
    ∷ push 10
    ∷ push 11
    ∷ pop
    ∷ pop
    ∷ []

run-stack_init_example : run (step realloc) (stack_init 3) session ≡ run spec [] session
run-stack_init_example = run-stack_init realloc 3 session realloc-Reallocates (omega arith)
