-- ===== src/Slab/FreeList/Tests.antt =====
-- A list that grows into a second batch.
use sandook.Base.{◌≡◌, List, [], ◌∷◌, arith}
use sandook.Status.{ok}
use sandook.Slab.FreeList.{Memory, FreePtrsList, init}
use sandook.Slab.FreeList.Stack.{IsStack}
use sandook.Slab.FreeList.Refine.{
  Op, pushes, pops, run, Runs, ends, push_runs, pop_runs, run_refines,
}

abbrev eight : List Op
eight =
    pushes 48
    ∷ pushes 96
    ∷ pops
    ∷ pushes 144
    ∷ pushes 192
    ∷ pushes 240
    ∷ pushes 288
    ∷ pushes 336
    ∷ pushes 384
    ∷ pops
    ∷ pops
    ∷ []

eight-Runs : Runs [] eight (96 ∷ 384 ∷ 336 ∷ []) (288 ∷ 240 ∷ 192 ∷ 144 ∷ 48 ∷ [])
eight-Runs = push_runs 48 (omega arith) (omega arith) (
    push_runs 96 (omega arith) (omega arith) (
      pop_runs 96 (
        push_runs 144 (omega arith) (omega arith) (
          push_runs 192 (omega arith) (omega arith) (
            push_runs 240 (omega arith) (omega arith) (
              push_runs 288 (omega arith) (omega arith) (
                push_runs 336 (omega arith) (omega arith) (
                  push_runs 384 (omega arith) (omega arith)
                    (pop_runs 384 (pop_runs 336 (ends _)))))))))))

run_refines_example :
    (mem : Memory) × (l : FreePtrsList) × (run (λ p i. 7) init eight
      ≡ ok (96 ∷ 384 ∷ 336 ∷ [], mem, l))
    × IsStack mem l (288 ∷ 240 ∷ 192 ∷ 144 ∷ 48 ∷ [])
run_refines_example = run_refines (λ p i. 7) eight-Runs
