-- ===== src/Slab/Tests.antt =====
-- Requests from two cores, with a reallocation.
use sandook.Base.{ℕ, ◌<◌, ◌^◌, ◌≡◌, refl, List, [], ◌∷◌, All, ◌⊎◌, ◌+◌, ◌≤◌, arith}
use sandook.Status.{Status, ok, err, fault}
use sandook.Slab.FreeList.{Ptr}
use sandook.Slab.History.{
  Request, mallocs, frees, reallocs, step, run, IsSized, IsPlaced, IsApart, Records, run-IsApart,
}
use sandook.Slab.Room.{Exhausted, allocate-Exhausted}
use sandook.Slab.{
  carve_while, fetch_while, get_slab_size, carve, serve, refill, SlabAllocator, init, allocate,
  get_slab_shift,
}

abbrev requests : List Request
requests = mallocs 0 40 ∷ mallocs 1 8 ∷ reallocs 0 1 1 100 ∷ frees 1 1 ∷ mallocs 0 0 ∷ []

requests-IsSized : All IsSized requests
unfolding IsSized
requests-IsSized = (omega arith, (omega arith, (omega arith, (tt, (omega arith, tt)))))

run-IsApart_example :
    (a : SlabAllocator) × (live : List Ptr) × (run (λ s. 0) (init 4096 65536) [] requests
      ≡ ok (a, live))
    × All (IsPlaced 4096 (4096 + 65536) a) live
    × IsApart a live
    × ((c n : ℕ) → n < 2 ^ 64 → Records a n (allocate (λ s. 0) a c n))
run-IsApart_example = run-IsApart (λ s. 0) 4096 65536 requests refl requests-IsSized

-- Two objects fill the memory.
abbrev two : List Request
two = mallocs 0 40 ∷ mallocs 0 33 ∷ []

abbrev state_of : Status (SlabAllocator × List Ptr) → SlabAllocator × List Ptr
state_of (ok x) = x
state_of (err e) = (init 4096 160, [])
state_of fault = (init 4096 160, [])

abbrev two_held : SlabAllocator × List Ptr
unfolding run step
two_held = state_of (run (λ s. 0) (init 4096 160) [] two)

pair_history : run (λ s. 0) (init 4096 160) [] two ≡ ok (two_held.0, two_held.1)
unfolding two_held run step allocate serve refill get_slab_shift init carve_while fetch_while
    get_slab_size carve
pair_history = refl

small : get_slab_shift 40 ≤ 35
unfolding get_slab_shift
small = omega arith

allocate-Exhausted_example :
    ((p : Ptr) × (b : SlabAllocator) × (allocate (λ s. 0) two_held.0 1 40 ≡ ok (p + 16, b)))
    ⊎ Exhausted two_held.0 1 (get_slab_shift 40)
unfolding IsSized
allocate-Exhausted_example =
    allocate-Exhausted (λ s. 0) 4096 160 two two_held.0 two_held.1 1 40 refl
      (omega arith, (omega arith, tt)) pair_history (omega arith) (omega arith) small
