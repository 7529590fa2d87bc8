-- ===== src/Cache/History.antt =====
-- Histories of calls of the cache that follow one another.
use sandook.Base.{
  ℕ, ◌+◌, ◌≡◌, refl, subst, ◌<◌, List, [], ◌∷◌, length, Option, none, some, All, arith,
}
use sandook.Cache.Rounds.{get-Gives}
use sandook.Cache.Conservation.{total, held, put_item-held, put_item-capacity, Takes, get-Takes}
use sandook.Cache.{CoreLocalCache, put_item, get}

-- The calls, with the cores that the thread is on.
pub data Call (T : Type 0) : Type 0 where
  gets : ℕ → (ℕ → ℕ) → Call T
  puts : ℕ → T → Call T

module _ {T N : Type 0} (new_fn : N → List T × N) where
  -- The items that a history hands out, and the cache and the source after it.
  unfoldable pub run : CoreLocalCache T → N → List (Call T) → Option (List T × CoreLocalCache T × N)
  run cache n [] = some ([], cache, n)
  run cache n (gets cpu cpus ∷ cs) = elim (get new_fn cpu cpus (λ k c. c) cache n) [
    | none ↦ none
    | some (item, cache', n') ↦ elim (run cache' n' cs) [
      | none ↦ none
      | some (items, cache'', n'') ↦ some (item ∷ items, cache'', n'')
    ]
  ]
  run cache n (puts cpu item ∷ cs) = run (put_item cache cpu item) n cs

-- The items that a history puts back.
pub given_back : {T : Type 0} → List (Call T) → List T
given_back [] = []
given_back (gets cpu cpus ∷ cs) = given_back cs
given_back (puts cpu item ∷ cs) = item ∷ given_back cs

-- The cores of a call are below `m`.
abbrev pub OnCores : {T : Type 0} → ℕ → Call T → Type 0
OnCores m (gets cpu cpus) = (cpu < m) × ((i : ℕ) → cpus i < m)
OnCores m (puts cpu item) = cpu < m

run_gets :
    {T N : Type 0} (new_fn : N → List T × N) (cache : CoreLocalCache T) (cpu : ℕ) (cpus : ℕ → ℕ)
    (n : N) (cs : List (Call T)) {item : T} {cache₁ cache' : CoreLocalCache T} {n₁ n' : N}
    {items : List T}
    → get new_fn cpu cpus (λ k c. c) cache n ≡ some (item, cache₁, n₁)
    → run new_fn cache₁ n₁ cs ≡ some (items, cache', n')
    → run new_fn cache n (gets cpu cpus ∷ cs) ≡ some (item ∷ items, cache', n')
unfolding run
run_gets new_fn cache cpu cpus n cs e f = rw (run, e, f) refl

-- No item is lost and none is handed out twice: from a source that brings at least one item each time, any
-- history of calls on `m` cores, one after the other, runs to its end. What it handed out and what the cache holds then are
-- together what the cache held, what was put back and what the source made, by any measure `w` of items,
-- where `made` counts by that measure what the source made so far.
pub run_keeps_items :
    {T N : Type 0} (new_fn : N → List T × N) (w : T → ℕ) (made : N → ℕ) (m : ℕ)
    (cache : CoreLocalCache T) (n : N) (cs : List (Call T))
    → ((n : N) → 0 < length (new_fn n).0)
    → ((n : N) → made n + total w (new_fn n).0 ≡ made (new_fn n).1)
    → 0 < cache.per_core_capacity
    → All (OnCores m) cs
    → (items : List T) × (cache' : CoreLocalCache T) × (n' : N) × (run new_fn cache n cs
        ≡ some (items, cache', n'))
      × (total w items + held w cache' m + made n
          ≡ total w (given_back cs) + held w cache m + made n')
unfolding run given_back total
run_keeps_items new_fn w made m cache n [] p c room u = ([], cache, n, refl, omega arith)
run_keeps_items new_fn w made m cache n (gets cpu cpus ∷ cs) p c room u =
    let (item, cache₁, n₁, e) =
      get-Gives new_fn cpu cpus (λ k c. c) cache n p room (λ k c. (refl, λ q. q)) in
    let (took, same) =
      subst (Takes w new_fn made c cache m n) e (
        get-Takes w new_fn made c cpu cpus (λ k c. c) cache m n u.0.0 u.0.1
          (λ k c. (refl, refl))) in
    let (items, cache', n', f, b) =
      run_keeps_items new_fn w made m cache₁ n₁ cs p c (omega (arith, same, room)) u.1 in
    (item ∷ items, cache', n', run_gets new_fn cache cpu cpus n cs e f, omega (arith, took, b))
run_keeps_items new_fn w made m cache n (puts cpu item ∷ cs) p c room u =
    let same = put_item-capacity w new_fn made c cache cpu item in
    let (items, cache', n', f, b) =
      run_keeps_items new_fn w made m (put_item cache cpu item) n cs p c (omega (arith, same, room))
        u.1 in
    (items, cache', n', f, omega (arith, b, put_item-held w cache cpu item m u.0))
