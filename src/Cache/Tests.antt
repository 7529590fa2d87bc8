-- ===== src/Cache/Tests.antt =====
-- A cache of numbers on two cores, whose source makes two at a time.
use sandook.Base.{ℕ, ◌+◌, ◌≡◌, refl, ◌<◌, List, [], ◌∷◌, length, some, All, arith}
use sandook.Cache.Rounds.{Spares, get-Gives}
use sandook.Cache.Conservation.{total, held}
use sandook.Cache.History.{Call, gets, puts, run, given_back, OnCores, run_keeps_items}
use sandook.Cache.{CoreLocalCache, init, get}

abbrev source : ℕ → List ℕ × ℕ
source n = (n ∷ (n + 1) ∷ [], n + 2)

source_some : (n : ℕ) → 0 < length (source n).0
source_some n = omega arith

source_counts : (n : ℕ) → n + total (λ x. 1) (source n).0 ≡ (source n).1
unfolding total
source_counts n = omega arith

abbrev calls : List (Call ℕ)
calls = gets 0 (λ k. 1) ∷ gets 1 (λ k. 0) ∷ puts 0 7 ∷ puts 0 8 ∷ puts 0 9 ∷ gets 1 (λ k. 1) ∷ []

calls-OnCores : All (OnCores 2) calls
calls-OnCores = (
  (omega arith, λ i. omega arith),
  (
    (omega arith, λ i. omega arith),
    (omega arith, (omega arith, (omega arith, ((omega arith, λ i. omega arith), tt)))),
  ),
)

run_keeps_items_example :
    (items : List ℕ) × (cache' : CoreLocalCache ℕ) × (n' : ℕ) × (run source (init 2) 0 calls
      ≡ some (items, cache', n'))
    × (total (λ x. 1) items + held (λ x. 1) cache' 2 + 0
        ≡ total (λ x. 1) (given_back calls) + held {T = ℕ} (λ x. 1) (init 2) 2 + n')
unfolding init
run_keeps_items_example =
    run_keeps_items source (λ x. 1) (λ n. n) 2 (init 2) 0 calls source_some source_counts
      (omega arith) calls-OnCores

-- Another thread that takes the top of the shared stack if there is a second item.
abbrev rest_of : List ℕ → List ℕ
rest_of [] = []
rest_of (x ∷ []) = x ∷ []
rest_of (x ∷ y ∷ xs) = y ∷ xs

abbrev takes_one : ℕ → CoreLocalCache ℕ → CoreLocalCache ℕ
takes_one k cache = record cache { global = rest_of cache.global }

takes_one-Spares : Spares source takes_one
takes_one-Spares k cache = (refl, spares cache.global)
  where
    spares : (xs : List ℕ) → 0 < length xs → 0 < length (rest_of xs)
    spares [] l = l
    spares (x ∷ []) l = l
    spares (x ∷ y ∷ xs) l = omega arith

get-Gives_example :
    (item : ℕ) × (cache' : CoreLocalCache ℕ) × (n' : ℕ) × (get source 0
        (λ k. k)
        takes_one
        (init 2)
        5
      ≡ some (item, cache', n'))
unfolding init
get-Gives_example =
    get-Gives source 0 (λ k. k) takes_one (init 2) 5 source_some (omega arith) takes_one-Spares
