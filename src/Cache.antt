-- ===== src/Cache.antt =====
-- base/core_local_cache.h: CoreLocalCache, a stack of items for each core and one that the cores share.
-- Virtual disks keep allocated blocks in it. A stack is a list from its top. `new_fn` makes new items from
-- the state of their source; each critical section is one step. What the other
-- threads do to the cache between those of `get`, `get_slow_path` and `reserve` is an argument.
pub mod Rounds
pub mod Conservation
pub mod History
mod Tests
use sandook.Base.{
  ℕ, zero, suc, ◌+◌, ◌/◌, Bool, true, false, if◌then◌else◌, ltb, ◌==◌, max, List, [], ◌∷◌, ◌++◌,
  length, Option, none, some,
}
use sandook.Types.{put}

pub record CoreLocalCache (T : Type 0) : Type 0 where
  pub per_core_capacity : ℕ
  pub locals : ℕ → List T
  pub global : List T

module _ {T : Type 0} where
  pub init : ℕ → CoreLocalCache T
  init capacity = record { per_core_capacity = capacity; locals = λ cpu. []; global = [] }

  -- The loop of `get_slow_path` that moves items to the core: what is left of the shared stack, and the
  -- core's.
  pub refill : ℕ → List T → List T → List T × List T
  refill capacity [] items = ([], items)
  refill capacity (x ∷ global) items =
      let rest = refill capacity global (x ∷ items) in
      if ltb (length items) capacity then rest else (x ∷ global, items)

  -- The loop of `put_slow_path`: what is left of the core's stack, and the shared one.
  pub spill : ℕ → List T → List T → List T × List T
  spill limit [] global = ([], global)
  spill limit (x ∷ items) global =
      let rest = spill limit items (x ∷ global) in
      if ltb limit (length (x ∷ items)) then rest else (x ∷ items, global)

  pub put_item : CoreLocalCache T → ℕ → T → CoreLocalCache T
  unfolding spill
  put_item cache cpu item =
      let items = item ∷ cache.locals cpu in
      let (left, global) = spill (max (cache.per_core_capacity / 2) 1) items cache.global in
      if ltb cache.per_core_capacity (length items)
      then record cache { locals = put cache.locals cpu left; global = global }
      else record cache { locals = put cache.locals cpu items }

  -- The pushes at the end of `reserve`.
  pub push_all : List T → List T → List T
  push_all [] global = global
  push_all (x ∷ xs) global = push_all xs (x ∷ global)

  module _ {N : Type 0} (new_fn : N → List T × N) where
    -- The loop of `reserve`, for `k` rounds. `none` is a loop that has not ended.
    pub gather : ℕ → ℕ → List T → N → Option (List T × N)
    gather zero global_size items n =
        if ltb (length items) global_size then none else some (items, n)
    gather (suc k) global_size items n =
        let (new_items, n') = new_fn n in
        let rest = gather k global_size (items ++ new_items) n' in
        if ltb (length items) global_size then rest else some (items, n)

    -- The items are enough after `global_size` rounds that bring some.
    pub reserve : CoreLocalCache T → ℕ → N → Option (CoreLocalCache T × N)
    unfolding gather push_all
    reserve cache global_size n = elim (gather global_size global_size [] n) [
      | none ↦ none
      | some (items, n') ↦ some (record cache { global = push_all items cache.global }, n')
    ]

    -- `get_slow_path` from its label on, for `k` rounds. The thread runs on core `cpus k` in a round, and the
    -- other threads do `others k` between `reserve` and the next round.
    pub get_slow_path :
        ℕ
        → (ℕ → ℕ)
        → (ℕ → CoreLocalCache T → CoreLocalCache T)
        → CoreLocalCache T
        → N
        → Option (T × CoreLocalCache T × N)
    unfolding refill reserve
    get_slow_path zero cpus others cache n = none
    get_slow_path (suc k) cpus others cache n =
        let (global, items) = refill cache.per_core_capacity cache.global (cache.locals (cpus k)) in
        elim items [
          | item ∷ left ↦
              some
                (item, record cache { locals = put cache.locals (cpus k) left; global = global }, n)
          | [] ↦ elim (reserve (record cache { global = global }) cache.per_core_capacity n) [
            | none ↦ none
            | some (cache', n') ↦ get_slow_path k cpus others (others k cache') n'
          ]
        ]

    -- `get` on core `cpu`, where the slow path may go on elsewhere, for two rounds of the slow path.
    pub get :
        ℕ
        → (ℕ → ℕ)
        → (ℕ → CoreLocalCache T → CoreLocalCache T)
        → CoreLocalCache T
        → N
        → Option (T × CoreLocalCache T × N)
    unfolding get_slow_path
    get cpu cpus others cache n = elim (cache.locals cpu) [
      | item ∷ left ↦ some (item, record cache { locals = put cache.locals cpu left }, n)
      | [] ↦ get_slow_path 2 cpus others (others 2 cache) n
    ]
