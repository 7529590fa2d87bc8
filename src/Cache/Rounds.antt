-- ===== src/Cache/Rounds.antt =====
-- How often the loops of the cache run.
use sandook.Base.{
  ℕ, zero, suc, ◌+◌, ◌≡◌, refl, ◌<◌, ◌≤◌, ◌⊎◌, inl, inr, ltb, List, [], ◌∷◌, ◌++◌, length, Option,
  none, some, arith, Bool-cases, le→not-ltb,
}
use sandook.Types.{put}
use sandook.Cache.{CoreLocalCache, refill, push_all, gather, reserve, get_slow_path, get}

module _ {T : Type 0} where
  length-append_lem : (xs ys : List T) → length (xs ++ ys) ≡ length xs + length ys
  length-append_lem [] ys = omega arith
  length-append_lem (x ∷ xs) ys = omega (arith, length-append_lem xs ys)

  length-push_all : (xs global : List T) → length (push_all xs global) ≡ length xs + length global
  unfolding push_all
  length-push_all [] global = omega arith
  length-push_all (x ∷ xs) global = omega (arith, length-push_all xs (x ∷ global))

  pub refill-keeps :
      (capacity : ℕ) (global items : List T)
      → length items ≤ length (refill capacity global items).1
  unfolding refill
  refill-keeps capacity [] items = omega arith
  refill-keeps capacity (x ∷ global) items =
      let l = refill-keeps capacity global (x ∷ items) in
      elim (Bool-cases (ltb (length items) capacity)) [
        | inl e ↦ rw e (omega (arith, l))
        | inr e ↦ rw e (omega arith)
      ]

  -- A core gets an item if there is one.
  refill-some :
      (capacity : ℕ) (global items : List T)
      → 0 < capacity
      → 0 < length global + length items
      → 0 < length (refill capacity global items).1
  unfolding refill
  refill-some capacity [] items c p = omega (arith, p)
  refill-some capacity (x ∷ global) items c p = elim (Bool-cases (ltb (length items) capacity)) [
    | inl e ↦ rw e (omega (arith, refill-keeps capacity global (x ∷ items)))
    | inr e ↦ rw e (ground (arith, e, c))
  ]

  module _ {N : Type 0} (new_fn : N → List T × N) where
    -- A source that brings at least one item each time.
    gather_lem :
        ((n : N) → 0 < length (new_fn n).0)
        → (k size : ℕ) (items : List T) (n : N) → size ≤ length items + k
        → (all : List T) × (n' : N) × (gather new_fn k size items n ≡ some (all, n'))
          × (size ≤ length all)
    unfolding gather
    gather_lem p zero size items n l =
        (items, n, rw (le→not-ltb (length items) size (omega (arith, l))) refl, omega (arith, l))
    gather_lem p (suc k) size items n l = elim (Bool-cases (ltb (length items) size)) [
      | inr e ↦ (items, n, rw e refl, ground (arith, e))
      | inl e ↦
          let (all, n', f, g) =
            gather_lem p k size (items ++ (new_fn n).0) (new_fn n).1
              (omega (arith, l, p n, length-append_lem items (new_fn n).0)) in
          (all, n', rw e f, g)
    ]

    reserve_lem :
        ((n : N) → 0 < length (new_fn n).0)
        → (cache : CoreLocalCache T) (size : ℕ) (n : N)
        → (cache' : CoreLocalCache T) × (n' : N) × (reserve new_fn cache size n ≡ some (cache', n'))
          × (cache'.per_core_capacity ≡ cache.per_core_capacity)
          × (size ≤ length cache'.global)
    unfolding reserve
    reserve_lem p cache size n =
        let (all, n', f, g) = gather_lem p size size [] n (omega arith) in
        (
          record cache { global = push_all all cache.global },
          n',
          rw (reserve, f) refl,
          refl,
          omega (arith, g, length-push_all all cache.global),
        )

    -- The case of a round that finds an item.
    Gives : Option (T × CoreLocalCache T × N) → Type 0
    Gives r = (item : T) × (cache' : CoreLocalCache T) × (n' : N) × (r ≡ some (item, cache', n'))

    round_lem :
        (k : ℕ) (cpus : ℕ → ℕ) (others : ℕ → CoreLocalCache T → CoreLocalCache T)
        (cache : CoreLocalCache T) (n : N)
        → ((0 < length (refill cache.per_core_capacity cache.global (cache.locals (cpus k))).1)
            ⊎ ((cache' : CoreLocalCache T) (n' : N)
                → cache'.per_core_capacity ≡ cache.per_core_capacity
                → cache.per_core_capacity ≤ length cache'.global
                → Gives (get_slow_path new_fn k cpus others (others k cache') n')))
        → ((n : N) → 0 < length (new_fn n).0)
        → Gives (get_slow_path new_fn (suc k) cpus others cache n)
    unfolding Gives get_slow_path
    round_lem k cpus others cache n h p =
        go (refill cache.per_core_capacity cache.global (cache.locals (cpus k))).1 h
      where
        go :
            (items : List T)
            → ((0 < length items)
                ⊎ ((cache' : CoreLocalCache T) (n' : N)
                    → cache'.per_core_capacity ≡ cache.per_core_capacity
                    → cache.per_core_capacity ≤ length cache'.global
                    → Gives (get_slow_path new_fn k cpus others (others k cache') n')))
            → let global =
                (refill cache.per_core_capacity cache.global (cache.locals (cpus k))).0 in
              Gives (elim items [
                | item ∷ left ↦ some (
                  item,
                  record cache { locals = put cache.locals (cpus k) left; global = global },
                  n,
                )
                | [] ↦
                    elim (reserve new_fn
                      (record cache { global = global })
                      cache.per_core_capacity
                      n) [
                        | none ↦ none
                        | some (cache', n') ↦
                            get_slow_path new_fn k cpus others (others k cache') n'
                      ]
              ])
        go (item ∷ left) h = (item, _, n, refl)
        go [] (inl l) = absurd (omega (arith, l))
        go [] (inr f) =
            let (cache', n', e, q, g) =
              reserve_lem p
                (record cache {
                  global = (refill cache.per_core_capacity cache.global (cache.locals (cpus k))).0;
                })
                cache.per_core_capacity n in
            rw e (f cache' n' q g)

    -- Other threads that keep the capacity and leave an item on the shared stack if there is one.
    abbrev pub Spares : (ℕ → CoreLocalCache T → CoreLocalCache T) → Type 0
    Spares others =
        (k : ℕ) (cache : CoreLocalCache T)
        → ((others k cache).per_core_capacity ≡ cache.per_core_capacity)
          × (0 < length cache.global → 0 < length (others k cache).global)

    -- If each call of the source brings at least one item and the capacity is not 0, `get` ends with an
    -- item after at most one `reserve`, whatever the stacks hold and on whatever cores the thread runs, and
    -- whatever the other threads do between its critical sections, as long as they leave an item on
    -- the shared stack when there is one and keep the capacity.
    pub get-Gives :
        (cpu : ℕ) (cpus : ℕ → ℕ) (others : ℕ → CoreLocalCache T → CoreLocalCache T)
        (cache : CoreLocalCache T) (n : N)
        → ((n : N) → 0 < length (new_fn n).0)
        → 0 < cache.per_core_capacity
        → Spares others
        → (item : T) × (cache' : CoreLocalCache T) × (n' : N) × (get new_fn cpu cpus others cache n
            ≡ some (item, cache', n'))
    unfolding get Gives
    get-Gives cpu cpus others cache n p c v = go (cache.locals cpu)
      where
        start : CoreLocalCache T
        start = others 2 cache

        room : 0 < start.per_core_capacity
        room = omega (arith, c, (v 2 cache).0)

        second :
            (cache' : CoreLocalCache T) (n' : N)
            → cache'.per_core_capacity ≡ start.per_core_capacity
            → start.per_core_capacity ≤ length cache'.global
            → Gives (get_slow_path new_fn 1 cpus others (others 1 cache') n')
        second cache' n' q l =
            let after = others 1 cache' in
            round_lem 0 cpus others after n'
              (inl (
                refill-some after.per_core_capacity after.global (after.locals (cpus 0))
                  (omega (arith, (v 1 cache').0, q, room))
                  (omega (arith, (v 1 cache').1 (omega (arith, l, room))))))
              p

        go :
            (items : List T)
            → Gives (elim items [
              | item ∷ left ↦ some (item, record cache { locals = put cache.locals cpu left }, n)
              | [] ↦ get_slow_path new_fn 2 cpus others start n
            ])
        go (item ∷ left) = (item, _, n, refl)
        go [] = round_lem 1 cpus others start n (inr second) p
