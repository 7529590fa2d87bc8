-- ===== src/Cache/Conservation.antt =====
-- What each call does to the items of the cache. The measure is a sum of arbitrary weights, which tells
-- any two multisets of items apart.
use sandook.Base.{
  ℕ, zero, suc, ◌+◌, ◌/◌, ◌≡◌, refl, ap, sym, ◌∙◌, ◌<◌, ◌≤◌, inl, inr, false, ltb, ◌==◌, max, List,
  [], ◌∷◌, ◌++◌, length, Option, none, some, arith, Bool-cases, ==_iff, ne_of_==,
}
use sandook.Types.{put}
use sandook.Cache.Rounds.{refill-keeps}
use sandook.Cache.{
  CoreLocalCache, refill, spill, put_item, push_all, gather, reserve, get_slow_path, get,
}

module _ {T : Type 0} (w : T → ℕ) where
  unfoldable pub total : List T → ℕ
  total [] = 0
  total (x ∷ xs) = w x + total xs

  unfoldable pub total_locals : (ℕ → List T) → ℕ → ℕ
  total_locals locals zero = 0
  total_locals locals (suc m) = total (locals m) + total_locals locals m

  -- All items of the cache, on `m` cores.
  unfoldable pub held : CoreLocalCache T → ℕ → ℕ
  held cache m = total cache.global + total_locals cache.locals m

  total-append : (xs ys : List T) → total (xs ++ ys) ≡ total xs + total ys
  unfolding total
  total-append [] ys = omega arith
  total-append (x ∷ xs) ys = omega (arith, total-append xs ys)

  total-push_all : (xs global : List T) → total (push_all xs global) ≡ total xs + total global
  unfolding total push_all
  total-push_all [] global = omega arith
  total-push_all (x ∷ xs) global = omega (arith, total-push_all xs (x ∷ global))

  total-refill :
      (capacity : ℕ) (global items : List T)
      → let r = refill capacity global items in total r.0 + total r.1 ≡ total global + total items
  unfolding total refill
  total-refill capacity [] items = omega arith
  total-refill capacity (x ∷ global) items =
      let l = total-refill capacity global (x ∷ items) in
      elim (Bool-cases (ltb (length items) capacity)) [
        | inl e ↦ rw e (omega (arith, l))
        | inr e ↦ rw e (omega arith)
      ]

  total-spill :
      (limit : ℕ) (items global : List T)
      → let r = spill limit items global in total r.0 + total r.1 ≡ total items + total global
  unfolding total spill
  total-spill limit [] global = omega arith
  total-spill limit (x ∷ items) global =
      let l = total-spill limit items (x ∷ global) in
      elim (Bool-cases (ltb limit (length (x ∷ items)))) [
        | inl e ↦ rw e (omega (arith, l))
        | inr e ↦ rw e (omega arith)
      ]

  total_of_none : (xs : List T) → length xs ≤ 0 → total xs ≡ 0
  unfolding total
  total_of_none [] h = refl
  total_of_none (x ∷ xs) h = absurd (omega (arith, h))

  same_locals :
      (locals : ℕ → List T) (cpu : ℕ) (l : List T) (m : ℕ)
      → m ≤ cpu
      → total_locals (put locals cpu l) m ≡ total_locals locals m
  unfolding total_locals
  same_locals locals cpu l zero h = refl
  same_locals locals cpu l (suc m) h =
      let e : (cpu == m) ≡ false = ground (arith, h) in
      rw e (ap (λ n. total (locals m) + n) (same_locals locals cpu l m (omega (arith, h))))

  -- The sum after the stack of one core is replaced.
  total_locals-put :
      (locals : ℕ → List T) (cpu : ℕ) (l : List T) (m : ℕ)
      → cpu < m
      → total_locals (put locals cpu l) m + total (locals cpu) ≡ total_locals locals m + total l
  unfolding total_locals
  total_locals-put locals cpu l zero h = absurd (omega (arith, h))
  total_locals-put locals cpu l (suc m) h = elim (Bool-cases (cpu == m)) [
    | inl e ↦
        let q = (==_iff cpu m).0 e in
        rw e (
          omega
            (arith, same_locals locals cpu l m (omega (arith, q)), ap (λ c. total (locals c)) q))
    | inr e ↦
        let q = ne_of_== cpu m e in
        rw e (omega (arith, total_locals-put locals cpu l m (omega (arith, h, q))))
  ]

  pub put_item-held :
      (cache : CoreLocalCache T) (cpu : ℕ) (item : T) (m : ℕ)
      → cpu < m
      → held (put_item cache cpu item) m ≡ held cache m + w item
  unfolding put_item held total
  put_item-held cache cpu item m h =
      let items = item ∷ cache.locals cpu in
      let s = total-spill (max (cache.per_core_capacity / 2) 1) items cache.global in
      elim (Bool-cases (ltb cache.per_core_capacity (length items))) [
        | inl e ↦ rw e (
            omega (
              arith,
              s,
              total_locals-put cache.locals cpu
                  (spill (max (cache.per_core_capacity / 2) 1) items cache.global).0 m h,
            ))
        | inr e ↦ rw e (omega (arith, total_locals-put cache.locals cpu items m h))
      ]

  -- What was made so far is counted in the state of the source.
  module _ {N : Type 0} (new_fn : N → List T × N) (made : N → ℕ)
      (counts : (n : N) → made n + total (new_fn n).0 ≡ made (new_fn n).1) where
    -- What is gathered, if the loop ends, is what there was and what was made.
    abbrev pub Gathers : List T → N → Option (List T × N) → Type 0
    Gathers items n none = Unit
    Gathers items n (some (all, n')) = total all + made n ≡ total items + made n'

    gather_more :
        (items : List T) (n : N) (r : Option (List T × N))
        → Gathers (items ++ (new_fn n).0) (new_fn n).1 r
        → Gathers items n r
    gather_more items n none h = tt
    gather_more items n (some (all, n')) h =
        omega (arith, h, counts n, total-append items (new_fn n).0)

    gather-Gathers :
        (k size : ℕ) (items : List T) (n : N) → Gathers items n (gather new_fn k size items n)
    unfolding gather
    gather-Gathers zero size items n = elim (Bool-cases (ltb (length items) size)) [
      | inl e ↦ rw e tt
      | inr e ↦ rw e refl
    ]
    gather-Gathers (suc k) size items n = elim (Bool-cases (ltb (length items) size)) [
      | inl e ↦
          rw e (gather_more items n _ (gather-Gathers k size (items ++ (new_fn n).0) (new_fn n).1))
      | inr e ↦ rw e refl
    ]

    -- What `reserve` adds is what was made.
    abbrev pub Reserves : CoreLocalCache T → ℕ → N → Option (CoreLocalCache T × N) → Type 0
    Reserves cache m n none = Unit
    Reserves cache m n (some (cache', n')) =
        (held cache' m + made n ≡ held cache m + made n')
        × (cache'.per_core_capacity ≡ cache.per_core_capacity)

    reserve-Reserves :
        (cache : CoreLocalCache T) (size m : ℕ) (n : N)
        → Reserves cache m n (reserve new_fn cache size n)
    unfolding reserve held total
    reserve-Reserves cache size m n =
        go (gather new_fn size size [] n) (gather-Gathers size size [] n)
      where
        go :
            (r : Option (List T × N))
            → Gathers [] n r
            → Reserves cache m n (elim r [
              | none ↦ none
              | some (items, n') ↦ some (record cache { global = push_all items cache.global }, n')
            ])
        go none h = tt
        go (some (items, n')) h = (omega (arith, h, total-push_all items cache.global), refl)

    -- The item that is handed out, if there is one, was held or made.
    abbrev pub Takes : CoreLocalCache T → ℕ → N → Option (T × CoreLocalCache T × N) → Type 0
    Takes cache m n none = Unit
    Takes cache m n (some (item, cache', n')) =
        (w item + held cache' m + made n ≡ held cache m + made n')
        × (cache'.per_core_capacity ≡ cache.per_core_capacity)

    -- The pop of an item from the stack of a core.
    pop_lem :
        (cache : CoreLocalCache T) (cpu m : ℕ) (n : N) (item : T) (left global : List T)
        → cpu < m
        → total global + (w item + total left) ≡ total cache.global + total (cache.locals cpu)
        → Takes cache m n
            (some (item, record cache { locals = put cache.locals cpu left; global = global }, n))
    unfolding held
    pop_lem cache cpu m n item left global h e =
        (omega (arith, e, total_locals-put cache.locals cpu left m h), refl)

    -- A call from a cache that was given items.
    Takes-more :
        (cache cache' : CoreLocalCache T) (m : ℕ) (n n' : N) (r : Option (T × CoreLocalCache T × N))
        → held cache' m + made n ≡ held cache m + made n'
        → cache'.per_core_capacity ≡ cache.per_core_capacity
        → Takes cache' m n' r
        → Takes cache m n r
    Takes-more cache cache' m n n' none e q h = tt
    Takes-more cache cache' m n n' (some (item, c, n'')) e q h = (omega (arith, e, h.0), h.1 ∙ q)

    -- A round of the slow path, before `next`.
    round_lem :
        (next : CoreLocalCache T → N → Option (T × CoreLocalCache T × N)) (k : ℕ) (cpus : ℕ → ℕ)
        (cache : CoreLocalCache T) (m : ℕ) (n : N)
        → ((i : ℕ) → cpus i < m)
        → ((cache' : CoreLocalCache T) (n' : N) → Takes cache' m n' (next cache' n'))
        → let r = refill cache.per_core_capacity cache.global (cache.locals (cpus k)) in
          Takes cache m n (elim r.1 [
            | item ∷ left ↦
                some
                  (item, record cache { locals = put cache.locals (cpus k) left; global = r.0 }, n)
            | [] ↦ elim (reserve new_fn (record cache { global = r.0 }) cache.per_core_capacity n) [
              | none ↦ none
              | some (cache', n') ↦ next cache' n'
            ]
          ])
    unfolding total held
    round_lem next k cpus cache m n h rec = go r.1 refl
      where
        r : List T × List T
        r = refill cache.per_core_capacity cache.global (cache.locals (cpus k))

        same : total r.0 + total r.1 ≡ total cache.global + total (cache.locals (cpus k))
        same = total-refill cache.per_core_capacity cache.global (cache.locals (cpus k))

        asked :
            (o : Option (CoreLocalCache T × N))
            → Reserves (record cache { global = r.0 }) m n o
            → total r.0 ≡ total cache.global
            → Takes cache m n (elim o [ none ↦ none | some (cache', n') ↦ next cache' n' ])
        asked none q e = tt
        asked (some (cache', n')) q e =
            Takes-more cache cache' m n n' (next cache' n') (omega (arith, q.0, e)) q.1
              (rec cache' n')

        go :
            (items : List T)
            → r.1 ≡ items
            → Takes cache m n (elim items [
              | item ∷ left ↦
                  some (
                    item,
                    record cache { locals = put cache.locals (cpus k) left; global = r.0 },
                    n,
                  )
              | [] ↦
                  elim (reserve new_fn (record cache { global = r.0 }) cache.per_core_capacity n) [
                    | none ↦ none
                    | some (cache', n') ↦ next cache' n'
                  ]
            ])
        go (item ∷ left) e =
            pop_lem cache (cpus k) m n item left r.0 (h k)
              (ap (λ x. total r.0 + total x) (sym e) ∙ same)
        go [] e =
            let few = refill-keeps cache.per_core_capacity cache.global (cache.locals (cpus k)) in
            let none_here =
              total_of_none (cache.locals (cpus k)) (omega (arith, few, ap (length {A = T}) e)) in
            asked (reserve new_fn (record cache { global = r.0 }) cache.per_core_capacity n)
              (reserve-Reserves (record cache { global = r.0 }) cache.per_core_capacity m n)
              (omega (arith, same, none_here, ap total e))

    -- Other threads that leave the same items in the cache, by the measure, and its capacity.
    abbrev pub Keeps : ℕ → (ℕ → CoreLocalCache T → CoreLocalCache T) → Type 0
    Keeps m others =
        (k : ℕ) (cache : CoreLocalCache T)
        → (held (others k cache) m ≡ held cache m)
          × ((others k cache).per_core_capacity ≡ cache.per_core_capacity)

    -- A call after what the other threads did.
    Takes-others :
        (others : ℕ → CoreLocalCache T → CoreLocalCache T) (k : ℕ) (cache : CoreLocalCache T)
        (m : ℕ) (n : N) (r : Option (T × CoreLocalCache T × N))
        → Keeps m others
        → Takes (others k cache) m n r
        → Takes cache m n r
    Takes-others others k cache m n r v =
        Takes-more cache (others k cache) m n n r (omega (arith, (v k cache).0)) (v k cache).1

    get_slow_path-Takes :
        (k : ℕ) (cpus : ℕ → ℕ) (others : ℕ → CoreLocalCache T → CoreLocalCache T)
        (cache : CoreLocalCache T) (m : ℕ) (n : N)
        → ((i : ℕ) → cpus i < m)
        → Keeps m others
        → Takes cache m n (get_slow_path new_fn k cpus others cache n)
    unfolding get_slow_path
    get_slow_path-Takes zero cpus others cache m n h v = tt
    get_slow_path-Takes (suc k) cpus others cache m n h v =
        round_lem (λ cache' n'. get_slow_path new_fn k cpus others (others k cache') n') k cpus
          cache m n h
          (λ cache' n'.
            Takes-others others k cache' m n' _ v
              (get_slow_path-Takes k cpus others (others k cache') m n' h v))

    -- `get` on any cores: what it hands out and what the cache holds then is what it held and what was made.
    pub get-Takes :
        (cpu : ℕ) (cpus : ℕ → ℕ) (others : ℕ → CoreLocalCache T → CoreLocalCache T)
        (cache : CoreLocalCache T) (m : ℕ) (n : N)
        → cpu < m
        → ((i : ℕ) → cpus i < m)
        → Keeps m others
        → Takes cache m n (get new_fn cpu cpus others cache n)
    unfolding get total
    get-Takes cpu cpus others cache m n l h v = go (cache.locals cpu) refl
      where
        go :
            (items : List T)
            → cache.locals cpu ≡ items
            → Takes cache m n (elim items [
              | item ∷ left ↦ some (item, record cache { locals = put cache.locals cpu left }, n)
              | [] ↦ get_slow_path new_fn 2 cpus others (others 2 cache) n
            ])
        go (item ∷ left) e =
            pop_lem cache cpu m n item left cache.global l
              (ap (λ x. total cache.global + total x) (sym e))
        go [] e =
            Takes-others others 2 cache m n _ v
              (get_slow_path-Takes 2 cpus others (others 2 cache) m n h v)

    pub put_item-capacity :
        (cache : CoreLocalCache T) (cpu : ℕ) (item : T)
        → (put_item cache cpu item).per_core_capacity ≡ cache.per_core_capacity
    unfolding put_item
    put_item-capacity cache cpu item =
        elim (Bool-cases (ltb cache.per_core_capacity (length (item ∷ cache.locals cpu)))) [
          | inl e ↦ rw e refl
          | inr e ↦ rw e refl
        ]
