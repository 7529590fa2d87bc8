-- ===== src/Slab/Loops.antt =====
-- The loops of the allocator: what a round keeps, the loop keeps.
use sandook.Base.{
  ℕ, zero, suc, ◌+◌, ◌≡◌, refl, ◌<◌, ◌≤◌, inl, inr, true, false, ltb, leb, List, [], ◌∷◌, arith,
  Bool-cases, length,
}
use sandook.Slab.FreeList.{Ptr}
use sandook.Slab.{
  SlabAllocator, get_slab_size, fetch, fetch_while, carve, carve_while, turn_in, turn_in_while,
}

module _ (P : SlabAllocator → Type 0) (c s limit : ℕ)
    (keep : (a : SlabAllocator) (p : Ptr) (rest : List Ptr)
      → a.slab_lists s ≡ p ∷ rest
      → length (a.cache_lists c s) < limit
      → P a
      → P (fetch a c s p rest)) where
  fetch-round :
      (a : SlabAllocator) (k : ℕ)
      → ((p : Ptr) (rest : List Ptr)
          → a.slab_lists s ≡ p ∷ rest
          → length (a.cache_lists c s) < limit
          → P (fetch_while (fetch a c s p rest) c s limit k))
      → P a
      → P (fetch_while a c s limit (suc k))
  unfolding fetch_while
  fetch-round a k rec h = elim (Bool-cases (ltb (length (a.cache_lists c s)) limit)) [
    | inr e ↦ rw (fetch_while, e) h
    | inl e ↦
        rw (fetch_while, e) (go (a.slab_lists s) (λ p rest q. rec p rest q (ground (arith, e))))
  ]
    where
      go :
          (l : List Ptr)
          → ((p : Ptr) (rest : List Ptr)
              → l ≡ p ∷ rest
              → P (fetch_while (fetch a c s p rest) c s limit k))
          → P (elim l [ [] ↦ a | p ∷ rest ↦ fetch_while (fetch a c s p rest) c s limit k ])
      go [] r = h
      go (p ∷ rest) r = r p rest refl

  pub fetch_while-keeps : (a : SlabAllocator) (k : ℕ) → P a → P (fetch_while a c s limit k)
  unfolding fetch_while
  fetch_while-keeps a zero h = h
  fetch_while-keeps a (suc k) h =
      fetch-round a k (λ p rest e l. fetch_while-keeps (fetch a c s p rest) k (keep a p rest e l h))
        h

module _ (P : SlabAllocator → Type 0) (c s : ℕ)
    (keep : (a : SlabAllocator) → a.cur + get_slab_size s ≤ a.end → P a → P (carve a c s)) where
  pub carve_while-keeps : (a : SlabAllocator) (k : ℕ) → P a → P (carve_while a c s k)
  unfolding carve_while
  carve_while-keeps a zero h = h
  carve_while-keeps a (suc k) h = elim (Bool-cases (leb (a.cur + get_slab_size s) a.end)) [
    | inr e ↦ rw (carve_while, e) h
    | inl e ↦ rw (carve_while, e) (carve_while-keeps (carve a c s) k (keep a (ground (arith, e)) h))
  ]

module _ (P : SlabAllocator → Type 0) (c s limit : ℕ)
    (keep : (a : SlabAllocator) (p : Ptr) (rest : List Ptr)
      → a.cache_lists c s ≡ p ∷ rest
      → limit < length (p ∷ rest)
      → P a
      → P (turn_in a c s p rest)) where
  turn_in-round :
      (a : SlabAllocator) (k : ℕ)
      → ((p : Ptr) (rest : List Ptr)
          → a.cache_lists c s ≡ p ∷ rest
          → limit < length (p ∷ rest)
          → P (turn_in_while (turn_in a c s p rest) c s limit k))
      → P a
      → P (turn_in_while a c s limit (suc k))
  unfolding turn_in_while
  turn_in-round a k rec h = go (a.cache_lists c s) rec
    where
      go :
          (l : List Ptr)
          → ((p : Ptr) (rest : List Ptr)
              → l ≡ p ∷ rest
              → limit < length (p ∷ rest)
              → P (turn_in_while (turn_in a c s p rest) c s limit k))
          → P (elim l [
            | [] ↦ a
            | p ∷ rest ↦ elim (ltb limit (length (p ∷ rest))) [
              | true ↦ turn_in_while (turn_in a c s p rest) c s limit k
              | false ↦ a
            ]
          ])
      go [] r = h
      go (p ∷ rest) r = elim (Bool-cases (ltb limit (length (p ∷ rest)))) [
        | inl e ↦ rw e (r p rest refl (ground (arith, e)))
        | inr e ↦ rw e h
      ]

  pub turn_in_while-keeps : (a : SlabAllocator) (k : ℕ) → P a → P (turn_in_while a c s limit k)
  unfolding turn_in_while
  turn_in_while-keeps a zero h = h
  turn_in_while-keeps a (suc k) h =
      turn_in-round a k
        (λ p rest e l. turn_in_while-keeps (turn_in a c s p rest) k (keep a p rest e l h)) h
