-- ===== src/Slab/Room.antt =====
-- When `allocate` has no object to give.
use sandook.Base.{
  ℕ, zero, suc, ◌+◌, ◌-◌, ◌%◌, ◌^◌, ◌≡◌, refl, ◌<◌, ◌≤◌, ◌⊎◌, inl, inr, true, false, ◌&&◌, ◌||◌,
  if◌then◌else◌, leb, ltb, ◌==◌, max, List, [], ◌∷◌, All, arith, Bool-cases, length,
}
use sandook.Status.{ok}
use sandook.Slab.FreeList.{Ptr}
use sandook.Slab.Classes.{get_slab_shift_lem}
use sandook.Slab.Moves.{Tidy, if_self₂}
use sandook.Slab.Users.{served, served-Tidy}
use sandook.Slab.Loops.{fetch_while-keeps, carve_while-keeps}
use sandook.Slab.Safety.{refill-Tidy}
use sandook.Slab.History.{Request, IsSized, run, run-Tidy}
use sandook.Slab.{
  init, SlabAllocator, get_slab_shift, get_slab_size, get_max_num_cache_entries, fetch, carve,
  fetch_while, carve_while, refill, serve, is_empty, allocate,
}

-- There is an object in the cache of core `c` for class `s`.
abbrev Stocked : ℕ → ℕ → SlabAllocator → Type 0
Stocked c s a = is_empty (a.cache_lists c s) ≡ false

push_Stocked :
    (c s : ℕ) (p : Ptr) (l m : List Ptr) → is_empty (if c == c && s == s then p ∷ l else m) ≡ false
unfolding is_empty
push_Stocked c s p l m = rw (if_self₂ c s (p ∷ l) m) refl

carve_while-Stocked :
    (a : SlabAllocator) (c s k : ℕ) → Stocked c s a → Stocked c s (carve_while a c s k)
unfolding carve
carve_while-Stocked a c s k h =
    carve_while-keeps (Stocked c s) c s (λ b r i. push_Stocked c s b.cur (b.cache_lists c s) _) a k
      h

fetch_while-Stocked :
    (a : SlabAllocator) (c s limit k : ℕ) → Stocked c s a → Stocked c s (fetch_while a c s limit k)
unfolding fetch
fetch_while-Stocked a c s limit k h =
    fetch_while-keeps (Stocked c s) c s limit
      (λ b p rest e l i. push_Stocked c s p (b.cache_lists c s) _) a k h

-- Nothing is left for class `s` on core `c`.
abbrev pub Exhausted : SlabAllocator → ℕ → ℕ → Type 0
Exhausted a c s =
    (a.cache_lists c s ≡ []) × (a.slab_lists s ≡ []) × (a.end < a.cur + get_slab_size s)

List-cases : (l : List Ptr) → (l ≡ []) ⊎ ((p : Ptr) × (rest : List Ptr) × (l ≡ p ∷ rest))
List-cases [] = inl refl
List-cases (p ∷ rest) = inr (p, rest, refl)

-- The first loop fills the cache or leaves the allocator as it is.
fetch_while_lem :
    (a : SlabAllocator) (c s k : ℕ)
    → Stocked c s (fetch_while a c s (suc k) (suc k))
      ⊎ ((fetch_while a c s (suc k) (suc k) ≡ a) × (a.cache_lists c s ≡ []) × (a.slab_lists s ≡ []))
unfolding fetch_while fetch is_empty
fetch_while_lem a c s k = elim (List-cases (a.cache_lists c s)) [
  | inr (p, rest, e) ↦ inl (fetch_while-Stocked a c s (suc k) (suc k) (rw e refl))
  | inl e ↦
      let room : ltb 0 (suc k) ≡ true = ground arith in
      elim (List-cases (a.slab_lists s)) [
        | inl f ↦ inr (rw (fetch_while, e, room, f) (refl, refl, refl))
        | inr (p, rest, f) ↦ inl (
            rw (fetch_while, e, room, f)
              (fetch_while-Stocked _ c s (suc k) k (push_Stocked c s p _ _)))
      ]
]

refill_lem :
    (beyond : ℕ → ℕ) (a : SlabAllocator) (c s : ℕ)
    → Stocked c s (refill beyond a c s) ⊎ Exhausted a c s
unfolding refill carve_while carve
refill_lem beyond a c s = go (max (get_max_num_cache_entries beyond s) 1) (omega arith)
  where
    go :
        (l : ℕ)
        → 1 ≤ l
        → let a' = fetch_while a c s l l in
          Stocked c s (carve_while a' c s (l - length (a'.cache_lists c s))) ⊎ Exhausted a c s
    go zero pos = absurd (omega (arith, pos))
    go (suc k) pos = elim (fetch_while_lem a c s k) [
      | inl h ↦ inl (
          carve_while-Stocked (fetch_while a c s (suc k) (suc k)) c s
            (suc k - length ((fetch_while a c s (suc k) (suc k)).cache_lists c s)) h)
      | inr (same, e, f) ↦ elim (Bool-cases (leb (a.cur + get_slab_size s) a.end)) [
        | inl r ↦ inl (
            let z : suc k - 0 ≡ suc k = omega arith in
            rw (same, e, z)
              (rw (carve_while, r)
                (carve_while-Stocked (carve a c s) c s k
                  (push_Stocked c s a.cur (a.cache_lists c s) (a.cache_lists c s)))))
        | inr r ↦ inr (e, f, ground (arith, r))
      ]
    ]

serve_lem :
    {lo hi : ℕ}
    → (a : SlabAllocator) (live : List Ptr) (c size : ℕ) → size < 2 ^ 64
    → get_slab_shift size ≤ 35
    → Tidy lo hi a live
    → Stocked c (get_slab_shift size) a
    → (p : Ptr) × (b : SlabAllocator) × (serve a c (get_slab_shift size) size ≡ ok (p + 16, b))
unfolding serve is_empty
serve_lem a live c size u v h st = elim (List-cases (a.cache_lists c (get_slab_shift size))) [
  | inl e ↦ absurd (cc (rw e at st))
  | inr (p, rest, e) ↦
      let m : ((p + 16) % 16 == 0) ≡ true =
        ground (arith, (served-Tidy a live c size p rest u v e h).1) in
      (p, served a c (get_slab_shift size) size p rest, rw (serve, e, m) refl)
]

-- After any history of requests, with sizes below 2^64 and from memory that starts at a multiple of 16, a
-- request for an object of a class that exists is served, unless the cache of the core and the shared list
-- hold no object of the class and the memory behind the last object that was carved is too small for one.
pub allocate-Exhausted :
    (beyond : ℕ → ℕ) (mem size : ℕ) (rs : List Request) (a : SlabAllocator) (live : List Ptr)
    (c n : ℕ)
    → mem % 16 ≡ 0
    → All IsSized rs
    → run beyond (init mem size) [] rs ≡ ok (a, live)
    → 0 < n
    → n < 2 ^ 64
    → get_slab_shift n ≤ 35
    → ((p : Ptr) × (b : SlabAllocator) × (allocate beyond a c n ≡ ok (p + 16, b)))
      ⊎ Exhausted a c (get_slab_shift n)
unfolding allocate
allocate-Exhausted beyond mem size rs a live c n z u r pos big v =
    let h = run-Tidy beyond mem size rs a live z u r in
    let s = get_slab_shift n in
    let e : (n == 0 || ltb 35 s) ≡ false = ground (arith, pos, v) in
    rw e (elim (Bool-cases (is_empty (a.cache_lists c s))) [
      | inr f ↦ inl (rw f (serve_lem a live c n big v h f))
      | inl f ↦ elim (refill_lem beyond a c s) [
        | inr x ↦ inr x
        | inl st ↦ inl (
            rw f (
              serve_lem (refill beyond a c s) live c n big v
                (refill-Tidy beyond a live c s (get_slab_shift_lem n big).0 h) st))
      ]
    ])
