-- ===== src/Slab/Answers.antt =====
-- What `allocate`, `free` and `reallocate` give back.
use sandook.Base.{
  ℕ, ◌+◌, ◌-◌, ◌%◌, ◌^◌, ◌≡◌, refl, sym, ap, subst, ◌∙◌, ◌<◌, ◌≤◌, ◌≢◌, inl, inr, true, false, ◌||◌,
  if◌then◌else◌, ltb, ◌==◌, List, [], ◌∷◌, arith, Bool-cases, ==_iff,
}
use sandook.Status.{Status, ok, ◌>>=◌, ◌>>◌, check}
use sandook.Selection.Members.{In, All-In}
use sandook.Slab.FreeList.{Ptr}
use sandook.Slab.Classes.{get_slab_shift_lem}
use sandook.Slab.Ledger.{used, block_range}
use sandook.Slab.Moves.{Tidy, get_slab_size-pos, Fits}
use sandook.Slab.Users.{remove, served, served-Tidy}
use sandook.Slab.Safety.{refill-Tidy, free_to_cache_list-Tidy}
use sandook.Slab.Loops.{fetch_while-keeps, carve_while-keeps}
use sandook.Slab.{
  PtrHeader, SlabAllocator, fetch, carve, get_slab_shift, get_slab_size, refill, serve, is_empty,
  allocate, free_to_cache_list, free, reallocate,
}

-- No object, or an object that was not in use. The other headers are as they were.
pub data Answer (lo hi : ℕ) (a : SlabAllocator) (live : List Ptr) (size : ℕ)
    : Status (Ptr × SlabAllocator) → Type 0 where
  none : (b : SlabAllocator) → Tidy lo hi b live → Answer lo hi a live size (ok (0, b))
  some :
      (p : Ptr) (b : SlabAllocator)
      → Tidy lo hi b (p ∷ live)
      → (b.headers p).size ≡ size
      → ((q : Ptr) → q ≢ p → b.headers q ≡ a.headers q)
      → Answer lo hi a live size (ok (p + 16, b))

serve-Answer :
    {lo hi : ℕ}
    → (a : SlabAllocator) (live : List Ptr) (c size : ℕ) → size < 2 ^ 64
    → get_slab_shift size ≤ 35
    → Tidy lo hi a live
    → Answer lo hi a live size (serve a c (get_slab_shift size) size)
unfolding serve
serve-Answer {lo = lo} {hi = hi} a live c size u v h =
    go (a.cache_lists c s) (λ p rest e. served-Tidy a live c size p rest u v e h)
  where
    s : ℕ
    s = get_slab_shift size

    go :
        (l : List Ptr)
        → ((p : Ptr) (rest : List Ptr)
            → l ≡ p ∷ rest
            → Tidy lo hi (served a c s size p rest) (p ∷ live) × (p % 16 ≡ 0))
        → Answer lo hi a live size (elim l [
          | [] ↦ ok (0, a)
          | p ∷ rest ↦ check ((p + 16) % 16 == 0) >> ok (p + 16, served a c s size p rest)
        ])
    go [] r = none a h
    go (p ∷ rest) r =
        let (t, m) = r p rest refl in
        rw ((==_iff ((p + 16) % 16) 0).1 (omega (arith, m))) (
          some p (served a c s size p rest) t (rw ((==_iff p p).1 refl) refl)
            (λ q n. ground (arith, n)))

refill-headers :
    (beyond : ℕ → ℕ) (a : SlabAllocator) (c s : ℕ) (q : Ptr)
    → (refill beyond a c s).headers q ≡ a.headers q
unfolding refill carve fetch
refill-headers beyond a c s q =
    carve_while-keeps (λ b. b.headers q ≡ a.headers q) c s (λ b room h. h) _ _
      (fetch_while-keeps (λ b. b.headers q ≡ a.headers q) c s _ (λ b p rest e l h. h) a _ refl)

of_refill :
    {lo hi : ℕ}
    → (beyond : ℕ → ℕ) (a : SlabAllocator) (live : List Ptr) (c size : ℕ)
      {r : Status (Ptr × SlabAllocator)}
    → Answer lo hi (refill beyond a c (get_slab_shift size)) live size r
    → Answer lo hi a live size r
of_refill beyond a live c size (none b h) = none b h
of_refill beyond a live c size (some p b h e o) =
    some p b h e (λ q n. o q n ∙ refill-headers beyond a c (get_slab_shift size) q)

pub allocate-Answer :
    {lo hi : ℕ}
    → (beyond : ℕ → ℕ) (a : SlabAllocator) (live : List Ptr) (c size : ℕ) → size < 2 ^ 64
    → Tidy lo hi a live
    → Answer lo hi a live size (allocate beyond a c size)
unfolding allocate
allocate-Answer beyond a live c size u h =
    elim (Bool-cases (size == 0 || ltb 35 (get_slab_shift size))) [
      | inl e ↦ rw e (none a h)
      | inr e ↦ rw e (elim (Bool-cases (is_empty (a.cache_lists c (get_slab_shift size)))) [
        | inr f ↦ rw f (serve-Answer a live c size u (ground (arith, e)) h)
        | inl f ↦ rw f (
            of_refill beyond a live c size (
              serve-Answer (refill beyond a c (get_slab_shift size)) live c size u
                (ground (arith, e))
                (refill-Tidy beyond a live c (get_slab_shift size) (get_slab_shift_lem size u).0
                  h)))
      ])
    ]

-- An object in use lies in the memory that was carved.
pub used_bounds :
    {lo hi : ℕ}
    → (a : SlabAllocator) (live : List Ptr) (p : ℕ) → In p live
    → Tidy lo hi a live
    → let s = get_slab_shift (a.headers p).size in
      (a.start ≤ p) × (p + get_slab_size s ≤ a.cur) × (p % 16 ≡ 0) × (5 ≤ s) × (s ≤ 35)
used_bounds a live p m h =
    let (i, f) =
      All-In (λ q. (h.place q ≡ used) × Fits a h.blocks used q) live p (h.parts.placed used) m in
    let (l, r, z) = block_range a.start a.cur h.blocks p _ h.stacked f.0 in
    (l, r, z, (get_slab_shift_lem _ f.1).0, f.2)

pub free-Tidy :
    {lo hi : ℕ}
    → (beyond : ℕ → ℕ) (a : SlabAllocator) (live : List Ptr) (c p : ℕ) → In p live
    → Tidy lo hi a live
    → (b : SlabAllocator) × (free beyond a c (p + 16) ≡ ok b) × Tidy lo hi b (remove p live)
unfolding free
free-Tidy beyond a live c p m h =
    let (l, r, z, g, v) = used_bounds a live p m h in
    rw (e₀, e₁ l, e₂ r, back, e₃ g, e₄ v)
      (free_to_cache_list beyond a c s p, refl, free_to_cache_list-Tidy beyond a live c p m h)
  where
    s : ℕ
    s = get_slab_shift (a.headers p).size

    back : p + 16 - 16 ≡ p
    back = omega arith

    e₀ : (p + 16 == 0) ≡ false
    e₀ = ground arith

    e₁ : a.start ≤ p → ltb (p + 16) a.start ≡ false
    e₁ l = ground (arith, l)

    e₂ : p + get_slab_size s ≤ a.cur → ltb (p + 16) a.cur ≡ true
    e₂ r = ground (arith, r, get_slab_size-pos s)

    e₃ : 5 ≤ s → ltb s 5 ≡ false
    e₃ g = ground (arith, g)

    e₄ : s ≤ 35 → ltb 35 s ≡ false
    e₄ v = ground (arith, v)

-- The outcome of `reallocate`: the old object stays, or there is another one in its stead.
pub data Resized (lo hi : ℕ) (live : List Ptr) (p : Ptr)
    : Status (Ptr × SlabAllocator) → Type 0 where
  kept : (b : SlabAllocator) → Tidy lo hi b live → Resized lo hi live p (ok (0, b))
  replaced :
      (q : Ptr) (b : SlabAllocator)
      → Tidy lo hi b (q ∷ remove p live)
      → Resized lo hi live p (ok (q + 16, b))

-- The rest of `reallocate` after its call of `allocate`.
release :
    {lo hi : ℕ}
    → (beyond : ℕ → ℕ) (a : SlabAllocator) (live : List Ptr) (d p size : ℕ)
      (r : Status (Ptr × SlabAllocator))
    → In p live
    → Answer lo hi a live size r
    → Resized lo hi live p (
        r >>= λ (q, b).
        if q == 0
        then ok (0, b)
        else ok (q, free_to_cache_list beyond b d (get_slab_shift (a.headers p).size) p))
release beyond a live d p size _ m (none b k) = kept b k
release {lo = lo} {hi = hi} beyond a live d p size _ m (some q b k e o) =
    let pos : (q + 16 == 0) ≡ false = ground arith in
    rw pos (
      replaced q _ (
        subst (λ s. Tidy lo hi (free_to_cache_list beyond b d s p) (q ∷ remove p live)) same
          (subst
            (λ l.
              Tidy lo hi (free_to_cache_list beyond b d (get_slab_shift (b.headers p).size) p) l)
            skip (free_to_cache_list-Tidy beyond b (q ∷ live) d p (inr m) k))))
  where
    apart : q ≢ p
    apart = All-In (λ x. q ≢ x) live p (k.parts.distinct used).0 m

    same : get_slab_shift (b.headers p).size ≡ get_slab_shift (a.headers p).size
    same = ap (λ (x : PtrHeader). get_slab_shift x.size) (o p (λ z. apart (sym z)))

    skip : remove p (q ∷ live) ≡ q ∷ remove p live
    skip = ground (arith, apart)

pub reallocate-Resized :
    {lo hi : ℕ}
    → (beyond : ℕ → ℕ) (a : SlabAllocator) (live : List Ptr) (c d p size : ℕ) → size < 2 ^ 64
    → In p live
    → Tidy lo hi a live
    → Resized lo hi live p (reallocate beyond a c d (p + 16) size)
unfolding reallocate
reallocate-Resized beyond a live c d p size u m h =
    let (l, r, z, g, v) = used_bounds a live p m h in
    let pos = get_slab_size-pos (get_slab_shift (a.headers p).size) in
    let above : ltb (p + 16) a.start ≡ false = ground (arith, l) in
    let below : ltb (p + 16) a.cur ≡ true = ground (arith, r, pos) in
    let back : p + 16 - 16 ≡ p = omega arith in
    rw (above, below, back)
      (release beyond a live d p size _ m (allocate-Answer beyond a live c size u h))
