-- ===== src/Slab/History.antt =====
-- Histories of requests to the allocator, from any cores, with the objects that are in use.
use sandook.Base.{
  ℕ, zero, suc, ◌+◌, ◌-◌, ◌%◌, ◌^◌, ◌≡◌, refl, sym, subst, ◌∙◌, ◌<◌, ◌≤◌, ◌≢◌, ◌⊎◌, inl, inr, false,
  if◌then◌else◌, ◌==◌, Option, none, some, List, [], ◌∷◌, All, All-map, Distinct, arith, get_elem?,
}
use sandook.Status.{ok-injective, Status, ok, ◌>>=◌}
use sandook.Selection.Members.{In}
use sandook.Slab.FreeList.{Ptr}
use sandook.Slab.Classes.{get_slab_shift_lem}
use sandook.Slab.Ledger.{shared, cached, used, block_range, two_blocks_lem}
use sandook.Slab.Moves.{Tidy, Fits}
use sandook.Slab.Users.{remove}
use sandook.Slab.Answers.{
  Answer, none, some, Resized, kept, replaced, allocate-Answer, free-Tidy, reallocate-Resized,
}
use sandook.Slab.{SlabAllocator, init, get_slab_shift, get_slab_size, allocate, free, reallocate}

-- A request from core `c`: for an object, for the end of the `i`th object in use, or for another size of
-- it, where the thread may move on to core `d`.
pub data Request : Type 0 where
  mallocs : (c size : ℕ) → Request
  frees : (c i : ℕ) → Request
  reallocs : (c d i size : ℕ) → Request

-- The list of the objects in use grows by what was handed out.
abbrev pub hold : Ptr → List Ptr → List Ptr
hold zero live = live
hold (suc p) live = (suc p - 16) ∷ live

unfoldable pub step :
    (ℕ → ℕ) → SlabAllocator → List Ptr → Request → Status (SlabAllocator × List Ptr)
step beyond a live (mallocs c size) = do (p, b) ← allocate beyond a c size; ok (b, hold p live)
step beyond a live (frees c i) = elim (get_elem? live i) [
  | none ↦ ok (a, live)
  | some p ↦ (do b ← free beyond a c (p + 16); ok (b, remove p live))
]
step beyond a live (reallocs c d i size) = elim (get_elem? live i) [
  | none ↦ ok (a, live)
  | some p ↦ (do
    (q, b) ← reallocate beyond a c d (p + 16) size
    ok (b, if q == 0 then live else hold q (remove p live)))
]

unfoldable pub run :
    (ℕ → ℕ) → SlabAllocator → List Ptr → List Request → Status (SlabAllocator × List Ptr)
unfolding step
run beyond a live [] = ok (a, live)
run beyond a live (r ∷ rs) = do (b, live') ← step beyond a live r; run beyond b live' rs

-- The sizes are those of a `size_t`.
unfoldable pub IsSized : Request → Type 0
IsSized (mallocs c size) = size < 2 ^ 64
IsSized (frees c i) = Unit
IsSized (reallocs c d i size) = size < 2 ^ 64

-- An object in use: its header at `p` and the data behind it.
pub IsPlaced : ℕ → ℕ → SlabAllocator → Ptr → Type 0
IsPlaced lo hi a p = (lo ≤ p) × (p + 16 + (a.headers p).size ≤ hi) × ((p + 16) % 16 ≡ 0)

pub IsApart : SlabAllocator → List Ptr → Type 0
IsApart a [] = Unit
IsApart a (p ∷ ps) =
    All (λ q. (p + 16 + (a.headers p).size ≤ q) ⊎ (q + 16 + (a.headers q).size ≤ p)) ps
    × IsApart a ps

In-get_elem? : (xs : List Ptr) (i : ℕ) (p : Ptr) → get_elem? xs i ≡ some p → In p xs
In-get_elem? [] i p e = cc
In-get_elem? (x ∷ xs) zero p e = inl (cc)
In-get_elem? (x ∷ xs) (suc i) p e = inr (In-get_elem? xs i p e)

-- The outcome of a step, or of a history.
abbrev pub Goes : ℕ → ℕ → Status (SlabAllocator × List Ptr) → Type 0
Goes lo hi r = (b : SlabAllocator) × (live : List Ptr) × (r ≡ ok (b, live)) × Tidy lo hi b live

hold-Goes :
    {lo hi : ℕ}
    → (p : Ptr) (b : SlabAllocator) (live : List Ptr) → Tidy lo hi b (p ∷ live)
    → Tidy lo hi b (hold (p + 16) live)
hold-Goes {lo = lo} {hi = hi} p b live h =
    let e : p + 16 ≡ suc (p + 15) = omega arith in
    let f : suc (p + 15) - 16 ≡ p = omega arith in rw e (rw f h)

malloc-Goes :
    {lo hi : ℕ}
    → (a : SlabAllocator) (live : List Ptr) (size : ℕ) (r : Status (Ptr × SlabAllocator))
    → Answer lo hi a live size r
    → Goes lo hi (r >>= λ (p, b). ok (b, hold p live))
malloc-Goes a live size _ (none b k) = (b, live, refl, k)
malloc-Goes a live size _ (some p b k e o) = (b, hold (p + 16) live, refl, hold-Goes p b live k)

realloc-Goes :
    {lo hi : ℕ}
    → (live : List Ptr) (p : Ptr) (r : Status (Ptr × SlabAllocator)) → Resized lo hi live p r
    → Goes lo hi (r >>= λ (q, b). ok (b, if q == 0 then live else hold q (remove p live)))
realloc-Goes live p _ (kept b k) = (b, live, refl, k)
realloc-Goes live p _ (replaced q b k) =
    let pos : (q + 16 == 0) ≡ false = ground arith in
    rw pos (b, hold (q + 16) (remove p live), refl, hold-Goes q b (remove p live) k)

step-Goes :
    {lo hi : ℕ}
    → (beyond : ℕ → ℕ) (a : SlabAllocator) (live : List Ptr) (r : Request) → IsSized r
    → Tidy lo hi a live
    → Goes lo hi (step beyond a live r)
unfolding step IsSized
step-Goes beyond a live (mallocs c size) u h =
    malloc-Goes a live size _ (allocate-Answer beyond a live c size u h)
step-Goes {lo = lo} {hi = hi} beyond a live (frees c i) u h =
    go (get_elem? live i) (In-get_elem? live i)
  where
    go :
        (o : Option Ptr)
        → ((p : Ptr) → o ≡ some p → In p live)
        → Goes lo hi (elim o [
          | none ↦ ok (a, live)
          | some p ↦ free beyond a c (p + 16) >>= λ b. ok (b, remove p live)
        ])
    go none m = (a, live, refl, h)
    go (some p) m =
        let (b, e, k) = free-Tidy beyond a live c p (m p refl) h in rw e (b, remove p live, refl, k)
step-Goes {lo = lo} {hi = hi} beyond a live (reallocs c d i size) u h =
    go (get_elem? live i) (In-get_elem? live i)
  where
    go :
        (o : Option Ptr)
        → ((p : Ptr) → o ≡ some p → In p live)
        → Goes lo hi (elim o [
          | none ↦ ok (a, live)
          | some p ↦ reallocate beyond a c d (p + 16) size >>= λ (q, b).
              ok (b, if q == 0 then live else hold q (remove p live))
        ])
    go none m = (a, live, refl, h)
    go (some p) m =
        realloc-Goes live p _ (reallocate-Resized beyond a live c d p size u (m p refl) h)

run-Goes :
    {lo hi : ℕ}
    → (beyond : ℕ → ℕ) (a : SlabAllocator) (live : List Ptr) (rs : List Request) → All IsSized rs
    → Tidy lo hi a live
    → Goes lo hi (run beyond a live rs)
unfolding run
run-Goes beyond a live [] u h = (a, live, refl, h)
run-Goes beyond a live (r ∷ rs) u h =
    let (b, l, e, k) = step-Goes beyond a live r u.0 h in rw e (run-Goes beyond b l rs u.1 k)

init-Tidy : (mem size : ℕ) → mem % 16 ≡ 0 → Tidy mem (mem + size) (init mem size) []
unfolding init
init-Tidy mem size z = record {
  blocks = [];
  place = λ p. used;
  parts = record {
    placed = elim [ shared s ↦ tt | cached c s ↦ tt | used ↦ tt ];
    distinct = elim [ shared s ↦ tt | cached c s ↦ tt | used ↦ tt ];
  };
  from = refl;
  upto = refl;
  stacked = omega arith;
  within = omega arith;
  aligned = z;
}

pub run-Tidy :
    (beyond : ℕ → ℕ) (mem size : ℕ) (rs : List Request) (a : SlabAllocator) (live : List Ptr)
    → mem % 16 ≡ 0
    → All IsSized rs
    → run beyond (init mem size) [] rs ≡ ok (a, live)
    → Tidy mem (mem + size) a live
run-Tidy beyond mem size rs a live z u r =
    let (b, l, e, h) = run-Goes beyond (init mem size) [] rs u (init-Tidy mem size z) in
    let q = ok-injective (b, l) (a, live) (sym e ∙ r) in
    subst (λ (x : SlabAllocator × List Ptr). Tidy mem (mem + size) x.0 x.1) q h

module _ {lo hi : ℕ} (a : SlabAllocator) (live : List Ptr) (h : Tidy lo hi a live) where
  -- The header and the data lie in the object.
  data_room :
      (p : Ptr)
      → Fits a h.blocks used p
      → p + 16 + (a.headers p).size ≤ p + get_slab_size (get_slab_shift (a.headers p).size)
  unfolding get_slab_size
  data_room p f = omega (arith, (get_slab_shift_lem _ f.1).1)

  placed : (p : Ptr) → Fits a h.blocks used p → IsPlaced lo hi a p
  unfolding IsPlaced
  placed p f =
      let (l, r, z) = block_range a.start a.cur h.blocks p _ h.stacked f.0 in
      (
        omega (arith, l, h.from),
        omega (arith, data_room p f, r, h.within, h.upto),
        omega (arith, z),
      )

  two_apart :
      (p q : Ptr)
      → Fits a h.blocks used p
      → Fits a h.blocks used q
      → p ≢ q
      → (p + 16 + (a.headers p).size ≤ q) ⊎ (q + 16 + (a.headers q).size ≤ p)
  two_apart p q f g n = elim (two_blocks_lem a.start a.cur h.blocks p _ q _ h.stacked f.0 g.0 n) [
    | inl l ↦ inl (omega (arith, l, data_room p f))
    | inr l ↦ inr (omega (arith, l, data_room q g))
  ]

  every-IsApart :
      (ps : List Ptr) → All (λ p. Fits a h.blocks used p) ps → Distinct ps → IsApart a ps
  unfolding IsApart
  every-IsApart [] f d = tt
  every-IsApart (p ∷ ps) f d = (others ps f.1 d.0, every-IsApart ps f.1 d.1)
    where
      others :
          (qs : List Ptr)
          → All (λ p. Fits a h.blocks used p) qs
          → All (λ x. p ≢ x) qs
          → All (λ q. (p + 16 + (a.headers p).size ≤ q) ⊎ (q + 16 + (a.headers q).size ≤ p)) qs
      others [] g n = tt
      others (q ∷ qs) g n = (two_apart p q f.0 g.0 n.0, others qs g.1 n.1)

-- What a request for `size` bytes gives: nothing, or an object whose header has that size. No other header
-- changes.
pub data Records (a : SlabAllocator) (size : ℕ) : Status (Ptr × SlabAllocator) → Type 0 where
  nothing : (b : SlabAllocator) → Records a size (ok (0, b))
  object :
      (p : Ptr) (b : SlabAllocator)
      → (b.headers p).size ≡ size
      → ((q : Ptr) → q ≢ p → b.headers q ≡ a.headers q)
      → Records a size (ok (p + 16, b))

Answer-Records :
    {lo hi : ℕ}
    → (a : SlabAllocator) (live : List Ptr) (size : ℕ) (r : Status (Ptr × SlabAllocator))
    → Answer lo hi a live size r
    → Records a size r
Answer-Records a live size _ (none b h) = nothing b
Answer-Records a live size _ (some p b h e o) = object p b e o

-- Whatever the requests and the cores they come from, with sizes below 2^64 and from memory that starts
-- at a multiple of 16, no `BUG_ON` fires; and afterwards each object in use, its header included, lies in
-- the memory, its data is aligned and has room for the size that its header records, and no two of them
-- overlap. If an object is allocated next, its header records the size that was requested, and the
-- other headers stay.
pub run-IsApart :
    (beyond : ℕ → ℕ) (mem size : ℕ) (rs : List Request)
    → mem % 16 ≡ 0
    → All IsSized rs
    → (a : SlabAllocator) × (live : List Ptr) × (run beyond (init mem size) [] rs ≡ ok (a, live))
      × All (IsPlaced mem (mem + size) a) live
      × IsApart a live
      × ((c n : ℕ) → n < 2 ^ 64 → Records a n (allocate beyond a c n))
run-IsApart beyond mem size rs z u =
    let (a, live, e, h) = run-Goes beyond (init mem size) [] rs u (init-Tidy mem size z) in
    let fits =
      All-map (λ p. (h.place p ≡ used) × Fits a h.blocks used p) _ (λ p f. f.1) live
        (h.parts.placed used) in
    (
      a,
      live,
      e,
      All-map (λ p. Fits a h.blocks used p) _ (placed a live h) live fits,
      every-IsApart a live h live fits (h.parts.distinct used),
      λ c n v. Answer-Records a live n _ (allocate-Answer beyond a live c n v h),
    )
