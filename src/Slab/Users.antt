-- ===== src/Slab/Users.antt =====
-- What `allocate` hands out and `free` takes back.
use sandook.Base.{
  ℕ, ◌%◌, ◌^◌, ◌≡◌, refl, sym, ap, subst, ◌∙◌, ◌<◌, ◌≤◌, ◌≢◌, inl, inr, if◌then◌else◌, ◌==◌, List,
  [], ◌∷◌, All, Distinct, Bool-cases, ==_iff, ne_of_==,
}
use sandook.Selection.Members.{In, All-In}
use sandook.Slab.FreeList.{Ptr}
use sandook.Slab.Ledger.{
  Place, shared, cached, used, Parts, Parts-map, moved, move, Carved, block_range,
}
use sandook.Slab.Moves.{
  content, Fits, Tidy, top, below, rest_once, below_apart, if_self₂, if_other₂,
}
use sandook.Slab.{SlabAllocator, get_slab_shift, set_cache}

-- The allocator after the pop of an object, with its header.
abbrev pub served : SlabAllocator → ℕ → ℕ → ℕ → Ptr → List Ptr → SlabAllocator
served a c s size p rest = record (set_cache a c s rest) {
  headers = λ q. if q == p then record { size = size; core_id = c } else a.headers q;
}

pub served-Tidy :
    {lo hi : ℕ}
    → (a : SlabAllocator) (live : List Ptr) (c size p : ℕ) (rest : List Ptr) → size < 2 ^ 64
    → get_slab_shift size ≤ 35
    → a.cache_lists c (get_slab_shift size) ≡ p ∷ rest
    → Tidy lo hi a live
    → Tidy lo hi (served a c (get_slab_shift size) size p rest) (p ∷ live) × (p % 16 ≡ 0)
served-Tidy a live c size p rest u v e h = (
  record {
    blocks = h.blocks;
    place = moved h.place p used;
    parts =
        move R con (content b (p ∷ live)) h.place p used (cached c s) t.0 (λ z. cc)
          (subst (All _) (sym (if_self₂ c s rest _))
            (below R con h.place changed (cached c s) p rest e))
          (subst (All _) (sym (if_self₂ c s rest _))
            (below_apart R con h.place changed (cached c s) p rest e))
          (subst Distinct (sym (if_self₂ c s rest _))
            (rest_once R con h.place changed (cached c s) p rest e))
          refl (rw ((==_iff p p).1 refl) (t.1, u, v))
          (elim [
            | shared t ↦ λ n m. refl
            | cached d t ↦ λ n m. if_other₂ c s d t rest _ n
            | used ↦ λ n m. absurd (m refl)
          ])
          changed;
    from = h.from;
    upto = h.upto;
    stacked = h.stacked;
    within = h.within;
    aligned = h.aligned;
  },
  (block_range a.start a.cur h.blocks p s h.stacked t.1).2,
)
  where
    s : ℕ
    s = get_slab_shift size

    b : SlabAllocator
    b = served a c s size p rest

    R : Place → Ptr → Type 0
    R = Fits b h.blocks

    con : Place → List Ptr
    con = content a live

    t : (h.place p ≡ cached c s) × Carved h.blocks p s
    t = top (Fits a h.blocks) con h.place h.parts (cached c s) p rest e

    keep : (pl : Place) (q : Ptr) → h.place q ≡ pl → Fits a h.blocks pl q → R pl q
    keep (shared s) q i f = f
    keep (cached d s) q i f = f
    keep used q i f = elim (Bool-cases (q == p)) [
      | inl z ↦ absurd (let k = sym i ∙ ap h.place ((==_iff q p).0 z) ∙ t.0 in cc k)
      | inr z ↦ rw z f
    ]

    changed : Parts R con h.place
    changed = Parts-map (Fits a h.blocks) R con h.place keep h.parts

abbrev pub remove : Ptr → List Ptr → List Ptr
remove p [] = []
remove p (x ∷ xs) = let rest = remove p xs in if x == p then rest else x ∷ rest

remove-lem :
    (P : Ptr → Type 0) (p : Ptr) (xs : List Ptr)
    → All P xs
    → Distinct xs
    → All P (remove p xs) × All (λ x. x ≢ p) (remove p xs) × Distinct (remove p xs)
remove-lem P p [] h d = (tt, tt, tt)
remove-lem P p (x ∷ xs) h d =
    let (a, b, c) = remove-lem P p xs h.1 d.1 in
    let (n, _, _) = remove-lem (λ y. x ≢ y) p xs d.0 d.1 in
    elim (Bool-cases (x == p)) [
      | inl e ↦ rw e (a, b, c)
      | inr e ↦ rw e ((h.0, a), (ne_of_== x p e, b), (n, c))
    ]

-- A freed object goes into the cache of the core that frees it.
pub give-Tidy :
    {lo hi : ℕ}
    → (a : SlabAllocator) (live : List Ptr) (c p : ℕ) → In p live
    → Tidy lo hi a live
    → let s = get_slab_shift (a.headers p).size in
      Tidy lo hi (set_cache a c s (p ∷ a.cache_lists c s)) (remove p live)
give-Tidy a live c p m h = record {
  blocks = h.blocks;
  place = moved h.place p (cached c s);
  parts =
      let (k, n, d) =
        remove-lem (λ q. (h.place q ≡ used) × Q used q) p live (h.parts.placed used)
          (h.parts.distinct used) in
      move Q con (content (set_cache a c s (p ∷ a.cache_lists c s)) (remove p live)) h.place p
        (cached c s) used t.0 (λ z. cc) k n d (if_self₂ c s (p ∷ a.cache_lists c s) _) t.1.0
        (elim [
          | shared t ↦ λ n m. refl
          | cached d t ↦ λ n m. if_other₂ c s d t (p ∷ a.cache_lists c s) _ m
          | used ↦ λ n m. absurd (n refl)
        ])
        h.parts;
  from = h.from;
  upto = h.upto;
  stacked = h.stacked;
  within = h.within;
  aligned = h.aligned;
}
  where
    s : ℕ
    s = get_slab_shift (a.headers p).size

    Q : Place → Ptr → Type 0
    Q = Fits a h.blocks

    con : Place → List Ptr
    con = content a live

    t : (h.place p ≡ used) × Q used p
    t = All-In (λ q. (h.place q ≡ used) × Q used q) live p (h.parts.placed used) m
