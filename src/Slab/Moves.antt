-- ===== src/Slab/Moves.antt =====
-- How the steps of the allocator move objects from place to place.
use sandook.Base.{
  ℕ, zero, suc, ◌+◌, ◌%◌, ◌^◌, ◌≡◌, refl, sym, ap, subst, ◌<◌, ◌≤◌, ◌≢◌, inl, inr, ◌&&◌,
  if◌then◌else◌, ◌==◌, List, ◌∷◌, All, All-map, Distinct, arith, Bool-cases, ==_iff,
}
use sandook.Slab.FreeList.{Ptr}
use sandook.Slab.Classes.{get_slab_size_aligned}
use sandook.Slab.Ledger.{
  Place, shared, cached, used, Parts, Parts-map, moved, enter, move, Block, Carved, Stacked,
  block_range,
}
use sandook.Slab.{SlabAllocator, get_slab_shift, get_slab_size, fetch, carve, turn_in}

-- The objects in a place, given those in use by their headers' addresses.
abbrev pub content : SlabAllocator → List Ptr → Place → List Ptr
content a live (shared s) = a.slab_lists s
content a live (cached c s) = a.cache_lists c s
content a live used = live

-- What an object is in its place: carved for the class of the place.
abbrev pub Fits : SlabAllocator → List Block → Place → Ptr → Type 0
Fits a blocks (shared s) p = Carved blocks p s
Fits a blocks (cached c s) p = Carved blocks p s
Fits a blocks used p =
    Carved blocks p (get_slab_shift (a.headers p).size)
    × ((a.headers p).size < 2 ^ 64)
    × (get_slab_shift (a.headers p).size ≤ 35)

pub record Tidy (lo hi : ℕ) (a : SlabAllocator) (live : List Ptr) : Type 0 where
  pub blocks : List Block
  pub place : Ptr → Place
  pub parts : Parts (Fits a blocks) (content a live) place
  pub from : a.start ≡ lo
  pub upto : a.end ≡ hi
  pub stacked : Stacked a.start a.cur blocks
  pub within : a.cur ≤ a.end
  pub aligned : a.cur % 16 ≡ 0

-- What holds of the first object of a place, and of the others.
module _ (Q : Place → Ptr → Type 0) (con : Place → List Ptr) (place : Ptr → Place)
    (h : Parts Q con place) (pl : Place) (p : Ptr) (rest : List Ptr) (e : con pl ≡ p ∷ rest) where
  pub top : (place p ≡ pl) × Q pl p
  top = (subst (All (λ x. (place x ≡ pl) × Q pl x)) e (h.placed pl)).0

  pub below : All (λ x. (place x ≡ pl) × Q pl x) rest
  below = (subst (All (λ x. (place x ≡ pl) × Q pl x)) e (h.placed pl)).1

  pub rest_once : Distinct rest
  rest_once = (subst Distinct e (h.distinct pl)).1

  pub below_apart : All (λ x. x ≢ p) rest
  below_apart =
      All-map (λ x. p ≢ x) _ (λ x n z. n (sym z)) rest (subst Distinct e (h.distinct pl)).0

if_self {ℓ} : {A : Type ℓ} (s : ℕ) (x y : A) → (if s == s then x else y) ≡ x
if_self s x y = rw ((==_iff s s).1 refl)

pub if_self₂ {ℓ} : {A : Type ℓ} (c s : ℕ) (x y : A) → (if c == c && s == s then x else y) ≡ x
if_self₂ c s x y = rw ((==_iff s s).1 refl, (==_iff c c).1 refl)

if_other {ℓ} :
    {A : Type ℓ} (s t : ℕ) (x y : A) → shared t ≢ shared s → (if t == s then x else y) ≡ y
if_other s t x y n = elim (Bool-cases (t == s)) [
  | inl e ↦ absurd (n (ap shared ((==_iff t s).0 e)))
  | inr e ↦ rw e refl
]

pub if_other₂ {ℓ} :
    {A : Type ℓ} (c s d t : ℕ) (x y : A)
    → cached d t ≢ cached c s
    → (if d == c && t == s then x else y) ≡ y
if_other₂ c s d t x y n = elim (Bool-cases (d == c)) [
  | inr e ↦ rw e refl
  | inl e ↦ elim (Bool-cases (t == s)) [
    | inr f ↦ rw (e, f) refl
    | inl f ↦ absurd (n (rw ((==_iff d c).0 e, (==_iff t s).0 f) refl))
  ]
]

pub fetch-Tidy :
    {lo hi : ℕ}
    → (a : SlabAllocator) (live : List Ptr) (c s p : ℕ) (rest : List Ptr)
    → a.slab_lists s ≡ p ∷ rest
    → Tidy lo hi a live
    → Tidy lo hi (fetch a c s p rest) live
unfolding fetch
fetch-Tidy a live c s p rest e h = record {
  blocks = h.blocks;
  place = moved h.place p (cached c s);
  parts =
      move (Fits a h.blocks) (content a live) (content (fetch a c s p rest) live) h.place p
        (cached c s) (shared s) t.0 (λ z. cc)
        (subst (All _) (sym (if_self s rest _)) (below Q con h.place h.parts (shared s) p rest e))
        (subst (All _) (sym (if_self s rest _))
          (below_apart Q con h.place h.parts (shared s) p rest e))
        (subst Distinct (sym (if_self s rest _))
          (rest_once Q con h.place h.parts (shared s) p rest e))
        (if_self₂ c s (p ∷ a.cache_lists c s) _) t.1
        (elim [
          | shared t ↦ λ n m. if_other s t rest _ n
          | cached d t ↦ λ n m. if_other₂ c s d t (p ∷ a.cache_lists c s) _ m
          | used ↦ λ n m. refl
        ])
        h.parts;
  from = h.from;
  upto = h.upto;
  stacked = h.stacked;
  within = h.within;
  aligned = h.aligned;
}
  where
    Q : Place → Ptr → Type 0
    Q = Fits a h.blocks

    con : Place → List Ptr
    con = content a live

    t : (h.place p ≡ shared s) × Carved h.blocks p s
    t = top Q con h.place h.parts (shared s) p rest e

pub turn_in-Tidy :
    {lo hi : ℕ}
    → (a : SlabAllocator) (live : List Ptr) (c s p : ℕ) (rest : List Ptr)
    → a.cache_lists c s ≡ p ∷ rest
    → Tidy lo hi a live
    → Tidy lo hi (turn_in a c s p rest) live
unfolding turn_in
turn_in-Tidy a live c s p rest e h = record {
  blocks = h.blocks;
  place = moved h.place p (shared s);
  parts =
      move Q con (content (turn_in a c s p rest) live) h.place p (shared s) (cached c s) t.0
        (λ z. cc)
        (subst (All _) (sym (if_self₂ c s rest _))
          (below Q con h.place h.parts (cached c s) p rest e))
        (subst (All _) (sym (if_self₂ c s rest _))
          (below_apart Q con h.place h.parts (cached c s) p rest e))
        (subst Distinct (sym (if_self₂ c s rest _))
          (rest_once Q con h.place h.parts (cached c s) p rest e))
        (if_self s (p ∷ a.slab_lists s) _) t.1
        (elim [
          | shared t ↦ λ n m. if_other s t (p ∷ a.slab_lists s) _ m
          | cached d t ↦ λ n m. if_other₂ c s d t rest _ n
          | used ↦ λ n m. refl
        ])
        h.parts;
  from = h.from;
  upto = h.upto;
  stacked = h.stacked;
  within = h.within;
  aligned = h.aligned;
}
  where
    Q : Place → Ptr → Type 0
    Q = Fits a h.blocks

    con : Place → List Ptr
    con = content a live

    t : (h.place p ≡ cached c s) × Carved h.blocks p s
    t = top Q con h.place h.parts (cached c s) p rest e

-- A larger set of carved objects changes nothing for the old ones.
Fits-more :
    (a : SlabAllocator) (b : Block) (bs : List Block) (pl : Place) (p : Ptr)
    → Fits a bs pl p
    → Fits a (b ∷ bs) pl p
Fits-more a b bs (shared s) p f = inr f
Fits-more a b bs (cached c s) p f = inr f
Fits-more a b bs used p f = (inr f.0, f.1, f.2)

Fits-Carved :
    (a : SlabAllocator) (bs : List Block) (pl : Place) (p : Ptr)
    → Fits a bs pl p
    → (s : ℕ) × Carved bs p s
Fits-Carved a bs (shared s) p f = (s, f)
Fits-Carved a bs (cached c s) p f = (s, f)
Fits-Carved a bs used p f = (get_slab_shift (a.headers p).size, f.0)

pow_pos : (s : ℕ) → 0 < 2 ^ s
pow_pos zero = omega arith
pow_pos (suc s) = omega (arith, pow_pos s)

pub get_slab_size-pos : (s : ℕ) → 16 < get_slab_size s
unfolding get_slab_size
get_slab_size-pos s = omega (arith, pow_pos s)

pub carve-Tidy :
    {lo hi : ℕ}
    → (a : SlabAllocator) (live : List Ptr) (c s : ℕ) → 5 ≤ s
    → a.cur + get_slab_size s ≤ a.end
    → Tidy lo hi a live
    → Tidy lo hi (carve a c s) live
unfolding carve
carve-Tidy a live c s l room h = record {
  blocks = block ∷ h.blocks;
  place = moved h.place a.cur (cached c s);
  parts =
      enter (Fits a (block ∷ h.blocks)) (content a live) (content (carve a c s) live) h.place a.cur
        (cached c s)
        (λ pl.
          All-map (λ p. (h.place p ≡ pl) × Fits a h.blocks pl p) _
            (λ p k z.
              let (t, m) = Fits-Carved a h.blocks pl p k.1 in
              absurd (
                omega (
                  arith,
                  z,
                  get_slab_size-pos t,
                  (block_range a.start a.cur h.blocks p t h.stacked m).1,
                )))
            (content a live pl) (h.parts.placed pl))
        (if_self₂ c s (a.cur ∷ a.cache_lists c s) _) (inl (refl, refl))
        (elim [
          | shared t ↦ λ n. refl
          | cached d t ↦ λ n. if_other₂ c s d t (a.cur ∷ a.cache_lists c s) _ n
          | used ↦ λ n. refl
        ])
        (Parts-map (Fits a h.blocks) (Fits a (block ∷ h.blocks)) (content a live) h.place
          (λ pl p e f. Fits-more a block h.blocks pl p f) h.parts);
  from = h.from;
  upto = h.upto;
  stacked = (omega arith, h.aligned, h.stacked);
  within = room;
  aligned = omega (arith, h.aligned, get_slab_size_aligned s l);
}
  where
    block : Block
    block = record { address = a.cur; shift = s }
