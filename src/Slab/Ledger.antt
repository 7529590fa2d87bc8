-- ===== src/Slab/Ledger.antt =====
-- Where every carved object is: the ghost state that the proofs keep beside the allocator.
use sandook.Base.{
  ℕ, ◌+◌, ◌%◌, ◌≡◌, refl, sym, ap, subst, ◌∙◌, ◌≤◌, ◌≢◌, ◌⊎◌, inl, inr, Bool, true, false, ◌&&◌,
  if◌then◌else◌, ◌==◌, List, [], ◌∷◌, All, All-map, Distinct, arith, Bool-cases, ==_iff,
}
use sandook.Slab.FreeList.{Ptr}
use sandook.Slab.{get_slab_size}

pub data Place : Type 0 where
  shared : ℕ → Place
  cached : ℕ → ℕ → Place
  used : Place

pub same_place : Place → Place → Bool
same_place (shared s) (shared t) = s == t
same_place (cached c s) (cached d t) = c == d && s == t
same_place used used = true
same_place _ _ = false

pub same_place_lem : (x y : Place) → same_place x y ≡ true → x ≡ y
unfolding same_place
same_place_lem (shared s) (shared t) e = ap shared ((==_iff s t).0 e)
same_place_lem (shared s) (cached d t) e = cc
same_place_lem (shared s) used e = cc
same_place_lem (cached c s) (shared t) e = cc
same_place_lem (cached c s) (cached d t) e =
    let p : c ≡ d = ground (arith, e) in let q : s ≡ t = ground (arith, e) in cc (p, q)
same_place_lem (cached c s) used e = cc
same_place_lem used (shared t) e = cc
same_place_lem used (cached d t) e = cc
same_place_lem used used e = refl

pub same_place_refl : (x : Place) → same_place x x ≡ true
unfolding same_place
same_place_refl (shared s) = ground arith
same_place_refl (cached c s) = ground arith
same_place_refl used = refl

pub same_place_sound : (x y : Place) → same_place x y ≡ false → x ≢ y
same_place_sound x y e q =
    let r = subst (λ z. same_place x z ≡ false) (sym q) e in cc (r, same_place_refl x)

-- The objects in each place, with what holds of them there. An object is in one place only, and there
-- once.
pub record Parts (Q : Place → Ptr → Type 0) (content : Place → List Ptr) (place : Ptr → Place)
    : Type 0 where
  pub placed : (pl : Place) → All (λ p. (place p ≡ pl) × Q pl p) (content pl)
  pub distinct : (pl : Place) → Distinct (content pl)

pub Parts-map :
    (Q R : Place → Ptr → Type 0) (content : Place → List Ptr) (place : Ptr → Place)
    → ((pl : Place) (p : Ptr) → place p ≡ pl → Q pl p → R pl p)
    → Parts Q content place
    → Parts R content place
Parts-map Q R content place f h = record {
  placed = λ pl.
      All-map (λ p. (place p ≡ pl) × Q pl p) _ (λ p q. (q.0, f pl p q.0 q.1)) (content pl)
        (h.placed pl);
  distinct = h.distinct;
}

-- The places after object `p` is moved.
abbrev pub moved : (Ptr → Place) → Ptr → Place → Ptr → Place
moved place p pl q = if q == p then pl else place q

moved_self : (place : Ptr → Place) (p : Ptr) (pl : Place) → moved place p pl p ≡ pl
moved_self place p pl = rw ((==_iff p p).1 refl)

moved_other : (place : Ptr → Place) (p q : Ptr) (pl : Place) → q ≢ p → moved place p pl q ≡ place q
moved_other place p q pl h = ground arith

module _ (Q : Place → Ptr → Type 0) (content content' : Place → List Ptr) (place : Ptr → Place)
    (p : Ptr) (dst : Place) where
  -- An object that is nowhere enters a place.
  pub enter :
      ((pl : Place) → All (λ q. q ≢ p) (content pl))
      → content' dst ≡ p ∷ content dst
      → Q dst p
      → ((pl : Place) → pl ≢ dst → content' pl ≡ content pl)
      → Parts Q content place
      → Parts Q content' (moved place p dst)
  enter new at_dst q same h = record { placed = pl_lem; distinct = ds_lem }
    where
      others : (pl : Place) → All (λ x. (moved place p dst x ≡ pl) × Q pl x) (content pl)
      others pl = go (content pl) (new pl) (h.placed pl)
        where
          go :
              (xs : List Ptr)
              → All (λ x. x ≢ p) xs
              → All (λ x. (place x ≡ pl) × Q pl x) xs
              → All (λ x. (moved place p dst x ≡ pl) × Q pl x) xs
          go [] n k = tt
          go (x ∷ xs) n k = ((moved_other place p x dst n.0 ∙ k.0.0, k.0.1), go xs n.1 k.1)

      pl_lem : (pl : Place) → All (λ x. (moved place p dst x ≡ pl) × Q pl x) (content' pl)
      pl_lem pl = elim (Bool-cases (same_place pl dst)) [
        | inl f ↦ rw (same_place_lem pl dst f, at_dst) ((moved_self place p dst, q), others dst)
        | inr f ↦ rw (same pl (same_place_sound pl dst f)) (others pl)
      ]

      ds_lem : (pl : Place) → Distinct (content' pl)
      ds_lem pl = elim (Bool-cases (same_place pl dst)) [
        | inl f ↦
            rw (same_place_lem pl dst f, at_dst)
              (All-map (λ x. x ≢ p) _ (λ x n e. n (sym e)) (content dst) (new dst), h.distinct dst)
        | inr f ↦ rw (same pl (same_place_sound pl dst f)) (h.distinct pl)
      ]

  -- A move from the place where an object is to another one.
  pub move :
      (src : Place)
      → place p ≡ src
      → src ≢ dst
      → All (λ x. (place x ≡ src) × Q src x) (content' src)
      → All (λ x. x ≢ p) (content' src)
      → Distinct (content' src)
      → content' dst ≡ p ∷ content dst
      → Q dst p
      → ((pl : Place) → pl ≢ src → pl ≢ dst → content' pl ≡ content pl)
      → Parts Q content place
      → Parts Q content' (moved place p dst)
  move src e ne left gone ds at_dst q same h = record { placed = pl_lem; distinct = ds_lem }
    where
      step :
          (pl : Place) (xs : List Ptr)
          → All (λ x. x ≢ p) xs
          → All (λ x. (place x ≡ pl) × Q pl x) xs
          → All (λ x. (moved place p dst x ≡ pl) × Q pl x) xs
      step pl [] n k = tt
      step pl (x ∷ xs) n k = ((moved_other place p x dst n.0 ∙ k.0.0, k.0.1), step pl xs n.1 k.1)

      apart : (pl : Place) → pl ≢ src → All (λ x. x ≢ p) (content pl)
      apart pl n =
          All-map (λ x. (place x ≡ pl) × Q pl x) _ (λ x k z. n (sym k.0 ∙ ap place z ∙ e))
            (content pl) (h.placed pl)

      pl_lem : (pl : Place) → All (λ x. (moved place p dst x ≡ pl) × Q pl x) (content' pl)
      pl_lem pl = elim (Bool-cases (same_place pl src)) [
        | inl f ↦ rw (same_place_lem pl src f) (step src (content' src) gone left)
        | inr f ↦ elim (Bool-cases (same_place pl dst)) [
          | inl g ↦
              rw (same_place_lem pl dst g, at_dst)
                (
                  (moved_self place p dst, q),
                  step dst (content dst) (apart dst (λ z. ne (sym z))) (h.placed dst),
                )
          | inr g ↦
              rw (same pl (same_place_sound pl src f) (same_place_sound pl dst g))
                (step pl (content pl) (apart pl (same_place_sound pl src f)) (h.placed pl))
        ]
      ]

      ds_lem : (pl : Place) → Distinct (content' pl)
      ds_lem pl = elim (Bool-cases (same_place pl src)) [
        | inl f ↦ rw (same_place_lem pl src f) ds
        | inr f ↦ elim (Bool-cases (same_place pl dst)) [
          | inl g ↦
              rw (same_place_lem pl dst g, at_dst)
                (
                  All-map (λ x. x ≢ p) _ (λ x n z. n (sym z)) (content dst)
                      (apart dst (λ z. ne (sym z))),
                  h.distinct dst,
                )
          | inr g ↦
              rw (same pl (same_place_sound pl src f) (same_place_sound pl dst g)) (h.distinct pl)
        ]
      ]

-- An object that was carved.
pub record Block : Type 0 where
  pub address : Ptr
  pub shift : ℕ

abbrev pub Carved : List Block → Ptr → ℕ → Type 0
Carved [] p s = ⊥
Carved (b ∷ bs) p s = ((b.address ≡ p) × (b.shift ≡ s)) ⊎ Carved bs p s

-- The objects were carved one above the other, within a range.
abbrev pub Stacked : ℕ → ℕ → List Block → Type 0
Stacked lo hi [] = lo ≤ hi
Stacked lo hi (b ∷ bs) =
    (b.address + get_slab_size b.shift ≤ hi) × (b.address % 16 ≡ 0) × Stacked lo b.address bs

pub block_range :
    (lo hi : ℕ) (bs : List Block) (p s : ℕ)
    → Stacked lo hi bs
    → Carved bs p s
    → (lo ≤ p) × (p + get_slab_size s ≤ hi) × (p % 16 ≡ 0)
unfolding get_slab_size
block_range lo hi [] p s h c = absurd c
block_range lo hi (b ∷ bs) p s (u, a, r) (inl (e, f)) =
    let low = Stacked_low lo b.address bs r in rw (← e, ← f) (low, u, a)
  where
    Stacked_low : (lo hi : ℕ) (bs : List Block) → Stacked lo hi bs → lo ≤ hi
    Stacked_low lo hi [] h = h
    Stacked_low lo hi (b ∷ bs) (u, a, r) = omega (arith, Stacked_low lo b.address bs r)
block_range lo hi (b ∷ bs) p s (u, a, r) (inr c) =
    let (l, v, z) = block_range lo b.address bs p s r c in (l, omega (arith, v, u), z)

-- Two different objects do not overlap.
pub two_blocks_lem :
    (lo hi : ℕ) (bs : List Block) (p s q t : ℕ)
    → Stacked lo hi bs
    → Carved bs p s
    → Carved bs q t
    → p ≢ q
    → (p + get_slab_size s ≤ q) ⊎ (q + get_slab_size t ≤ p)
two_blocks_lem lo hi [] p s q t h c d ne = absurd c
two_blocks_lem lo hi (b ∷ bs) p s q t h (inl (e, f)) (inl (g, k)) ne = absurd (ne (sym e ∙ g))
two_blocks_lem lo hi (b ∷ bs) p s q t (u, a, r) (inl (e, f)) (inr d) ne =
    inr (omega (arith, e, (block_range lo b.address bs q t r d).1))
two_blocks_lem lo hi (b ∷ bs) p s q t (u, a, r) (inr c) (inl (g, k)) ne =
    inl (omega (arith, g, (block_range lo b.address bs p s r c).1))
two_blocks_lem lo hi (b ∷ bs) p s q t (u, a, r) (inr c) (inr d) ne =
    two_blocks_lem lo b.address bs p s q t r c d ne
