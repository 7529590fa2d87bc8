-- ===== src/Selection/Members.antt =====
-- Membership: what the helper functions of the schedulers keep and drop.
use sandook.Base.{
  ℕ, zero, suc, ◌+◌, ◌≡◌, refl, sym, subst, ◌∙◌, ap, ◌<◌, ◌≤◌, ◌≢◌, ◌⊎◌, inl, inr, Bool, true,
  false, if◌then◌else◌, ◌==◌, List, [], ◌∷◌, length, All, All-map, Distinct, Bool-cases, ==_iff,
  ne_of_==, arith, ltb,
}
use sandook.Status.{ok, ok-injective}
use sandook.Types.{ServerId, ServerArray}
use sandook.Selection.{
  contains, insert, set_intersection, at, erase_at, valid_from, get_valid_servers,
}

abbrev pub In : ServerId → List ServerId → Type 0
In a [] = ⊥
In a (x ∷ xs) = (a ≡ x) ⊎ In a xs

pub In-of-contains : (xs : List ServerId) (a : ServerId) → contains xs a ≡ true → In a xs
unfolding contains
In-of-contains [] a h = cc
In-of-contains (x ∷ xs) a h = elim (Bool-cases (x == a)) [
  | inl e ↦ inl (sym ((==_iff x a).0 e))
  | inr e ↦ inr (In-of-contains xs a (ground (arith, e)))
]

pub All-insert :
    (P : ServerId → Type 0) (a : ServerId) (xs : List ServerId)
    → P a
    → All P xs
    → All P (insert a xs)
unfolding insert
All-insert P a [] h k = (h, tt)
All-insert P a (x ∷ xs) h k = elim (Bool-cases (ltb a x)) [
  | inl e ↦ rw e (h, (k.0, k.1))
  | inr e ↦ rw e (k.0, All-insert P a xs h k.1)
]

pub contains-of-In : (xs : List ServerId) (a : ServerId) → In a xs → contains xs a ≡ true
unfolding contains
contains-of-In [] a h = absurd h
contains-of-In (x ∷ xs) a (inl e) = ground (arith, e)
contains-of-In (x ∷ xs) a (inr m) = ground (arith, contains-of-In xs a m)

In-if :
    (b : Bool) (x a : ServerId) (xs : List ServerId)
    → In a (if b then x ∷ xs else xs)
    → ((b ≡ true) × (a ≡ x)) ⊎ In a xs
In-if true x a xs (inl e) = inl (refl, e)
In-if true x a xs (inr m) = inr m
In-if false x a xs m = inr m

If-In : (b : Bool) (x a : ServerId) (xs : List ServerId) → In a xs → In a (if b then x ∷ xs else xs)
If-In true x a xs m = inr m
If-In false x a xs m = m

pub In-set_intersection :
    (xs ys : List ServerId) (a : ServerId) → In a (set_intersection xs ys) → In a xs × In a ys
unfolding set_intersection
In-set_intersection [] ys a h = absurd h
In-set_intersection (x ∷ xs) ys a h = elim (In-if (contains ys x) x a (set_intersection xs ys) h) [
  | inl (e, q) ↦ (inl q, subst (λ z. In z ys) (sym q) (In-of-contains ys x e))
  | inr r ↦ let (p, q) = In-set_intersection xs ys a r in (inr p, q)
]

pub set_intersection-In :
    (xs ys : List ServerId) (a : ServerId) → In a xs → In a ys → In a (set_intersection xs ys)
unfolding set_intersection
set_intersection-In [] ys a h k = absurd h
set_intersection-In (x ∷ xs) ys a (inl e) k =
    rw (contains-of-In ys x (subst (λ z. In z ys) e k)) (inl e)
set_intersection-In (x ∷ xs) ys a (inr m) k =
    If-In (contains ys x) x a (set_intersection xs ys) (set_intersection-In xs ys a m k)

-- An index in range is answered with a member.
pub at_lem :
    (xs : List ServerId) (i : ℕ) → i < length xs → (a : ServerId) × (at xs i ≡ ok a) × In a xs
unfolding at
at_lem [] i h = elim h [ ]
at_lem (x ∷ xs) zero h = (x, refl, inl refl)
at_lem (x ∷ xs) (suc i) h = let (a, e, m) = at_lem xs i (omega arith) in (a, e, inr m)

pub In-erase_at : (xs : List ServerId) (i : ℕ) (a : ServerId) → In a (erase_at xs i) → In a xs
unfolding erase_at
In-erase_at [] i a h = h
In-erase_at (x ∷ xs) zero a h = inr h
In-erase_at (x ∷ xs) (suc i) a (inl e) = inl e
In-erase_at (x ∷ xs) (suc i) a (inr m) = inr (In-erase_at xs i a m)

pub length-erase_at :
    (xs : List ServerId) (i : ℕ) → i < length xs → length (erase_at xs i) + 1 ≡ length xs
unfolding erase_at
length-erase_at [] i h = elim h [ ]
length-erase_at (x ∷ xs) zero h = omega arith
length-erase_at (x ∷ xs) (suc i) h = omega (arith, length-erase_at xs i (omega arith))

pub All-In : (P : ServerId → Type 0) (xs : List ServerId) (a : ServerId) → All P xs → In a xs → P a
All-In P [] a h m = absurd m
All-In P (x ∷ xs) a h (inl e) = subst P (sym e) h.0
All-In P (x ∷ xs) a h (inr m) = All-In P xs a h.1 m

All-erase_at :
    (P : ServerId → Type 0) (xs : List ServerId) (i : ℕ) → All P xs → All P (erase_at xs i)
unfolding erase_at
All-erase_at P [] i h = tt
All-erase_at P (x ∷ xs) zero h = h.1
All-erase_at P (x ∷ xs) (suc i) h = (h.0, All-erase_at P xs i h.1)

pub Distinct-erase_at : (xs : List ServerId) (i : ℕ) → Distinct xs → Distinct (erase_at xs i)
unfolding erase_at
Distinct-erase_at [] i h = tt
Distinct-erase_at (x ∷ xs) zero h = h.1
Distinct-erase_at (x ∷ xs) (suc i) h =
    (All-erase_at (λ y. x ≢ y) xs i h.0, Distinct-erase_at xs i h.1)

In-at : (xs : List ServerId) (i : ℕ) (a : ServerId) → at xs i ≡ ok a → In a xs
unfolding at
In-at [] i a e = cc
In-at (x ∷ xs) zero a e = inl (sym (ok-injective x a e))
In-at (x ∷ xs) (suc i) a e = inr (In-at xs i a e)

-- What is taken out of a set is no longer in it.
pub at-not-In :
    (xs : List ServerId) (i : ℕ) (a : ServerId)
    → Distinct xs
    → at xs i ≡ ok a
    → All (λ y. a ≢ y) (erase_at xs i)
unfolding at erase_at
at-not-In [] i a h e = cc
at-not-In (x ∷ xs) zero a h e = subst (λ z. All (λ y. z ≢ y) xs) (ok-injective x a e) h.0
at-not-In (x ∷ xs) (suc i) a h e =
    ((λ q. All-In (λ y. x ≢ y) xs a h.0 (In-at xs i a e) (sym q)), at-not-In xs i a h.1 e)

All-unless :
    (P : ServerId → Type 0) (b : Bool) (x : ServerId) (xs : List ServerId)
    → (b ≡ false → P x)
    → All P xs
    → All P (if b then xs else x ∷ xs)
All-unless P true x xs h k = k
All-unless P false x xs h k = (h refl, k)

Distinct-unless :
    (b : Bool) (x : ServerId) (xs : List ServerId)
    → All (λ y. x ≢ y) xs
    → Distinct xs
    → Distinct (if b then xs else x ∷ xs)
Distinct-unless true x xs h k = k
Distinct-unless false x xs h k = (h, k)

module _ {W : Type 0} (is_invalid : W → Bool) (weights : ServerArray W) where
  -- A server from `i` on, below the end of the array, with a valid weight.
  abbrev pub IsCandidate : ℕ → ServerId → Type 0
  IsCandidate i a = (i ≤ a) × (a < 20) × (is_invalid (weights a) ≡ false)

  valid_from-IsCandidate :
      (i k : ℕ) → i + k ≤ 20 → All (IsCandidate i) (valid_from is_invalid weights i k)
  unfolding valid_from
  valid_from-IsCandidate i zero h = tt
  valid_from-IsCandidate i (suc k) h =
      All-unless (IsCandidate i) (is_invalid (weights i)) i _ (λ e. (omega arith, omega arith, e))
        (All-map (IsCandidate (i + 1)) _ (λ a c. (omega (arith, c.0), c.1, c.2)) _
          (valid_from-IsCandidate (i + 1) k (omega arith)))

  valid_from-Distinct : (i k : ℕ) → i + k ≤ 20 → Distinct (valid_from is_invalid weights i k)
  unfolding valid_from
  valid_from-Distinct i zero h = tt
  valid_from-Distinct i (suc k) h =
      Distinct-unless (is_invalid (weights i)) i _
        (All-map (IsCandidate (i + 1)) _ (λ a c e. absurd (omega (arith, c.0, e))) _
          (valid_from-IsCandidate (i + 1) k (omega arith)))
        (valid_from-Distinct (i + 1) k (omega arith))

  Unless-In :
      (b : Bool) (x a : ServerId) (xs : List ServerId) → In a xs → In a (if b then xs else x ∷ xs)
  Unless-In true x a xs m = m
  Unless-In false x a xs m = inr m

  valid_from-In :
      (i k a : ℕ)
      → i ≤ a
      → a < i + k
      → is_invalid (weights a) ≡ false
      → In a (valid_from is_invalid weights i k)
  unfolding valid_from
  valid_from-In i zero a h l e = absurd (omega arith)
  valid_from-In i (suc k) a h l e = elim (Bool-cases (i == a)) [
    | inl q ↦
        let p : i ≡ a = (==_iff i a).0 q in
        rw (ap (λ z. is_invalid (weights z)) p ∙ e) (inl (sym p))
    | inr q ↦
        Unless-In (is_invalid (weights i)) i a _
          (valid_from-In (i + 1) k a (omega (arith, ne_of_== i a q)) (omega arith) e)
  ]

  -- The valid servers are distinct, and exactly those in 1 .. 19 whose weight is valid.
  pub get_valid_servers-Distinct : Distinct (get_valid_servers is_invalid weights)
  unfolding get_valid_servers
  get_valid_servers-Distinct = valid_from-Distinct 1 19 (omega arith)

  pub get_valid_servers-IsCandidate : All (IsCandidate 1) (get_valid_servers is_invalid weights)
  unfolding get_valid_servers
  get_valid_servers-IsCandidate = valid_from-IsCandidate 1 19 (omega arith)

  pub get_valid_servers-In : (a : ℕ) → IsCandidate 1 a → In a (get_valid_servers is_invalid weights)
  unfolding get_valid_servers
  get_valid_servers-In a c = valid_from-In 1 19 a c.0 (omega (arith, c.1)) c.2
