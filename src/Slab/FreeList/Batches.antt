-- ===== src/Slab/FreeList/Batches.antt =====
-- The chain of batches in memory, and the words of one batch.
use sandook.Base.{
  ℕ, zero, suc, ◌+◌, ◌≡◌, refl, ◌<◌, ◌≤◌, ◌≢◌, inl, inr, if◌then◌else◌, ◌==◌, none, some, List, [],
  ◌∷◌, ◌++◌, length, All, arith, Bool-cases, ==_iff, ne_of_==,
}
use sandook.Slab.FreeList.{Ptr, Memory, last_used, first_free}

-- A batch at an address, with the pointers in its words 1 to 5, the last one first.
pub record Batch : Type 0 where
  pub address : Ptr
  pub items : List Ptr

-- What word `i` holds, for `i` from 1 on.
unfoldable pub word_of : List Ptr → ℕ → Ptr
word_of [] i = 0
word_of (x ∷ xs) i = if i == length xs + 1 then x else word_of xs i

pub record IsBatch (mem : Memory) (b : Batch) : Type 0 where
  pub nonnull : b.address ≢ 0
  pub room : length b.items ≤ 5
  pub words : (i : ℕ) → 1 ≤ i → i ≤ 5 → mem b.address i ≡ word_of b.items i
  pub valid : All (λ x. x ≢ 0) b.items

-- The batches from a pointer on, to the null pointer.
abbrev pub Chain : Memory → Ptr → List Batch → Type 0
Chain mem p [] = p ≡ 0
Chain mem p (b ∷ bs) = (p ≡ b.address) × IsBatch mem b × Chain mem (mem p 0) bs

-- The free objects, in the order in which they are popped.
abbrev pub contents : List Batch → List Ptr
contents [] = []
contents (b ∷ bs) = b.items ++ (b.address ∷ contents bs)

pub word_of_above : (xs : List Ptr) (i : ℕ) → length xs < i → word_of xs i ≡ 0
unfolding word_of
word_of_above [] i h = refl
word_of_above (x ∷ xs) i h = ground (arith, word_of_above xs i)

pub word_of_below :
    (xs : List Ptr) (i : ℕ) → All (λ x. x ≢ 0) xs → 1 ≤ i → i ≤ length xs → word_of xs i ≢ 0
unfolding word_of
word_of_below [] i a l h = absurd (omega arith)
word_of_below (x ∷ xs) i a l h = elim (Bool-cases (i == length xs + 1)) [
  | inl e ↦ rw e a.0
  | inr e ↦ rw e (word_of_below xs i a.1 l (omega (arith, ne_of_== i (length xs + 1) e)))
]

-- The loop of `pop` finds the last word in use, if it starts above it.
pub last_used-empty :
    (words : ℕ → Ptr) (k : ℕ) → ((i : ℕ) → 1 ≤ i → i ≤ k → words i ≡ 0) → last_used words k ≡ none
unfolding last_used
last_used-empty words zero h = refl
last_used-empty words (suc k) h =
    rw ((==_iff _ 0).1 (h (suc k) (omega arith) (omega arith)))
      (last_used-empty words k (λ i l u. h i l (omega arith)))

pub last_used-found :
    (words : ℕ → Ptr) (k n : ℕ)
    → 1 ≤ n
    → n ≤ k
    → words n ≢ 0
    → ((i : ℕ) → n < i → i ≤ k → words i ≡ 0)
    → last_used words k ≡ some n
unfolding last_used
last_used-found words zero n l u h z = absurd (omega arith)
last_used-found words (suc k) n l u h z = elim (Bool-cases (words (suc k) == 0)) [
  | inl e ↦ rw e (last_used-found words k n l (ground (arith, e)) h (λ i a b. z i a (omega arith)))
  | inr e ↦ rw e (ground (arith, z (suc k)))
]

-- The loop of `push` finds the first word that is free, if there is one.
pub first_free-found :
    (words : ℕ → Ptr) (i k n : ℕ)
    → i ≤ n
    → n < i + k
    → words n ≡ 0
    → ((j : ℕ) → i ≤ j → j < n → words j ≢ 0)
    → first_free words i k ≡ some n
unfolding first_free
first_free-found words i zero n l u h z = absurd (omega arith)
first_free-found words i (suc k) n l u h z = elim (Bool-cases (words i == 0)) [
  | inl e ↦ rw e (ground (arith, z i))
  | inr e ↦ rw e (
      first_free-found words (i + 1) k n (ground arith) (omega arith) h
        (λ j a b. z j (omega arith) b))
]

pub first_free-full :
    (words : ℕ → Ptr) (i k : ℕ)
    → ((j : ℕ) → i ≤ j → j < i + k → words j ≢ 0)
    → first_free words i k ≡ none
unfolding first_free
first_free-full words i zero z = refl
first_free-full words i (suc k) z = elim (Bool-cases (words i == 0)) [
  | inl e ↦ absurd (z i (omega arith) (omega arith) ((==_iff _ 0).0 e))
  | inr e ↦ rw e (first_free-full words (i + 1) k (λ j a b. z j (omega arith) (omega arith)))
]
