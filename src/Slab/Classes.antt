-- ===== src/Slab/Classes.antt =====
-- The size classes and the sizes of their objects.
use native.Mathlib.Numerals.{towards_suc, add-one}
use sandook.Base.{
  ℕ, zero, suc, ◌+◌, ◌-◌, ◌%◌, ◌^◌, ◌≡◌, refl, ap, ◌<◌, ◌≤◌, inl, inr, false, leb, arith,
  Bool-cases, ◌==◌, ==_iff, ne_of_==,
}
use sandook.Slab.{bsr_below, bsr_64, get_slab_shift, get_slab_size}

bsr_below-upper : (a k : ℕ) → 0 < a → a < 2 ^ k → a < 2 ^ (bsr_below a k + 1)
unfolding bsr_below
bsr_below-upper a zero p h = absurd (omega arith)
bsr_below-upper a (suc k) p h = elim (Bool-cases (leb (2 ^ k) a)) [
  | inl e ↦ rw e (rw add-one h)
  | inr e ↦ rw e (bsr_below-upper a k p (ground (arith, e)))
]

bsr_below-lower : (a k j : ℕ) → j < k → 2 ^ j ≤ a → j ≤ bsr_below a k
unfolding bsr_below
bsr_below-lower a zero j l h = absurd (omega arith)
bsr_below-lower a (suc k) j l h = elim (Bool-cases (leb (2 ^ k) a)) [
  | inl e ↦ rw e (omega arith)
  | inr e ↦ rw e (bsr_below-lower a k j (less e) h)
]
  where
    less : leb (2 ^ k) a ≡ false → j < k
    less e =
        let below : a < 2 ^ k = ground (arith, e) in
        elim (Bool-cases (j == k)) [
          | inl q ↦ absurd (omega (arith, below, h, ap (λ (x : ℕ). 2 ^ x) ((==_iff j k).0 q)))
          | inr q ↦ omega (arith, l, ne_of_== j k q)
        ]

bsr_64_lem : (a : ℕ) → 32 ≤ a → a < 2 ^ 64 → (5 ≤ bsr_64 a) × (a < 2 ^ (bsr_64 a + 1))
unfolding bsr_64
bsr_64_lem a l h = (bsr_below-lower a 64 5 (omega arith) l, bsr_below-upper a 64 (omega arith) h)

pub get_slab_shift_lem :
    (size : ℕ) → size < 2 ^ 64 → (5 ≤ get_slab_shift size) × (size ≤ 2 ^ get_slab_shift size)
unfolding get_slab_shift
get_slab_shift_lem size h = elim (Bool-cases (leb size (2 ^ 5))) [
  | inl e ↦ rw e (omega arith, ground (arith, e))
  | inr e ↦
      let big : 32 < size = ground (arith, e) in
      let (l, u) = bsr_64_lem (size - 1) (omega arith) (omega arith) in
      rw e (omega arith, omega (arith, u))
]

pow_aligned : (k : ℕ) → 2 ^ (k + 5) % 16 ≡ 0
pow_aligned zero = refl
pow_aligned (suc k) =
    let e : suc k + 5 ≡ suc (k + 5) = omega arith in
    rw e (simp towards_suc (omega (arith, pow_aligned k)))

pub get_slab_size_aligned : (s : ℕ) → 5 ≤ s → get_slab_size s % 16 ≡ 0
unfolding get_slab_size
get_slab_size_aligned s h =
    let e : (s - 5) + 5 ≡ s = omega arith in
    omega (arith, pow_aligned (s - 5), ap (λ (x : ℕ). 2 ^ x) e)
