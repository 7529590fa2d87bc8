-- ===== src/DiskModel/Segments.antt =====
-- The estimate of a latency by recursion over the segments between the points of a model.
use sandook.Base.{
  inl, inr, ℕ, suc, ◌≡◌, refl, ◌∙◌, false, if◌then◌else◌, leb, ◌==◌, min, List, [], ◌∷◌, length,
  Bool-cases, ==_iff, arith,
}
use sandook.Status.{Status, ok}
use sandook.DiskModel.{
  Scales, LoadLatency, k_saturation_latency_penalty_us, is_empty, value_at, find_load, check_model,
  interpolate, interpolate_at, latency_at, get_latency,
}

abbrev pub model : List ℕ → List ℕ → LoadLatency
model load latency = record { load = load; latency = latency }

longer : (ls : List ℕ) → suc (length ls) ≡ 0 → ⊥
longer ls e = omega (arith, e)

suc_== : (a b : ℕ) → (suc a == suc b) ≡ (a == b)
suc_== a b = ground arith

one_== : (n : ℕ) → (1 == suc (suc n)) ≡ false
one_== n = ground arith

zero_== : (n : ℕ) → (0 == suc n) ≡ false
zero_== n = ground arith

module _ (k : Scales) where
  -- The estimate past the point `(l, v)`.
  unfoldable pub past : ℕ → ℕ → ℕ → List ℕ → List ℕ → ℕ
  past cur l v [] vs = k_saturation_latency_penalty_us
  past cur l v (l' ∷ ls) [] = k_saturation_latency_penalty_us
  past cur l v (l' ∷ ls) (v' ∷ vs) =
      let rest = past cur l' v' ls vs in if leb cur l' then interpolate k cur l l' v v' else rest

  unfoldable pub estimate : ℕ → ℕ → ℕ → List ℕ → List ℕ → ℕ
  unfolding past
  estimate cur l v ls vs = if leb cur l then v else past cur l v ls vs

  -- What an index gives, before the clamp.
  abbrev given : ℕ → LoadLatency → ℕ → Status ℕ
  given cur m idx =
      if idx == length m.load then ok k_saturation_latency_penalty_us else latency_at k cur m idx

  -- An index past the first point counts from the next one.
  given-next :
      (cur l v l' v' i : ℕ) (ls vs : List ℕ)
      → given cur (model (l ∷ l' ∷ ls) (v ∷ v' ∷ vs)) (suc (suc i))
        ≡ given cur (model (l' ∷ ls) (v' ∷ vs)) (suc i)
  unfolding latency_at interpolate_at value_at
  given-next cur l v l' v' i ls vs = rw (suc_== (suc i) (suc (length ls))) refl

  -- The first index past a point is in the next segment.
  given-first :
      (cur l v l' v' : ℕ) (ls vs : List ℕ)
      → given cur (model (l ∷ l' ∷ ls) (v ∷ v' ∷ vs)) 1 ≡ ok (interpolate k cur l l' v v')
  unfolding latency_at interpolate_at value_at
  given-first cur l v l' v' ls vs = rw (one_== (length ls)) refl

  given-past :
      (cur l v : ℕ) (ls vs : List ℕ)
      → length ls ≡ length vs
      → given cur (model (l ∷ ls) (v ∷ vs)) (suc (find_load cur ls)) ≡ ok (past cur l v ls vs)
  unfolding find_load past
  given-past cur l v [] vs e = refl
  given-past cur l v (l' ∷ ls) [] e = absurd (longer ls e)
  given-past cur l v (l' ∷ ls) (v' ∷ vs) e = elim (Bool-cases (leb cur l')) [
    | inl p ↦ rw p (given-first cur l v l' v' ls vs)
    | inr p ↦ rw p (
        given-next cur l v l' v' (find_load cur ls) ls vs
        ∙ given-past cur l' v' ls vs (omega (arith, e)))
  ]

  given-estimate :
      (cur l v : ℕ) (ls vs : List ℕ)
      → length ls ≡ length vs
      → given cur (model (l ∷ ls) (v ∷ vs)) (find_load cur (l ∷ ls)) ≡ ok (estimate cur l v ls vs)
  unfolding find_load estimate latency_at value_at
  given-estimate cur l v ls vs e = elim (Bool-cases (leb cur l)) [
    | inl p ↦ rw p (rw (zero_== (length ls)) refl)
    | inr p ↦ rw p (given-past cur l v ls vs e)
  ]

  -- The loop with its index gives the estimate of the segment, at most that of saturation.
  pub get_latency-estimate :
      (cur l v : ℕ) (ls vs : List ℕ)
      → length ls ≡ length vs
      → get_latency k cur (model (l ∷ ls) (v ∷ vs))
        ≡ ok (min (estimate cur l v ls vs) k_saturation_latency_penalty_us)
  unfolding get_latency check_model is_empty
  get_latency-estimate cur l v ls vs e =
      rw (suc_== (length ls) (length vs))
        (rw ((==_iff (length ls) (length vs)).1 e) (rw (given-estimate cur l v ls vs e) refl))
