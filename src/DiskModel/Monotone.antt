-- ===== src/DiskModel/Monotone.antt =====
-- The latency of a well-formed model rises with the load.
use sandook.Base.{
  ℕ, suc, ◌+◌, ◌-◌, ◌%◌, ◌^◌, ◌≡◌, refl, ap, ◌∙◌, ◌<◌, ◌≤◌, inl, inr, true, false, leb, min, List,
  [], ◌∷◌, length, Bool-cases, arith,
}
use sandook.Status.{ok}
use sandook.Types.{u64_mod}
use sandook.DiskModel.{sub64, Scales, k_saturation_latency_penalty_us, interpolate, get_latency}
use sandook.DiskModel.Segments.{model, past, estimate, get_latency-estimate}

-- Loads rise, latencies do not fall, and doubles hold them exactly.
abbrev pub IsRising : ℕ → ℕ → List ℕ → List ℕ → Type 0
IsRising l v [] [] = Unit
IsRising l v [] (v' ∷ vs) = ⊥
IsRising l v (l' ∷ ls) [] = ⊥
IsRising l v (l' ∷ ls) (v' ∷ vs) =
    (l < l') × (v ≤ v') × (l' < 2 ^ 53) × (v' < 2 ^ 53) × IsRising l' v' ls vs

-- What doubles compute of `r * (a / b)`: no more than `r` where `a` is at most `b`, and no less for a larger
-- `a`.
pub record Scaling (k : Scales) : Type 0 where
  pub at_most : (r a b : ℕ) → r < 2 ^ 53 → a ≤ b → 0 < b → k.scale r a b ≤ r
  pub rises : (r a a' b : ℕ) → r < 2 ^ 53 → a ≤ a' → a' ≤ b → 0 < b → k.scale r a b ≤ k.scale r a' b

leb→le : (a b : ℕ) → leb a b ≡ true → a ≤ b
leb→le a b e = ground (arith, e)

not-leb→lt : (a b : ℕ) → leb a b ≡ false → b < a
not-leb→lt a b e = ground (arith, e)

lengths : (l v : ℕ) (ls vs : List ℕ) → IsRising l v ls vs → length ls ≡ length vs
lengths l v [] [] h = refl
lengths l v [] (v' ∷ vs) h = absurd h
lengths l v (l' ∷ ls) [] h = absurd h
lengths l v (l' ∷ ls) (v' ∷ vs) h = ap suc (lengths l' v' ls vs h.4)

not-leb : (a b : ℕ) → b < a → leb a b ≡ false
not-leb a b h = ground (arith, h)

sub64_lem : (a b : ℕ) → b ≤ a → a < 2 ^ 53 → sub64 a b ≡ a - b
sub64_lem a b h k = omega (arith, h, k)

mod_lem : (a : ℕ) → a < 2 ^ 54 → a % u64_mod ≡ a
mod_lem a h = omega (arith, h)

module _ (k : Scales) (s : Scaling k) where
  interpolate_lem :
      (c l l' v v' : ℕ)
      → l < l'
      → v ≤ v'
      → l' < 2 ^ 53
      → v' < 2 ^ 53
      → l < c
      → c ≤ l'
      → (interpolate k c l l' v v' ≡ v + k.scale (v' - v) (c - l) (l' - l))
        × (v + k.scale (v' - v) (c - l) (l' - l) ≤ v')
  unfolding interpolate
  interpolate_lem c l l' v v' h i p q a b =
      let bound =
        s.at_most (v' - v) (c - l) (l' - l) (omega (arith, q)) (omega (arith, b))
          (omega (arith, h)) in
      let e : k.scale (sub64 v' v) (sub64 c l) (sub64 l' l) ≡ k.scale (v' - v) (c - l) (l' - l) =
        rw
          (
            sub64_lem v' v i (omega (arith, q)),
            sub64_lem c l (omega (arith, a)) (omega (arith, b, p)),
            sub64_lem l' l (omega (arith, h)) (omega (arith, p)),
          )
          refl in
      (
        ap (λ z. (v + z) % u64_mod) e
            ∙ mod_lem (v + k.scale (v' - v) (c - l) (l' - l)) (omega (arith, bound, q, i)),
        omega (arith, bound, i),
      )

  -- No estimate past a point is below the latency at that point, up to saturation.
  past_above :
      (c l v : ℕ) (ls vs : List ℕ)
      → IsRising l v ls vs
      → l < c
      → min v k_saturation_latency_penalty_us
        ≤ min (past k c l v ls vs) k_saturation_latency_penalty_us
  unfolding past
  past_above c l v [] vs h a = omega arith
  past_above c l v (l' ∷ ls) [] h a = absurd h
  past_above c l v (l' ∷ ls) (v' ∷ vs) h a = elim (Bool-cases (leb c l')) [
    | inl e ↦
        let (q, b) = interpolate_lem c l l' v v' h.0 h.1 h.2 h.3 a (leb→le c l' e) in
        rw e (omega (arith, q))
    | inr e ↦ rw e (omega (arith, h.1, past_above c l' v' ls vs h.4 (not-leb→lt c l' e)))
  ]

  past_rises :
      (c c' l v : ℕ) (ls vs : List ℕ)
      → IsRising l v ls vs
      → l < c
      → c ≤ c'
      → min (past k c l v ls vs) k_saturation_latency_penalty_us
        ≤ min (past k c' l v ls vs) k_saturation_latency_penalty_us
  unfolding past
  past_rises c c' l v [] vs h a b = omega arith
  past_rises c c' l v (l' ∷ ls) [] h a b = absurd h
  past_rises c c' l v (l' ∷ ls) (v' ∷ vs) h a b = elim (Bool-cases (leb c l')) [
    | inl e ↦
        let (q, u) = interpolate_lem c l l' v v' h.0 h.1 h.2 h.3 a (leb→le c l' e) in
        elim (Bool-cases (leb c' l')) [
          | inl f ↦
              let n = leb→le c' l' f in
              let (q', u') = interpolate_lem c' l l' v v' h.0 h.1 h.2 h.3 (omega (arith, a, b)) n in
              let m =
                s.rises (v' - v) (c - l) (c' - l) (l' - l) (omega (arith, h.3)) (omega (arith, b))
                  (omega (arith, n)) (omega (arith, h.0)) in
              rw (e, f) (omega (arith, q, q', m))
          | inr f ↦
              rw (e, f) (omega (arith, q, u, past_above c' l' v' ls vs h.4 (not-leb→lt c' l' f)))
        ]
    | inr e ↦
        let n = not-leb→lt c l' e in
        rw (e, not-leb c' l' (omega (arith, n, b))) (past_rises c c' l' v' ls vs h.4 n b)
  ]

  estimate_rises :
      (c c' l v : ℕ) (ls vs : List ℕ)
      → IsRising l v ls vs
      → c ≤ c'
      → min (estimate k c l v ls vs) k_saturation_latency_penalty_us
        ≤ min (estimate k c' l v ls vs) k_saturation_latency_penalty_us
  unfolding estimate
  estimate_rises c c' l v ls vs h b = elim (Bool-cases (leb c l)) [
    | inl e ↦ elim (Bool-cases (leb c' l)) [
      | inl f ↦ rw (e, f) (omega arith)
      | inr f ↦ rw (e, f) (past_above c' l v ls vs h (not-leb→lt c' l f))
    ]
    | inr e ↦
        let n = not-leb→lt c l e in
        rw (e, not-leb c' l (omega (arith, n, b))) (past_rises c c' l v ls vs h n b)
  ]

  -- On a model of at least one point whose loads rise and whose latencies do not fall, GetLatency fails no
  -- assertion and reads no vector out of range, a larger load never gets a smaller latency, and no latency
  -- is above that of saturation with its penalty. This needs that the points are below 2^53, which
  -- doubles hold exactly, and what doubles do when they scale.
  pub get_latency_rises :
      (c c' l v : ℕ) (ls vs : List ℕ)
      → IsRising l v ls vs
      → c ≤ c'
      → (n n' : ℕ) × (get_latency k c (model (l ∷ ls) (v ∷ vs)) ≡ ok n)
        × (get_latency k c' (model (l ∷ ls) (v ∷ vs)) ≡ ok n')
        × (n ≤ n')
        × (n' ≤ k_saturation_latency_penalty_us)
  get_latency_rises c c' l v ls vs h b =
      let e = lengths l v ls vs h in
      (
        min (estimate k c l v ls vs) k_saturation_latency_penalty_us,
        min (estimate k c' l v ls vs) k_saturation_latency_penalty_us,
        get_latency-estimate k c l v ls vs e,
        get_latency-estimate k c' l v ls vs e,
        estimate_rises c c' l v ls vs h b,
        omega arith,
      )
