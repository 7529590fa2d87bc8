-- ===== src/DiskModel/Tests.antt =====
-- A disk of three measured loads, with exact fractions for the doubles.
use sandook.Base.{ℕ, ◌*◌, ◌/◌, ◌≤◌, ◌≡◌, [], ◌∷◌, ltb, leb, arith}
use sandook.Status.{ok}
use sandook.DiskModel.{Scales, get_latency, k_saturation_latency_penalty_us}
use sandook.DiskModel.Segments.{model}
use sandook.DiskModel.Monotone.{Scaling, get_latency_rises}

abbrev exact : Scales
exact = record {
  scale = λ r a b. r * a / b;
  dampen = λ x. x * 95 / 100;
  Num = ℕ;
  lt = ltb;
  le = leb;
  zero_ratio = 0;
  one_ratio = 100;
}

exact-Scaling : Scaling exact
exact-Scaling = record {
  at_most = λ r a b h p q. grind arith;
  rises = λ r a a' b h p q w. grind arith;
}

get_latency_rises_example :
    (n n' : ℕ) × (get_latency exact 1500 (model (1000 ∷ 2000 ∷ 3000 ∷ []) (80 ∷ 120 ∷ 900 ∷ []))
      ≡ ok n)
    × (get_latency exact 2500 (model (1000 ∷ 2000 ∷ 3000 ∷ []) (80 ∷ 120 ∷ 900 ∷ [])) ≡ ok n')
    × (n ≤ n')
    × (n' ≤ k_saturation_latency_penalty_us)
get_latency_rises_example =
    get_latency_rises exact exact-Scaling 1500 2500 1000 80 (2000 ∷ 3000 ∷ []) (120 ∷ 900 ∷ [])
      (omega arith) (omega arith)
