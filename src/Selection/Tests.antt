-- ===== src/Selection/Tests.antt =====
-- Servers 2, 4 and 5 have valid weights.
use sandook.Base.{
  ℕ, ◌≡◌, ◌-◌, refl, List, [], ◌∷◌, Bool, if◌then◌else◌, ◌==◌, arith, length, min, take, inl, inr,
  Distinct,
}
use sandook.Types.{ServerId, ServerArray}
use sandook.Selection.{get_valid_servers, weighted_read, weighted_write}
use sandook.Selection.Members.{IsCandidate}
use sandook.Selection.Read.{Chooses, IsEligible, weighted_read-Chooses}
use sandook.Selection.Write.{IsSample, Selects, weighted_write-Selects}

abbrev is_invalid : ℕ → Bool
is_invalid w = w == 0

abbrev weights : ServerArray ℕ
weights id = if id == 2 then 10 else if id == 4 then 20 else if id == 5 then 5 else 0

abbrev replicas : List ServerId
replicas = 1 ∷ 4 ∷ []

four_valid : IsCandidate is_invalid weights 1 4
four_valid = (omega arith, omega arith, refl)

weighted_read-Chooses_example :
    Chooses
      (IsEligible is_invalid weights replicas)
      (weighted_read is_invalid (λ ws. length ws - 1) weights replicas)
weighted_read-Chooses_example =
    weighted_read-Chooses is_invalid weights replicas (λ ws. length ws - 1) 4 (λ ws p. omega arith)
      four_valid

abbrev sample : List ServerId → ℕ → List ServerId
sample xs n = take n xs

sample-IsSample : (xs : List ServerId) → Distinct xs → IsSample xs (sample xs (min (length xs) 2))
sample-IsSample [] d = record { members = tt; distinct = tt; enough = refl }
sample-IsSample (a ∷ []) d = record { members = (inl refl, tt); distinct = (tt, tt); enough = refl }
sample-IsSample (a ∷ b ∷ xs) d =
    let two : min (length (a ∷ b ∷ xs)) 2 ≡ 2 = omega arith in
    rw two (record {
      members = (inl refl, (inr (inl refl), tt));
      distinct = ((d.0.0, tt), (tt, tt));
      enough = rw two refl;
    })

weighted_write-Selects_example :
    Selects
      (get_valid_servers is_invalid weights)
      (weighted_write is_invalid sample (λ i ws. length ws - 1) weights)
weighted_write-Selects_example =
    weighted_write-Selects is_invalid weights sample (λ i ws. length ws - 1) 4 sample-IsSample
      (λ i ws p. omega arith) four_valid
