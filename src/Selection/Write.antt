-- ===== src/Selection/Write.antt =====
-- The two servers that a write is sent to.
use Prim.Native.Nat.{bit_xor}
use native.Mathlib.Nat.{mod-lt}
use sandook.Base.{
  ℕ, zero, suc, ◌+◌, ◌≡◌, refl, sym, subst, ◌∙◌, ◌<◌, ◌≤◌, ◌≢◌, inl, inr, Bool, false, List, [],
  ◌∷◌, map, length, length-map, arith, Bool-cases, All, Distinct, ltb, ◌==◌, ◌%◌, min, ==_iff,
  All-map, not-ltb→le,
}
use sandook.Status.{Status, ok}
use sandook.Types.{ServerId, ServerArray, VolumeId}
use sandook.Selection.{
  ServerSet, ServerReplicaList, is_empty, erase_at, pick, fill_replicas, get_valid_servers,
  hash_write, random_write, weighted_write,
}
use sandook.Selection.Members.{
  In, In-erase_at, length-erase_at, Distinct-erase_at, at-not-In, at_lem, All-In, IsCandidate,
  get_valid_servers-In, get_valid_servers-Distinct,
}

-- The two replicas are members of a set, and differ if the set has more than one member.
pub record IsReplicas (servers : List ServerId) (r : ServerReplicaList) : Type 0 where
  pub front_in : In r.front servers
  pub back_in : In r.back servers
  pub differ : 1 < length servers → r.front ≢ r.back

-- A successful result with such replicas.
abbrev pub Selects : List ServerId → Status ServerReplicaList → Type 0
Selects servers s = (r : ServerReplicaList) × (s ≡ ok r) × IsReplicas servers r

-- A list of distinct members, as many as there are up to two.
pub record IsSample (servers xs : List ServerId) : Type 0 where
  pub members : All (λ a. In a servers) xs
  pub distinct : Distinct xs
  pub enough : length xs ≡ min (length servers) 2

fill_replicas-IsReplicas :
    (servers xs : List ServerId)
    → 0 < length servers
    → IsSample servers xs
    → IsReplicas servers (fill_replicas xs)
unfolding fill_replicas
fill_replicas-IsReplicas servers [] p s = absurd (omega (arith, s.enough))
fill_replicas-IsReplicas servers (a ∷ []) p s = record {
  front_in = s.members.0;
  back_in = s.members.0;
  differ = λ q. absurd (omega (arith, s.enough));
}
fill_replicas-IsReplicas servers (a ∷ b ∷ xs) p s = record {
  front_in = s.members.0;
  back_in = s.members.1.0;
  differ = λ q. s.distinct.0.0;
}

self-IsSample :
    (servers : List ServerId) → length servers ≡ 2 → Distinct servers → IsSample servers servers
self-IsSample [] e d = absurd (omega arith)
self-IsSample (a ∷ []) e d = absurd (omega arith)
self-IsSample (a ∷ b ∷ []) e d = record {
  members = (inl refl, (inr (inl refl), tt));
  distinct = d;
  enough = omega arith;
}
self-IsSample (a ∷ b ∷ c ∷ xs) e d = absurd (omega arith)

-- Each round takes a member out of what is left, so that the members taken are distinct.
pick_lem :
    (index : ℕ → List ServerId → ℕ)
    → ((i : ℕ) (cs : List ServerId) → 0 < length cs → index i cs < length cs)
    → (i k : ℕ) (choices : List ServerId) → k ≤ length choices
    → Distinct choices
    → (xs : List ServerId) × (pick index i k choices ≡ ok xs)
      × All (λ a. In a choices) xs
      × Distinct xs
      × (length xs ≡ k)
unfolding pick
pick_lem index h i zero choices l d = ([], refl, tt, tt, refl)
pick_lem index h i (suc k) choices l d =
    let idx = index i choices in
    let (a, e, m) = at_lem choices idx (h i choices (omega arith)) in
    let (xs, q, ms, ds, n) =
      pick_lem index h (i + 1) k (erase_at choices idx)
        (omega (arith, length-erase_at choices idx (h i choices (omega arith))))
        (Distinct-erase_at choices idx d) in
    let apart = at-not-In choices idx a d e in
    (
      a ∷ xs,
      rw (e, q),
      (m, All-map (λ y. In y (erase_at choices idx)) _ (λ y. In-erase_at choices idx y) xs ms),
      (
        All-map (λ y. In y (erase_at choices idx)) _
            (λ y. All-In (λ z. a ≢ z) (erase_at choices idx) y apart) xs ms,
        ds,
      ),
      omega (arith, n),
    )

module _ {W : Type 0} (is_invalid : W → Bool) (weights : ServerArray W) where
  abbrev servers : ServerSet
  servers = get_valid_servers is_invalid weights

  nonempty : (xs : List ServerId) (a : ServerId) → In a xs → (is_empty xs ≡ false) × (0 < length xs)
  unfolding is_empty
  nonempty [] a m = absurd m
  nonempty (x ∷ xs) a m = (refl, omega arith)

  picked :
      (index : ℕ → List ServerId → ℕ) (n : ℕ)
      → ((i : ℕ) (cs : List ServerId) → 0 < length cs → index i cs < length cs)
      → 0 < length servers
      → n ≡ min (length servers) 2
      → (xs : List ServerId) × (pick index 0 n servers ≡ ok xs)
        × IsReplicas servers (fill_replicas xs)
  picked index n h p e =
      let (xs, q, m, d, l) =
        pick_lem index h 0 n servers (omega arith)
          (get_valid_servers-Distinct is_invalid weights) in
      (
        xs,
        q,
        fill_replicas-IsReplicas servers xs p
            (record { members = m; distinct = d; enough = l ∙ e }),
      )

  both : length servers ≡ 2 → IsReplicas servers (fill_replicas servers)
  both e =
      fill_replicas-IsReplicas servers servers (omega arith)
        (self-IsSample servers e (get_valid_servers-Distinct is_invalid weights))

  -- If some server has a valid weight, `HashWrite` succeeds, whatever the hash, with two servers of
  -- valid weight that differ as soon as there are two such servers.
  pub hash_write-Selects :
      (std_hash : ℕ → ℕ) (vol_id : VolumeId) (start_sector a : ℕ)
      → IsCandidate is_invalid weights 1 a
      → Selects
          (get_valid_servers is_invalid weights)
          (hash_write is_invalid std_hash weights vol_id start_sector)
  unfolding hash_write
  hash_write-Selects std_hash vol_id start_sector a c =
      let (e, p) = nonempty servers a (get_valid_servers-In is_invalid weights a c) in
      let h = std_hash (bit_xor vol_id start_sector) in
      elim (Bool-cases (length servers == 2)) [
        | inl two ↦ (fill_replicas servers, rw (e, two), both ((==_iff _ _).0 two))
        | inr other ↦
            let (xs, q, r) =
              picked (λ i choices. h % length choices) (min (length servers) 2)
                (λ i cs l. mod-lt h l) p refl in
            (fill_replicas xs, rw (e, other, q), r)
      ]

  -- If some server has a valid weight and `std::ranges::sample` returns distinct members, as many as it
  -- is asked for, `RandomWrite` succeeds with two servers of valid weight that differ as soon as there
  -- are two such servers.
  pub random_write-Selects :
      (sample : List ServerId → ℕ → List ServerId) (a : ServerId)
      → ((xs : List ServerId) → Distinct xs → IsSample xs (sample xs (min (length xs) 2)))
      → IsCandidate is_invalid weights 1 a
      → Selects (get_valid_servers is_invalid weights) (random_write is_invalid sample weights)
  unfolding random_write
  random_write-Selects sample a s c =
      let (e, p) = nonempty servers a (get_valid_servers-In is_invalid weights a c) in
      elim (Bool-cases (length servers == 2)) [
        | inl two ↦ (fill_replicas servers, rw (e, two), both ((==_iff _ _).0 two))
        | inr other ↦ (
          fill_replicas (sample servers (min (length servers) 2)),
          rw (e, other),
          fill_replicas-IsReplicas servers _ p
              (s servers (get_valid_servers-Distinct is_invalid weights)),
        )
      ]

  -- If some server has a valid weight, the drawn indices are in range and `std::ranges::sample` returns
  -- distinct members, as many as it is asked for, `WeightedWrite` succeeds with two servers of valid
  -- weight that differ as soon as there are two such servers.
  pub weighted_write-Selects :
      (sample : List ServerId → ℕ → List ServerId) (draw : ℕ → List W → ℕ) (a : ServerId)
      → ((xs : List ServerId) → Distinct xs → IsSample xs (sample xs (min (length xs) 2)))
      → ((i : ℕ) (ws : List W) → 0 < length ws → draw i ws < length ws)
      → IsCandidate is_invalid weights 1 a
      → Selects
          (get_valid_servers is_invalid weights)
          (weighted_write is_invalid sample draw weights)
  unfolding weighted_write
  weighted_write-Selects sample draw a s h c =
      let (e, p) = nonempty servers a (get_valid_servers-In is_invalid weights a c) in
      elim (Bool-cases (length servers == 2)) [
        | inl two ↦ (fill_replicas servers, rw (e, two), both ((==_iff _ _).0 two))
        | inr other ↦ elim (Bool-cases (ltb (length servers) 2)) [
          | inl few ↦ (
            fill_replicas (sample servers (min (length servers) 2)),
            rw (e, other, few),
            fill_replicas-IsReplicas servers _ p
                (s servers (get_valid_servers-Distinct is_invalid weights)),
          )
          | inr many ↦
              let (xs, q, r) =
                picked (λ i choices. draw i (map weights choices)) 2
                  (λ i cs l.
                    subst (λ n. draw i (map weights cs) < n) (length-map cs weights)
                      (h i (map weights cs) (subst (λ n. 0 < n) (sym (length-map cs weights)) l)))
                  p (omega (arith, not-ltb→le _ _ many)) in
              (fill_replicas xs, rw (e, other, many, q), r)
        ]
      ]
