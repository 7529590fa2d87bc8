-- ===== src/Routing/Filter.antt =====
-- The filter on the servers' modes.
use sandook.Base.{
  ℕ, ◌+◌, ◌≡◌, refl, sym, ap, subst, ◌∙◌, ◌≤◌, ◌≢◌, ◌⊎◌, inl, inr, Bool, true, false, if◌then◌else◌,
  ◌==◌, List, [], ◌∷◌, Bool-cases, ==_iff, ne_of_==, arith,
}
use sandook.Types.{ServerId, ServerArray, put, ServerMode}
use sandook.Selection.Members.{In}
use sandook.Congestion.{Doubles}
use sandook.Routing.{keep_weights}

module _ (d : Doubles) (keeps : ServerMode → Bool) (modes : ServerArray ServerMode)
    (all : ServerArray d.Num) where
  abbrev kept : List ServerId → ServerArray d.Num × ℕ → ServerArray d.Num × ℕ
  kept = keep_weights d keeps modes all

  put_self : (w : ServerArray d.Num) (a : ServerId) (v : d.Num) → put w a v a ≡ v
  put_self w a v = rw ((==_iff a a).1 refl)

  kept_pass :
      (id : ServerId) (ids : List ServerId) (acc : ServerArray d.Num × ℕ)
      → keeps (modes id) ≡ true
      → kept (id ∷ ids) acc ≡ kept ids (put acc.0 id (all id), acc.1 + 1)
  unfolding keep_weights
  kept_pass id ids acc e =
      ap (λ b. kept ids (if b then (put acc.0 id (all id), acc.1 + 1) else acc)) e

  kept_drop :
      (id : ServerId) (ids : List ServerId) (acc : ServerArray d.Num × ℕ)
      → keeps (modes id) ≡ false
      → kept (id ∷ ids) acc ≡ kept ids acc
  unfolding keep_weights
  kept_drop id ids acc e =
      ap (λ b. kept ids (if b then (put acc.0 id (all id), acc.1 + 1) else acc)) e

  -- What a weight can be at the end of the loop.
  abbrev pub Value :
      List ServerId → ServerArray d.Num × ℕ → ServerArray d.Num × ℕ → ServerId → Type 0
  Value ids acc out a =
      (out.0 a ≡ acc.0 a) ⊎ (In a ids × (keeps (modes a) ≡ true) × (out.0 a ≡ all a))

  put_cases :
      (w : ServerArray d.Num) (id a : ServerId) (v : d.Num)
      → ((id ≡ a) × (put w id v a ≡ v)) ⊎ ((id ≢ a) × (put w id v a ≡ w a))
  put_cases w id a v = elim (Bool-cases (id == a)) [
    | inl q ↦ inl ((==_iff id a).0 q, rw q refl)
    | inr q ↦ inr (ne_of_== id a q, rw q refl)
  ]

  -- A weight is either untouched, or it is that of a known server whose mode passes.
  pub kept-Value :
      (ids : List ServerId) (acc : ServerArray d.Num × ℕ) (a : ServerId)
      → Value ids acc (kept ids acc) a
  unfolding keep_weights
  kept-Value [] acc a = inl refl
  kept-Value (id ∷ ids) acc a = elim (Bool-cases (keeps (modes id))) [
    | inl e ↦
        subst (λ out. Value (id ∷ ids) acc out a) (sym (kept_pass id ids acc e))
          (elim (kept-Value ids (put acc.0 id (all id), acc.1 + 1) a) [
            | inr (m, k, v) ↦ inr (inr m, k, v)
            | inl v ↦ elim (put_cases acc.0 id a (all id)) [
              | inl (q, p) ↦
                  inr (inl (sym q), subst (λ z. keeps (modes z) ≡ true) q e, v ∙ p ∙ ap all q)
              | inr (q, p) ↦ inl (v ∙ p)
            ]
          ])
    | inr e ↦
        subst (λ out. Value (id ∷ ids) acc out a) (sym (kept_drop id ids acc e))
          (elim (kept-Value ids acc a) [ inl v ↦ inl v | inr (m, k, v) ↦ inr (inr m, k, v) ])
  ]

  -- The count does not fall.
  kept_count : (ids : List ServerId) (acc : ServerArray d.Num × ℕ) → acc.1 ≤ (kept ids acc).1
  unfolding keep_weights
  kept_count [] acc = omega arith
  kept_count (id ∷ ids) acc = elim (Bool-cases (keeps (modes id))) [
    | inl e ↦
        rw (kept_pass id ids acc e)
          (omega (arith, kept_count ids (put acc.0 id (all id), acc.1 + 1)))
    | inr e ↦ rw (kept_drop id ids acc e) (kept_count ids acc)
  ]

  -- A weight that is already that of the server stays so.
  kept_stays :
      (ids : List ServerId) (acc : ServerArray d.Num × ℕ) (a : ServerId)
      → acc.0 a ≡ all a
      → (kept ids acc).0 a ≡ all a
  kept_stays ids acc a h = elim (kept-Value ids acc a) [ inl v ↦ v ∙ h | inr (m, k, v) ↦ v ]

  -- A known server whose mode passes keeps its weight, and is counted.
  pub kept-In :
      (ids : List ServerId) (acc : ServerArray d.Num × ℕ) (a : ServerId)
      → In a ids
      → keeps (modes a) ≡ true
      → ((kept ids acc).0 a ≡ all a) × (acc.1 + 1 ≤ (kept ids acc).1)
  kept-In [] acc a m k = absurd m
  kept-In (id ∷ ids) acc a (inl q) k =
      let e = subst (λ z. keeps (modes z) ≡ true) q k in
      rw (kept_pass id ids acc e) (
        kept_stays ids (put acc.0 id (all id), acc.1 + 1) a
            (subst (λ z. put acc.0 id (all id) z ≡ all z) (sym q) (put_self acc.0 id (all id))),
        kept_count ids (put acc.0 id (all id), acc.1 + 1),
      )
  kept-In (id ∷ ids) acc a (inr m) k = elim (Bool-cases (keeps (modes id))) [
    | inl e ↦
        rw (kept_pass id ids acc e) (
          let (v, n) = kept-In ids (put acc.0 id (all id), acc.1 + 1) a m k in
          (v, omega (arith, n)))
    | inr e ↦ rw (kept_drop id ids acc e) (kept-In ids acc a m k)
  ]

  -- Two of them are counted twice.
  pub kept_two :
      (ids : List ServerId) (acc : ServerArray d.Num × ℕ) (a b : ServerId)
      → In a ids
      → In b ids
      → a ≢ b
      → keeps (modes a) ≡ true
      → keeps (modes b) ≡ true
      → acc.1 + 2 ≤ (kept ids acc).1
  kept_two [] acc a b m n ne k l = absurd m
  kept_two (id ∷ ids) acc a b (inl p) (inl q) ne k l = absurd (ne (p ∙ sym q))
  kept_two (id ∷ ids) acc a b (inl p) (inr n) ne k l =
      rw (kept_pass id ids acc (subst (λ z. keeps (modes z) ≡ true) p k))
        (omega (arith, (kept-In ids (put acc.0 id (all id), acc.1 + 1) b n l).1))
  kept_two (id ∷ ids) acc a b (inr m) (inl q) ne k l =
      rw (kept_pass id ids acc (subst (λ z. keeps (modes z) ≡ true) q l))
        (omega (arith, (kept-In ids (put acc.0 id (all id), acc.1 + 1) a m k).1))
  kept_two (id ∷ ids) acc a b (inr m) (inr n) ne k l = elim (Bool-cases (keeps (modes id))) [
    | inl e ↦
        rw (kept_pass id ids acc e)
          (omega (arith, kept_two ids (put acc.0 id (all id), acc.1 + 1) a b m n ne k l))
    | inr e ↦ rw (kept_drop id ids acc e) (kept_two ids acc a b m n ne k l)
  ]
