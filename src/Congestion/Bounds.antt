-- ===== src/Congestion/Bounds.antt =====
-- The rate limits stay between the two best limits.
use sandook.Base.{ℕ, ◌≡◌, true, false, ◌==◌, inl, inr, Bool-cases}
use sandook.Types.{ServerId, ServerArray, put, CongestionState}
use sandook.Congestion.{
  Doubles, CongestionControl, std_max, raise_limit, limit_step, is_reaction_due,
}

module _ (d : Doubles) where
  open d use {
    Num, lt, eq, add, mul, best_congested_rate_limit, best_uncongested_rate_limit,
    multiplicative_decrease_delta, additive_increase_delta,
  }

  abbrev pub Le : Num → Num → Type 0
  Le x y = lt y x ≡ false

  -- What the proofs use of IEEE doubles that are not NaN: they are ordered, and rounding is monotone,
  -- so that adding a positive number does not decrease a double and halving one that is not negative
  -- does not increase it.
  pub record Laws : Type 0 where
    pub le_refl : (x : Num) → Le x x
    pub lt_asymm : (x y : Num) → lt x y ≡ true → lt y x ≡ false
    pub le_trans : (x y z : Num) → Le x y → Le y z → Le x z
    pub limits_ordered : Le best_congested_rate_limit best_uncongested_rate_limit
    pub increase_grows : (x : Num) → Le x (add x additive_increase_delta)
    pub decrease_shrinks :
        (x : Num) → Le best_congested_rate_limit x → Le (mul x multiplicative_decrease_delta) x

  pub record InLimits (x : Num) : Type 0 where
    pub above : Le best_congested_rate_limit x
    pub below : Le x best_uncongested_rate_limit

  abbrev pub AllInLimits : CongestionControl d → Type 0
  AllInLimits c = (id : ServerId) → InLimits (c.cc_rate_limits id)

  module _ (laws : Laws) where
    open laws use {le_refl, lt_asymm, le_trans, limits_ordered, increase_grows, decrease_shrinks}

    raise_limit-InLimits : (x : Num) → InLimits x → InLimits (raise_limit d x)
    unfolding raise_limit
    raise_limit-InLimits x h = elim (Bool-cases (eq x best_uncongested_rate_limit)) [
      | inl e ↦ rw e h
      | inr e ↦ elim (Bool-cases (lt (add x additive_increase_delta) best_uncongested_rate_limit)) [
        | inl l ↦
            rw (e, l)
              (record { above = le_trans _ x _ h.above (increase_grows x); below = lt_asymm _ _ l })
        | inr l ↦ rw (e, l) (record { above = limits_ordered; below = le_refl _ })
      ]
    ]

    pub raise_limit-grows : (x : Num) → InLimits x → Le x (raise_limit d x)
    unfolding raise_limit
    raise_limit-grows x h = elim (Bool-cases (eq x best_uncongested_rate_limit)) [
      | inl e ↦ rw e (le_refl x)
      | inr e ↦ elim (Bool-cases (lt (add x additive_increase_delta) best_uncongested_rate_limit)) [
        | inl l ↦ rw (e, l) (increase_grows x)
        | inr l ↦ rw (e, l) h.below
      ]
    ]

    lower-InLimits :
        (x : Num)
        → InLimits x
        → InLimits (std_max d best_congested_rate_limit (mul x multiplicative_decrease_delta))
    unfolding std_max
    lower-InLimits x h =
        elim (Bool-cases (lt best_congested_rate_limit (mul x multiplicative_decrease_delta))) [
          | inl e ↦ rw e (record {
            above = lt_asymm _ _ e;
            below = le_trans _ x _ (decrease_shrinks x h.above) h.below;
          })
          | inr e ↦ rw e (record { above = le_refl _; below = limits_ordered })
        ]

    put-InLimits :
        (rates : ServerArray Num) (i : ServerId) (v : Num)
        → ((j : ServerId) → InLimits (rates j))
        → InLimits v
        → (j : ServerId) → InLimits (put rates i v j)
    put-InLimits rates i v h k j = elim (Bool-cases (i == j)) [
      | inl e ↦ rw e k
      | inr e ↦ rw e (h j)
    ]

    pub limit_step-AllInLimits :
        (c : CongestionControl d) (id : ServerId) (now : ℕ) (s : CongestionState)
        → AllInLimits c
        → AllInLimits (limit_step d c id now s)
    unfolding limit_step
    limit_step-AllInLimits c id now CongestionState.uncongested h =
        put-InLimits c.cc_rate_limits id _ h (raise_limit-InLimits _ (h id))
    limit_step-AllInLimits c id now CongestionState.congested_unstable h =
        put-InLimits c.cc_rate_limits id _ h (raise_limit-InLimits _ (h id))
    limit_step-AllInLimits c id now CongestionState.congested h =
        elim (Bool-cases (eq (c.cc_rate_limits id) best_congested_rate_limit)) [
          | inl e ↦ rw e h
          | inr e ↦
              elim (Bool-cases
                (is_reaction_due (c.congestion_responded_at id) (c.congested_at id))) [
                  | inl r ↦
                      rw (e, r) (put-InLimits c.cc_rate_limits id _ h (lower-InLimits _ (h id)))
                  | inr r ↦ rw (e, r) h
                ]
        ]
    limit_step-AllInLimits c id now CongestionState.invalid h = h
    limit_step-AllInLimits c id now CongestionState.congested_stable h = h
