-- ===== src/Congestion/Reaction.antt =====
-- When a rate limit goes down.
use sandook.Base.{ℕ, ◌+◌, ◌≡◌, refl, ◌≤◌, true, ◌⊎◌, inl, inr, Bool-cases, ==_iff, arith}
use sandook.Types.{CongestionState}
use sandook.Congestion.{Doubles, CongestionControl, limit_step, is_reaction_due}
use sandook.Congestion.Bounds.{Laws, AllInLimits, Le, raise_limit-grows}

due_lem : (last since : ℕ) → is_reaction_due last since ≡ true → last + 50000 ≤ since
unfolding is_reaction_due
due_lem last since h = ground arith

module _ (d : Doubles) (laws : Laws d) where
  -- For limits in range, an update of a server either leaves the time of its last reaction alone
  -- and does not lower its limit; or the server is in the congested state, the update reacts and
  -- records the time, and at least a congestion window has passed since the last reaction. This
  -- holds as long as the clock does not run back behind the server's latest congestion signal.
  pub limit_step_reaction :
      (c : CongestionControl d) (id now : ℕ) (s : CongestionState)
      → AllInLimits d c
      → c.congested_at id ≤ now
      → let c' = limit_step d c id now s in
        ((c'.congestion_responded_at id ≡ c.congestion_responded_at id)
          × Le d (c.cc_rate_limits id) (c'.cc_rate_limits id))
        ⊎ ((s ≡ CongestionState.congested)
            × (c'.congestion_responded_at id ≡ now)
            × (c.congestion_responded_at id + 50000 ≤ now))
  unfolding limit_step
  limit_step_reaction c id now CongestionState.uncongested h t =
      rw ((==_iff id id).1 refl) (inl (refl, raise_limit-grows d laws _ (h id)))
  limit_step_reaction c id now CongestionState.congested_unstable h t =
      rw ((==_iff id id).1 refl) (inl (refl, raise_limit-grows d laws _ (h id)))
  limit_step_reaction c id now CongestionState.congested h t =
      elim (Bool-cases (d.eq (c.cc_rate_limits id) d.best_congested_rate_limit)) [
        | inl e ↦ rw e (inl (refl, laws.le_refl _))
        | inr e ↦
            elim (Bool-cases (is_reaction_due (c.congestion_responded_at id) (c.congested_at id))) [
              | inl r ↦
                  rw (e, r, (==_iff id id).1 refl) (inr (refl, refl, omega (arith, due_lem _ _ r)))
              | inr r ↦ rw (e, r) (inl (refl, laws.le_refl _))
            ]
      ]
  limit_step_reaction c id now CongestionState.invalid h t = inl (refl, laws.le_refl _)
  limit_step_reaction c id now CongestionState.congested_stable h t = inl (refl, laws.le_refl _)
