-- ===== src/Congestion/Tests.antt =====
-- Rate limits that are whole numbers of thousandths.
use sandook.Base.{ℕ, ◌≡◌, ◌≤◌, ◌+◌, ◌/◌, ◌⊎◌, refl, List, [], ◌∷◌, ltb, ◌==◌, arith}
use sandook.Status.{ok}
use sandook.Types.{CongestionState}
use sandook.Selection.{contains, insert}
use sandook.Congestion.{Doubles, CongestionControl, init, limit_step}
use sandook.Congestion.Bounds.{Le, Laws, AllInLimits}
use sandook.Congestion.History.{Event, adds, signals, reports, rounds, run, run-AllInLimits}
use sandook.Congestion.Reaction.{limit_step_reaction}

abbrev thousandths : Doubles
thousandths = record {
  Num = ℕ;
  lt = ltb;
  eq = λ x y. x == y;
  add = λ x y. x + y;
  mul = λ x y. x / 2;
  best_congested_rate_limit = 1;
  best_uncongested_rate_limit = 1000;
  multiplicative_decrease_delta = 500;
  additive_increase_delta = 10;
  invalid_server_weight = 0;
}

thousandths-Laws : Laws thousandths
thousandths-Laws = record {
  le_refl = λ x. ground arith;
  lt_asymm = λ x y h. ground arith;
  le_trans = λ x y z h k. ground arith;
  limits_ordered = refl;
  increase_grows = λ x. ground arith;
  decrease_shrinks = λ x h. ground arith;
}

abbrev history : List Event
history =
    adds 3
    ∷ signals CongestionState.uncongested 3 60000 60001
    ∷ rounds (λ _. 110000)
    ∷ reports 3 CongestionState.congested_unstable
    ∷ rounds (λ _. 160000)
    ∷ []

run-AllInLimits_example :
    (c : CongestionControl thousandths) × (run thousandths (init thousandths) history ≡ ok c)
    × AllInLimits thousandths c
run-AllInLimits_example =
    run-AllInLimits thousandths thousandths-Laws history
      (omega arith, ((omega arith, unfold contains insert in refl), (tt, (omega arith, (tt, tt)))))

-- Server 3 was congested at 60000.
abbrev congested_3 : CongestionControl thousandths
congested_3 = record {
  servers = 3 ∷ [];
  states = λ _. CongestionState.congested;
  congested_at = λ _. 60000;
  congestion_responded_at = λ _. 0;
  cc_rate_limits = λ _. 800;
}

limit_step_reaction_example :
    let c = limit_step thousandths congested_3 3 60001 CongestionState.congested in
    ((c.congestion_responded_at 3 ≡ 0) × Le thousandths 800 (c.cc_rate_limits 3))
    ⊎ ((CongestionState.congested ≡ CongestionState.congested)
        × (c.congestion_responded_at 3 ≡ 60001)
        × (0 + 50000 ≤ 60001))
limit_step_reaction_example =
    limit_step_reaction thousandths thousandths-Laws congested_3 3 60001 CongestionState.congested
      (λ id. record { above = refl; below = refl }) (omega arith)
