-- ===== src/Monitor/Tests.antt =====
-- A monitor whose ratios are whole hundredths.
use sandook.Base.{ℕ, ◌≡◌, ◌⊎◌, refl, true, List, [], ◌∷◌}
use sandook.Types.{ServerMode, CongestionState, OpType}
use sandook.Monitor.{
  Percentile, is_mode_switch_grace_period, signal_ratio_of, update_congestion_state,
}
use sandook.Monitor.States.{
  Moves, Signals, Fits, Event, starts, completes, assigns, rounds, run, run-Fits,
  update_congestion_state-Moves,
}
use sandook.Monitor.Samples.{hundredths, monitor_in}

abbrev model : ℕ → OpType → ServerMode → ℕ → ℕ
model load op mode ratio = 100

update_congestion_state-Moves_example :
    let m = monitor_in CongestionState.congested in
    let m' = update_congestion_state hundredths model m 500000 in
    let ratio = signal_ratio_of hundredths model m in
    (Signals hundredths m ratio × (m'.congestion_state ≡ CongestionState.congested))
    ⊎ ((¬ Signals hundredths m ratio)
        × Moves hundredths ratio m.state_transition_ratio CongestionState.congested
            m'.congestion_state m'.state_transition_ratio)
update_congestion_state-Moves_example =
    update_congestion_state-Moves hundredths model (monitor_in CongestionState.congested) 500000
      refl (unfold is_mode_switch_grace_period in refl)

abbrev slow_digest : List ℕ → Percentile → ℕ
slow_digest xs q = 3000

abbrev history : List (Event hundredths model slow_digest)
history =
    starts 0
    ∷ completes 0 90 60 true
    ∷ rounds 500000
    ∷ assigns 600000 ServerMode.write 1 2
    ∷ rounds 700000
    ∷ []

run-Fits_example :
    let m = run hundredths model slow_digest (monitor_in CongestionState.uncongested) history in
    Fits hundredths m.congestion_state m.state_transition_ratio
run-Fits_example =
    run-Fits hundredths model slow_digest (monitor_in CongestionState.uncongested) history refl
