-- ===== src/Monitor/States.antt =====
-- The state machine of a server's congestion.
use sandook.Base.{
  ℕ, ◌≡◌, refl, sym, ap, subst, ◌∙◌, ◌⊎◌, inl, inr, Bool, true, false, not, if◌then◌else◌, List, [],
  ◌∷◌, Bool-cases, ◌<◌, ltb, lt→ltb, ltb→lt,
}
use sandook.Types.{ServerMode, CongestionState, OpType}
use sandook.Monitor.{
  Ratios, DiskMonitor, Percentile, flush, read_started, read_completed, write_started,
  write_completed, set_mode_and_weights, is_mode_switch_grace_period, is_signalling,
  signal_ratio_of, relax, update_congestion_state, flusher_round,
}

module _ (r : Ratios) where
  -- The moves of a server that is not congested now, whose signal ratio is compared with the ratio `next`
  -- of its next transition; the state and that ratio are before and after the move.
  pub data Moves (signal next : r.Num) : CongestionState → CongestionState → r.Num → Type 0 where
    reacts :
        Moves signal next CongestionState.congested CongestionState.congested_unstable
          r.congested_unstable_factor
    ramps_up :
        ¬ (r.lt next signal ≡ true)
        → Moves signal next CongestionState.congested_unstable CongestionState.congested_unstable
            next
    settles :
        r.lt next signal ≡ true
        → Moves signal next CongestionState.congested_unstable CongestionState.congested_stable
            r.congested_stable_factor
    stays :
        ¬ (r.lt signal next ≡ true)
        → Moves signal next CongestionState.congested_stable CongestionState.congested_stable next
    recovers :
        r.lt signal next ≡ true
        → Moves signal next CongestionState.congested_stable CongestionState.uncongested next
    rests : Moves signal next CongestionState.uncongested CongestionState.uncongested next
    idles : Moves signal next CongestionState.invalid CongestionState.invalid next

  -- Latencies of more than 2500 µs, or a ratio above the threshold, for reads or for writes.
  abbrev pub Signals : DiskMonitor r → r.Num → Type 0
  Signals m ratio =
      (2500 < m.read_latencies.signal)
      ⊎ ((2500 < m.write_latencies.signal)
          ⊎ (r.lt r.congestion_signal_ratio_threshold ratio ≡ true))

  -- The ratio that the next transition is compared with, in each state that can occur.
  abbrev pub Fits : CongestionState → r.Num → Type 0
  Fits CongestionState.invalid x = ⊥
  Fits CongestionState.uncongested x = Unit
  Fits CongestionState.congested x = Unit
  Fits CongestionState.congested_unstable x = x ≡ r.congested_unstable_factor
  Fits CongestionState.congested_stable x = x ≡ r.congested_stable_factor

  -- The monitor with the signal ratio of this round.
  abbrev observed : (ℕ → OpType → ServerMode → r.Num → ℕ) → DiskMonitor r → DiskMonitor r
  observed get_latency m = record m { signal_ratio = signal_ratio_of r get_latency m }

  false_not_true : {b : Bool} → b ≡ false → ¬ (b ≡ true)
  false_not_true e p = cc (e, p)

  is_signalling-cases :
      (m : DiskMonitor r)
      → ((is_signalling r m ≡ true) × Signals m m.signal_ratio)
        ⊎ ((is_signalling r m ≡ false) × ¬ Signals m m.signal_ratio)
  unfolding is_signalling
  is_signalling-cases m = elim (Bool-cases (ltb 2500 m.read_latencies.signal)) [
    | inl e ↦ rw e (inl (refl, inl (ltb→lt 2500 m.read_latencies.signal e)))
    | inr e ↦ elim (Bool-cases (ltb 2500 m.write_latencies.signal)) [
      | inl f ↦ rw (e, f) (inl (refl, inr (inl (ltb→lt 2500 m.write_latencies.signal f))))
      | inr f ↦ elim (Bool-cases (r.lt r.congestion_signal_ratio_threshold m.signal_ratio)) [
        | inl g ↦ inl (rw (e, f, g) refl, inr (inr g))
        | inr g ↦ inr (
          rw (e, f, g) refl,
          (λ h. elim h [
            | inl p ↦ cc (lt→ltb 2500 m.read_latencies.signal p, e)
            | inr (inl p) ↦ cc (lt→ltb 2500 m.write_latencies.signal p, f)
            | inr (inr p) ↦ cc (p, g)
          ]),
        )
      ]
    ]
  ]

  -- What `relax` makes of a monitor in state `s`.
  abbrev Relaxes : DiskMonitor r → CongestionState → DiskMonitor r → Type 0
  Relaxes m s m' =
      Moves m.signal_ratio m.state_transition_ratio s m'.congestion_state m'.state_transition_ratio

  stays_in :
      (m : DiskMonitor r) (s : CongestionState)
      → m.congestion_state ≡ s
      → Moves m.signal_ratio m.state_transition_ratio s s m.state_transition_ratio
      → Relaxes m s m
  stays_in m s e h =
      subst (λ t. Moves m.signal_ratio m.state_transition_ratio s t m.state_transition_ratio)
        (sym e) h

  relax-Moves :
      (m : DiskMonitor r) (s : CongestionState) → m.congestion_state ≡ s → Relaxes m s (relax r m s)
  unfolding relax
  relax-Moves m CongestionState.invalid e = stays_in m CongestionState.invalid e idles
  relax-Moves m CongestionState.uncongested e = stays_in m CongestionState.uncongested e rests
  relax-Moves m CongestionState.congested e = reacts
  relax-Moves m CongestionState.congested_unstable e =
      elim (Bool-cases (r.lt m.state_transition_ratio m.signal_ratio)) [
        | inl l ↦ rw l (settles l)
        | inr l ↦
            rw l (stays_in m CongestionState.congested_unstable e (ramps_up (false_not_true l)))
      ]
  relax-Moves m CongestionState.congested_stable e =
      elim (Bool-cases (r.lt m.signal_ratio m.state_transition_ratio)) [
        | inl l ↦ rw l (recovers l)
        | inr l ↦ rw l (stays_in m CongestionState.congested_stable e (stays (false_not_true l)))
      ]

  relax-Fits :
      (m : DiskMonitor r) (s : CongestionState)
      → m.congestion_state ≡ s
      → Fits s m.state_transition_ratio
      → Fits (relax r m s).congestion_state (relax r m s).state_transition_ratio
  unfolding relax
  relax-Fits m CongestionState.invalid e f = absurd f
  relax-Fits m CongestionState.uncongested e f = rw e tt
  relax-Fits m CongestionState.congested e f = refl
  relax-Fits m CongestionState.congested_unstable e f =
      elim (Bool-cases (r.lt m.state_transition_ratio m.signal_ratio)) [
        | inl l ↦ rw l refl
        | inr l ↦ rw (l, e) f
      ]
  relax-Fits m CongestionState.congested_stable e f =
      elim (Bool-cases (r.lt m.signal_ratio m.state_transition_ratio)) [
        | inl l ↦ rw l tt
        | inr l ↦ rw (l, e) f
      ]

  module _ (get_latency : ℕ → OpType → ServerMode → r.Num → ℕ) where
    -- The update of a monitor that is not congested by this round's latencies, or that is.
    judged : DiskMonitor r → DiskMonitor r
    judged m =
        if is_signalling r (observed get_latency m)
        then record (observed get_latency m) { congestion_state = CongestionState.congested }
        else relax r (observed get_latency m) m.congestion_state

    update_off :
        (m : DiskMonitor r) (now : ℕ)
        → m.is_rejections_enabled ≡ false
        → update_congestion_state r get_latency m now ≡ m
    unfolding update_congestion_state judged
    update_off m now e =
        ap
          (λ b.
            if not b
            then m
            else if is_mode_switch_grace_period r m now
            then record m { congestion_state = CongestionState.uncongested }
            else judged m)
          e

    update_grace :
        (m : DiskMonitor r) (now : ℕ)
        → m.is_rejections_enabled ≡ true
        → is_mode_switch_grace_period r m now ≡ true
        → update_congestion_state r get_latency m now
          ≡ record m { congestion_state = CongestionState.uncongested }
    unfolding update_congestion_state judged
    update_grace m now e g =
        ap
          (λ b.
            if not b
            then m
            else if is_mode_switch_grace_period r m now
            then record m { congestion_state = CongestionState.uncongested }
            else judged m)
          e
        ∙ ap
            (λ b.
              if b then record m { congestion_state = CongestionState.uncongested } else judged m)
            g

    update_judged :
        (m : DiskMonitor r) (now : ℕ)
        → m.is_rejections_enabled ≡ true
        → is_mode_switch_grace_period r m now ≡ false
        → update_congestion_state r get_latency m now ≡ judged m
    unfolding update_congestion_state judged
    update_judged m now e g =
        ap
          (λ b.
            if not b
            then m
            else if is_mode_switch_grace_period r m now
            then record m { congestion_state = CongestionState.uncongested }
            else judged m)
          e
        ∙ ap
            (λ b.
              if b then record m { congestion_state = CongestionState.uncongested } else judged m)
            g

    -- With rejections enabled and outside the grace period after a mode switch, an update makes the
    -- server congested if and only if the signal latency of reads or of writes is above 2500 µs or the signal
    -- ratio is above its threshold. Otherwise it makes the move of its state: congested becomes unstable
    -- with the unstable factor as the next ratio, unstable becomes stable with the stable factor exactly
    -- when the signal ratio is above the next ratio, stable becomes uncongested exactly when it is below
    -- it, and any other state stays as it is.
    pub update_congestion_state-Moves :
        (m : DiskMonitor r) (now : ℕ)
        → m.is_rejections_enabled ≡ true
        → is_mode_switch_grace_period r m now ≡ false
        → let m' = update_congestion_state r get_latency m now in
          let ratio = signal_ratio_of r get_latency m in
          (Signals m ratio × (m'.congestion_state ≡ CongestionState.congested))
          ⊎ ((¬ Signals m ratio)
              × Moves ratio m.state_transition_ratio m.congestion_state m'.congestion_state
                  m'.state_transition_ratio)
    unfolding judged
    update_congestion_state-Moves m now e g =
        rw (update_judged m now e g) (elim (is_signalling-cases (observed get_latency m)) [
          | inl (s, p) ↦ rw s (inl (p, refl))
          | inr (s, p) ↦
              rw s (inr (p, relax-Moves (observed get_latency m) m.congestion_state refl))
        ])

    update-Fits :
        (m : DiskMonitor r) (now : ℕ)
        → Fits m.congestion_state m.state_transition_ratio
        → let m' = update_congestion_state r get_latency m now in
          Fits m'.congestion_state m'.state_transition_ratio
    unfolding judged
    update-Fits m now f = elim (Bool-cases m.is_rejections_enabled) [
      | inr e ↦ rw (update_off m now e) f
      | inl e ↦ elim (Bool-cases (is_mode_switch_grace_period r m now)) [
        | inl g ↦ rw (update_grace m now e g) tt
        | inr g ↦
            rw (update_judged m now e g)
              (elim (Bool-cases (is_signalling r (observed get_latency m))) [
                | inl s ↦ rw s tt
                | inr s ↦ rw s (relax-Fits (observed get_latency m) m.congestion_state refl f)
              ])
      ]
    ]

    module _ (quantile : List ℕ → Percentile → ℕ) where
      -- What happens to a monitor.
      pub data Event : Type 0 where
        starts : ℕ → Event
        completes : ℕ → ℕ → ℕ → Bool → Event
        write_starts : ℕ → Event
        write_completes : ℕ → ℕ → ℕ → Bool → Event
        assigns : ℕ → ServerMode → r.Num → r.Num → Event
        rounds : ℕ → Event

      pub step : DiskMonitor r → Event → DiskMonitor r
      step m (starts cpu) = read_started r m cpu
      step m (completes cpu now start_time success) = read_completed r m cpu now start_time success
      step m (write_starts cpu) = write_started r m cpu
      step m (write_completes cpu now start_time success) =
          write_completed r m cpu now start_time success
      step m (assigns now mode read_weight write_weight) =
          set_mode_and_weights r m now mode read_weight write_weight
      step m (rounds now) = flusher_round r quantile get_latency m now

      pub run : DiskMonitor r → List Event → DiskMonitor r
      run m [] = m
      run m (e ∷ es) = run (step m e) es

      step-Fits :
          (m : DiskMonitor r) (e : Event)
          → Fits m.congestion_state m.state_transition_ratio
          → Fits (step m e).congestion_state (step m e).state_transition_ratio
      unfolding step read_started read_completed write_started write_completed set_mode_and_weights
          flusher_round flush
      step-Fits m (starts cpu) f = f
      step-Fits m (completes cpu now start_time success) f = f
      step-Fits m (write_starts cpu) f = f
      step-Fits m (write_completes cpu now start_time success) f = f
      step-Fits m (assigns now mode read_weight write_weight) f = f
      step-Fits m (rounds now) f = update-Fits (flush r quantile m) now f

      -- Over any history of reads, writes, mode assignments and flusher rounds that starts in the uncongested
      -- state, the state is never invalid, and the ratio that the next transition is compared with is
      -- that of the state: the unstable factor while unstable, and the stable factor while stable.
      pub run-Fits :
          (m : DiskMonitor r) (es : List Event)
          → m.congestion_state ≡ CongestionState.uncongested
          → Fits (run m es).congestion_state (run m es).state_transition_ratio
      unfolding run
      run-Fits m es e = go m es (rw e tt)
        where
          go :
              (m : DiskMonitor r) (es : List Event)
              → Fits m.congestion_state m.state_transition_ratio
              → Fits (run m es).congestion_state (run m es).state_transition_ratio
          go m [] f = f
          go m (e ∷ es) f = go (step m e) es (step-Fits m e f)
