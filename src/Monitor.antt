-- ===== src/Monitor.antt =====
-- disk_server/disk_monitor.h: what a disk server counts, the latencies that it observes, and the
-- congestion state that it reports. Doubles, the t-digest and the disk model are parameters; the members
-- that only the log reads are left out. A thread's core is an argument of its calls.
pub mod States
pub mod Writes
pub mod Samples
mod Tests
use sandook.Base.{
  ℕ, zero, suc, ◌+◌, ◌-◌, ◌%◌, ◌^◌, ◌≡◌, Bool, true, false, not, ◌||◌, if◌then◌else◌, ltb, leb,
  ◌==◌, min, max, List, [], ◌∷◌,
}
use sandook.Types.{
  ServerMode, CongestionState, OpType, put, u64_mod, k_disk_server_mode_switch_grace_period_us,
}
use sandook.Counter.{ThreadSafeCounter, inc_local, dec_local, get_sum, get_sum_and_reset}

abbrev pub k_max_buffer_entries : ℕ
k_max_buffer_entries = 2 ^ 22

abbrev pub k_congestion_latency_threshold_us : ℕ
k_congestion_latency_threshold_us = 2500

pub data Percentile : Type 0 where
  p50 p90 p99 : Percentile

-- The doubles of this file, with the three constants that are not whole numbers.
pub record Ratios : Type 1 where
  pub Num : Type 0
  pub lt : Num → Num → Bool
  pub div : Num → Num → Num
  pub from_u64 : ℕ → Num
  pub congestion_signal_ratio_threshold : Num
  pub congested_unstable_factor : Num
  pub congested_stable_factor : Num

-- The latencies of one kind of request since the last flush, as a ring that stops when it is full.
pub record Buffer : Type 0 where
  pub idx : ℕ
  pub active : ℕ → ℕ
  pub inactive : ℕ → ℕ

-- What a flush computes from a buffer.
pub record Latencies : Type 0 where
  pub median : ℕ
  pub p90 : ℕ
  pub p99 : ℕ
  pub signal : ℕ

pub record Counters : Type 0 where
  pub pure_reads : ThreadSafeCounter
  pub tot_pure_reads : ThreadSafeCounter
  pub impure_reads : ThreadSafeCounter
  pub tot_impure_reads : ThreadSafeCounter
  pub mixed_reads : ThreadSafeCounter
  pub pure_writes : ThreadSafeCounter
  pub impure_writes : ThreadSafeCounter
  pub mixed_writes : ThreadSafeCounter
  pub total_failed_reads : ThreadSafeCounter
  pub total_failed_writes : ThreadSafeCounter
  pub inflight_reads : ThreadSafeCounter
  pub inflight_writes : ThreadSafeCounter
  pub completed_reads : ThreadSafeCounter
  pub completed_writes : ThreadSafeCounter
  pub rejected_reads : ThreadSafeCounter
  pub rejected_writes : ThreadSafeCounter
  pub failed_reads : ThreadSafeCounter
  pub failed_writes : ThreadSafeCounter
  pub disk_reads : ThreadSafeCounter
  pub disk_writes : ThreadSafeCounter

-- `buf_active_[buf_idx_++] = duration`, unless the buffer is full.
pub record_latency : Buffer → ℕ → Buffer
record_latency b duration_us =
    let next : Buffer = record b { idx = (b.idx + 1) % u64_mod } in
    if leb k_max_buffer_entries b.idx
    then next
    else record next { active = put b.active b.idx duration_us }

-- The first entries of a vector, from `i` on, with `k` left.
pub entries : (ℕ → ℕ) → ℕ → ℕ → List ℕ
entries buf i zero = []
entries buf i (suc k) = buf i ∷ entries buf (i + 1) k

-- `FlushReads` and `FlushWrites`: the two vectors are swapped, and the digest is that of the recorded
-- entries.
pub flush_buffer : (List ℕ → Percentile → ℕ) → Buffer → Latencies × Buffer
flush_buffer quantile b =
    let td = entries b.active 0 (min b.idx k_max_buffer_entries) in
    (
      record {
        median = quantile td Percentile.p50;
        p90 = quantile td Percentile.p90;
        p99 = quantile td Percentile.p99;
        signal = quantile td Percentile.p99;
      },
      record { idx = 0; active = b.inactive; inactive = b.active },
    )

-- `mode_ != ServerMode::kRead || in_grace_period`.
allows_writes : ServerMode → Bool → Bool
allows_writes ServerMode.read in_grace_period = in_grace_period
allows_writes _ in_grace_period = true

module _ (r : Ratios) where
  open r use {
    Num, lt, div, from_u64, congestion_signal_ratio_threshold, congested_unstable_factor,
    congested_stable_factor,
  }

  pub record DiskMonitor : Type 0 where
    pub is_rejections_enabled : Bool
    pub r_buf : Buffer
    pub w_buf : Buffer
    pub counters : Counters
    pub mode : ServerMode
    pub mode_switch_time_us : ℕ
    pub read_weight : Num
    pub write_weight : Num
    pub total_load_ops : ℕ
    pub write_ratio : Num
    pub congestion_state : CongestionState
    pub read_latencies : Latencies
    pub write_latencies : Latencies
    pub signal_ratio : Num
    pub state_transition_ratio : Num

  -- The counters of a read that has ended.
  pub count_read : Counters → ServerMode → ℕ → Bool → Counters
  count_read c mode cpu false = record c {
    total_failed_reads = inc_local c.total_failed_reads cpu 1;
    failed_reads = inc_local c.failed_reads cpu 1;
  }
  count_read c ServerMode.read cpu true = record c {
    completed_reads = inc_local c.completed_reads cpu 1;
    pure_reads = inc_local c.pure_reads cpu 1;
  }
  count_read c ServerMode.write cpu true = record c {
    completed_reads = inc_local c.completed_reads cpu 1;
    impure_reads = inc_local c.impure_reads cpu 1;
  }
  count_read c ServerMode.mix cpu true = record c {
    completed_reads = inc_local c.completed_reads cpu 1;
    mixed_reads = inc_local c.mixed_reads cpu 1;
  }

  pub read_started : DiskMonitor → ℕ → DiskMonitor
  read_started m cpu = record m {
    counters = record m.counters { inflight_reads = inc_local m.counters.inflight_reads cpu 1 };
  }

  pub read_completed : DiskMonitor → ℕ → ℕ → ℕ → Bool → DiskMonitor
  unfolding record_latency
  read_completed m cpu now start_time success =
      let c : Counters = record m.counters {
        inflight_reads = dec_local m.counters.inflight_reads cpu 1;
        disk_reads = inc_local m.counters.disk_reads cpu 1;
      } in
      record m {
        counters = count_read c m.mode cpu success;
        r_buf = record_latency m.r_buf ((now + u64_mod - start_time) % u64_mod);
      }

  -- The counters of a write that has ended.
  pub count_write : Counters → ServerMode → ℕ → Bool → Counters
  count_write c mode cpu false = record c {
    total_failed_writes = inc_local c.total_failed_writes cpu 1;
    failed_writes = inc_local c.failed_writes cpu 1;
  }
  count_write c ServerMode.write cpu true = record c {
    completed_writes = inc_local c.completed_writes cpu 1;
    pure_writes = inc_local c.pure_writes cpu 1;
  }
  count_write c ServerMode.read cpu true = record c {
    completed_writes = inc_local c.completed_writes cpu 1;
    impure_writes = inc_local c.impure_writes cpu 1;
  }
  count_write c ServerMode.mix cpu true = record c {
    completed_writes = inc_local c.completed_writes cpu 1;
    mixed_writes = inc_local c.mixed_writes cpu 1;
  }

  pub write_started : DiskMonitor → ℕ → DiskMonitor
  write_started m cpu = record m {
    counters = record m.counters { inflight_writes = inc_local m.counters.inflight_writes cpu 1 };
  }

  pub write_completed : DiskMonitor → ℕ → ℕ → ℕ → Bool → DiskMonitor
  unfolding record_latency
  write_completed m cpu now start_time success =
      let c : Counters = record m.counters {
        inflight_writes = dec_local m.counters.inflight_writes cpu 1;
        disk_writes = inc_local m.counters.disk_writes cpu 1;
      } in
      record m {
        counters = count_write c m.mode cpu success;
        w_buf = record_latency m.w_buf ((now + u64_mod - start_time) % u64_mod);
      }

  unfoldable pub set_mode_and_weights : DiskMonitor → ℕ → ServerMode → Num → Num → DiskMonitor
  set_mode_and_weights m now mode read_weight write_weight = record m {
    mode = mode;
    mode_switch_time_us = if same_mode mode m.mode then m.mode_switch_time_us else now;
    read_weight = read_weight;
    write_weight = write_weight;
  }
    where
      same_mode : ServerMode → ServerMode → Bool
      same_mode ServerMode.mix ServerMode.mix = true
      same_mode ServerMode.read ServerMode.read = true
      same_mode ServerMode.write ServerMode.write = true
      same_mode _ _ = false

  pub is_mode_switch_grace_period : DiskMonitor → ℕ → Bool
  is_mode_switch_grace_period m now =
      leb ((now + u64_mod - m.mode_switch_time_us) % u64_mod)
        k_disk_server_mode_switch_grace_period_us

  pub is_congested : DiskMonitor → Bool
  is_congested m = elim m.congestion_state [ CongestionState.congested ↦ true | _ ↦ false ]

  pub is_allowing_writes : DiskMonitor → ℕ → Bool
  is_allowing_writes m now = allows_writes m.mode (is_mode_switch_grace_period m now)

  pub flush : (List ℕ → Percentile → ℕ) → DiskMonitor → DiskMonitor
  flush quantile m =
      let (reads, r_buf) = flush_buffer quantile m.r_buf in
      let (writes, w_buf) = flush_buffer quantile m.w_buf in
      record m { read_latencies = reads; r_buf = r_buf; write_latencies = writes; w_buf = w_buf }

  -- The larger of the two ratios of an observed latency and the expected one; `get_latency` is
  -- `DiskModel::GetLatency` of the server's model.
  pub signal_ratio_of : (ℕ → OpType → ServerMode → Num → ℕ) → DiskMonitor → Num
  signal_ratio_of get_latency m =
      let exp_read = max (get_latency m.total_load_ops OpType.read m.mode m.write_ratio) 1 in
      let exp_write = max (get_latency m.total_load_ops OpType.write m.mode m.write_ratio) 1 in
      let obs_read : ℕ = elim m.mode [
        | ServerMode.read ↦ m.read_latencies.p99
        | _ ↦ m.read_latencies.p90
      ] in
      let obs_write : ℕ = elim m.mode [
        | ServerMode.write ↦ m.write_latencies.p99
        | _ ↦ m.write_latencies.p90
      ] in
      let read_ratio = div (from_u64 obs_read) (from_u64 exp_read) in
      let write_ratio = div (from_u64 obs_write) (from_u64 exp_write) in
      if lt read_ratio write_ratio then write_ratio else read_ratio

  -- `is_congested_abs || is_congested_ratio`.
  pub is_signalling : DiskMonitor → Bool
  is_signalling m =
      ltb k_congestion_latency_threshold_us m.read_latencies.signal
      || ltb k_congestion_latency_threshold_us m.write_latencies.signal
      || lt congestion_signal_ratio_threshold m.signal_ratio

  -- The transitions of a server that is not congested now.
  pub relax : DiskMonitor → CongestionState → DiskMonitor
  relax m CongestionState.congested = record m {
    congestion_state = CongestionState.congested_unstable;
    state_transition_ratio = congested_unstable_factor;
  }
  relax m CongestionState.congested_unstable =
      if lt m.state_transition_ratio m.signal_ratio
      then record m {
        congestion_state = CongestionState.congested_stable;
        state_transition_ratio = congested_stable_factor;
      }
      else m
  relax m CongestionState.congested_stable =
      if lt m.signal_ratio m.state_transition_ratio
      then record m { congestion_state = CongestionState.uncongested }
      else m
  relax m _ = m

  pub update_congestion_state : (ℕ → OpType → ServerMode → Num → ℕ) → DiskMonitor → ℕ → DiskMonitor
  unfolding is_mode_switch_grace_period
  update_congestion_state get_latency m now =
      let m' : DiskMonitor = record m { signal_ratio = signal_ratio_of get_latency m } in
      if not m.is_rejections_enabled
      then m
      else if is_mode_switch_grace_period m now
      then record m { congestion_state = CongestionState.uncongested }
      else if is_signalling m'
      then record m' { congestion_state = CongestionState.congested }
      else relax m' m'.congestion_state

  -- A round of `Flusher`.
  pub flusher_round :
      (List ℕ → Percentile → ℕ)
      → (ℕ → OpType → ServerMode → Num → ℕ)
      → DiskMonitor
      → ℕ
      → DiskMonitor
  flusher_round quantile get_latency m now =
      update_congestion_state get_latency (flush quantile m) now
