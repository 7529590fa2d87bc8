-- ===== src/Monitor/Samples.antt =====
-- Sample values of a disk monitor.
use sandook.Base.{ℕ, ◌*◌, ◌/◌, true, ltb}
use sandook.Types.{ServerMode, CongestionState}
use sandook.Counter
use sandook.Counter.{ThreadSafeCounter}
use sandook.Monitor.{Ratios, Buffer, Latencies, Counters, DiskMonitor}

abbrev pub hundredths : Ratios
hundredths = record {
  Num = ℕ;
  lt = ltb;
  div = λ x y. x * 100 / y;
  from_u64 = λ x. x;
  congestion_signal_ratio_threshold = 250;
  congested_unstable_factor = 70;
  congested_stable_factor = 90;
}

abbrev pub count_of_none : ThreadSafeCounter
count_of_none = Counter.init 4

abbrev pub no_counts : Counters
no_counts = record {
  pure_reads = count_of_none;
  tot_pure_reads = count_of_none;
  impure_reads = count_of_none;
  tot_impure_reads = count_of_none;
  mixed_reads = count_of_none;
  pure_writes = count_of_none;
  impure_writes = count_of_none;
  mixed_writes = count_of_none;
  total_failed_reads = count_of_none;
  total_failed_writes = count_of_none;
  inflight_reads = count_of_none;
  inflight_writes = count_of_none;
  completed_reads = count_of_none;
  completed_writes = count_of_none;
  rejected_reads = count_of_none;
  rejected_writes = count_of_none;
  failed_reads = count_of_none;
  failed_writes = count_of_none;
  disk_reads = count_of_none;
  disk_writes = count_of_none;
}

abbrev pub no_entries : Buffer
no_entries = record { idx = 0; active = λ _. 0; inactive = λ _. 0 }

abbrev pub quick : Latencies
quick = record { median = 50; p90 = 80; p99 = 120; signal = 120 }

abbrev pub monitor_in : CongestionState → DiskMonitor hundredths
monitor_in state = record {
  is_rejections_enabled = true;
  r_buf = no_entries;
  w_buf = no_entries;
  counters = no_counts;
  mode = ServerMode.read;
  mode_switch_time_us = 0;
  read_weight = 1;
  write_weight = 1;
  total_load_ops = 1000;
  write_ratio = 0;
  congestion_state = state;
  read_latencies = quick;
  write_latencies = quick;
  signal_ratio = 0;
  state_transition_ratio = 0;
}
