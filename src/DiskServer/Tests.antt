-- ===== src/DiskServer/Tests.antt =====
-- A server in read mode.
use sandook.Base.{ℕ, ◌*◌, ◌/◌, true, ltb}
use sandook.Status.{Status, ok}
use sandook.Types.{ServerMode, CongestionState}
use sandook.Counter
use sandook.Counter.{ThreadSafeCounter}
use sandook.Monitor.{Ratios, Buffer, Latencies, DiskMonitor}
use sandook.DiskServer.{StorageOpMsg, handle_storage_op}
use sandook.DiskServer.Answers.{Answers, handle_storage_op-Answers}

abbrev hundredths : Ratios
hundredths = record {
  Num = ℕ;
  lt = ltb;
  div = λ x y. x * 100 / y;
  from_u64 = λ x. x;
  congestion_signal_ratio_threshold = 250;
  congested_unstable_factor = 70;
  congested_stable_factor = 90;
}

abbrev none_counted : ThreadSafeCounter
none_counted = Counter.init 4

abbrev reader : DiskMonitor hundredths
reader = record {
  is_rejections_enabled = true;
  r_buf = no_entries;
  w_buf = no_entries;
  counters = record {
    pure_reads = none_counted;
    tot_pure_reads = none_counted;
    impure_reads = none_counted;
    tot_impure_reads = none_counted;
    mixed_reads = none_counted;
    pure_writes = none_counted;
    impure_writes = none_counted;
    mixed_writes = none_counted;
    total_failed_reads = none_counted;
    total_failed_writes = none_counted;
    inflight_reads = none_counted;
    inflight_writes = none_counted;
    completed_reads = none_counted;
    completed_writes = none_counted;
    rejected_reads = none_counted;
    rejected_writes = none_counted;
    failed_reads = none_counted;
    failed_writes = none_counted;
    disk_reads = none_counted;
    disk_writes = none_counted;
  };
  mode = ServerMode.read;
  mode_switch_time_us = 0;
  read_weight = 1;
  write_weight = 1;
  total_load_ops = 0;
  write_ratio = 0;
  congestion_state = CongestionState.uncongested;
  read_latencies = no_latencies;
  write_latencies = no_latencies;
  signal_ratio = 0;
  state_transition_ratio = 0;
}
  where
    no_entries : Buffer
    no_entries = record { idx = 0; active = λ _. 0; inactive = λ _. 0 }

    no_latencies : Latencies
    no_latencies = record { median = 0; p90 = 0; p99 = 0; signal = 0 }

abbrev write_of : ℕ → StorageOpMsg
write_of affinity = record {
  iod = record {
    op_flags = 1;
    num_sectors = 1;
    start_sector = 8;
    addr = 0;
    callback_args = 0;
    callback = 0;
  };
  req_id = 7;
  affinity = affinity;
}

abbrev device : DiskMonitor hundredths → StorageOpMsg → Status ℕ × DiskMonitor hundredths
device m msg = (ok 4096, m)

handle_storage_op-Answers_example :
    Answers hundredths device reader 2 500000
      (write_of 0)
      (handle_storage_op hundredths device reader 2 500000 (write_of 0))
handle_storage_op-Answers_example =
    handle_storage_op-Answers hundredths device reader 2 500000 (write_of 0)
