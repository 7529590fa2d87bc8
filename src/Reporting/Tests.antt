-- ===== src/Reporting/Tests.antt =====
-- A server that the control plane made a write server.
use sandook.Base.{ℕ, ◌%◌, ◌≡◌, refl, false, if◌then◌else◌, ◌==◌, [], ◌∷◌, none, some, arith}
use sandook.Status.{ok}
use sandook.Types.{ServerMode, ServerStats, CongestionState, u32_mod}
use sandook.Counter.{get_sum}
use sandook.Monitor.{DiskMonitor}
use sandook.Monitor.Samples.{hundredths, monitor_in}
use sandook.Allocator.{empty_allocator}
use sandook.ControlPlane.Policies.{no_op}
use sandook.Controller.{ControllerAgent, has_key}
use sandook.Reporting.{Background, stats_round}
use sandook.Reporting.Rounds.{Registered, stats_round-Agrees}

abbrev monitor : DiskMonitor hundredths
monitor = monitor_in CongestionState.uncongested

abbrev background : Background hundredths
background = record {
  server_id = 1;
  completed_reads_t = 9;
  pure_reads_t = 9;
  impure_reads_t = 0;
  completed_writes_t = 0;
  inflight_reads_t = 0;
  inflight_writes_t = 0;
  rejected_reads_t = 0;
  rejected_writes_t = 0;
  read_mops = 0;
  write_mops = 0;
  last_stats_us = 1000;
}

abbrev entry : ServerStats ℕ
entry = record {
  server_id = 1;
  mode = ServerMode.write;
  committed_mode = ServerMode.write;
  read_mops = 0;
  write_mops = 0;
  read_weight = 0;
  write_weight = 50;
  inflight_reads = 0;
  inflight_writes = 0;
  completed_reads = 5;
  pure_reads = 0;
  impure_reads = 0;
  completed_writes = 6;
  rejected_reads = 0;
  rejected_writes = 0;
  median_read_latency = 0;
  median_write_latency = 0;
  signal_read_latency = 0;
  signal_write_latency = 0;
  is_rejecting_requests = false;
  congestion_state = CongestionState.congested;
}

abbrev agent : ControllerAgent (Unit {0}) ℕ
agent = record {
  next_server_id = 2;
  servers = (1, record { id = 1; ip = []; port = 80; name = []; nsectors = 4 }) ∷ [];
  vol_id = 1;
  vols = [];
  blk_alloc = empty_allocator;
  sched = record {
    num_servers = 1;
    stats_mgr = record {
      servers = 1 ∷ [];
      stats_map = λ id. if id == 1 then some entry else none;
      stats_system_reads = 0;
      stats_system_writes = 0;
      read_ops = 0;
      write_ops = 0;
      freeze_load = false;
    };
    sched = tt;
    freeze_weights = false;
    freeze_modes = false;
  };
}

agent-Registered : Registered hundredths no_op agent 1 entry
unfolding has_key
agent-Registered = record { in_range = omega arith; listed = refl; entry = refl }

stats_round-Agrees_example :
    (m' : DiskMonitor hundredths) × (b' : Background hundredths) × (a' : ControllerAgent
      (Unit {0})
      ℕ)
    × (new : ServerStats ℕ) × (stats_round hundredths no_op monitor background agent 2 2000 2010
          2500
        ≡ ok (m', b', a'))
    × ((m'.mode ≡ ServerMode.write) × (m'.read_weight ≡ 0) × (m'.write_weight ≡ 50))
    × Registered hundredths no_op a' 1 new
    × ((new.mode ≡ ServerMode.write) × (new.committed_mode ≡ m'.mode))
    × ((new.completed_reads ≡ get_sum monitor.counters.completed_reads % u32_mod)
        × (new.completed_writes ≡ get_sum monitor.counters.completed_writes % u32_mod)
        × (new.rejected_reads ≡ get_sum monitor.counters.rejected_reads % u32_mod)
        × (new.rejected_writes ≡ get_sum monitor.counters.rejected_writes % u32_mod)
        × (new.congestion_state ≡ CongestionState.uncongested))
    × ((get_sum m'.counters.completed_reads ≡ 0)
        × (get_sum m'.counters.completed_writes ≡ 0)
        × (get_sum m'.counters.rejected_reads ≡ 0)
        × (get_sum m'.counters.rejected_writes ≡ 0))
stats_round-Agrees_example =
    stats_round-Agrees hundredths no_op monitor background agent 2 2000 2010 2500 entry
      agent-Registered
