-- ===== src/ControlPlane/Tests.antt =====
-- A scheduler with one server, whose weights are in thousandths.
use sandook.Base.{
  map, ℕ, ◌+◌, ◌%◌, ◌/◌, ◌^◌, ◌<◌, ◌≤◌, ◌≡◌, ◌≢◌, refl, true, false, if◌then◌else◌, ◌==◌, List, [],
  ◌∷◌, none, some, All, arith,
}
use sandook.Status.{ok}
use sandook.Types.{ServerId, put, ServerMode, ServerStats, CongestionState, u32_mod, u64_mod}
use sandook.Isolation.{RwIsolation, SystemLoad, get_peak_iops, compute_modes}
use sandook.Isolation
use sandook.ControlPlane.Stats.{
  ServerStatsManager, update_server_stats, get_server_stats, get_system_load, entries,
}
use sandook.ControlPlane.Policies.{
  Policy, Ambient, Direction, rw_isolation_strict, strict_weights, count_valid,
}
use sandook.ControlPlane.Reports.{
  Event, reports, commits, calculates, run, reported, IsFor, update_server_stats-Reports,
  run_balance, sum,
}
use sandook.ControlPlane.Rounds.{IsValid, Listed, decided, Same, update-Decides}
use sandook.ControlPlane.Weights.{Takers, Weighs, strict_weights-Weighs}
use sandook.ControlPlane.{Scheduler, Decision, compute, update}

abbrev share : ℕ → ℕ
share n = 1000 / n

abbrev stats_of : ServerId → ServerMode → ServerStats ℕ
stats_of id mode = record {
  server_id = id;
  mode = mode;
  committed_mode = ServerMode.mix;
  read_mops = 0;
  write_mops = 0;
  read_weight = 7;
  write_weight = 7;
  inflight_reads = 1;
  inflight_writes = 2;
  completed_reads = 5;
  pure_reads = 0;
  impure_reads = 0;
  completed_writes = 6;
  rejected_reads = 1;
  rejected_writes = 1;
  median_read_latency = 0;
  median_write_latency = 0;
  signal_read_latency = 0;
  signal_write_latency = 0;
  is_rejecting_requests = false;
  congestion_state = CongestionState.uncongested;
}

abbrev manager : ServerStatsManager ℕ
manager = record {
  servers = 1 ∷ [];
  stats_map = λ id. if id == 1 then some (stats_of 1 ServerMode.read) else none;
  stats_system_reads = 40;
  stats_system_writes = 3;
  read_ops = 100;
  write_ops = 0;
  freeze_load = false;
}

update_server_stats-Reports_example :
    (m' : ServerStatsManager ℕ) × (update_server_stats manager 1
        (stats_of 1 ServerMode.write)
        false
        true
      ≡ ok m')
    × (m'.stats_map 1 ≡ some (stats_of 1 ServerMode.read))
    × ((j : ServerId) → j ≢ 1 → m'.stats_map j ≡ manager.stats_map j)
    × (m'.stats_system_reads ≡ (40 + (5 + 1) % u32_mod) % u64_mod)
    × (m'.stats_system_writes ≡ (3 + (6 + 1) % u32_mod) % u64_mod)
    × (m'.freeze_load ≡ false)
update_server_stats-Reports_example =
    update_server_stats-Reports manager 1 (stats_of 1 ServerMode.read) (stats_of 1 ServerMode.write)
      (omega arith) refl refl

abbrev events : List (Event ℕ)
events =
    reports 1 (stats_of 1 ServerMode.mix)
    ∷ calculates
    ∷ commits 1 ServerMode.write
    ∷ reports 1 (stats_of 1 ServerMode.read)
    ∷ []

events-IsFor : All (IsFor manager) events
events-IsFor = (
  ((omega arith, (stats_of 1 ServerMode.read, refl)), refl),
  (
    tt,
    (
      (omega arith, (stats_of 1 ServerMode.read, refl)),
      (((omega arith, (stats_of 1 ServerMode.read, refl)), refl), tt),
    ),
  ),
)

run_balance_example :
    (ns : List ℕ) × (m' : ServerStatsManager ℕ) × (run (λ n. n) manager events
      ≡ ok (map (λ n. n) ns, m'))
    × (sum ns + m'.stats_system_reads ≡ 40 + reported (λ n. n) events)
unfolding reported
run_balance_example = run_balance (λ n. n) manager events refl events-IsFor fits
  where
    fits : 40 + reported (λ n. n) events < 2 ^ 64
    fits = omega arith

strict_weights-Weighs_example :
    let stats =
      stats_of 1 ServerMode.write ∷ stats_of 2 ServerMode.mix ∷ stats_of 3 ServerMode.read ∷ [] in
    (w : ServerId → ℕ) × (strict_weights share stats Direction.reads (λ id. 0) ≡ ok w)
    × Weighs (Takers Direction.reads stats) (share (count_valid ServerMode.write stats)) (λ id. 0) w
    × ((id : ServerId) → Takers Direction.reads stats id → 1 ≤ count_valid ServerMode.write stats)
strict_weights-Weighs_example =
    strict_weights-Weighs share
      (stats_of 1 ServerMode.write ∷ stats_of 2 ServerMode.mix ∷ stats_of 3 ServerMode.read ∷ [])
      Direction.reads (λ id. 0) (omega arith, (omega arith, (omega arith, tt)))

abbrev strict : Policy RwIsolation ℕ
strict = rw_isolation_strict share get_peak_iops

abbrev one : Scheduler RwIsolation ℕ
one = record {
  num_servers = 1;
  stats_mgr = manager;
  sched = Isolation.add_server (Isolation.init 0 (record { read_ops = 0; write_ops = 0 }));
  freeze_weights = false;
  freeze_modes = false;
}

abbrev around : Ambient ℕ
around = record {
  now = 400000;
  later = 400001;
  uninit_modes = λ id. ServerMode.mix;
  uninit_weights = λ id. 0;
}

abbrev decision : Decision ℕ
decision = record {
  modes = some (λ id. ServerMode.mix);
  r_weights = some (put (λ id. 0) 1 1000);
  w_weights = some (put (λ id. 0) 1 1000);
}

abbrev after : RwIsolation
after = record (Isolation.add_server (Isolation.init 0 (record { read_ops = 0; write_ops = 0 }))) {
  prev_system_load = record { read_ops = 100; write_ops = 0 };
}

one-IsValid : IsValid one
one-IsValid = record {
  few = omega arith;
  counted = refl;
  numbered = (omega arith, tt);
  small = (omega arith, omega arith);
  listed = λ id a b. at_one id (omega (arith, a, b));
}
  where
    at_one : (id : ServerId) → id ≡ 1 → Listed manager id
    at_one id e = rw e (stats_of 1 ServerMode.read, refl, refl)

one_decides :
    compute strict one around (stats_of 1 ServerMode.read ∷ []) (get_system_load manager)
    ≡ ok (decision, after)
unfolding compute get_system_load rw_isolation_strict compute_modes strict_weights
    Isolation.add_server Isolation.init
one_decides = refl

update-Decides_example :
    (st' : Scheduler RwIsolation ℕ) × (update strict one around ≡ ok st')
    × (st'.sched ≡ after)
    × (st'.num_servers ≡ 1)
    × ((id : ServerId)
        → 1 ≤ id
        → id ≤ 1
        → st'.stats_mgr.stats_map id ≡ decided decision id (manager.stats_map id))
    × ((id : ServerId) → 1 < id → st'.stats_mgr.stats_map id ≡ manager.stats_map id)
    × Same manager st'.stats_mgr
    × IsValid st'
unfolding get_server_stats entries
update-Decides_example =
    update-Decides strict one around (stats_of 1 ServerMode.read ∷ []) decision after one-IsValid
      refl one_decides
