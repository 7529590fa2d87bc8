-- ===== src/Pulling/Tests.antt =====
-- A client that pulls while the controller has one server, in write mode.
use sandook.Base.{
  ℕ, ◌+◌, ◌*◌, ◌≤◌, ◌≡◌, refl, true, false, if◌then◌else◌, ltb, ◌==◌, [], ◌∷◌, none, some, arith,
  sym,
}
use sandook.Status.{ok}
use sandook.Types.{ServerId, ServerMode, ServerStats, CongestionState}
use sandook.Selection.{contains}
use sandook.Congestion.{Doubles}
use sandook.Allocator.{empty_allocator}
use sandook.ControlPlane.Policies.{no_op}
use sandook.ControlPlane.Rounds.{IsValid}
use sandook.Controller.{ControllerAgent}
use sandook.Routing.{ServerStatsManager}
use sandook.Pulling.{pull}
use sandook.Pulling.Views.{Sees, pull-Sees}

abbrev whole : Doubles
whole = record {
  Num = ℕ;
  lt = ltb;
  eq = λ x y. x == y;
  add = λ x y. x + y;
  mul = λ x y. x * y;
  best_congested_rate_limit = 1;
  best_uncongested_rate_limit = 1000;
  multiplicative_decrease_delta = 0;
  additive_increase_delta = 10;
  invalid_server_weight = 0;
}

abbrev entry : ServerStats ℕ
entry = record {
  server_id = 1;
  mode = ServerMode.write;
  committed_mode = ServerMode.write;
  read_mops = 0;
  write_mops = 0;
  read_weight = 0;
  write_weight = 50;
  inflight_reads = 0;
  inflight_writes = 0;
  completed_reads = 5;
  pure_reads = 0;
  impure_reads = 0;
  completed_writes = 6;
  rejected_reads = 0;
  rejected_writes = 0;
  median_read_latency = 0;
  median_write_latency = 0;
  signal_read_latency = 0;
  signal_write_latency = 0;
  is_rejecting_requests = false;
  congestion_state = CongestionState.congested;
}

abbrev agent : ControllerAgent (Unit {0}) ℕ
agent = record {
  next_server_id = 2;
  servers = (1, record { id = 1; ip = []; port = 80; name = []; nsectors = 4 }) ∷ [];
  vol_id = 1;
  vols = [];
  blk_alloc = empty_allocator;
  sched = record {
    num_servers = 1;
    stats_mgr = record {
      servers = 1 ∷ [];
      stats_map = λ id. if id == 1 then some entry else none;
      stats_system_reads = 0;
      stats_system_writes = 0;
      read_ops = 0;
      write_ops = 0;
      freeze_load = false;
    };
    sched = tt;
    freeze_weights = false;
    freeze_modes = false;
  };
}

abbrev view : ServerStatsManager whole
view = record {
  servers = 1 ∷ [];
  modes = λ id. ServerMode.mix;
  read_weights = λ id. 1;
  write_weights = λ id. 1;
  cc = record {
    servers = 1 ∷ [];
    states = λ id. CongestionState.uncongested;
    congested_at = λ id. 0;
    congestion_responded_at = λ id. 0;
    cc_rate_limits = λ id. 1000;
  };
}

valid : IsValid agent.sched
valid = record {
  few = omega arith;
  counted = refl;
  numbered = (omega arith, tt);
  small = (omega arith, omega arith);
  listed = λ id p q. (let e : id ≡ 1 = omega (arith, p, q) in (entry, rw e refl, sym e));
}

known : (id : ServerId) → 1 ≤ id → id ≤ 1 → contains view.servers id ≡ true
unfolding contains
known id p q = let e : id ≡ 1 = omega (arith, p, q) in rw e refl

pull-Sees_example :
    (m' : ServerStatsManager whole) × (pull whole no_op agent 3 view ≡ ok m')
    × (m'.servers ≡ 1 ∷ [])
    × ((id : ServerId) → 1 ≤ id → id ≤ 1 → Sees whole agent.sched.stats_mgr m' id)
pull-Sees_example = pull-Sees whole no_op agent 3 view valid known
