-- ===== src/ControlPlane/Stats.antt =====
-- scheduler/control_plane/server_stats_manager.h: what the controller knows of the servers. Each call is
-- one step, under the lock that it takes. The threads that log and the telemetry are left out.
use sandook.Base.{
  ℕ, zero, suc, ◌+◌, ◌%◌, Bool, true, false, if◌then◌else◌, ltb, ◌==◌, List, [], ◌∷◌, length,
  Option, none, some,
}
use sandook.Status.{Status, ok, fault, ◌>>=◌, ◌>>◌, check}
use sandook.Types.{
  ServerId, ServerArray, put, ServerMode, CongestionState, ServerStats, k_num_max_servers, u32_mod,
  u64_mod,
}
use sandook.Selection.{ServerSet, contains, insert}
use sandook.Isolation.{SystemLoad}

-- A null pointer in the map is `none`. A weight is of type `W`.
pub record ServerStatsManager (W : Type 0) : Type 0 where
  pub servers : ServerSet
  pub stats_map : ServerArray (Option (ServerStats W))
  pub stats_system_reads : ℕ
  pub stats_system_writes : ℕ
  pub read_ops : ℕ
  pub write_ops : ℕ
  pub freeze_load : Bool

pub record DataPlaneServerStats (W : Type 0) : Type 0 where
  pub mode : ServerMode
  pub congestion_state : CongestionState
  pub read_weight : W
  pub write_weight : W

-- `*p` of a pointer that may be null.
abbrev pub deref {ℓ} : {A : Type ℓ} → Option A → Status A
deref none = fault
deref (some a) = ok a

module _ {W : Type 0} where
  unfoldable pub init : ServerStatsManager W
  init = record {
    servers = [];
    stats_map = λ id. none;
    stats_system_reads = 0;
    stats_system_writes = 0;
    read_ops = 0;
    write_ops = 0;
    freeze_load = false;
  }

  -- `std::make_unique<ServerStats>()` with the fields that AddServer sets. `zero_weight` is 0.0, and
  -- `default_weight` is kDefaultServerWeight.
  unfoldable pub default_stats : W → W → ServerId → ServerStats W
  default_stats zero_weight default_weight id = record {
    server_id = id;
    mode = ServerMode.mix;
    committed_mode = ServerMode.mix;
    read_mops = zero_weight;
    write_mops = zero_weight;
    read_weight = default_weight;
    write_weight = default_weight;
    inflight_reads = 0;
    inflight_writes = 0;
    completed_reads = 0;
    pure_reads = 0;
    impure_reads = 0;
    completed_writes = 0;
    rejected_reads = 0;
    rejected_writes = 0;
    median_read_latency = 0;
    median_write_latency = 0;
    signal_read_latency = 0;
    signal_write_latency = 0;
    is_rejecting_requests = false;
    congestion_state = CongestionState.invalid;
  }

  unfoldable pub add_server :
      W → W → ServerStatsManager W → ServerId → Status (ServerStatsManager W)
  unfolding default_stats
  add_server zero_weight default_weight m id = do
    check (ltb id k_num_max_servers)
    ok (record m {
      stats_map = put m.stats_map id (some (default_stats zero_weight default_weight id));
      servers = if contains m.servers id then m.servers else insert id m.servers;
    })

  unfoldable pub get_system_load : ServerStatsManager W → SystemLoad
  get_system_load m = record { read_ops = m.read_ops; write_ops = m.write_ops }

  -- The entries of the map from `i` on, `k` of them.
  unfoldable pub entries :
      ServerArray (Option (ServerStats W)) → ℕ → ℕ → Status (List (ServerStats W))
  entries stats_map i zero = ok []
  entries stats_map i (suc k) = do
    let rest = entries stats_map (i + 1) k
    s ← deref (stats_map i)
    ss ← rest
    ok (s ∷ ss)

  unfoldable pub get_server_stats : ServerStatsManager W → Status (List (ServerStats W))
  get_server_stats m = entries m.stats_map 1 (length m.servers)

  -- GetServerStats of one server.
  unfoldable pub get_stats_of : ServerStatsManager W → ServerId → Status (ServerStats W)
  get_stats_of m id = check (ltb id k_num_max_servers) >> deref (m.stats_map id)

  unfoldable pub get_data_plane_server_stats :
      ServerStatsManager W → ServerId → Status (DataPlaneServerStats W)
  unfolding get_stats_of
  get_data_plane_server_stats m id = do
    s ← get_stats_of m id
    ok (record {
      mode = s.mode;
      congestion_state = s.congestion_state;
      read_weight = s.read_weight;
      write_weight = s.write_weight;
    })

  -- The parameters that a report does not modify.
  unfoldable pub restore : ServerStats W → ServerStats W → ServerStats W
  restore old new = record new {
    mode = old.mode;
    read_weight = old.read_weight;
    write_weight = old.write_weight;
  }

  unfoldable pub new_stats_of :
      ServerStatsManager W → ServerId → ServerStats W → Bool → Status (ServerStats W)
  unfolding restore
  new_stats_of m id stats true = ok stats
  new_stats_of m id stats false = do old ← deref (m.stats_map id); ok (restore old stats)

  unfoldable pub update_server_stats :
      ServerStatsManager W → ServerId → ServerStats W → Bool → Bool → Status (ServerStatsManager W)
  unfolding new_stats_of
  update_server_stats m id stats is_override is_update_load = do
    check (id == stats.server_id)
    check (ltb id k_num_max_servers)
    new_stats ← new_stats_of m id stats is_override
    let reads = (stats.completed_reads + stats.rejected_reads) % u32_mod
    let writes = (stats.completed_writes + stats.rejected_writes) % u32_mod
    ok (record m {
      stats_system_reads =
          if is_update_load then (m.stats_system_reads + reads) % u64_mod else m.stats_system_reads;
      stats_system_writes =
          if is_update_load
          then (m.stats_system_writes + writes) % u64_mod
          else m.stats_system_writes;
      stats_map = put m.stats_map id (some new_stats);
    })

  unfoldable pub commit_server_mode :
      ServerStatsManager W → ServerId → ServerMode → Status (ServerStatsManager W)
  commit_server_mode m id mode = do
    check (ltb id k_num_max_servers)
    s ← deref (m.stats_map id)
    ok (record m { stats_map = put m.stats_map id (some (record s { committed_mode = mode })) })

  unfoldable pub freeze : ServerStatsManager W → ServerStatsManager W
  freeze m = record m { freeze_load = true }

  -- `scaled n` is the word of the double `n * kLoadScaleFactor`.
  unfoldable pub calculate_load : (ℕ → ℕ) → ServerStatsManager W → ServerStatsManager W
  calculate_load scaled m = record m {
    stats_system_reads = if m.freeze_load then m.stats_system_reads else 0;
    stats_system_writes = if m.freeze_load then m.stats_system_writes else 0;
    read_ops = scaled m.stats_system_reads;
    write_ops = scaled m.stats_system_writes;
  }
