-- ===== src/Routing.antt =====
-- scheduler/data_plane/server_stats_manager.h and scheduler.h: what a client knows of the servers, and
-- how it turns that into the weights among which a read or a write is sent.
pub mod Filter
pub mod Modes
mod Tests
use sandook.Base.{
  ℕ, zero, suc, ◌+◌, ◌≡◌, Bool, true, false, not, if◌then◌else◌, ltb, leb, ◌==◌, List, [], ◌∷◌,
}
use sandook.Status.{Status, ok, err, fault, Error, ◌>>=◌, ◌>>◌, check}
use sandook.Types.{
  ServerId, ServerArray, put, ServerMode, ServerStats, CongestionState, k_num_max_servers,
  k_num_replicas,
}
use sandook.Selection.{ServerSet, ServerReplicaList, contains, insert}
use sandook.Congestion.{Doubles, CongestionControl, set_congestion_state}
use sandook.Congestion

is_read : ServerMode → Bool
is_read ServerMode.read = true
is_read _ = false

-- The first result if it is a success, and the second one otherwise.
pub or_else {ℓ} : {A : Type ℓ} → Status A → Status A → Status A
or_else (ok a) r = ok a
or_else (err e) r = r
or_else fault r = fault

module _ (d : Doubles) where
  open d use {Num, eq, mul, invalid_server_weight}

  pub record ServerStatsManager : Type 0 where
    pub servers : ServerSet
    pub modes : ServerArray ServerMode
    pub read_weights : ServerArray Num
    pub write_weights : ServerArray Num
    pub cc : CongestionControl d

  -- `weight == kInvalidServerWeight`.
  pub is_invalid_weight : Num → Bool
  is_invalid_weight w = eq w invalid_server_weight

  -- `InitServerWeights`.
  pub init_server_weights : ServerArray Num
  init_server_weights _ = invalid_server_weight

  -- The array `modes_` has no initial value.
  pub init : ServerArray ServerMode → ServerStatsManager
  init uninit = record {
    servers = [];
    modes = uninit;
    read_weights = init_server_weights;
    write_weights = init_server_weights;
    cc = Congestion.init d;
  }

  pub add_server : ServerStatsManager → ServerId → ServerStatsManager × Status (Unit {0})
  add_server m id =
      if contains m.servers id
      then (m, err Error.ealready)
      else (let (cc', s) = Congestion.add_server d m.cc id in
          (record m { servers = insert id m.servers; cc = cc' }, s))

  -- The loop of `SetServerStats`.
  unfoldable pub set_server_stats :
      ServerStatsManager → List (ServerStats Num) → Status ServerStatsManager
  set_server_stats m [] = ok m
  set_server_stats m (srv ∷ srvs) = do
    check (contains m.servers srv.server_id)
    check (ltb srv.server_id k_num_max_servers)
    cc' ← set_congestion_state d m.cc srv.server_id srv.congestion_state
    set_server_stats
        (record m {
          modes = put m.modes srv.server_id srv.committed_mode;
          read_weights = put m.read_weights srv.server_id srv.read_weight;
          write_weights = put m.write_weights srv.server_id srv.write_weight;
          cc = cc';
        })
        srvs

  -- The loop that multiplies each server's weight by its rate limit.
  pub rate_limited : CongestionControl d → List ServerId → ServerArray Num → ServerArray Num
  rate_limited cc [] weights = weights
  rate_limited cc (id ∷ ids) weights =
      rate_limited cc ids (put weights id (mul (weights id) (cc.cc_rate_limits id)))

  pub get_rate_limited_read_weights : ServerStatsManager → ServerArray Num
  get_rate_limited_read_weights m = rate_limited m.cc m.servers m.read_weights

  pub get_rate_limited_write_weights : ServerStatsManager → ServerArray Num
  get_rate_limited_write_weights m = rate_limited m.cc m.servers m.write_weights

  -- The loop that keeps the weights of the servers whose mode passes a test, and counts them.
  pub keep_weights :
      (ServerMode → Bool)
      → ServerArray ServerMode
      → ServerArray Num
      → List ServerId
      → ServerArray Num × ℕ
      → ServerArray Num × ℕ
  keep_weights keeps modes all [] acc = acc
  keep_weights keeps modes all (id ∷ ids) (filtered, n_found) =
      keep_weights keeps modes all ids
        (if keeps (modes id) then (put filtered id (all id), n_found + 1) else (filtered, n_found))

  -- `GetReadOnlyWeights`, with `kMinReadServers` = 1.
  pub get_read_only_weights : ServerStatsManager → ServerArray Num
  unfolding is_read
  get_read_only_weights m =
      let all = get_rate_limited_read_weights m in
      let (filtered, n_found) =
        keep_weights is_read m.modes all m.servers (init_server_weights, 0) in
      if leb 1 n_found then filtered else all

  pub get_write_weights : ServerStatsManager → ServerArray Num
  unfolding is_read
  get_write_weights m =
      let all = get_rate_limited_write_weights m in
      let (filtered, n_found) =
        keep_weights (λ mode. not (is_read mode)) m.modes all m.servers (init_server_weights, 0) in
      if leb k_num_replicas n_found then filtered else all

  -- `Scheduler::SelectReadServer`, over the read scheduler `select` that is configured.
  pub select_read_server :
      (ServerArray Num → ServerSet → Status ServerId)
      → ServerStatsManager
      → ServerSet
      → Status ServerId
  select_read_server select m subset =
      or_else (select (get_read_only_weights m) subset)
        (select (get_rate_limited_read_weights m) subset)

  -- `Scheduler::SelectWriteReplicas`.
  pub select_write_replicas :
      (ServerArray Num → Status ServerReplicaList) → ServerStatsManager → Status ServerReplicaList
  select_write_replicas select m = select (get_write_weights m)
