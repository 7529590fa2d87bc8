-- ===== src/Isolation.antt =====
-- scheduler/control_plane/rw_isolation_base.h: how many servers take writes and how many take reads,
-- and which ones. The write servers are a window of the ring of all servers, which moves on each time
-- that the modes are assigned anew.
pub mod Allocation
pub mod Modes
pub mod State
mod Tests
use sandook.Base.{
  ℕ, zero, suc, ◌+◌, ◌-◌, ◌%◌, ◌≡◌, Bool, true, false, not, ◌&&◌, ◌||◌, if◌then◌else◌, ltb, leb,
  ◌==◌, min, max, List, [], ◌∷◌, length,
}
use sandook.Status.{Status, ok, err, fault, Error, ◌>>=◌, ◌>>◌, check}
use sandook.Types.{
  ServerId, ServerMode, ServerStats, ServerArray, put, k_num_replicas, k_num_max_servers,
  k_mode_switch_interval_us, u32_mod, u64_mod,
}

-- IsTraffic, NumReadServers, NumWriteServers.
pub record ServerAllocation : Type 0 where
  pub is_traffic : Bool
  pub n_r_servers : ℕ
  pub n_w_servers : ℕ

-- The read and write operations per second.
pub record SystemLoad : Type 0 where
  pub read_ops : ℕ
  pub write_ops : ℕ

pub record RwIsolation : Type 0 where
  pub last_allocation : ServerAllocation
  pub prev_system_load : SystemLoad
  pub last_mode_switch_time : ℕ
  pub num_servers : ℕ
  pub last_write_server_idx : ℕ

-- `prev_system_load_` has no initial value in the source, and is written before it is read.
unfoldable pub init : ℕ → SystemLoad → RwIsolation
init now load = record {
  last_allocation = record { is_traffic = false; n_r_servers = 0; n_w_servers = 0 };
  prev_system_load = load;
  last_mode_switch_time = now;
  num_servers = 0;
  last_write_server_idx = 0;
}

unfoldable pub add_server : RwIsolation → RwIsolation
add_server st = record st { num_servers = st.num_servers + 1; last_write_server_idx = 0 }

-- `RWIsolationBase::GetPeakIOPS`; `AdaptiveRWIsolationBase` asks its disk models instead, so that the
-- functions below take it as an argument.
unfoldable pub get_peak_iops : ServerId → ServerMode → ℕ
get_peak_iops id ServerMode.read = 600000
get_peak_iops id _ = 200000

-- The sum of all writes, a double. It is only compared with 0, and its terms are `uint32_t` sums.
pub sum_writes : {W : Type 0} → List (ServerStats W) → ℕ
sum_writes [] = 0
sum_writes (s ∷ ss) =
    (s.inflight_writes + s.completed_writes + s.rejected_writes) % u32_mod + sum_writes ss

module _ (peak_iops : ServerId → ServerMode → ℕ) where
  -- The loop that counts the servers that the writes demand, with `left` servers not counted yet.
  pub demand : (num_servers write_ops handled_writes server_id dem_w_servers left : ℕ) → ℕ
  demand num_servers write_ops handled_writes server_id dem_w_servers zero = dem_w_servers
  demand num_servers write_ops handled_writes server_id dem_w_servers (suc left) =
      let rest =
        demand num_servers write_ops
          ((handled_writes + peak_iops (server_id + 1) ServerMode.mix) % u64_mod)
          ((server_id + 1) % num_servers) (dem_w_servers + 1) left in
      if leb write_ops handled_writes then dem_w_servers else rest

  pub get_allocation :
      {W : Type 0} → RwIsolation → List (ServerStats W) → SystemLoad → ServerAllocation
  get_allocation st stats load =
      let n_servers = length stats in
      let all_writes = sum_writes stats in
      let total_ops = (load.read_ops + load.write_ops) % u64_mod in
      let min_w_servers = if ltb 0 all_writes || ltb 0 load.write_ops then k_num_replicas else 0 in
      let dem_w_servers =
        demand st.num_servers load.write_ops 0 st.last_write_server_idx 0 n_servers + 1 in
      let n_w_servers = min n_servers (max min_w_servers dem_w_servers) in
      if not (load.read_ops == 0) && not (load.write_ops == 0)
      then record {
        is_traffic = ltb 0 total_ops;
        n_r_servers = n_servers - n_w_servers;
        n_w_servers = n_w_servers;
      }
      else if not (load.read_ops == 0) && load.write_ops == 0
      then record { is_traffic = ltb 0 total_ops; n_r_servers = n_servers; n_w_servers = 0 }
      else if not (load.write_ops == 0) && load.read_ops == 0
      then record { is_traffic = ltb 0 total_ops; n_r_servers = 0; n_w_servers = n_servers }
      else record { is_traffic = ltb 0 total_ops; n_r_servers = 0; n_w_servers = 0 }

-- `AllocationNeedsUpdate`, which is `IsAllocationChanged`.
pub is_allocation_changed : ServerAllocation → ServerAllocation → Bool
is_allocation_changed last cur =
    if not (cur.n_r_servers == 0) && last.n_r_servers == 0
    then true
    else if not (cur.n_w_servers == 0) && last.n_w_servers == 0
    then true
    else ltb last.n_r_servers cur.n_r_servers || ltb last.n_w_servers cur.n_w_servers

pub is_time_to_mode_switch : RwIsolation → ℕ → Bool
is_time_to_mode_switch st now =
    leb k_mode_switch_interval_us ((now + u64_mod - st.last_mode_switch_time) % u64_mod)

-- A loop that gives one mode to the next `k` servers of the ring. `at` throws out of range.
pub assign_modes :
    ServerMode
    → ℕ
    → ℕ
    → ServerArray ServerMode × ServerId
    → Status (ServerArray ServerMode × ServerId)
assign_modes mode num_servers zero (modes, server_id) = ok (modes, server_id)
assign_modes mode num_servers (suc k) (modes, server_id) =
    check (ltb (server_id + 1) k_num_max_servers)
    >> assign_modes mode num_servers k
        (put modes (server_id + 1) mode, (server_id + 1) % num_servers)

module _ (peak_iops : ServerId → ServerMode → ℕ) where
  -- The assignment of the modes, where the function gets that far. `now` is the time at its end.
  pub switch_modes :
      RwIsolation
      → ServerAllocation
      → ℕ
      → ServerArray ServerMode
      → Status (ServerArray ServerMode) × RwIsolation
  switch_modes st allocation now uninit =
      let st' : RwIsolation = record st {
        last_allocation = allocation;
        last_write_server_idx =
            (st.last_write_server_idx + allocation.n_w_servers) % st.num_servers;
        last_mode_switch_time = now;
      } in
      (
        (do
          written ←
              assign_modes ServerMode.write st.num_servers allocation.n_w_servers
                (uninit, st.last_write_server_idx)
          all ← assign_modes ServerMode.read st.num_servers allocation.n_r_servers written
          ok all.0),
        st',
      )

  -- `uninit` is what the array `modes` holds before anything is written to it, and the two times are
  -- those of the test and of the record of the switch.
  unfoldable pub compute_modes :
      {W : Type 0}
      → RwIsolation
      → List (ServerStats W)
      → SystemLoad
      → ℕ
      → ℕ
      → ServerArray ServerMode
      → Status (ServerArray ServerMode) × RwIsolation
  compute_modes st stats load now later uninit =
      let st' : RwIsolation = record st { prev_system_load = load } in
      let allocation = get_allocation peak_iops st stats load in
      if leb (length stats) k_num_replicas
      then (ok (λ _. ServerMode.mix), st')
      else if not allocation.is_traffic
      then (err Error.eagain, st')
      else if allocation.n_r_servers == 0 && allocation.n_w_servers == 0
      then (ok (λ _. ServerMode.mix), st')
      else if not (is_allocation_changed st.last_allocation allocation)
          && not (is_time_to_mode_switch st now)
      then (err Error.eagain, st')
      else switch_modes st' allocation later uninit
