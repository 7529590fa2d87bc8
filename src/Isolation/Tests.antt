-- ===== src/Isolation/Tests.antt =====
-- Four servers under different loads.
use sandook.Base.{ℕ, ◌≡◌, ◌+◌, ◌%◌, ◌⊎◌, refl, List, [], ◌∷◌, false, arith, min, max}
use sandook.Status.{ok, err, Error}
use sandook.Types.{ServerId, ServerMode, ServerStats, ServerArray, CongestionState}
use sandook.Isolation.{RwIsolation, SystemLoad, get_peak_iops, get_allocation, compute_modes}
use sandook.Isolation.Allocation.{capacity, IsDemand, get_allocation_mixed}
use sandook.Isolation.Modes.{IsWindow, compute_modes-IsWindow}
use sandook.Isolation.State.{IsValid, compute_modes_state}

abbrev stats_of : ServerId → ServerStats ℕ
stats_of id = record {
  server_id = id;
  mode = ServerMode.mix;
  committed_mode = ServerMode.mix;
  read_mops = 0;
  write_mops = 0;
  read_weight = 1;
  write_weight = 1;
  inflight_reads = 8;
  inflight_writes = 2;
  completed_reads = 100;
  pure_reads = 90;
  impure_reads = 10;
  completed_writes = 20;
  rejected_reads = 0;
  rejected_writes = 0;
  median_read_latency = 90;
  median_write_latency = 20;
  signal_read_latency = 120;
  signal_write_latency = 60;
  is_rejecting_requests = false;
  congestion_state = CongestionState.uncongested;
}

abbrev four : List (ServerStats ℕ)
four = stats_of 1 ∷ stats_of 2 ∷ stats_of 3 ∷ stats_of 4 ∷ []

abbrev four_servers : RwIsolation
four_servers = record {
  last_allocation = record { is_traffic = false; n_r_servers = 0; n_w_servers = 0 };
  prev_system_load = record { read_ops = 0; write_ops = 0 };
  last_mode_switch_time = 0;
  num_servers = 4;
  last_write_server_idx = 3;
}

abbrev mixed_load : SystemLoad
mixed_load = record { read_ops = 500000; write_ops = 300000 }

four_servers-IsValid : IsValid four_servers
four_servers-IsValid = record { in_ring = omega arith }

get_allocation_mixed_example :
    (k : ℕ) × IsDemand get_peak_iops 4 3 300000 4 k
    × ((get_allocation get_peak_iops four_servers four mixed_load).n_w_servers
        ≡ min 4 (max 2 (k + 1)))
get_allocation_mixed_example =
    get_allocation_mixed get_peak_iops four_servers four mixed_load (omega arith) (omega arith)
      (unfold capacity get_peak_iops in omega arith)

compute_modes-IsWindow_example :
    ((compute_modes get_peak_iops four_servers four mixed_load 400000 400001
        (λ _. ServerMode.mix)).0
      ≡ err Error.eagain)
    ⊎ ((modes : ServerArray ServerMode) × ((compute_modes get_peak_iops four_servers four mixed_load
            400000 400001
            (λ _. ServerMode.mix)).0
          ≡ ok modes)
        × IsWindow 4 3
            (get_allocation get_peak_iops four_servers four mixed_load).n_w_servers
            modes)
compute_modes-IsWindow_example =
    compute_modes-IsWindow get_peak_iops four_servers four mixed_load 400000 400001
      (λ _. ServerMode.mix) refl (omega arith) (omega arith) (omega arith) (omega arith)

compute_modes_state_example :
    let st =
      (compute_modes get_peak_iops four_servers four mixed_load 400000 400001
        (λ _. ServerMode.mix)).1 in
    let a = get_allocation get_peak_iops four_servers four mixed_load in
    IsValid st
    × (st.num_servers ≡ 4)
    × (st.prev_system_load ≡ mixed_load)
    × (((st.last_allocation ≡ four_servers.last_allocation)
          × (st.last_write_server_idx ≡ 3)
          × (st.last_mode_switch_time ≡ 0))
        ⊎ ((st.last_allocation ≡ a)
            × (st.last_write_server_idx ≡ (3 + a.n_w_servers) % 4)
            × (st.last_mode_switch_time ≡ 400001)))
compute_modes_state_example =
    compute_modes_state get_peak_iops four_servers four mixed_load 400000 400001
      (λ _. ServerMode.mix) four_servers-IsValid
