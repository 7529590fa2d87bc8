-- ===== src/Isolation/State.antt =====
-- What a round of the scheduler changes in its own state.
use sandook.Base.{ℕ, ◌+◌, ◌%◌, ◌≡◌, refl, ◌<◌, ◌⊎◌, true, leb, List, length, arith}
use sandook.Status.{ok}
use native.Mathlib.Nat.{mod-lt}
use sandook.Types.{ServerId, ServerMode, ServerStats, ServerArray}
use sandook.Isolation.{
  RwIsolation, SystemLoad, add_server, get_allocation, switch_modes, compute_modes,
}

-- The index of the first write server lies in the ring.
pub record IsValid (st : RwIsolation) : Type 0 where
  pub in_ring : st.last_write_server_idx < st.num_servers

-- Adding a server makes the state valid, whatever it was.
pub add_server-IsValid : (st : RwIsolation) → IsValid (add_server st)
unfolding add_server
add_server-IsValid st = record { in_ring = omega arith }

-- From a valid state, a round keeps the state valid and the number of servers, and records the
-- load. It either leaves the rest alone, or it records the allocation and the time and moves the
-- first index past the write servers.
pub compute_modes_state :
    (peak_iops : ServerId → ServerMode → ℕ) {W : Type 0} (st : RwIsolation)
    (stats : List (ServerStats W)) (load : SystemLoad) (now later : ℕ)
    (uninit : ServerArray ServerMode)
    → IsValid st
    → let st' = (compute_modes peak_iops st stats load now later uninit).1 in
      let a = get_allocation peak_iops st stats load in
      IsValid st'
      × (st'.num_servers ≡ st.num_servers)
      × (st'.prev_system_load ≡ load)
      × (((st'.last_allocation ≡ st.last_allocation)
            × (st'.last_write_server_idx ≡ st.last_write_server_idx)
            × (st'.last_mode_switch_time ≡ st.last_mode_switch_time))
          ⊎ ((st'.last_allocation ≡ a)
              × (st'.last_write_server_idx
                  ≡ (st.last_write_server_idx + a.n_w_servers) % st.num_servers)
              × (st'.last_mode_switch_time ≡ later)))
unfolding compute_modes switch_modes
compute_modes_state peak_iops st stats load now later uninit v = ground (
  arith,
  mod-lt (st.last_write_server_idx + (get_allocation peak_iops st stats load).n_w_servers)
      {m = st.num_servers} (omega arith),
)

-- With too few servers for an isolation all modes are mixed, and only the load is recorded.
pub compute_modes_few :
    (peak_iops : ServerId → ServerMode → ℕ) {W : Type 0} (st : RwIsolation)
    (stats : List (ServerStats W)) (load : SystemLoad) (now later : ℕ)
    (uninit : ServerArray ServerMode)
    → leb (length stats) 2 ≡ true
    → compute_modes peak_iops st stats load now later uninit
      ≡ (ok (λ _. ServerMode.mix), record st { prev_system_load = load })
unfolding compute_modes
compute_modes_few peak_iops st stats load now later uninit e = rw e refl
