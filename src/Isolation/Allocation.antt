-- ===== src/Isolation/Allocation.antt =====
-- How many servers get which mode.
use sandook.Base.{
  ℕ, zero, suc, ◌+◌, ◌%◌, ◌≡◌, ◌<◌, ◌≤◌, ◌⊎◌, inl, inr, true, false, leb, min, max, List, length,
  arith, Bool-cases,
}
use sandook.Types.{ServerId, ServerMode, ServerStats, u64_mod}
use sandook.Isolation.{RwIsolation, SystemLoad, demand, get_allocation}

module _ (peak_iops : ServerId → ServerMode → ℕ) where
  -- If the total load fits in 64 bits: while there is traffic, every server gets a role, and the
  -- numbers of read and write servers add up to the number of servers. Without traffic, both are
  -- 0.
  pub get_allocation_total :
      {W : Type 0} (st : RwIsolation) (stats : List (ServerStats W)) (load : SystemLoad)
      → load.read_ops + load.write_ops < u64_mod
      → let a = get_allocation peak_iops st stats load in
        ((a.is_traffic ≡ true) × (a.n_r_servers + a.n_w_servers ≡ length stats))
        ⊎ ((a.is_traffic ≡ false) × (a.n_r_servers ≡ 0) × (a.n_w_servers ≡ 0))
  unfolding get_allocation
  get_allocation_total st stats load h = ground arith

  -- The write throughput of `k` servers of the ring from `server_id` on.
  unfoldable pub capacity : ℕ → ℕ → ℕ → ℕ
  capacity num_servers server_id zero = 0
  capacity num_servers server_id (suc k) =
      peak_iops (server_id + 1) ServerMode.mix
      + capacity num_servers ((server_id + 1) % num_servers) k

  -- The least number of servers, out of `n`, whose throughput covers the writes; `n` if none does.
  pub record IsDemand (num_servers server_id write_ops n k : ℕ) : Type 0 where
    pub within : k ≤ n
    pub covers : k < n → write_ops ≤ capacity num_servers server_id k
    pub least : (j : ℕ) → j < k → capacity num_servers server_id j < write_ops

  demand_lem :
      (num write_ops handled sid dem left : ℕ)
      → handled + capacity num sid left < u64_mod
      → (k : ℕ) × (demand peak_iops num write_ops handled sid dem left ≡ dem + k)
        × (k ≤ left)
        × (k < left → write_ops ≤ handled + capacity num sid k)
        × ((j : ℕ) → j < k → handled + capacity num sid j < write_ops)
  unfolding demand capacity
  demand_lem num write_ops handled sid dem zero h =
      (0, omega arith, omega arith, omega arith, λ j l. elim l [ ])
  demand_lem num write_ops handled sid dem (suc left) h =
      elim (Bool-cases (leb write_ops handled)) [
        | inl e ↦ (0, rw e (omega arith), omega arith, ground arith, λ j l. elim l [ ])
        | inr e ↦
            let (k, q, b, c, m) =
              demand_lem num write_ops ((handled + peak_iops (sid + 1) ServerMode.mix) % u64_mod)
                ((sid + 1) % num) (dem + 1) left (omega arith) in
            (
              suc k,
              rw e (omega (arith, q)),
              omega arith,
              (λ l. omega (arith, c (omega arith))),
              elim [ zero ↦ λ l. ground arith | suc j ↦ λ l. omega (arith, m j (omega arith)) ],
            )
      ]

  -- Under mixed load, if the servers' total write throughput fits in 64 bits, the number of write
  -- servers is one more than the least number of servers whose write throughput covers the
  -- measured writes, but at least one for each replica, and at most all.
  pub get_allocation_mixed :
      {W : Type 0} (st : RwIsolation) (stats : List (ServerStats W)) (load : SystemLoad)
      → 0 < load.read_ops
      → 0 < load.write_ops
      → capacity st.num_servers st.last_write_server_idx (length stats) < u64_mod
      → (k : ℕ) × IsDemand st.num_servers st.last_write_server_idx load.write_ops (length stats) k
        × ((get_allocation peak_iops st stats load).n_w_servers
            ≡ min (length stats) (max 2 (k + 1)))
  unfolding get_allocation
  get_allocation_mixed st stats load p q h =
      let (k, e, b, c, m) =
        demand_lem st.num_servers load.write_ops 0 st.last_write_server_idx 0 (length stats)
          (omega arith) in
      (
        k,
        record {
          within = b;
          covers = λ l. omega (arith, c l);
          least = λ j l. omega (arith, m j l);
        },
        ground (arith, e),
      )
