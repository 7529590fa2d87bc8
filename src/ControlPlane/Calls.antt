-- ===== src/ControlPlane/Calls.antt =====
-- The calls that go through to the statistics of a valid scheduler.
use sandook.Base.{
  ℕ, ◌+◌, ◌^◌, ◌%◌, ◌≡◌, refl, sym, ap, ◌∙◌, subst, ◌<◌, ◌≤◌, inl, inr, true, false, ◌==◌, Option,
  some, All, length, arith, Bool-cases, ==_iff, lt→ltb,
}
use sandook.Status.{ok}
use sandook.Types.{ServerId, ServerArray, put, ServerMode, ServerStats, u32_mod, u64_mod}
use sandook.ControlPlane.Stats.{
  ServerStatsManager, update_server_stats, new_stats_of, restore, commit_server_mode,
  calculate_load,
}
use sandook.ControlPlane.Rounds.{Listed, IsValid}
use sandook.ControlPlane.Reports.{commit_server_mode_lem}
use sandook.ControlPlane.{Scheduler}

module _ {W : Type 0} where
  -- One entry is replaced.
  put-Listed :
      (m m' : ServerStatsManager W) (id : ServerId) (s : ServerStats W)
      → m'.stats_map ≡ put m.stats_map id (some s)
      → s.server_id ≡ id
      → (j : ServerId) → Listed m j
      → Listed m' j
  put-Listed m m' id s e q j (t, f, g) = elim (Bool-cases (id == j)) [
    | inl z ↦ (
      s,
      ap (λ (a : ServerArray (Option (ServerStats W))). a j) e ∙ rw z refl,
      q ∙ (==_iff id j).0 z,
    )
    | inr z ↦ (t, ap (λ (a : ServerArray (Option (ServerStats W))). a j) e ∙ rw z f, g)
  ]

module _ {S W : Type 0} where
  -- The servers stay, and so do the entries.
  keep-IsValid :
      (st : Scheduler S W) (m : ServerStatsManager W)
      → IsValid st
      → m.servers ≡ st.stats_mgr.servers
      → (m.read_ops < 2 ^ 63) × (m.write_ops < 2 ^ 63)
      → ((j : ServerId) → Listed st.stats_mgr j → Listed m j)
      → IsValid (record st { stats_mgr = m })
  keep-IsValid st m v e small k = record {
    few = v.few;
    counted = ap (length {A = ServerId}) e ∙ v.counted;
    numbered = subst (All (λ id. id ≤ st.num_servers)) (sym e) v.numbered;
    small = small;
    listed = λ id a b. k id (v.listed id a b);
  }

  pub report-IsValid :
      (st : Scheduler S W) (id : ServerId) (stats : ServerStats W)
      → 1 ≤ id
      → id ≤ st.num_servers
      → stats.server_id ≡ id
      → IsValid st
      → (m : ServerStatsManager W) × (update_server_stats st.stats_mgr id stats false true ≡ ok m)
        × IsValid (record st { stats_mgr = m })
  unfolding update_server_stats new_stats_of restore
  report-IsValid st id stats a b q v =
      let m = st.stats_mgr in
      let (old, e, g) = v.listed id a b in
      let l : id < 20 = omega (arith, b, v.few) in
      let same : (id == stats.server_id) ≡ true = ground (arith, q) in
      let new : ServerStats W = record stats {
        mode = old.mode;
        read_weight = old.read_weight;
        write_weight = old.write_weight;
      } in
      let m' : ServerStatsManager W = record m {
        stats_system_reads =
            (m.stats_system_reads + (stats.completed_reads + stats.rejected_reads) % u32_mod)
            % u64_mod;
        stats_system_writes =
            (m.stats_system_writes + (stats.completed_writes + stats.rejected_writes) % u32_mod)
            % u64_mod;
        stats_map = put m.stats_map id (some new);
      } in
      (
        m',
        rw (same, lt→ltb id 20 l, e) refl,
        keep-IsValid st m' v refl v.small (put-Listed m m' id new refl q),
      )

  pub commit-IsValid :
      (st : Scheduler S W) (id : ServerId) (mode : ServerMode)
      → 1 ≤ id
      → id ≤ st.num_servers
      → IsValid st
      → (m : ServerStatsManager W) × (commit_server_mode st.stats_mgr id mode ≡ ok m)
        × IsValid (record st { stats_mgr = m })
  commit-IsValid st id mode a b v =
      let m = st.stats_mgr in
      let (old, e, g) = v.listed id a b in
      let new : ServerStats W = record old { committed_mode = mode } in
      let m' : ServerStatsManager W = record m { stats_map = put m.stats_map id (some new) } in
      (
        m',
        commit_server_mode_lem m id mode old (omega (arith, b, v.few)) e,
        keep-IsValid st m' v refl v.small (put-Listed m m' id new refl g),
      )

  pub calculate_load-IsValid :
      (st : Scheduler S W) (scaled : ℕ → ℕ)
      → ((n : ℕ) → scaled n < 2 ^ 63)
      → IsValid st
      → IsValid (record st { stats_mgr = calculate_load scaled st.stats_mgr })
  unfolding calculate_load
  calculate_load-IsValid st scaled h v =
      keep-IsValid st (calculate_load scaled st.stats_mgr) v refl (h _, h _) (λ j t. t)
