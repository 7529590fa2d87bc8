-- ===== src/Reporting/Rounds.antt =====
-- What a round of reporting leaves in the server and in the controller.
use sandook.Base.{ℕ, ◌%◌, ◌≡◌, refl, ap, ◌<◌, true, some, ==_iff, lt→ltb}
use sandook.Status.{ok}
use sandook.Types.{ServerId, ServerStats, put, u32_mod}
use sandook.Counter.{get_sum}
use sandook.Counter.Account.{get_sum_and_reset-zero, get_sum_and_reset-sum}
use sandook.Monitor.{Ratios, DiskMonitor, set_mode_and_weights}
use sandook.ControlPlane.Stats.{DataPlaneServerStats, get_data_plane_server_stats, get_stats_of}
use sandook.ControlPlane.Reports.{update_server_stats-Reports, commit_server_mode_lem}
use sandook.ControlPlane.Policies.{Policy}
use sandook.Controller.{
  ControllerAgent, has_key, report_server_stats, commit_mode, data_plane_server_stats,
}
use sandook.Reporting.{
  Background, update_stats, get_server_stats, handle_update_server_stats, stats_round,
}

module _ (r : Ratios) {S : Type 0} (policy : Policy S (r.Num)) where
  open r use {Num}

  -- The controller knows the server, by the entry `old`.
  pub record Registered (a : ControllerAgent S Num) (id : ServerId) (old : ServerStats Num)
      : Type 0 where
    pub in_range : id < 20
    pub listed : has_key a.servers id ≡ true
    pub entry : a.sched.stats_mgr.stats_map id ≡ some old

  -- The controller takes a report and answers with the mode and the weights that it holds.
  handle_lem :
      (a : ControllerAgent S Num) (id : ServerId) (old stats : ServerStats Num)
      → Registered a id old
      → stats.server_id ≡ id
      → (reply : DataPlaneServerStats Num) × (a' : ControllerAgent S Num)
        × (handle_update_server_stats r policy a id stats ≡ ok (reply, a'))
        × ((reply.mode ≡ old.mode)
            × (reply.read_weight ≡ old.read_weight)
            × (reply.write_weight ≡ old.write_weight))
        × Registered a' id (record stats {
          mode = old.mode;
          read_weight = old.read_weight;
          write_weight = old.write_weight;
        })
  unfolding handle_update_server_stats report_server_stats data_plane_server_stats
      get_data_plane_server_stats get_stats_of
  handle_lem a id old stats h e =
      let (m, q, self, _, _, _, _) =
        update_server_stats-Reports a.sched.stats_mgr id old stats h.in_range e h.entry in
      (
        record {
          mode = old.mode;
          congestion_state = stats.congestion_state;
          read_weight = old.read_weight;
          write_weight = old.write_weight;
        },
        record a { sched = record a.sched { stats_mgr = m } },
        rw (h.listed, q, lt→ltb id 20 h.in_range, self) refl,
        (refl, refl, refl),
        record { in_range = h.in_range; listed = h.listed; entry = self },
      )

  -- After a round of reporting of a registered server, the server has the mode and the weights that the
  -- control plane gave it, the controller holds that mode as the committed one, the entry has the counts of
  -- the server, as 32-bit words, and the congestion state, and what was reported of the completed and the
  -- rejected operations is no longer in the server's counters.
  pub stats_round-Agrees :
      (m : DiskMonitor r) (b : Background r) (a : ControllerAgent S Num) (cpu now later replied : ℕ)
      (old : ServerStats Num)
      → Registered a b.server_id old
      → (m' : DiskMonitor r) × (b' : Background r) × (a' : ControllerAgent S Num)
        × (new : ServerStats Num) × (stats_round r policy m b a cpu now later replied
            ≡ ok (m', b', a'))
        × ((m'.mode ≡ old.mode)
            × (m'.read_weight ≡ old.read_weight)
            × (m'.write_weight ≡ old.write_weight))
        × Registered a' b.server_id new
        × ((new.mode ≡ old.mode) × (new.committed_mode ≡ m'.mode))
        × ((new.completed_reads ≡ get_sum m.counters.completed_reads % u32_mod)
            × (new.completed_writes ≡ get_sum m.counters.completed_writes % u32_mod)
            × (new.rejected_reads ≡ get_sum m.counters.rejected_reads % u32_mod)
            × (new.rejected_writes ≡ get_sum m.counters.rejected_writes % u32_mod)
            × (new.congestion_state ≡ m.congestion_state))
        × ((get_sum m'.counters.completed_reads ≡ 0)
            × (get_sum m'.counters.completed_writes ≡ 0)
            × (get_sum m'.counters.rejected_reads ≡ 0)
            × (get_sum m'.counters.rejected_writes ≡ 0))
  unfolding stats_round update_stats get_server_stats set_mode_and_weights commit_mode
  stats_round-Agrees m b a cpu now later replied old h =
      let m₁ = (update_stats r m b cpu now later).0 in
      let b₁ = (update_stats r m b cpu now later).1 in
      let (reply, a₁, e, (p, q, s), h₁) =
        handle_lem a b.server_id old (get_server_stats r m₁ b₁) h refl in
      let m₂ = set_mode_and_weights r m₁ replied reply.mode reply.read_weight reply.write_weight in
      let mid : ServerStats Num = record (get_server_stats r m₁ b₁) {
        mode = old.mode;
        read_weight = old.read_weight;
        write_weight = old.write_weight;
      } in
      let new : ServerStats Num = record mid { committed_mode = reply.mode } in
      let a₂ : ControllerAgent S Num = record a₁ {
        sched = record a₁.sched {
          stats_mgr = record a₁.sched.stats_mgr {
            stats_map = put a₁.sched.stats_mgr.stats_map b.server_id (some new);
          };
        };
      } in
      let c =
        commit_server_mode_lem a₁.sched.stats_mgr b.server_id reply.mode mid h₁.in_range h₁.entry in
      (
        m₂,
        b₁,
        a₂,
        new,
        rw (e, h₁.listed, c) refl,
        (p, q, s),
        record {
          in_range = h.in_range;
          listed = h₁.listed;
          entry = rw ((==_iff b.server_id b.server_id).1 refl) refl;
        },
        (refl, refl),
        (
          ap (λ n. n % u32_mod) (get_sum_and_reset-sum m.counters.completed_reads),
          ap (λ n. n % u32_mod) (get_sum_and_reset-sum m.counters.completed_writes),
          ap (λ n. n % u32_mod) (get_sum_and_reset-sum m.counters.rejected_reads),
          ap (λ n. n % u32_mod) (get_sum_and_reset-sum m.counters.rejected_writes),
          refl,
        ),
        (
          get_sum_and_reset-zero m.counters.completed_reads,
          get_sum_and_reset-zero m.counters.completed_writes,
          get_sum_and_reset-zero m.counters.rejected_reads,
          get_sum_and_reset-zero m.counters.rejected_writes,
        ),
      )
