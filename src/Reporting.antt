-- ===== src/Reporting.antt =====
-- How a disk server reports to the controller: UpdateStats, GetServerStats and CalculateLoad of
-- disk_server/disk_monitor.h, the threads of disk_server/storage_server.cc, and the handlers of
-- controller/controller_conn_handler.cc that answer them. The messages are the values that they carry; a
-- call that reaches the controller is answered.
pub mod Rounds
mod Tests
use sandook.Base.{ℕ, ◌+◌, ◌-◌, ◌%◌, Bool, true, false, if◌then◌else◌, ltb}
use sandook.Status.{Status, ok, err, fault, ◌>>=◌}
use sandook.Types.{ServerId, ServerMode, ServerStats, u32_mod, u64_mod}
use sandook.Counter.{ThreadSafeCounter, inc_local, get_sum, get_sum_and_reset}
use sandook.Monitor.{Ratios, DiskMonitor, Counters, set_mode_and_weights}
use sandook.ControlPlane.Stats.{DataPlaneServerStats}
use sandook.ControlPlane.Policies.{Policy}
use sandook.Controller.{ControllerAgent, report_server_stats, commit_mode, data_plane_server_stats}

module _ (r : Ratios) where
  open r use {Num, div, from_u64}

  -- The members of a DiskMonitor that its background threads compute for a report.
  pub record Background : Type 0 where
    pub server_id : ServerId
    pub completed_reads_t : ℕ
    pub pure_reads_t : ℕ
    pub impure_reads_t : ℕ
    pub completed_writes_t : ℕ
    pub inflight_reads_t : ℕ
    pub inflight_writes_t : ℕ
    pub rejected_reads_t : ℕ
    pub rejected_writes_t : ℕ
    pub read_mops : Num
    pub write_mops : Num
    pub last_stats_us : ℕ

  -- `UpdateStats` on core `cpu`, which reads the clock at its beginning and near its end.
  unfoldable pub update_stats : DiskMonitor r → Background → ℕ → ℕ → ℕ → DiskMonitor r × Background
  update_stats m b cpu now later =
      let c = m.counters in
      let elapsed_us = (now + u64_mod - b.last_stats_us) % u64_mod in
      let (cr, completed_reads) = get_sum_and_reset c.completed_reads in
      let (cw, completed_writes) = get_sum_and_reset c.completed_writes in
      let (pr, pure_reads) = get_sum_and_reset c.pure_reads in
      let (ir, impure_reads) = get_sum_and_reset c.impure_reads in
      let (rr, rejected_reads) = get_sum_and_reset c.rejected_reads in
      let (rw, rejected_writes) = get_sum_and_reset c.rejected_writes in
      (
        record m {
          counters = record c {
            completed_reads = completed_reads;
            completed_writes = completed_writes;
            pure_reads = pure_reads;
            impure_reads = impure_reads;
            tot_pure_reads = inc_local c.tot_pure_reads cpu (pr % u32_mod);
            tot_impure_reads = inc_local c.tot_impure_reads cpu (ir % u32_mod);
            rejected_reads = rejected_reads;
            rejected_writes = rejected_writes;
          };
        },
        record b {
          completed_reads_t = cr % u32_mod;
          completed_writes_t = cw % u32_mod;
          pure_reads_t = pr % u32_mod;
          impure_reads_t = ir % u32_mod;
          inflight_reads_t = get_sum c.inflight_reads % u32_mod;
          inflight_writes_t = get_sum c.inflight_writes % u32_mod;
          rejected_reads_t = rr % u32_mod;
          rejected_writes_t = rw % u32_mod;
          last_stats_us = later;
          read_mops = div (from_u64 (cr % u32_mod)) (from_u64 elapsed_us);
          write_mops = div (from_u64 (cw % u32_mod)) (from_u64 elapsed_us);
        },
      )

  -- The initializer names no committed mode, so that it is 0.
  unfoldable pub get_server_stats : DiskMonitor r → Background → ServerStats Num
  get_server_stats m b = record {
    server_id = b.server_id;
    mode = m.mode;
    committed_mode = ServerMode.mix;
    read_mops = b.read_mops;
    write_mops = b.write_mops;
    read_weight = m.read_weight;
    write_weight = m.write_weight;
    inflight_reads = b.inflight_reads_t;
    inflight_writes = b.inflight_writes_t;
    completed_reads = b.completed_reads_t;
    pure_reads = b.pure_reads_t;
    impure_reads = b.impure_reads_t;
    completed_writes = b.completed_writes_t;
    rejected_reads = b.rejected_reads_t;
    rejected_writes = b.rejected_writes_t;
    median_read_latency = m.read_latencies.median;
    median_write_latency = m.write_latencies.median;
    signal_read_latency = m.read_latencies.signal;
    signal_write_latency = m.write_latencies.signal;
    is_rejecting_requests = false;
    congestion_state = m.congestion_state;
  }

  -- `CalculateLoad`. `scaled n` is the word of the double `n * kLoadScaleFactor`.
  pub calculate_load : (ℕ → ℕ) → DiskMonitor r → DiskMonitor r
  calculate_load scaled m =
      let (disk_reads, reads) = get_sum_and_reset m.counters.disk_reads in
      let (disk_writes, writes) = get_sum_and_reset m.counters.disk_writes in
      let total = (scaled disk_reads + scaled disk_writes) % u64_mod in
      record m {
        counters = record m.counters { disk_reads = reads; disk_writes = writes };
        total_load_ops = total;
        write_ratio =
            if ltb 0 total
            then div (from_u64 (scaled disk_writes)) (from_u64 total)
            else from_u64 0;
      }

  module _ {S : Type 0} (policy : Policy S Num) where
    -- `HandleUpdateServerStats` of the controller.
    unfoldable pub handle_update_server_stats :
        ControllerAgent S Num
        → ServerId
        → ServerStats Num
        → Status (DataPlaneServerStats Num × ControllerAgent S Num)
    handle_update_server_stats a id stats = do
      a' ← report_server_stats policy a id stats
      reply ← data_plane_server_stats policy a' id
      ok (reply, a')

    -- A round of `ControllerStatsUpdater`, with the times at which it reads the clock.
    unfoldable pub stats_round :
        DiskMonitor r
        → Background
        → ControllerAgent S Num
        → (cpu now later replied : ℕ) → Status (DiskMonitor r × Background × ControllerAgent S Num)
    stats_round m b a cpu now later replied = do
      let (m₁, b₁) = update_stats m b cpu now later
      (reply, a₁) ← handle_update_server_stats a b₁.server_id (get_server_stats m₁ b₁)
      let m₂ = set_mode_and_weights r m₁ replied reply.mode reply.read_weight reply.write_weight
      a₂ ← commit_mode policy a₁ b₁.server_id m₂.mode
      ok (m₂, b₁, a₂)
