-- ===== src/ControlPlane/Reports.antt =====
-- What a report, a committed mode and the calculation of the load change.
use sandook.Base.{
  ℕ, ◌+◌, ◌%◌, ◌^◌, ◌≡◌, ◌≢◌, refl, ◌<◌, inl, inr, true, false, ◌==◌, List, [], ◌∷◌, Option, some,
  All, arith, Bool-cases, ==_iff, ne_of_==, lt→ltb, All-map, map, ap, ◌∙◌,
}
use sandook.Status.{Status, ok, ◌>>=◌}
use sandook.Types.{ServerId, ServerArray, put, ServerMode, ServerStats, u32_mod, u64_mod}
use sandook.ControlPlane.Stats.{
  ServerStatsManager, restore, new_stats_of, update_server_stats, commit_server_mode,
  calculate_load,
}

-- The calls that the servers and the thread that calculates the load make.
pub data Event (W : Type 0) : Type 0 where
  reports : ServerId → ServerStats W → Event W
  commits : ServerId → ServerMode → Event W
  calculates : Event W

module _ {W : Type 0} where
  -- A report of server `id`, which is known, is taken: its entry becomes the report with the old mode and
  -- the old weights, whatever the report says of them, and with the committed mode of the report. The
  -- other entries stay. The completed and the rejected operations are added to the load.
  pub update_server_stats-Reports :
      (m : ServerStatsManager W) (id : ServerId) (old stats : ServerStats W)
      → id < 20
      → stats.server_id ≡ id
      → m.stats_map id ≡ some old
      → (m' : ServerStatsManager W) × (update_server_stats m id stats false true ≡ ok m')
        × (m'.stats_map id
            ≡ some (record stats {
              mode = old.mode;
              read_weight = old.read_weight;
              write_weight = old.write_weight;
            }))
        × ((j : ServerId) → j ≢ id → m'.stats_map j ≡ m.stats_map j)
        × (m'.stats_system_reads
            ≡ (m.stats_system_reads + (stats.completed_reads + stats.rejected_reads) % u32_mod)
              % u64_mod)
        × (m'.stats_system_writes
            ≡ (m.stats_system_writes + (stats.completed_writes + stats.rejected_writes) % u32_mod)
              % u64_mod)
        × (m'.freeze_load ≡ m.freeze_load)
  unfolding update_server_stats new_stats_of restore
  update_server_stats-Reports m id old stats l e f =
      let e₁ : (id == stats.server_id) ≡ true = ground (arith, e) in
      rw (e₁, lt→ltb id 20 l, f)
        (_, refl, rw ((==_iff id id).1 refl) refl, (λ j n. ground (arith, n)), refl, refl, refl)

  -- Only the committed mode of the server changes.
  pub commit_server_mode_lem :
      (m : ServerStatsManager W) (id : ServerId) (mode : ServerMode) (old : ServerStats W)
      → id < 20
      → m.stats_map id ≡ some old
      → commit_server_mode m id mode
        ≡ ok (record m {
          stats_map = put m.stats_map id (some (record old { committed_mode = mode }));
        })
  unfolding commit_server_mode
  commit_server_mode_lem m id mode old l f = rw (lt→ltb id 20 l, f) refl

-- The sum of some counts.
abbrev pub sum : List ℕ → ℕ
sum [] = 0
sum (n ∷ ns) = n + sum ns

-- The system loads of reads that the thread publishes in a history of calls, and the manager after it.
-- `scaled` is the scaling of a load.
module _ {W : Type 0} (scaled : ℕ → ℕ) where
  pub run : ServerStatsManager W → List (Event W) → Status (List ℕ × ServerStatsManager W)
  run m [] = ok ([], m)
  run m (reports id stats ∷ es) = do m' ← update_server_stats m id stats false true; run m' es
  run m (commits id mode ∷ es) = do m' ← commit_server_mode m id mode; run m' es
  run m (calculates ∷ es) = do
    let m' = calculate_load scaled m
    (loads, m'') ← run m' es
    ok (m'.read_ops ∷ loads, m'')

  -- The reads that a history reports.
  unfoldable pub reported : List (Event W) → ℕ
  reported [] = 0
  reported (reports id stats ∷ es) =
      (stats.completed_reads + stats.rejected_reads) % u32_mod + reported es
  reported (commits id mode ∷ es) = reported es
  reported (calculates ∷ es) = reported es

module _ {W : Type 0} where
  abbrev pub Known : ServerStatsManager W → ServerId → Type 0
  Known m id = (id < 20) × ((s : ServerStats W) × (m.stats_map id ≡ some s))

  -- The call is about a server that the manager knows.
  abbrev pub IsFor : ServerStatsManager W → Event W → Type 0
  IsFor m (reports id stats) = Known m id × (stats.server_id ≡ id)
  IsFor m (commits id mode) = Known m id
  IsFor m calculates = Unit

  -- What stays known when the entry of one server changes.
  still_known :
      (a b : ServerArray (Option (ServerStats W))) (id : ServerId) (s : ServerStats W)
      → b id ≡ some s
      → ((j : ServerId) → j ≢ id → b j ≡ a j)
      → (j : ServerId) → (t : ServerStats W) × (a j ≡ some t)
      → (t : ServerStats W) × (b j ≡ some t)
  still_known a b id s e o j (t, f) = elim (Bool-cases (j == id)) [
    | inl g ↦ (s, ap b ((==_iff j id).0 g) ∙ e)
    | inr g ↦ (t, o j (ne_of_== j id g) ∙ f)
  ]

  still-IsFor :
      (m m' : ServerStatsManager W)
      → ((j : ServerId)
          → (t : ServerStats W) × (m.stats_map j ≡ some t)
          → (t : ServerStats W) × (m'.stats_map j ≡ some t))
      → (e : Event W) → IsFor m e
      → IsFor m' e
  still-IsFor m m' k (reports id stats) ((l, s), e) = ((l, k id s), e)
  still-IsFor m m' k (commits id mode) (l, s) = (l, k id s)
  still-IsFor m m' k calculates u = tt

  -- While the load is not frozen, each reported read is counted in one system load: over any history of
  -- calls about known servers, the published loads are the scaled counts of reads `ns`, and these counts and
  -- what waits for the next calculation are together what waited at the beginning and what was reported,
  -- if that fits into a word.
  pub run_balance :
      (scaled : ℕ → ℕ) (m : ServerStatsManager W) (es : List (Event W))
      → m.freeze_load ≡ false
      → All (IsFor m) es
      → m.stats_system_reads + reported scaled es < 2 ^ 64
      → (ns : List ℕ) × (m' : ServerStatsManager W) × (run scaled m es ≡ ok (map scaled ns, m'))
        × (sum ns + m'.stats_system_reads ≡ m.stats_system_reads + reported scaled es)
  unfolding run reported calculate_load
  run_balance scaled m [] u h b = ([], m, refl, omega arith)
  run_balance scaled m (reports id stats ∷ es) u (((l, (old, f)), e), h) b =
      let (m₁, q, self, others, r, w, fr) = update_server_stats-Reports m id old stats l e f in
      let k = still_known m.stats_map m₁.stats_map id _ self others in
      let (n, m', z, c) =
        run_balance scaled m₁ es (fr ∙ u) (All-map (IsFor m) (IsFor m₁) (still-IsFor m m₁ k) es h)
          (omega (arith, r, b)) in
      (n, m', rw q z, omega (arith, c, r, b))
  run_balance scaled m (commits id mode ∷ es) u ((l, (old, f)), h) b =
      let m₁ : ServerStatsManager W = record m {
        stats_map = put m.stats_map id (some (record old { committed_mode = mode }));
      } in
      let k =
        still_known m.stats_map m₁.stats_map id (record old { committed_mode = mode })
          (rw ((==_iff id id).1 refl) refl) (λ j n. ground (arith, n)) in
      let (n, m', z, c) =
        run_balance scaled m₁ es u (All-map (IsFor m) (IsFor m₁) (still-IsFor m m₁ k) es h) b in
      (n, m', rw (commit_server_mode_lem m id mode old l f) z, c)
  run_balance scaled m (calculates ∷ es) u h b =
      let m₁ = calculate_load scaled m in
      let zero_reads : m₁.stats_system_reads ≡ 0 = rw u refl in
      let (n, m', z, c) =
        run_balance scaled m₁ es u
          (All-map (IsFor m) (IsFor m₁) (still-IsFor m m₁ (λ j t. t)) es h.1)
          (omega (arith, zero_reads, b)) in
      (m.stats_system_reads ∷ n, m', rw z refl, omega (arith, c, zero_reads))
