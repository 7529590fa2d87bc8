-- ===== src/ControlPlane.antt =====
-- scheduler/control_plane/scheduler.h: the scheduler of the controller, which asks its policy for modes and
-- weights and puts them into the statistics that the clients get. The telemetry is left out.
pub mod Stats
pub mod Policies
pub mod Reports
pub mod Rounds
pub mod Weights
pub mod Upkeep
pub mod Calls
pub mod Promises
mod Tests
use sandook.Base.{
  ℕ, zero, suc, ◌+◌, Bool, true, false, not, ◌&&◌, ◌||◌, if◌then◌else◌, ltb, List, [], ◌∷◌, Option,
  none, some,
}
use sandook.Status.{Status, ok, err, fault, Error, ◌>>=◌, ◌>>◌, check}
use sandook.Types.{
  ServerId, ServerArray, ServerMode, ServerStats, k_num_max_servers, k_invalid_server_id,
}
use sandook.Isolation.{SystemLoad}
use sandook.ControlPlane.Stats.{
  ServerStatsManager, DataPlaneServerStats, get_system_load, get_server_stats, get_stats_of,
  get_data_plane_server_stats, update_server_stats, commit_server_mode, freeze,
}
use sandook.ControlPlane.Stats
use sandook.ControlPlane.Policies.{Ambient, Policy, Direction}

pub record Scheduler (S W : Type 0) : Type 0 where
  pub num_servers : ℕ
  pub stats_mgr : ServerStatsManager W
  pub sched : S
  pub freeze_weights : Bool
  pub freeze_modes : Bool

-- What a round decides: the modes and the weights that could be computed.
pub record Decision (W : Type 0) : Type 0 where
  pub modes : Option (ServerArray ServerMode)
  pub r_weights : Option (ServerArray W)
  pub w_weights : Option (ServerArray W)

is_some {ℓ} : {A : Type ℓ} → Option A → Bool
is_some none = false
is_some (some a) = true

-- `if (s) … (*s).at(id)`.
abbrev pub at_or : {A : Type 0} → Option (ServerArray A) → ServerId → A → A
at_or none id old = old
at_or (some a) id old = a id

-- An error becomes a value that is absent; an exception ends the round.
pub settle {ℓ} : {A : Type ℓ} → Status A → Status (Option A)
settle (ok a) = ok (some a)
settle (err e) = ok none
settle fault = fault

module _ {W : Type 0} where
  -- The loop that puts the modes into the statistics.
  pub with_modes :
      Option (ServerArray ServerMode) → List (ServerStats W) → Status (List (ServerStats W))
  with_modes none stats = ok stats
  with_modes (some modes) [] = ok []
  with_modes (some modes) (s ∷ ss) = do
    let rest = with_modes (some modes) ss
    check (ltb s.server_id k_num_max_servers)
    ss' ← rest
    ok (record s { mode = modes s.server_id } ∷ ss')

  -- What a decision makes of a server's statistics.
  pub decide : Decision W → ServerId → ServerStats W → ServerStats W
  decide d id s = record s {
    read_weight = at_or d.r_weights id s.read_weight;
    write_weight = at_or d.w_weights id s.write_weight;
    mode = at_or d.modes id s.mode;
  }

  -- The body of the loop over the servers.
  pub publish_at : Decision W → ServerId → ServerStatsManager W → Status (ServerStatsManager W)
  unfolding decide is_some
  publish_at d server_id m = do
    s ← get_stats_of m server_id
    if is_some d.r_weights || is_some d.w_weights || is_some d.modes
        then update_server_stats m server_id (decide d server_id s) true false
        else ok m

  -- The loop, from index `i` on, with `k` servers left.
  pub publish : Decision W → ℕ → ℕ → ServerStatsManager W → Status (ServerStatsManager W)
  unfolding publish_at
  publish d i zero m = ok m
  publish d i (suc k) m = do
    m' ← publish_at d (i + k_invalid_server_id + 1) m
    publish d (i + 1) k m'

  module _ {S : Type 0} (policy : Policy S W) where
    unfoldable pub init : S → Scheduler S W
    init s = record {
      num_servers = 0;
      stats_mgr = Stats.init;
      sched = s;
      freeze_weights = false;
      freeze_modes = false;
    }

    pub add_server : W → W → Scheduler S W → ServerId → Status (Scheduler S W)
    add_server zero_weight default_weight st id = do
      sched' ← policy.add_server st.sched id
      m ← Stats.add_server zero_weight default_weight st.stats_mgr id
      ok (record st { sched = sched'; stats_mgr = m; num_servers = st.num_servers + 1 })

    -- The modes, unless they are frozen; the error stands for those that nobody computed.
    pub ask_modes :
        Scheduler S W
        → Ambient W
        → List (ServerStats W)
        → SystemLoad
        → Status (ServerArray ServerMode) × S
    ask_modes st env stats load =
        if st.freeze_modes
        then (err Error.einval, st.sched)
        else policy.compute_modes st.sched stats load env

    -- The weights, unless they are frozen.
    pub ask_weights :
        Scheduler S W
        → Ambient W
        → S
        → List (ServerStats W)
        → Direction
        → SystemLoad
        → Status (ServerArray W)
    ask_weights st env sched' stats op load =
        if st.freeze_weights
        then err Error.einval
        else policy.compute_weights sched' stats op load env

    -- The part of Update that asks the policy.
    pub compute :
        Scheduler S W → Ambient W → List (ServerStats W) → SystemLoad → Status (Decision W × S)
    unfolding settle with_modes ask_modes ask_weights
    compute st env stats load = do
      let asked = ask_modes st env stats load
      modes ← settle asked.0
      stats' ← with_modes modes stats
      r_weights ← settle (ask_weights st env asked.1 stats' Direction.reads load)
      w_weights ← settle (ask_weights st env asked.1 stats' Direction.writes load)
      ok (record { modes = modes; r_weights = r_weights; w_weights = w_weights }, asked.1)

    -- Update, with no other call in between.
    pub update : Scheduler S W → Ambient W → Status (Scheduler S W)
    unfolding compute publish
    update st env = do
      stats ← get_server_stats st.stats_mgr
      (d, sched') ← compute st env stats (get_system_load st.stats_mgr)
      m ← publish d 0 st.num_servers st.stats_mgr
      ok (record st { stats_mgr = m; sched = sched' })
