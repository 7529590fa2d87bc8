-- ===== src/ControlPlane/Policies.antt =====
-- scheduler/control_plane/base_scheduler.h and the schedulers that it has: how modes and weights are
-- computed from the statistics. A weight is a double, of type `W`, and `inverse n` is 1.0 / n.
use sandook.Base.{ℕ, ◌+◌, Bool, true, false, if◌then◌else◌, ltb, List, [], ◌∷◌, length}
use sandook.Status.{Status, ok, err, Error, ◌>>◌, check}
use sandook.Types.{ServerId, ServerArray, put, ServerMode, ServerStats, k_num_max_servers}
use sandook.Isolation.{SystemLoad, RwIsolation, compute_modes}
use sandook.Isolation

-- What a call finds beside its arguments: the time at its beginning and at its end, and the contents of
-- its arrays before anything is written to them.
pub record Ambient (W : Type 0) : Type 0 where
  pub now : ℕ
  pub later : ℕ
  pub uninit_modes : ServerArray ServerMode
  pub uninit_weights : ServerArray W

-- The two operations that weights are computed for. The others throw in every scheduler.
pub data Direction : Type 0 where
  reads writes : Direction

-- BaseScheduler, on a state `S` of its own.
pub record Policy (S W : Type 0) : Type 0 where
  pub add_server : S → ServerId → Status S
  pub compute_modes :
      S → List (ServerStats W) → SystemLoad → Ambient W → Status (ServerArray ServerMode) × S
  pub compute_weights :
      S → List (ServerStats W) → Direction → SystemLoad → Ambient W → Status (ServerArray W)

unfoldable pub same_mode : ServerMode → ServerMode → Bool
same_mode ServerMode.mix ServerMode.mix = true
same_mode ServerMode.read ServerMode.read = true
same_mode ServerMode.write ServerMode.write = true
same_mode _ _ = false

-- The mode of the servers that are left out.
abbrev pub filter_mode_of : Direction → ServerMode
filter_mode_of Direction.reads = ServerMode.write
filter_mode_of Direction.writes = ServerMode.read

module _ {W : Type 0} where
  -- NoOp, which is BaseScheduler.
  unfoldable pub no_op : Policy (Unit {0}) W
  no_op = record {
    add_server = λ s id. ok s;
    compute_modes = λ s stats load env. (err Error.enotsup, s);
    compute_weights = λ s stats op load env. err Error.enotsup;
  }

  -- The loop that counts the servers that are not in mode `filter_mode`.
  unfoldable pub count_valid : ServerMode → List (ServerStats W) → ℕ
  unfolding same_mode
  count_valid filter_mode [] = 0
  count_valid filter_mode (s ∷ ss) =
      if same_mode s.mode filter_mode
      then count_valid filter_mode ss
      else count_valid filter_mode ss + 1

  -- The loop that gives them their weight.
  unfoldable pub weigh_valid :
      ServerMode → W → List (ServerStats W) → ServerArray W → Status (ServerArray W)
  unfolding same_mode
  weigh_valid filter_mode weight [] weights = ok weights
  weigh_valid filter_mode weight (s ∷ ss) weights =
      let skipped = weigh_valid filter_mode weight ss weights in
      let given = weigh_valid filter_mode weight ss (put weights s.server_id weight) in
      if same_mode s.mode filter_mode
      then skipped
      else check (ltb s.server_id k_num_max_servers) >> given

  unfoldable pub weigh_all : W → List (ServerStats W) → ServerArray W → Status (ServerArray W)
  weigh_all weight [] weights = ok weights
  weigh_all weight (s ∷ ss) weights =
      check (ltb s.server_id k_num_max_servers)
      >> weigh_all weight ss (put weights s.server_id weight)

  -- RWIsolationWeak::ComputeReadWeights and ComputeWriteWeights.
  unfoldable pub weak_weights :
      (ℕ → W) → List (ServerStats W) → Direction → ServerArray W → Status (ServerArray W)
  unfolding count_valid weigh_valid weigh_all
  weak_weights inverse stats Direction.reads uninit =
      weigh_all (inverse (length stats)) stats uninit
  weak_weights inverse stats Direction.writes uninit =
      weigh_valid ServerMode.read (inverse (count_valid ServerMode.read stats)) stats uninit

  -- RWIsolationStrict::ComputeWeights.
  unfoldable pub strict_weights :
      (ℕ → W) → List (ServerStats W) → Direction → ServerArray W → Status (ServerArray W)
  unfolding count_valid weigh_valid
  strict_weights inverse stats op uninit =
      let filter_mode = filter_mode_of op in
      weigh_valid filter_mode (inverse (count_valid filter_mode stats)) stats uninit

  module _ (inverse : ℕ → W) (peak_iops : ServerId → ServerMode → ℕ) where
    unfoldable pub rw_isolation_weak : Policy RwIsolation W
    rw_isolation_weak = record {
      add_server = λ s id. ok (Isolation.add_server s);
      compute_modes = λ s stats load env.
          compute_modes peak_iops s stats load env.now env.later env.uninit_modes;
      compute_weights = λ s stats op load env. weak_weights inverse stats op env.uninit_weights;
    }

    unfoldable pub rw_isolation_strict : Policy RwIsolation W
    rw_isolation_strict = record {
      add_server = λ s id. ok (Isolation.add_server s);
      compute_modes = λ s stats load env.
          compute_modes peak_iops s stats load env.now env.later env.uninit_modes;
      compute_weights = λ s stats op load env. strict_weights inverse stats op env.uninit_weights;
    }
