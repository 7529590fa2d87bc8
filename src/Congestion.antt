-- ===== src/Congestion.antt =====
-- scheduler/data_plane/congestion_control.h: each server's rate limit, raised step by step while the
-- server is not congested and halved when it is. The limits are doubles; their operations are a
-- parameter. The telemetry streams only record, and are
-- left out, except that there is none for a server that was never added.
pub mod Bounds
pub mod Reaction
pub mod History
mod Tests
use sandook.Base.{ℕ, ◌+◌, ◌-◌, ◌≡◌, Bool, true, false, if◌then◌else◌, ltb, leb, ◌==◌, List, [], ◌∷◌}
use sandook.Status.{Status, ok, err, fault, Error, ◌>>=◌, ◌>>◌, check}
use sandook.Types.{
  ServerId, ServerArray, put, CongestionState, k_num_max_servers, k_congestion_control_window_us,
}
use sandook.Selection.{contains, insert}

-- The doubles that are not NaN, with the operations and the constants that the data plane uses.
pub record Doubles : Type 1 where
  pub Num : Type 0
  pub lt : Num → Num → Bool
  pub eq : Num → Num → Bool
  pub add : Num → Num → Num
  pub mul : Num → Num → Num
  pub best_congested_rate_limit : Num
  pub best_uncongested_rate_limit : Num
  pub multiplicative_decrease_delta : Num
  pub additive_increase_delta : Num
  pub invalid_server_weight : Num

-- Whether a congestion signal calls for a reaction: one came after the last reaction, and a window
-- of time lies between the two.
pub is_reaction_due : ℕ → ℕ → Bool
is_reaction_due last_reaction congested_since =
    if leb congested_since last_reaction
    then false
    else if ltb (congested_since - last_reaction) k_congestion_control_window_us
    then false
    else true

is_uncongested : CongestionState → Bool
is_uncongested CongestionState.uncongested = true
is_uncongested _ = false

pub is_invalid : CongestionState → Bool
is_invalid CongestionState.invalid = true
is_invalid _ = false

module _ (d : Doubles) where
  open d use {
    Num, lt, eq, add, mul, best_congested_rate_limit, best_uncongested_rate_limit,
    multiplicative_decrease_delta, additive_increase_delta,
  }

  pub record CongestionControl : Type 0 where
    pub servers : List ServerId
    pub states : ServerArray CongestionState
    pub congested_at : ServerArray ℕ
    pub congestion_responded_at : ServerArray ℕ
    pub cc_rate_limits : ServerArray Num

  pub init : CongestionControl
  init = record {
    servers = [];
    states = λ _. CongestionState.uncongested;
    congested_at = λ _. 0;
    congestion_responded_at = λ _. 0;
    cc_rate_limits = λ _. best_uncongested_rate_limit;
  }

  -- `std::min(a, b)` and `std::max(a, b)`.
  pub std_min : Num → Num → Num
  std_min a b = if lt b a then b else a

  pub std_max : Num → Num → Num
  std_max a b = if lt a b then b else a

  pub add_server : CongestionControl → ServerId → CongestionControl × Status (Unit {0})
  add_server c id =
      if ltb id k_num_max_servers
      then (if contains c.servers id
          then (c, err Error.ealready)
          else (record c { servers = insert id c.servers }, ok tt))
      else (c, fault)

  -- One additive step, up to the best limit.
  pub raise_limit : Num → Num
  unfolding std_min
  raise_limit r =
      if eq r best_uncongested_rate_limit
      then r
      else std_min best_uncongested_rate_limit (add r additive_increase_delta)

  -- The new limit of a server, by the state that `UpdateServerRateLimit` reads; `now` is the time of the reaction, if any.
  pub limit_step : CongestionControl → ServerId → ℕ → CongestionState → CongestionControl
  unfolding std_max
  limit_step c id now CongestionState.uncongested = record c {
    cc_rate_limits = put c.cc_rate_limits id (raise_limit (c.cc_rate_limits id));
  }
  limit_step c id now CongestionState.congested_unstable = record c {
    cc_rate_limits = put c.cc_rate_limits id (raise_limit (c.cc_rate_limits id));
  }
  limit_step c id now CongestionState.congested =
      if eq (c.cc_rate_limits id) best_congested_rate_limit
      then c
      else if is_reaction_due (c.congestion_responded_at id) (c.congested_at id)
      then record c {
        cc_rate_limits = put c.cc_rate_limits id (
            std_max best_congested_rate_limit
              (mul (c.cc_rate_limits id) multiplicative_decrease_delta));
        congestion_responded_at = put c.congestion_responded_at id now;
      }
      else c
  limit_step c id now _ = c

  -- `UpdateServerRateLimit`. The pointer to a server's telemetry stream, which it follows, is set when
  -- the server is added, and null before.
  pub update_server_rate_limit : CongestionControl → ServerId → ℕ → Status CongestionControl
  update_server_rate_limit c id now = do
    check (ltb id k_num_max_servers)
    check (contains c.servers id)
    ok (limit_step c id now (c.states id))

  -- The state and the time of the signal, as both branches of `SignalCongested` write them.
  pub mark_congested : CongestionControl → ServerId → ℕ → CongestionControl
  mark_congested c id at = record c {
    states = put c.states id CongestionState.congested;
    congested_at = put c.congested_at id at;
  }

  -- `SignalCongested`. `seen` is the state read before the lock is taken, which may be out of date.
  pub signal_congested :
      CongestionControl → CongestionState → ServerId → ℕ → ℕ → Status CongestionControl
  signal_congested c seen id at now = do
    check (ltb id k_num_max_servers)
    if is_uncongested seen
        then (if is_uncongested (c.states id)
            then update_server_rate_limit (mark_congested c id at) id now
            else ok c)
        else ok (mark_congested c id at)

  -- `SetCongestionState` writes over the invalid state only.
  unfoldable pub set_congestion_state :
      CongestionControl → ServerId → CongestionState → Status CongestionControl
  set_congestion_state c id state = do
    check (ltb id k_num_max_servers)
    if is_invalid (c.states id) then ok (record c { states = put c.states id state }) else ok c

  -- The loop of `UpdateAllServers`, which the worker runs once per window.
  pub update_servers : CongestionControl → List ServerId → (ServerId → ℕ) → Status CongestionControl
  update_servers c [] now = ok c
  update_servers c (id ∷ ids) now = do
    c' ← update_server_rate_limit c id (now id)
    update_servers (record c' { states = put c'.states id CongestionState.invalid }) ids now

  pub update_all_servers : CongestionControl → (ServerId → ℕ) → Status CongestionControl
  unfolding update_servers
  update_all_servers c now = update_servers c c.servers now

  pub get_rate_limit : CongestionControl → ServerId → Status Num
  get_rate_limit c id = do check (ltb id k_num_max_servers); ok (c.cc_rate_limits id)
