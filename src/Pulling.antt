-- ===== src/Pulling.antt =====
-- The pull of statistics, over which a virtual disk learns the modes and weights that the controller keeps:
-- HandleGetServerStats of controller/controller_conn_handler.cc, AddServerStats of base/msg.h, and
-- UpdateServerStats and HandleGetServerStatsReply of virtual_disk/virtual_disk_remote.cc.
pub mod Views
mod Tests
use sandook.Base.{ℕ, Bool, ltb, leb, List, [], ◌∷◌, ◌++◌, length}
use sandook.Status.{Status, ok, err, fault, ◌>>=◌, ◌>>◌, check}
use sandook.Types.{VolumeId, ServerStats, k_num_max_servers}
use sandook.Congestion.{Doubles}
use sandook.ControlPlane.Policies.{Policy}
use sandook.Controller.{ControllerAgent, list_server_stats}
use sandook.Routing.{ServerStatsManager, set_server_stats}

-- The array with its count of used entries is a list.
pub record GetServerStatsReplyMsg (W : Type 0) : Type 0 where
  pub vol_id : VolumeId
  pub servers : List (ServerStats W)

module _ {W : Type 0} where
  -- `AddServerStats`.
  pub add_server_stats :
      GetServerStatsReplyMsg W → ServerStats W → Status (GetServerStatsReplyMsg W)
  add_server_stats msg stats = do
    check (ltb (length msg.servers) k_num_max_servers)
    ok (record msg { servers = msg.servers ++ stats ∷ [] })

  -- The loop of `HandleGetServerStats`.
  pub add_all : GetServerStatsReplyMsg W → List (ServerStats W) → Status (GetServerStatsReplyMsg W)
  unfolding add_server_stats
  add_all msg [] = ok msg
  add_all msg (s ∷ ss) = do msg' ← add_server_stats msg s; add_all msg' ss

  pub handle_get_server_stats :
      {S : Type 0} → Policy S W → ControllerAgent S W → VolumeId → Status (GetServerStatsReplyMsg W)
  unfolding add_all
  handle_get_server_stats policy a vol_id = do
    ss ← list_server_stats policy a
    add_all (record { vol_id = vol_id; servers = [] }) ss

module _ (d : Doubles) where
  pub handle_get_server_stats_reply :
      ServerStatsManager d → GetServerStatsReplyMsg d.Num → Status (ServerStatsManager d)
  handle_get_server_stats_reply m msg = do
    check (leb (length msg.servers) k_num_max_servers)
    set_server_stats d m msg.servers

  -- An error of the handler leaves the view as it is.
  keep_view : ServerStatsManager d → Status (ServerStatsManager d) → Status (ServerStatsManager d)
  keep_view m (ok m') = ok m'
  keep_view m (err e) = ok m
  keep_view m fault = fault

  -- What `UpdateServerStats` makes of the controller's answer. An error is answered with an empty buffer,
  -- which leaves the view as it is.
  take_reply :
      ServerStatsManager d → Status (GetServerStatsReplyMsg d.Num) → Status (ServerStatsManager d)
  unfolding keep_view handle_get_server_stats_reply
  take_reply m (ok msg) = keep_view m (handle_get_server_stats_reply m msg)
  take_reply m (err e) = ok m
  take_reply m fault = fault

  -- A round of `ServerStatsUpdater`, with the controller that answers.
  pub pull :
      {S : Type 0}
      → Policy S d.Num
      → ControllerAgent S d.Num
      → VolumeId
      → ServerStatsManager d
      → Status (ServerStatsManager d)
  unfolding take_reply handle_get_server_stats handle_get_server_stats_reply
  pull policy a vol_id m = take_reply m (handle_get_server_stats policy a vol_id)
