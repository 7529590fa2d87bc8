-- ===== src/Controller.antt =====
-- controller/controller_agent.h and controller_agent.cc, with what they keep of controller/server_desc.h
-- and controller/volume_desc.h. A string is a list of bytes. Each call is one step.
pub mod History
pub mod Runs
mod Tests
use sandook.Base.{
  ℕ, zero, suc, ◌+◌, ◌%◌, Bool, true, false, ◌||◌, if◌then◌else◌, ltb, ◌==◌, List, [], ◌∷◌,
}
use sandook.Status.{Status, Error, ok, err, fault, ◌>>=◌, ◌>>◌, check}
use sandook.Types.{
  ServerId, VolumeId, ServerMode, ServerStats, ServerBlockInfo, k_num_max_servers,
  k_num_max_volumes, k_invalid_server_id, u32_mod,
}
use sandook.Allocator.{BlockAllocator, empty_allocator, allocate_batch}
use sandook.Allocator
use sandook.ControlPlane.Stats.{
  DataPlaneServerStats, update_server_stats, commit_server_mode, get_server_stats,
  get_data_plane_server_stats, calculate_load,
}
use sandook.ControlPlane.Policies.{Policy, Ambient}
use sandook.ControlPlane.{Scheduler, update}
use sandook.ControlPlane

pub record ServerDesc : Type 0 where
  pub id : ServerId
  pub ip : List ℕ
  pub port : ℕ
  pub name : List ℕ
  pub nsectors : ℕ

pub record VolumeDesc : Type 0 where
  pub id : VolumeId
  pub ip : List ℕ
  pub port : ℕ
  pub nsectors : ℕ

pub record ControllerAgent (S W : Type 0) : Type 0 where
  pub next_server_id : ServerId
  pub servers : List (ServerId × ServerDesc)
  pub vol_id : VolumeId
  pub vols : List (VolumeId × VolumeDesc)
  pub blk_alloc : BlockAllocator
  pub sched : Scheduler S W

-- `find` of a map.
unfoldable pub has_key : {A : Type 0} → List (ℕ × A) → ℕ → Bool
has_key [] k = false
has_key ((j, a) ∷ kvs) k = j == k || has_key kvs k

-- `try_emplace`, whose failure is `EINVAL`.
unfoldable pub try_emplace : {A : Type 0} → List (ℕ × A) → ℕ → A → Status (List (ℕ × A))
unfolding has_key
try_emplace kvs k a = if has_key kvs k then err Error.einval else ok ((k, a) ∷ kvs)

-- The errors that the callee returns become `EINVAL`.
unfoldable pub to_einval : {A : Type 0} → Status A → Status A
to_einval (ok a) = ok a
to_einval (err e) = err Error.einval
to_einval fault = fault

module _ {S W : Type 0} (policy : Policy S W) where
  unfoldable pub init : S → ControllerAgent S W
  init s = record {
    next_server_id = 1;
    servers = [];
    vol_id = 1;
    vols = [];
    blk_alloc = empty_allocator;
    sched = ControlPlane.init policy s;
  }

  -- The result with the agent after the call, which keeps what was done before an error.
  unfoldable pub register_server :
      W → W → ControllerAgent S W → List ℕ → ℕ → List ℕ → ℕ → Status ServerId × ControllerAgent S W
  unfolding to_einval try_emplace
  register_server zero_weight default_weight a ip port name n_sectors =
      let server_id = a.next_server_id in
      let a₁ : ControllerAgent S W = record a { next_server_id = (server_id + 1) % u32_mod } in
      elim (check (ltb server_id k_num_max_servers)
        >> to_einval (Allocator.add_server a₁.blk_alloc server_id n_sectors)) [
          | fault ↦ (fault, a₁)
          | err e ↦ (err e, a₁)
          | ok blk_alloc ↦
              let a₂ : ControllerAgent S W = record a₁ { blk_alloc = blk_alloc } in
              elim (to_einval
                (ControlPlane.add_server policy zero_weight default_weight a₂.sched server_id)) [
                  | fault ↦ (fault, a₂)
                  | err e ↦ (err e, a₂)
                  | ok sched ↦
                      let a₃ : ControllerAgent S W = record a₂ { sched = sched } in
                      elim (try_emplace a₃.servers server_id (record {
                        id = server_id;
                        ip = ip;
                        port = port;
                        name = name;
                        nsectors = n_sectors;
                      })) [
                        | fault ↦ (fault, a₃)
                        | err e ↦ (err e, a₃)
                        | ok servers ↦ (ok server_id, record a₃ { servers = servers })
                      ]
                ]
        ]

  unfoldable pub register_volume :
      ControllerAgent S W → List ℕ → ℕ → ℕ → Status VolumeId × ControllerAgent S W
  unfolding try_emplace
  register_volume a ip port n_sectors =
      let vol_id = a.vol_id in
      let a₁ : ControllerAgent S W = record a { vol_id = (vol_id + 1) % u32_mod } in
      elim (check (ltb vol_id k_num_max_volumes)
        >> try_emplace a₁.vols vol_id
            (record { id = vol_id; ip = ip; port = port; nsectors = n_sectors })) [
              | fault ↦ (fault, a₁)
              | err e ↦ (err e, a₁)
              | ok vols ↦ (ok vol_id, record a₁ { vols = vols })
            ]

  unfoldable pub report_server_stats :
      ControllerAgent S W → ServerId → ServerStats W → Status (ControllerAgent S W)
  report_server_stats a id stats = do
    check (has_key a.servers id)
    m ← update_server_stats a.sched.stats_mgr id stats false true
    ok (record a { sched = record a.sched { stats_mgr = m } })

  unfoldable pub commit_mode :
      ControllerAgent S W → ServerId → ServerMode → Status (ControllerAgent S W)
  commit_mode a id mode = do
    check (has_key a.servers id)
    m ← commit_server_mode a.sched.stats_mgr id mode
    ok (record a { sched = record a.sched { stats_mgr = m } })

  unfoldable pub list_server_stats : ControllerAgent S W → Status (List (ServerStats W))
  list_server_stats a = get_server_stats a.sched.stats_mgr

  unfoldable pub data_plane_server_stats :
      ControllerAgent S W → ServerId → Status (DataPlaneServerStats W)
  data_plane_server_stats a id = get_data_plane_server_stats a.sched.stats_mgr id

  unfoldable pub allocate_batch_of :
      ControllerAgent S W → ServerId → Status (List ServerBlockInfo × ControllerAgent S W)
  allocate_batch_of a id = do
    (blks, b) ← allocate_batch a.blk_alloc id
    ok (blks, record a { blk_alloc = b })

  -- The rounds of the scheduler's threads.
  unfoldable pub update_round : ControllerAgent S W → Ambient W → Status (ControllerAgent S W)
  update_round a env = do sched ← update policy a.sched env; ok (record a { sched = sched })

  unfoldable pub load_round : (ℕ → ℕ) → ControllerAgent S W → ControllerAgent S W
  load_round scaled a = record a {
    sched = record a.sched { stats_mgr = calculate_load scaled a.sched.stats_mgr };
  }
