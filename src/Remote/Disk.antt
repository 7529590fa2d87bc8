-- ===== src/Remote/Disk.antt =====
-- virtual_disk/virtual_disk_remote.cc and virtual_disk_remote.h: the state of a virtual disk, what it calls,
-- the messages that it sends, and the blocks that it takes from its caches for writes and allocations.
use sandook.Base.{ℕ, zero, suc, ◌+◌, Bool, false, if◌then◌else◌, ◌==◌, List, ◌∷◌, Option}
use sandook.Status.{◌>>=◌, Status, ok, err, fault}
use sandook.Types.{
  BlockAddr, ServerId, ServerBlockInfo, ServerReplicaBlockInfo, ServerReplicaBlockInfoList, IoDesc,
  OpType, get_op, k_invalid_server_id,
}
use sandook.Selection.{ServerSet, ServerReplicaList}
use sandook.Resolver.{BlockResolver, add_mapping}
use sandook.DiskServer.{StorageOpMsg, StorageOpReplyMsg}
use sandook.Remote.{Client}

-- What a virtual disk calls: its scheduler, its block caches and the servers. `W` is the state of all of
-- them. `call` is a call that the server answers: `RPCClient::Call` has no error result, and waits as long as
-- there is no answer. An answer that is empty or too short for a reply is `none`.
pub record Services (W : Type 0) : Type 0 where
  pub select_read_server : W → ServerSet → IoDesc → Status ServerId × W
  pub select_write_replicas : W → IoDesc → Status ServerReplicaList × W
  pub signal_congested : W → ServerId → W
  pub get_block : W → ServerId → Status ServerBlockInfo × W
  pub call : W → ServerId → StorageOpMsg → Option StorageOpReplyMsg × W

-- The descriptor with the address of a block on a server.
abbrev pub at_block : IoDesc → ServerBlockInfo → IoDesc
at_block iod info = record iod { start_sector = info.block_addr }

module _ {W : Type 0} (s : Services W) (affinity : ServerId) where
  -- `sent` is the record of the messages that this disk has sent, the last one first; no code reads it.
  -- The counters are given by their sums.
  pub record VirtualDisk : Type 0 where
    pub client : Client s.signal_congested affinity
    pub servers : ServerSet
    pub blk_res : BlockResolver
    pub num_read_rejections : ℕ
    pub num_read_retries : ℕ
    pub num_write_rejections : ℕ
    pub num_write_retries : ℕ
    pub num_reads_submitted : ℕ
    pub num_writes_submitted : ℕ
    pub sent : List (ServerId × StorageOpMsg)

  abbrev pub with_world : VirtualDisk → W → VirtualDisk
  with_world d w = record d { client = record d.client { sched = w } }

  abbrev pub message : IoDesc → StorageOpMsg
  message iod = record { iod = iod; req_id = 0; affinity = affinity }

  unfoldable pub count_submitted : VirtualDisk → OpType → VirtualDisk
  count_submitted d OpType.write = record d { num_writes_submitted = d.num_writes_submitted + 1 }
  count_submitted d _ = record d { num_reads_submitted = d.num_reads_submitted + 1 }

  -- `ProcessStorageOp`. The identifier of a request is always 0.
  unfoldable pub process_storage_op :
      VirtualDisk → ServerId → IoDesc → Status (Option StorageOpReplyMsg) × VirtualDisk
  unfolding count_submitted
  process_storage_op d id iod =
      let (resp, w) = s.call d.client.sched id (message iod) in
      let d' = count_submitted d (get_op iod) in
      (
        ok resp,
        record d' { client = record d'.client { sched = w }; sent = (id, message iod) ∷ d'.sent },
      )

  -- The entry of the array: the block that a server's cache gives.
  unfoldable pub get_replica :
      VirtualDisk → ServerId → Bool → Status ServerReplicaBlockInfo × VirtualDisk
  get_replica d id set_dirty =
      let (blk, w) = s.get_block d.client.sched id in
      (blk >>= λ b. ok (record { info = b; dirty = set_dirty }), with_world d w)

  unfoldable pub back_replica :
      Status ServerReplicaBlockInfo × VirtualDisk
      → ServerId
      → Bool
      → Status ServerReplicaBlockInfoList × VirtualDisk
  unfolding get_replica
  back_replica (err e, d) id set_dirty = (err e, d)
  back_replica (fault, d) id set_dirty = (fault, d)
  back_replica (ok front, d) id set_dirty =
      let (back, d') = get_replica d id set_dirty in
      (back >>= λ b. ok (record { front = front; back = b }), d')

  unfoldable pub get_replicas :
      VirtualDisk
      → Status ServerReplicaList
      → Bool
      → Status ServerReplicaBlockInfoList × VirtualDisk
  unfolding back_replica
  get_replicas d (ok ids) set_dirty =
      back_replica (get_replica d ids.front set_dirty) ids.back set_dirty
  get_replicas d (err e) set_dirty = (err e, d)
  get_replicas d fault set_dirty = (fault, d)

  -- `GetBlocks`, and `GetBlocksWithAffinity` for a disk that is bound to one server.
  unfoldable pub get_blocks :
      VirtualDisk → IoDesc → Bool → Status ServerReplicaBlockInfoList × VirtualDisk
  unfolding get_replicas
  get_blocks d iod set_dirty =
      if affinity == k_invalid_server_id
      then (let (ids, w) = s.select_write_replicas d.client.sched iod in
          get_replicas (with_world d w) ids set_dirty)
      else get_replicas d (ok (record { front = affinity; back = affinity })) set_dirty

  -- The mapping of a sector to the blocks that were taken.
  map_blocks :
      BlockAddr → Status ServerReplicaBlockInfoList × VirtualDisk → Status (Unit {0}) × VirtualDisk
  map_blocks sector (err e, d) = (err e, d)
  map_blocks sector (fault, d) = (fault, d)
  map_blocks sector (ok blks, d) = elim (add_mapping d.blk_res sector blks) [
    | err e ↦ (err e, d)
    | fault ↦ (fault, d)
    | ok r ↦ (ok tt, record d { blk_res = r })
  ]

  after_mapping :
      (VirtualDisk → Status ℕ × VirtualDisk)
      → Status (Unit {0}) × VirtualDisk
      → Status ℕ × VirtualDisk
  after_mapping rest (err e, d) = (err e, d)
  after_mapping rest (fault, d) = (fault, d)
  after_mapping rest (ok _, d) = rest d

  -- The loop of a request that allocates, for `k` more sectors from `sector` on.
  pub allocate_from : IoDesc → ℕ → BlockAddr → VirtualDisk → Status ℕ × VirtualDisk
  unfolding after_mapping map_blocks get_blocks
  allocate_from iod zero sector d = (ok 0, d)
  allocate_from iod (suc k) sector d =
      after_mapping (allocate_from iod k (sector + 1))
        (map_blocks sector (get_blocks d (record iod { start_sector = sector }) false))
