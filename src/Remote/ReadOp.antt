-- ===== src/Remote/ReadOp.antt =====
-- virtual_disk/virtual_disk_remote.cc: ProcessReadOp, the loops of a read over the replicas.
pub mod Replicas
pub mod Answers
pub mod Servers
pub mod Success
use sandook.Base.{
  ℕ, zero, suc, ◌+◌, ◌-◌, ◌*◌, ◌%◌, Bool, true, false, not, if◌then◌else◌, ◌==◌, List, [], ◌∷◌,
  ◌++◌, Option, none, some,
}
use sandook.Status.{Status, ok, err, fault, Error}
use sandook.Types.{
  ServerId, ServerBlockInfo, ServerReplicaBlockInfo, ServerReplicaBlockInfoList, IoDesc, OpType,
  get_op, k_invalid_server_id, k_device_alignment, u32_mod, u64_mod,
}
use sandook.Selection.{ServerSet, ServerReplicaList, contains, insert}
use sandook.Resolver.{BlockResolver, add_mapping, resolve_block}
use sandook.DiskServer.{StorageOpMsg, StorageOpReplyMsg}
use sandook.Remote.{Client, handle_storage_op_reply}
use sandook.Remote.Disk.{
  Services, VirtualDisk, at_block, with_world, process_storage_op, get_blocks, allocate_from,
}

-- The set of the replicas' servers.
pub server_ids : ServerReplicaBlockInfoList → ServerSet
server_ids blks =
    let a = blks.front.info.server_id in
    let b = blks.back.info.server_id in if a == b then a ∷ [] else insert a (b ∷ [])

-- `std::set::erase`.
pub erase : ServerId → ServerSet → ServerSet
erase a [] = []
erase a (x ∷ xs) = let rest = erase a xs in if x == a then xs else x ∷ rest

-- The first replica on a server.
unfoldable pub find_info : ServerReplicaBlockInfoList → ServerId → Option ServerBlockInfo
find_info blks id =
    if blks.front.info.server_id == id
    then some blks.front.info
    else if blks.back.info.server_id == id
    then some blks.back.info
    else none

-- How an attempt to read ends.
pub data ReadStep : Type 0 where
  returns : Status ℕ → ReadStep
  resolves_again : ReadStep
  tries : ServerSet → ReadStep

module _ {W : Type 0} (s : Services W) (affinity : ServerId) where
  abbrev Disk : Type 0
  Disk = VirtualDisk s affinity

  -- `sleep` is `rt::Sleep` with what the other threads of the disk do meanwhile.
  module _ (sleep : Disk → Disk) where
    count_read_error : Disk → Error → Disk
    count_read_error d Error.ebusy = record d { num_read_rejections = d.num_read_rejections + 1 }
    count_read_error d _ = record d { num_read_retries = d.num_read_retries + 1 }

    -- What a read makes of the reply of server `id`.
    after_reply : ServerSet → ServerId → Disk → Status ℕ → ReadStep × Disk
    unfolding count_read_error erase
    after_reply ids id d (ok res) = (returns (ok res), d)
    after_reply ids id d (err e) = (tries (erase id ids), count_read_error d e)
    after_reply ids id d fault = (returns fault, d)

    after_call : ServerSet → ServerId → Status (Option StorageOpReplyMsg) × Disk → ReadStep × Disk
    unfolding after_reply erase
    after_call ids id (err e, d) =
        (tries (erase id ids), sleep (record d { num_read_retries = d.num_read_retries + 1 }))
    after_call ids id (fault, d) = (returns fault, d)
    after_call ids id (ok reply, d) =
        let (res, c) = handle_storage_op_reply s.signal_congested affinity d.client reply id in
        after_reply ids id (record d { client = c }) res

    -- The attempt at the server that was selected.
    read_from : ServerReplicaBlockInfoList → ServerSet → IoDesc → Disk → ServerId → ReadStep × Disk
    unfolding after_call process_storage_op find_info
    read_from blks ids iod d id =
        if contains d.servers id
        then elim (find_info blks id) [
          | some info ↦ after_call ids id (process_storage_op s affinity d id (at_block iod info))
          | none ↦ (returns fault, d)
        ]
        else (returns fault, d)

    -- What follows the selection of a server.
    after_selection :
        ServerReplicaBlockInfoList → ServerSet → IoDesc → Disk → Status ServerId → ReadStep × Disk
    unfolding read_from
    after_selection blks ids iod d (ok id) = read_from blks ids iod d id
    after_selection blks ids iod d (err e) = (resolves_again, sleep d)
    after_selection blks ids iod d fault = (returns fault, d)

    -- One round of the inner loop of `ProcessReadOp`. The descriptor keeps the address in the volume,
    -- which the source puts back at the start of a round.
    pub read_attempt : ServerReplicaBlockInfoList → ServerSet → IoDesc → Disk → ReadStep × Disk
    unfolding after_selection
    read_attempt blks ids iod d =
        let (selected, w) = s.select_read_server d.client.sched ids iod in
        after_selection blks ids iod (with_world s affinity d w) selected

    module _ (process_request : Disk → IoDesc → Option (Status ℕ × Disk)) where
      -- Where the loop goes after a round: it returns, starts the request anew, or goes on.
      after_attempt :
          (ServerSet → Disk → Option (Status ℕ × Disk))
          → IoDesc
          → ReadStep
          → Disk
          → Option (Status ℕ × Disk)
      after_attempt goes_on iod (returns res) d = some (res, d)
      after_attempt goes_on iod resolves_again d = process_request d iod
      after_attempt goes_on iod (tries ids) d = goes_on ids d

      -- Both loops of `ProcessReadOp`, for `k` rounds; the request that it starts anew is an argument.
      unfoldable pub read_loop :
          ServerReplicaBlockInfoList → IoDesc → ℕ → ServerSet → Disk → Option (Status ℕ × Disk)
      unfolding read_attempt server_ids after_attempt
      read_loop blks iod zero ids d = none
      read_loop blks iod (suc k) [] d = read_loop blks iod k (server_ids blks) (sleep d)
      read_loop blks iod (suc k) (x ∷ xs) d =
          let (step, d') = read_attempt blks (x ∷ xs) iod d in
          after_attempt (read_loop blks iod k) iod step d'

      unfoldable pub process_read_op :
          ℕ → ServerReplicaBlockInfoList → IoDesc → Disk → Option (Status ℕ × Disk)
      unfolding read_loop
      process_read_op k blks iod d = read_loop blks iod k (server_ids blks) d
