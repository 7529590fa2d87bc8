-- ===== src/Remote/Requests.antt =====
-- virtual_disk/virtual_disk_remote.cc: ProcessRequest, which reads and writes start anew to try again.
-- `none` is a request that has not ended within its fuel.
pub mod Reads
mod Tests
pub mod Writes
use sandook.Base.{
  ℕ, zero, suc, ◌+◌, ◌-◌, ◌*◌, ◌%◌, Bool, true, false, not, if◌then◌else◌, ◌==◌, List, [], ◌∷◌,
  ◌++◌, Option, none, some,
}
use sandook.Status.{Status, ok, err, fault, Error}
use sandook.Types.{
  ServerId, ServerBlockInfo, ServerReplicaBlockInfo, ServerReplicaBlockInfoList, IoDesc, OpType,
  get_op, k_invalid_server_id, k_device_alignment, u32_mod, u64_mod,
}
use sandook.Selection.{ServerSet, ServerReplicaList, contains, insert}
use sandook.Resolver.{BlockResolver, add_mapping, resolve_block}
use sandook.DiskServer.{StorageOpMsg, StorageOpReplyMsg}
use sandook.Remote.{Client, handle_storage_op_reply}
use sandook.Remote.Disk.{
  Services, VirtualDisk, at_block, with_world, process_storage_op, get_blocks, allocate_from,
}
use sandook.Remote.ReadOp.{process_read_op}
use sandook.Remote.WriteOp.{process_write_op}

module _ {W : Type 0} (s : Services W) (affinity : ServerId) where
  abbrev Disk : Type 0
  Disk = VirtualDisk s affinity

  module _ (sleep : Disk → Disk) where
    -- The write of the blocks that were taken, or the error of taking them.
    write_blocks :
        (Disk → IoDesc → Option (Status ℕ × Disk))
        → List Bool
        → IoDesc
        → Status ServerReplicaBlockInfoList × Disk
        → Option (Status ℕ × Disk)
    unfolding process_write_op
    write_blocks retry order iod (err e, d) = some (err e, d)
    write_blocks retry order iod (fault, d) = some (fault, d)
    write_blocks retry order iod (ok blks, d) = elim (add_mapping d.blk_res iod.start_sector blks) [
      | err e ↦ some (err e, d)
      | fault ↦ some (fault, d)
      | ok r ↦ process_write_op s affinity retry order blks iod (record d { blk_res = r })
    ]

    -- The read of the blocks that were resolved.
    read_blocks :
        (Disk → IoDesc → Option (Status ℕ × Disk))
        → ℕ
        → IoDesc
        → Disk
        → Status ServerReplicaBlockInfoList
        → Option (Status ℕ × Disk)
    unfolding process_read_op
    read_blocks retry k iod d (err e) = some (err e, d)
    read_blocks retry k iod d fault = some (fault, d)
    read_blocks retry k iod d (ok blks) = process_read_op s affinity sleep retry k blks iod d

    -- The switch on the operation. A read gets `n` rounds, and `order` is that of the threads of a write.
    -- The end of the sectors to allocate is computed with 64-bit words.
    process_op :
        (Disk → IoDesc → Option (Status ℕ × Disk))
        → List Bool
        → ℕ
        → Disk
        → IoDesc
        → OpType
        → Option (Status ℕ × Disk)
    unfolding write_blocks read_blocks
    process_op retry order n d iod OpType.read =
        read_blocks retry n iod d (resolve_block d.blk_res iod.start_sector)
    process_op retry order n d iod OpType.write =
        write_blocks retry order iod (get_blocks s affinity d iod true)
    process_op retry order n d iod OpType.allocate = some (
        allocate_from s affinity iod
          ((iod.start_sector + iod.num_sectors) % u64_mod - iod.start_sector) iod.start_sector d)
    process_op retry order n d iod _ = some (err Error.einval, d)

    -- `ProcessRequest`, which may be started anew `n` times; each of its reads gets as many rounds as
    -- there are restarts left.
    pub process_request : (ℕ → List Bool) → ℕ → Disk → IoDesc → Option (Status ℕ × Disk)
    unfolding process_op
    process_request order zero d iod = none
    process_request order (suc n) d iod =
        process_op (process_request order n) (order n) n d iod (get_op iod)
