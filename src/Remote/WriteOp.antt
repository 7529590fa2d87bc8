-- ===== src/Remote/WriteOp.antt =====
-- virtual_disk/virtual_disk_remote.cc: ProcessWriteOp, the threads of a write with their one retry.
pub mod Accepted
use sandook.Base.{
  ◌||◌, ℕ, zero, suc, ◌+◌, ◌-◌, ◌*◌, ◌%◌, Bool, true, false, not, if◌then◌else◌, ◌==◌, List, [],
  ◌∷◌, ◌++◌, Option, none, some,
}
use sandook.Status.{Status, ok, err, fault, Error}
use sandook.Types.{
  ServerId, ServerBlockInfo, ServerReplicaBlockInfo, ServerReplicaBlockInfoList, IoDesc, OpType,
  get_op, k_invalid_server_id, k_device_alignment, u32_mod, u64_mod,
}
use sandook.Selection.{ServerSet, ServerReplicaList, contains, insert}
use sandook.Resolver.{BlockResolver, add_mapping, resolve_block}
use sandook.DiskServer.{StorageOpMsg, StorageOpReplyMsg}
use sandook.Remote.{Client, handle_storage_op_reply}
use sandook.Remote.Disk.{
  Services, VirtualDisk, at_block, with_world, process_storage_op, get_blocks, allocate_from,
}

-- What a thread of a write has still to do: send its message, or deal with its refusal. `faulted` is a
-- thread that has stopped the program.
pub data WriteThread : Type 0 where
  starts : ServerBlockInfo → WriteThread
  refused joined faulted : WriteThread

module _ {W : Type 0} (s : Services W) (affinity : ServerId) where
  abbrev Disk : Type 0
  Disk = VirtualDisk s affinity

  module _ (process_request : Disk → IoDesc → Option (Status ℕ × Disk)) where
    count_write_error : Disk → Error → Disk
    count_write_error d Error.erofs = record d { num_write_rejections = d.num_write_rejections + 1 }
    count_write_error d _ = record d { num_write_retries = d.num_write_retries + 1 }

    after_write_reply : Disk → Status ℕ → WriteThread × Disk
    unfolding count_write_error
    after_write_reply d (ok res) = (joined, d)
    after_write_reply d (err e) = (refused, count_write_error d e)
    after_write_reply d fault = (faulted, d)

    after_write_call : ServerId → Status (Option StorageOpReplyMsg) × Disk → WriteThread × Disk
    unfolding after_write_reply
    after_write_call id (err e, d) = (joined, d)
    after_write_call id (fault, d) = (faulted, d)
    after_write_call id (ok reply, d) =
        let (res, c) = handle_storage_op_reply s.signal_congested affinity d.client reply id in
        after_write_reply (record d { client = c }) res

    after_retry : Option (Status ℕ × Disk) → Option (WriteThread × Bool × Disk)
    after_retry none = none
    after_retry (some (fault, d)) = some (faulted, true, d)
    after_retry (some (_, d)) = some (joined, true, d)

    -- A thread of `ProcessWriteOp` up to its exchange of `is_retrying`, or from there on.
    pub thread_step : IoDesc → WriteThread → Bool → Disk → Option (WriteThread × Bool × Disk)
    unfolding after_write_call process_storage_op after_retry
    thread_step iod (starts info) is_retrying d =
        if contains d.servers info.server_id
        then (let (t, d') =
              after_write_call info.server_id
                (process_storage_op s affinity d info.server_id (at_block iod info)) in
            some (t, is_retrying, d'))
        else some (faulted, is_retrying, d)
    thread_step iod refused true d = some (joined, true, d)
    thread_step iod refused false d = after_retry (process_request d iod)
    thread_step iod joined is_retrying d = some (joined, is_retrying, d)
    thread_step iod faulted is_retrying d = some (faulted, is_retrying, d)

    -- The threads of a write, `is_retrying` and the disk.
    pub record Writing : Type 0 where
      pub front : WriteThread
      pub back : WriteThread
      pub is_retrying : Bool
      pub disk : Disk

    set_front : Writing → Option (WriteThread × Bool × Disk) → Option Writing
    set_front w none = none
    set_front w (some (t, b, d)) = some (record w { front = t; is_retrying = b; disk = d })

    set_back : Writing → Option (WriteThread × Bool × Disk) → Option Writing
    set_back w none = none
    set_back w (some (t, b, d)) = some (record w { back = t; is_retrying = b; disk = d })

    -- A step of the first thread, or of the second one.
    pub write_step : IoDesc → Bool → Writing → Option Writing
    unfolding thread_step set_front set_back
    write_step iod true w = set_front w (thread_step iod w.front w.is_retrying w.disk)
    write_step iod false w = set_back w (thread_step iod w.back w.is_retrying w.disk)

    after_step : (Writing → Option Writing) → Option Writing → Option Writing
    after_step rest none = none
    after_step rest (some w) = rest w

    pub run_threads : IoDesc → List Bool → Writing → Option Writing
    unfolding write_step after_step
    run_threads iod [] w = some w
    run_threads iod (first ∷ order) w = after_step (run_threads iod order) (write_step iod first w)

    is_faulted : WriteThread → Bool
    is_faulted faulted = true
    is_faulted _ = false

    -- The result once the threads are joined.
    write_result : IoDesc → Option Writing → Option (Status ℕ × Disk)
    unfolding is_faulted
    write_result iod none = none
    write_result iod (some w) =
        if is_faulted w.front || is_faulted w.back
        then some (fault, w.disk)
        else some (ok (iod.num_sectors * k_device_alignment % u32_mod), w.disk)

    -- `ProcessWriteOp`. The threads take their steps as `order` says, and then until they are joined; two
    -- steps end a thread.
    unfoldable pub process_write_op :
        List Bool → ServerReplicaBlockInfoList → IoDesc → Disk → Option (Status ℕ × Disk)
    unfolding run_threads write_result
    process_write_op order blks iod d = write_result iod (
        run_threads iod (order ++ true ∷ true ∷ false ∷ false ∷ []) (record {
          front = starts blks.front.info;
          back = starts blks.back.info;
          is_retrying = false;
          disk = d;
        }))
