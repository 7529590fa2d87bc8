-- ===== src/Remote.antt =====
-- virtual_disk/virtual_disk_remote.cc: how a client takes the reply to a storage operation. The scheduler
-- that it signals is a parameter. Data is not modelled, only which buffers it is copied to.
pub mod Replies
pub mod Disk
pub mod ReadOp
pub mod WriteOp
pub mod Requests
pub mod Collector
mod Tests
use sandook.Base.{
  ℕ, ◌*◌, ◌%◌, Bool, true, false, ◌||◌, if◌then◌else◌, ◌==◌, Option, none, some, List, ◌∷◌,
}
use sandook.Status.{Status, ok, err, fault, Error}
use sandook.Types.{ServerId, OpType, get_op, k_device_alignment, u32_mod}
use sandook.DiskServer.{StorageOpMsg, StorageOpReplyMsg, StorageOpReplyCode}

-- `DiskConnHandler::HandleMsg`: an error is answered with an empty buffer. A server that stops gives no
-- answer at all.
pub response : Status StorageOpReplyMsg → Status (Option StorageOpReplyMsg)
response (ok reply) = ok (some reply)
response (err e) = ok none
response fault = fault

is_success_congested : StorageOpReplyCode → Bool
is_success_congested StorageOpReplyCode.success_congested = true
is_success_congested _ = false

module _ {S : Type 0} (signal_congested : S → ServerId → S) (affinity : ServerId) where
  -- The scheduler, and the buffers that were written, each with its length.
  pub record Client : Type 0 where
    pub sched : S
    pub copies : List (ℕ × ℕ)

  pub signal_unless_affine : Client → ServerId → Client
  signal_unless_affine c server_id =
      if server_id == affinity then c else record c { sched = signal_congested c.sched server_id }

  -- The copy of the payload of a read.
  copy_payload : Client → StorageOpReplyMsg → Client
  copy_payload c msg =
      let len = msg.iod.num_sectors * k_device_alignment % u32_mod in
      if len == 0 || msg.iod.addr == 0
      then c
      else record c { copies = (msg.iod.addr, len) ∷ c.copies }

  read_reply : Client → StorageOpReplyMsg → ServerId → StorageOpReplyCode → Status ℕ × Client
  unfolding copy_payload signal_unless_affine
  read_reply c msg server_id StorageOpReplyCode.success = (ok msg.res, copy_payload c msg)
  read_reply c msg server_id StorageOpReplyCode.success_congested = (ok msg.res, copy_payload c msg)
  read_reply c msg server_id StorageOpReplyCode.reject_device_busy =
      (err Error.ebusy, signal_unless_affine c server_id)
  read_reply c msg server_id StorageOpReplyCode.failure = (err Error.einval, c)
  read_reply c msg server_id StorageOpReplyCode.reject_mode_mismatch = (fault, c)

  write_reply : Client → StorageOpReplyMsg → ServerId → StorageOpReplyCode → Status ℕ × Client
  unfolding signal_unless_affine
  write_reply c msg server_id StorageOpReplyCode.success = (ok msg.res, c)
  write_reply c msg server_id StorageOpReplyCode.success_congested = (ok msg.res, c)
  write_reply c msg server_id StorageOpReplyCode.reject_device_busy =
      (err Error.ebusy, signal_unless_affine c server_id)
  write_reply c msg server_id StorageOpReplyCode.reject_mode_mismatch = (err Error.erofs, c)
  write_reply c msg server_id StorageOpReplyCode.failure = (err Error.einval, c)

  -- The switch on the operation. An operation that is neither a read nor a write throws.
  op_reply : Client → StorageOpReplyMsg → ServerId → OpType → Status ℕ × Client
  unfolding read_reply write_reply
  op_reply c msg server_id OpType.read = read_reply c msg server_id msg.code
  op_reply c msg server_id OpType.write = write_reply c msg server_id msg.code
  op_reply c msg server_id _ = (fault, c)

  -- `HandleStorageOpReply`; a payload that is too short is `none`.
  pub handle_storage_op_reply : Client → Option StorageOpReplyMsg → ServerId → Status ℕ × Client
  unfolding op_reply signal_unless_affine
  handle_storage_op_reply c none server_id = (err Error.einval, c)
  handle_storage_op_reply c (some msg) server_id =
      op_reply (if is_success_congested msg.code then signal_unless_affine c server_id else c) msg
        server_id (get_op msg.iod)
