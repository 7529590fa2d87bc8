-- ===== src/DiskServer.antt =====
-- disk_server/disk_conn_handler.cc and disk_server/storage_server.h: how a disk server answers a storage
-- operation. The virtual call that runs it on the device is a parameter; data is not modelled, only its
-- size.
pub mod Answers
mod Tests
use sandook.Base.{ℕ, ◌+◌, ◌*◌, ◌%◌, ◌≡◌, Bool, true, false, not, ◌&&◌, if◌then◌else◌, ◌==◌}
use sandook.Status.{Status, ok, err, fault, Error}
use sandook.Types.{
  ServerId, IoDesc, OpType, get_op, k_invalid_server_id, k_device_alignment, u32_mod,
}
use sandook.Counter.{inc_local}
use sandook.Monitor.{Ratios, DiskMonitor, is_congested, is_allowing_writes}

pub data StorageOpReplyCode : Type 0 where
  success failure reject_mode_mismatch reject_device_busy success_congested : StorageOpReplyCode

pub record StorageOpMsg : Type 0 where
  pub iod : IoDesc
  pub req_id : ℕ
  pub affinity : ServerId

-- The reply message, with the size of the data after it.
pub record StorageOpReplyMsg : Type 0 where
  pub iod : IoDesc
  pub req_id : ℕ
  pub code : StorageOpReplyCode
  pub res : ℕ
  pub reply_payload_size : ℕ

pub is_write : OpType → Bool
is_write OpType.write = true
is_write _ = false

-- `StorageServer::GetMsgResponseSize`; the shift is one of 32-bit words.
pub get_msg_response_size : StorageOpMsg → ℕ
get_msg_response_size msg = elim (get_op msg.iod) [
  | OpType.read ↦ msg.iod.num_sectors * k_device_alignment % u32_mod
  | _ ↦ 0
]

module _ (r : Ratios) where
  -- `StorageServer::HandleRejection`.
  pub handle_rejection : DiskMonitor r → ℕ → OpType → DiskMonitor r
  handle_rejection m cpu OpType.read = record m {
    counters = record m.counters { rejected_reads = inc_local m.counters.rejected_reads cpu 1 };
  }
  handle_rejection m cpu OpType.write = record m {
    counters = record m.counters { rejected_writes = inc_local m.counters.rejected_writes cpu 1 };
  }
  handle_rejection m cpu _ = m

  pub reject_storage_op :
      DiskMonitor r → ℕ → StorageOpMsg → StorageOpReplyCode → StorageOpReplyMsg × DiskMonitor r
  unfolding handle_rejection
  reject_storage_op m cpu msg code = (
    record { iod = msg.iod; req_id = msg.req_id; code = code; res = 0; reply_payload_size = 0 },
    handle_rejection m cpu (get_op msg.iod),
  )

  -- The reply to an operation that the device has run.
  pub reply_of : StorageOpMsg → Status ℕ × DiskMonitor r → Status StorageOpReplyMsg × DiskMonitor r
  reply_of msg (ok ret, m) = (
    ok (record {
      iod = msg.iod;
      req_id = msg.req_id;
      code =
          if is_congested r m
          then StorageOpReplyCode.success_congested
          else StorageOpReplyCode.success;
      res = ret;
      reply_payload_size = get_msg_response_size msg;
    }),
    m,
  )
  reply_of msg (err e, m) = (err e, m)
  reply_of msg (fault, m) = (fault, m)

  pub handle_storage_op :
      (DiskMonitor r → StorageOpMsg → Status ℕ × DiskMonitor r)
      → DiskMonitor r
      → ℕ
      → ℕ
      → StorageOpMsg
      → Status StorageOpReplyMsg × DiskMonitor r
  handle_storage_op serve m cpu now msg =
      if msg.affinity == k_invalid_server_id
        && (is_write (get_op msg.iod) && not (is_allowing_writes r m now))
      then (let (reply, m') = reject_storage_op m cpu msg StorageOpReplyCode.reject_mode_mismatch in
          (ok reply, m'))
      else reply_of msg (serve m msg)
