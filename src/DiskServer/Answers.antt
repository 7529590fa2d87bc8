-- ===== src/DiskServer/Answers.antt =====
-- Which storage operations a server refuses, and what it answers to the others.
use sandook.Base.{
  ℕ, ◌≡◌, refl, inl, inr, Bool, true, false, not, ◌&&◌, if◌then◌else◌, ◌==◌, Bool-cases, ==_iff,
}
use sandook.Status.{Status, ok, err, fault, Error}
use sandook.Types.{OpType, ServerMode, CongestionState, get_op}
use sandook.Counter.{inc_local}
use sandook.Monitor.Writes.{
  congested, is_congested_lem, not-is_allowing_writes, is_allowing_writes-refuses,
}
use sandook.Monitor.{Ratios, DiskMonitor, is_allowing_writes, is_mode_switch_grace_period}
use sandook.DiskServer.{
  StorageOpMsg, StorageOpReplyMsg, StorageOpReplyCode, is_write, get_msg_response_size,
  handle_rejection, reject_storage_op, reply_of, handle_storage_op,
}

is_write_lem : (op : OpType) → is_write op ≡ true → op ≡ OpType.write
unfolding is_write
is_write_lem OpType.write e = refl
is_write_lem OpType.read e = cc
is_write_lem OpType.flush e = cc
is_write_lem OpType.discard e = cc
is_write_lem OpType.write_same e = cc
is_write_lem OpType.write_zeroes e = cc
is_write_lem OpType.allocate e = cc
is_write_lem (OpType.other c) e = cc

-- The code of a success of a server in a congestion state.
abbrev pub code_in : CongestionState → StorageOpReplyCode
code_in s = if congested s then StorageOpReplyCode.success_congested else StorageOpReplyCode.success

module _ (r : Ratios) (serve : DiskMonitor r → StorageOpMsg → Status ℕ × DiskMonitor r) where
  -- A write without an affinity for any server, at a server that is in read mode past the grace period.
  pub record IsRefused (m : DiskMonitor r) (now : ℕ) (msg : StorageOpMsg) : Type 0 where
    pub no_affinity : msg.affinity ≡ 0
    pub is_a_write : get_op msg.iod ≡ OpType.write
    pub reading : m.mode ≡ ServerMode.read
    pub past_grace : is_mode_switch_grace_period r m now ≡ false

  -- The answers that are right, and the monitors after them.
  pub data Answers (m : DiskMonitor r) (cpu now : ℕ) (msg : StorageOpMsg)
      : Status StorageOpReplyMsg × DiskMonitor r → Type 0 where
    refused :
        IsRefused m now msg
        → Answers m cpu now msg (
          ok (record {
            iod = msg.iod;
            req_id = msg.req_id;
            code = StorageOpReplyCode.reject_mode_mismatch;
            res = 0;
            reply_payload_size = 0;
          }),
          record m {
            counters = record m.counters {
              rejected_writes = inc_local m.counters.rejected_writes cpu 1;
            };
          },
        )
    served :
        (n : ℕ) (m' : DiskMonitor r)
        → ¬ IsRefused m now msg
        → serve m msg ≡ (ok n, m')
        → Answers m cpu now msg (
          ok (record {
            iod = msg.iod;
            req_id = msg.req_id;
            code = code_in m'.congestion_state;
            res = n;
            reply_payload_size = get_msg_response_size msg;
          }),
          m',
        )
    failed :
        (e : Error) (m' : DiskMonitor r)
        → ¬ IsRefused m now msg
        → serve m msg ≡ (err e, m')
        → Answers m cpu now msg (err e, m')
    stopped :
        (m' : DiskMonitor r)
        → ¬ IsRefused m now msg
        → serve m msg ≡ (fault, m')
        → Answers m cpu now msg (fault, m')

  -- The test of the handler.
  abbrev test : DiskMonitor r → ℕ → StorageOpMsg → Bool
  test m now msg =
      msg.affinity == 0 && (is_write (get_op msg.iod) && not (is_allowing_writes r m now))

  and_true : (a b : Bool) → (a && b) ≡ true → (a ≡ true) × (b ≡ true)
  and_true true b e = (refl, e)
  and_true false b e = cc

  not-true : (b : Bool) → not b ≡ true → b ≡ false
  not-true true e = cc
  not-true false e = refl

  test-IsRefused :
      (m : DiskMonitor r) (now : ℕ) (msg : StorageOpMsg)
      → test m now msg ≡ true
      → IsRefused m now msg
  test-IsRefused m now msg e =
      let (a, bc) = and_true _ _ e in
      let (b, c) = and_true _ _ bc in
      let (p, q) = not-is_allowing_writes r m now (not-true _ c) in
      record {
        no_affinity = (==_iff msg.affinity 0).0 a;
        is_a_write = is_write_lem _ b;
        reading = p;
        past_grace = q;
      }

  IsRefused-test :
      (m : DiskMonitor r) (now : ℕ) (msg : StorageOpMsg)
      → IsRefused m now msg
      → test m now msg ≡ true
  unfolding is_write
  IsRefused-test m now msg h = rw (
    h.is_a_write,
    (==_iff msg.affinity 0).1 h.no_affinity,
    is_allowing_writes-refuses r m now h.reading h.past_grace,
  )

  reply_of-Answers :
      (m : DiskMonitor r) (cpu now : ℕ) (msg : StorageOpMsg) (s : Status ℕ × DiskMonitor r)
      → ¬ IsRefused m now msg
      → serve m msg ≡ s
      → Answers m cpu now msg (reply_of r msg s)
  unfolding reply_of
  reply_of-Answers m cpu now msg (ok n, m') h e = rw (is_congested_lem r m') (served n m' h e)
  reply_of-Answers m cpu now msg (err x, m') h e = failed x m' h e
  reply_of-Answers m cpu now msg (fault, m') h e = stopped m' h e

  reject_storage_op_lem :
      (m : DiskMonitor r) (cpu : ℕ) (msg : StorageOpMsg) (code : StorageOpReplyCode)
      → get_op msg.iod ≡ OpType.write
      → reject_storage_op r m cpu msg code ≡ (
        record { iod = msg.iod; req_id = msg.req_id; code = code; res = 0; reply_payload_size = 0 },
        record m {
          counters = record m.counters {
            rejected_writes = inc_local m.counters.rejected_writes cpu 1;
          };
        },
      )
  unfolding reject_storage_op handle_rejection
  reject_storage_op_lem m cpu msg code e = rw e

  -- A write without an affinity for any server is refused if the server is in read mode past the grace
  -- period: it is counted as rejected, and does not reach the device. Every other operation, a write with an
  -- affinity for another server among them, is run on the device, and answered with its result, as a
  -- success, or as a congested one if the server's congestion state is congested afterwards. A failure
  -- of the device is passed on.
  pub handle_storage_op-Answers :
      (m : DiskMonitor r) (cpu now : ℕ) (msg : StorageOpMsg)
      → Answers m cpu now msg (handle_storage_op r serve m cpu now msg)
  unfolding handle_storage_op
  handle_storage_op-Answers m cpu now msg = elim (Bool-cases (test m now msg)) [
    | inl e ↦
        let h = test-IsRefused m now msg e in
        rw (e, reject_storage_op_lem m cpu msg StorageOpReplyCode.reject_mode_mismatch h.is_a_write)
          (refused h)
    | inr e ↦ rw e (
        reply_of-Answers m cpu now msg (serve m msg) (λ h. cc (IsRefused-test m now msg h, e)) refl)
  ]
