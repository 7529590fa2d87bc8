-- ===== src/Remote/Replies.antt =====
-- A server's answer, as its client takes it.
use sandook.Base.{
  Option, none, some, ℕ, ◌≡◌, refl, ap, ◌∙◌, arith, ◌⊎◌, inl, inr, Bool, true, false, if◌then◌else◌,
  ◌==◌,
}
use sandook.Status.{Status, ok, err, fault, Error}
use sandook.Types.{ServerId, OpType, get_op}
use sandook.Monitor.{Ratios, DiskMonitor}
use sandook.DiskServer.{
  StorageOpMsg, StorageOpReplyMsg, StorageOpReplyCode, get_msg_response_size, handle_storage_op,
}
use sandook.Monitor.Writes.{congested}
use sandook.DiskServer.Answers.{
  IsRefused, code_in, Answers, refused, served, failed, stopped, handle_storage_op-Answers,
}
use sandook.Remote.{
  response, is_success_congested, Client, signal_unless_affine, copy_payload, read_reply,
  write_reply, op_reply, handle_storage_op_reply,
}

module _ {S : Type 0} (signal_congested : S → ServerId → S) (affinity : ServerId) where
  abbrev take :
      Client signal_congested affinity
      → StorageOpReplyMsg
      → ServerId
      → Status ℕ × Client signal_congested affinity
  take c reply id = handle_storage_op_reply signal_congested affinity c (some reply) id

  -- The scheduler after a reply of a server that is congested, or is not.
  abbrev pub signalled : S → ServerId → Bool → S
  signalled s id b = if b then (if id == affinity then s else signal_congested s id) else s

  copy-sched :
      (c : Client signal_congested affinity) (reply : StorageOpReplyMsg)
      → (copy_payload signal_congested affinity c reply).sched ≡ c.sched
  unfolding copy_payload
  copy-sched c reply = ground arith

  signal-sched :
      (c : Client signal_congested affinity) (id : ServerId)
      → (signal_unless_affine signal_congested affinity c id).sched ≡ signalled c.sched id true
  unfolding signal_unless_affine
  signal-sched c id = ground arith

  op_reply-ok :
      (c : Client signal_congested affinity) (reply : StorageOpReplyMsg) (id : ServerId) (b : Bool)
      (op : OpType)
      → (op ≡ OpType.read) ⊎ (op ≡ OpType.write)
      → reply.code
        ≡ (if b then StorageOpReplyCode.success_congested else StorageOpReplyCode.success)
      → let (ret, c') = op_reply signal_congested affinity c reply id op in
        (ret ≡ ok reply.res) × (c'.sched ≡ c.sched)
  unfolding op_reply read_reply write_reply
  op_reply-ok c reply id true op (inl h) q = rw (h, q) (refl, copy-sched c reply)
  op_reply-ok c reply id false op (inl h) q = rw (h, q) (refl, copy-sched c reply)
  op_reply-ok c reply id true op (inr h) q = rw (h, q) (refl, refl)
  op_reply-ok c reply id false op (inr h) q = rw (h, q) (refl, refl)

  take-ok :
      (c : Client signal_congested affinity) (reply : StorageOpReplyMsg) (id : ServerId) (b : Bool)
      → (get_op reply.iod ≡ OpType.read) ⊎ (get_op reply.iod ≡ OpType.write)
      → reply.code
        ≡ (if b then StorageOpReplyCode.success_congested else StorageOpReplyCode.success)
      → let (ret, c') = take c reply id in
        (ret ≡ ok reply.res) × (c'.sched ≡ signalled c.sched id b)
  unfolding handle_storage_op_reply is_success_congested
  take-ok c reply id true h q =
      let (p, s) =
        op_reply-ok (signal_unless_affine signal_congested affinity c id) reply id true
          (get_op reply.iod) h q in
      rw (ap is_success_congested q) (p, s ∙ signal-sched c id)
  take-ok c reply id false h q =
      let (p, s) = op_reply-ok c reply id false (get_op reply.iod) h q in
      rw (ap is_success_congested q) (p, s)

  module _ (r : Ratios) (serve : DiskMonitor r → StorageOpMsg → Status ℕ × DiskMonitor r) where
    -- What the client makes of a server's answer to a read or a write; the server may stop instead.
    pub data Takes (c : Client signal_congested affinity) (m : DiskMonitor r) (now : ℕ)
        (msg : StorageOpMsg) (id : ServerId) : Status (Option StorageOpReplyMsg) → Type 0 where
      retries :
          (a : Option StorageOpReplyMsg)
          → IsRefused r serve m now msg
          → handle_storage_op_reply signal_congested affinity c a id ≡ (err Error.erofs, c)
          → Takes c m now msg id (ok a)
      succeeds :
          (a : Option StorageOpReplyMsg) (n : ℕ) (m' : DiskMonitor r)
          → ¬ IsRefused r serve m now msg
          → serve m msg ≡ (ok n, m')
          → (handle_storage_op_reply signal_congested affinity c a id).0 ≡ ok n
          → (handle_storage_op_reply signal_congested affinity c a id).1.sched
            ≡ signalled c.sched id (congested m'.congestion_state)
          → Takes c m now msg id (ok a)
      fails :
          (a : Option StorageOpReplyMsg) (e : Error) (m' : DiskMonitor r)
          → ¬ IsRefused r serve m now msg
          → serve m msg ≡ (err e, m')
          → handle_storage_op_reply signal_congested affinity c a id ≡ (err Error.einval, c)
          → Takes c m now msg id (ok a)
      stops :
          (m' : DiskMonitor r)
          → ¬ IsRefused r serve m now msg
          → serve m msg ≡ (fault, m')
          → Takes c m now msg id fault

    Answers-Takes :
        (c : Client signal_congested affinity) (m : DiskMonitor r) (cpu now : ℕ)
        (msg : StorageOpMsg) (id : ServerId) (a : Status StorageOpReplyMsg × DiskMonitor r)
        → (get_op msg.iod ≡ OpType.read) ⊎ (get_op msg.iod ≡ OpType.write)
        → Answers r serve m cpu now msg a
        → Takes c m now msg id (response a.0)
    unfolding response handle_storage_op_reply op_reply write_reply is_success_congested
    Answers-Takes c m cpu now msg id _ h (refused f) = retries _ f (rw f.is_a_write refl)
    Answers-Takes c m cpu now msg id _ h (served n m' f e) =
        let reply : StorageOpReplyMsg = record {
          iod = msg.iod;
          req_id = msg.req_id;
          code = code_in m'.congestion_state;
          res = n;
          reply_payload_size = get_msg_response_size msg;
        } in
        let (p, s) = take-ok c reply id (congested m'.congestion_state) h refl in
        succeeds (some reply) n m' f e p s
    Answers-Takes c m cpu now msg id _ h (failed x m' f e) = fails none x m' f e refl
    Answers-Takes c m cpu now msg id _ h (stopped m' f e) = stops m' f e

    -- A server that gets a read or a write stops only if its device stops it, and otherwise answers, and
    -- the client does not stop on the answer. If the server refuses the operation because of its mode, the
    -- client sees `EROFS` and changes nothing. If the device runs it, the client returns the device's
    -- result, and signals congestion to its scheduler if and only if the server's congestion state is
    -- congested and the server is not the one that the client has an affinity for. If the device
    -- fails, the client sees `EINVAL`.
    pub handle_storage_op_reply-Takes :
        (c : Client signal_congested affinity) (m : DiskMonitor r) (cpu now : ℕ)
        (msg : StorageOpMsg) (id : ServerId)
        → (get_op msg.iod ≡ OpType.read) ⊎ (get_op msg.iod ≡ OpType.write)
        → Takes c m now msg id (response (handle_storage_op r serve m cpu now msg).0)
    handle_storage_op_reply-Takes c m cpu now msg id h =
        Answers-Takes c m cpu now msg id (handle_storage_op r serve m cpu now msg) h
          (handle_storage_op-Answers r serve m cpu now msg)
