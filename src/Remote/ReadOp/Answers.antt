-- ===== src/Remote/ReadOp/Answers.antt =====
-- What a server answers to a read.
use sandook.Base.{◌≡◌, refl, ◌⊎◌, inl, inr, ◌≢◌, Option, none, some, if◌then◌else◌}
use sandook.Status.{ok, err, Error}
use sandook.Types.{ServerId, OpType, get_op}
use sandook.DiskServer.{StorageOpReplyMsg, StorageOpReplyCode}
use sandook.Remote.{
  Client, handle_storage_op_reply, op_reply, read_reply, is_success_congested, signal_unless_affine,
}

-- A reply that gives the result of a read.
abbrev pub IsGood : StorageOpReplyMsg → Type 0
IsGood reply =
    (reply.code ≡ StorageOpReplyCode.success) ⊎ (reply.code ≡ StorageOpReplyCode.success_congested)

-- What a server may answer to a read: nothing, a reply that is too short, or a reply for a read that is not
-- a rejection because of the server's mode.
abbrev pub IsAnswer : Option StorageOpReplyMsg → Type 0
IsAnswer none = Unit
IsAnswer (some reply) =
    (get_op reply.iod ≡ OpType.read) × (reply.code ≢ StorageOpReplyCode.reject_mode_mismatch)

module _ {S : Type 0} (signal_congested : S → ServerId → S) (affinity : ServerId) where
  read_reply-IsGood :
      (c : Client signal_congested affinity) (reply : StorageOpReplyMsg) (id : ServerId)
      (code : StorageOpReplyCode)
      → code ≢ StorageOpReplyCode.reject_mode_mismatch
      → let r = (read_reply signal_congested affinity c reply id code).0 in
        ((r ≡ ok reply.res)
          × ((code ≡ StorageOpReplyCode.success) ⊎ (code ≡ StorageOpReplyCode.success_congested)))
        ⊎ ((e : Error) × (r ≡ err e)
            × ¬ (
                (code ≡ StorageOpReplyCode.success)
                ⊎ (code ≡ StorageOpReplyCode.success_congested)))
  unfolding read_reply
  read_reply-IsGood c reply id StorageOpReplyCode.success n = inl (refl, inl refl)
  read_reply-IsGood c reply id StorageOpReplyCode.success_congested n = inl (refl, inr refl)
  read_reply-IsGood c reply id StorageOpReplyCode.reject_device_busy n =
      inr (Error.ebusy, refl, λ h. elim h [ inl p ↦ cc | inr p ↦ cc ])
  read_reply-IsGood c reply id StorageOpReplyCode.failure n =
      inr (Error.einval, refl, λ h. elim h [ inl p ↦ cc | inr p ↦ cc ])
  read_reply-IsGood c reply id StorageOpReplyCode.reject_mode_mismatch n = absurd (n refl)

  pub handle_storage_op_reply-IsGood :
      (c : Client signal_congested affinity) (reply : StorageOpReplyMsg) (id : ServerId)
      → get_op reply.iod ≡ OpType.read
      → reply.code ≢ StorageOpReplyCode.reject_mode_mismatch
      → let r = (handle_storage_op_reply signal_congested affinity c (some reply) id).0 in
        ((r ≡ ok reply.res) × IsGood reply) ⊎ ((e : Error) × (r ≡ err e) × ¬ IsGood reply)
  unfolding handle_storage_op_reply op_reply
  handle_storage_op_reply-IsGood c reply id h n = rw h (
      read_reply-IsGood
        (if is_success_congested reply.code
          then signal_unless_affine signal_congested affinity c id
          else c)
        reply id reply.code n)
