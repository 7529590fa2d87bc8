-- ===== src/Remote/WriteOp/Accepted.antt =====
-- The threads of a write that both of its servers take.
use sandook.Base.{
  ℕ, ◌*◌, ◌%◌, ◌≡◌, refl, ap, ◌∙◌, ◌⊎◌, inl, inr, Bool, true, false, if◌then◌else◌, List, [], ◌∷◌,
  ◌++◌, Option, some,
}
use sandook.Status.{Status, ok}
use sandook.Types.{
  ServerId, ServerReplicaBlockInfo, ServerReplicaBlockInfoList, IoDesc, OpType, get_op,
  k_device_alignment, u32_mod,
}
use sandook.Selection.{contains}
use sandook.DiskServer.{StorageOpMsg, StorageOpReplyMsg}
use sandook.Remote.{Client, handle_storage_op_reply, op_reply, write_reply}
use sandook.Remote.Disk.{Services, VirtualDisk, at_block, message, process_storage_op}
use sandook.Remote.WriteOp.{
  WriteThread, starts, joined, Writing, thread_step, after_write_call, after_write_reply,
  write_step, run_threads, write_result, set_front, set_back, after_step, is_faulted,
  process_write_op,
}
use sandook.Remote.ReadOp.Replicas.{process_storage_op-sends}
use sandook.Remote.ReadOp.Answers.{IsGood}

module _ {S : Type 0} (signal_congested : S → ServerId → S) (affinity : ServerId) where
  write_reply-ok :
      (c : Client signal_congested affinity) (reply : StorageOpReplyMsg) (id : ServerId)
      → get_op reply.iod ≡ OpType.write
      → IsGood reply
      → (handle_storage_op_reply signal_congested affinity c (some reply) id).0 ≡ ok reply.res
  unfolding handle_storage_op_reply op_reply write_reply
  write_reply-ok c reply id h (inl q) = rw (h, q) refl
  write_reply-ok c reply id h (inr q) = rw (h, q) refl

module _ {W : Type 0} (s : Services W) (affinity : ServerId) (iod : IoDesc) where
  -- The write of a replica, and its server.
  abbrev pub place : ServerReplicaBlockInfo → ServerId × StorageOpMsg
  place b = (b.info.server_id, message s affinity (at_block iod b.info))

  -- A server that takes the write of a replica whenever it is asked to.
  abbrev pub Takes : ServerReplicaBlockInfo → Type 0
  Takes b =
      (w : W)
      → (reply : StorageOpReplyMsg) × ((s.call w (place b).0 (place b).1).0 ≡ some reply)
        × (get_op reply.iod ≡ OpType.write)
        × IsGood reply

module _ {W : Type 0} (s : Services W) (affinity : ServerId)
    (retry : VirtualDisk s affinity → IoDesc → Option (Status ℕ × VirtualDisk s affinity))
    (iod : IoDesc) (blks : ServerReplicaBlockInfoList) (d : VirtualDisk s affinity) where
  abbrev Disk : Type 0
  Disk = VirtualDisk s affinity

  -- The disk after another message.
  pub record Sends (e e' : Disk) (m : ServerId × StorageOpMsg) : Type 0 where
    pub sent : e'.sent ≡ m ∷ e.sent
    pub servers : e'.servers ≡ e.servers
    pub blk_res : e'.blk_res ≡ e.blk_res

  after_write_reply-Sends :
      (e e' : Disk) (m : ServerId × StorageOpMsg) (c : Client s.signal_congested affinity)
      (res : Status ℕ) (n : ℕ)
      → res ≡ ok n
      → Sends e e' m
      → let r = after_write_reply s affinity retry (record e' { client = c }) res in
        (r.0 ≡ joined) × Sends e r.1 m
  unfolding after_write_reply
  after_write_reply-Sends e e' m c res n q x =
      rw q (refl, record { sent = x.sent; servers = x.servers; blk_res = x.blk_res })

  after_write_call-Sends :
      (e e' : Disk) (id : ServerId) (m : ServerId × StorageOpMsg)
      (resp : Status (Option StorageOpReplyMsg)) (reply : StorageOpReplyMsg)
      → resp ≡ ok (some reply)
      → get_op reply.iod ≡ OpType.write
      → IsGood reply
      → Sends e e' m
      → let r = after_write_call s affinity retry id (resp, e') in (r.0 ≡ joined) × Sends e r.1 m
  unfolding after_write_call
  after_write_call-Sends e e' id m resp reply q h g x =
      let y = handle_storage_op_reply s.signal_congested affinity e'.client (some reply) id in
      rw q (
        after_write_reply-Sends e e' m y.1 y.0 reply.res
          (write_reply-ok s.signal_congested affinity e'.client reply id h g) x)

  -- A thread that starts sends its write and is done.
  thread_step-Sends :
      (b : ServerReplicaBlockInfo) (e : Disk)
      → Takes s affinity iod b
      → contains e.servers b.info.server_id ≡ true
      → (e' : Disk) × (thread_step s affinity retry iod (starts b.info) false e
          ≡ some (joined, false, e'))
        × Sends e e' (place s affinity iod b)
  unfolding thread_step process_storage_op
  thread_step-Sends b e takes k =
      let (reply, q, h, g) = takes e.client.sched in
      let x = process_storage_op s affinity e b.info.server_id (at_block iod b.info) in
      let (p, u, v) =
        process_storage_op-sends s affinity e b.info.server_id (at_block iod b.info) in
      let (j, y) =
        after_write_call-Sends e x.1 b.info.server_id (place s affinity iod b) x.0 reply (ap ok q) h
          g (record { sent = p; servers = u; blk_res = v }) in
      ((after_write_call s affinity retry b.info.server_id x).1, rw (k, j) refl, y)

  abbrev front_place : ServerId × StorageOpMsg
  front_place = place s affinity iod blks.front

  abbrev back_place : ServerId × StorageOpMsg
  back_place = place s affinity iod blks.back

  -- How far the threads are, with the messages that are sent.
  data Phase : WriteThread → WriteThread → List (ServerId × StorageOpMsg) → Type 0 where
    neither :
        (l : List (ServerId × StorageOpMsg))
        → l ≡ d.sent
        → Phase (starts blks.front.info) (starts blks.back.info) l
    front_only :
        (l : List (ServerId × StorageOpMsg))
        → l ≡ front_place ∷ d.sent
        → Phase joined (starts blks.back.info) l
    back_only :
        (l : List (ServerId × StorageOpMsg))
        → l ≡ back_place ∷ d.sent
        → Phase (starts blks.front.info) joined l
    both :
        (l : List (ServerId × StorageOpMsg))
        → (l ≡ front_place ∷ back_place ∷ d.sent) ⊎ (l ≡ back_place ∷ front_place ∷ d.sent)
        → Phase joined joined l

  record Going (w : Writing s affinity retry) : Type 0 where
    not_retrying : w.is_retrying ≡ false
    servers : w.disk.servers ≡ d.servers
    blk_res : w.disk.blk_res ≡ d.blk_res
    phase : Phase w.front w.back w.disk.sent

  module _ (front_takes : Takes s affinity iod blks.front)
      (back_takes : Takes s affinity iod blks.back)
      (front_known : contains d.servers blks.front.info.server_id ≡ true)
      (back_known : contains d.servers blks.back.info.server_id ≡ true) where
    -- The first thread after its step.
    front_step :
        (x y : WriteThread) (e : Disk)
        → e.servers ≡ d.servers
        → e.blk_res ≡ d.blk_res
        → Phase x y e.sent
        → (e' : Disk) × (thread_step s affinity retry iod x false e ≡ some (joined, false, e'))
          × (e'.servers ≡ d.servers)
          × (e'.blk_res ≡ d.blk_res)
          × Phase joined y e'.sent
    unfolding thread_step
    front_step _ _ e v r (neither _ q) =
        let (e', p, z) = thread_step-Sends blks.front e front_takes (rw v front_known) in
        (e', p, z.servers ∙ v, z.blk_res ∙ r, front_only _ (z.sent ∙ ap (λ l. front_place ∷ l) q))
    front_step _ _ e v r (front_only l q) = (e, refl, v, r, front_only l q)
    front_step _ _ e v r (back_only _ q) =
        let (e', p, z) = thread_step-Sends blks.front e front_takes (rw v front_known) in
        (e', p, z.servers ∙ v, z.blk_res ∙ r, both _ (inl (z.sent ∙ ap (λ l. front_place ∷ l) q)))
    front_step _ _ e v r (both l q) = (e, refl, v, r, both l q)

    back_step :
        (x y : WriteThread) (e : Disk)
        → e.servers ≡ d.servers
        → e.blk_res ≡ d.blk_res
        → Phase x y e.sent
        → (e' : Disk) × (thread_step s affinity retry iod y false e ≡ some (joined, false, e'))
          × (e'.servers ≡ d.servers)
          × (e'.blk_res ≡ d.blk_res)
          × Phase x joined e'.sent
    unfolding thread_step
    back_step _ _ e v r (neither _ q) =
        let (e', p, z) = thread_step-Sends blks.back e back_takes (rw v back_known) in
        (e', p, z.servers ∙ v, z.blk_res ∙ r, back_only _ (z.sent ∙ ap (λ l. back_place ∷ l) q))
    back_step _ _ e v r (back_only l q) = (e, refl, v, r, back_only l q)
    back_step _ _ e v r (front_only _ q) =
        let (e', p, z) = thread_step-Sends blks.back e back_takes (rw v back_known) in
        (e', p, z.servers ∙ v, z.blk_res ∙ r, both _ (inr (z.sent ∙ ap (λ l. back_place ∷ l) q)))
    back_step _ _ e v r (both l q) = (e, refl, v, r, both l q)

    -- The thread that has taken its step is joined, and the other one is as before.
    write_step-Going :
        (first : Bool) (w : Writing s affinity retry)
        → Going w
        → (w' : Writing s affinity retry) × (write_step s affinity retry iod first w ≡ some w')
          × Going w'
          × (if first
              then (w'.front ≡ joined) × (w'.back ≡ w.back)
              else (w'.back ≡ joined) × (w'.front ≡ w.front))
    unfolding write_step set_front set_back
    write_step-Going true w g =
        let (e, p, v, r, h) = front_step w.front w.back w.disk g.servers g.blk_res g.phase in
        (
          record w { front = joined; is_retrying = false; disk = e },
          rw (g.not_retrying, p) refl,
          record { not_retrying = refl; servers = v; blk_res = r; phase = h },
          (refl, refl),
        )
    write_step-Going false w g =
        let (e, p, v, r, h) = back_step w.front w.back w.disk g.servers g.blk_res g.phase in
        (
          record w { back = joined; is_retrying = false; disk = e },
          rw (g.not_retrying, p) refl,
          record { not_retrying = refl; servers = v; blk_res = r; phase = h },
          (refl, refl),
        )

    -- The steps that `order` gives, and then those that join the threads.
    run_threads-Going :
        (order : List Bool) (w : Writing s affinity retry)
        → Going w
        → (w' : Writing s affinity retry) × (run_threads s affinity retry iod
              (order ++ true ∷ true ∷ false ∷ false ∷ [])
              w
            ≡ some w')
          × Going w'
          × (w'.front ≡ joined)
          × (w'.back ≡ joined)
    unfolding run_threads after_step
    run_threads-Going [] w g =
        let (w1, p1, g1, (f1, b1)) = write_step-Going true w g in
        let (w2, p2, g2, (f2, b2)) = write_step-Going true w1 g1 in
        let (w3, p3, g3, (b3, f3)) = write_step-Going false w2 g2 in
        let (w4, p4, g4, (b4, f4)) = write_step-Going false w3 g3 in
        (w4, rw p1 (rw p2 (rw p3 (rw p4 refl))), g4, f4 ∙ f3 ∙ f2, b4)
    run_threads-Going (first ∷ order) w g =
        let (w1, p1, g1, h1) = write_step-Going first w g in
        let (w2, p2, g2, f2, b2) = run_threads-Going order w1 g1 in (w2, rw p1 p2, g2, f2, b2)

    -- What the write leaves: the servers and the mapping, and both messages, in either order.
    pub record Written (d' : VirtualDisk s affinity) : Type 0 where
      pub servers : d'.servers ≡ d.servers
      pub blk_res : d'.blk_res ≡ d.blk_res
      pub sent :
          (d'.sent ≡ front_place ∷ back_place ∷ d.sent)
          ⊎ (d'.sent ≡ back_place ∷ front_place ∷ d.sent)

    both-sent :
        (x y : WriteThread) (l : List (ServerId × StorageOpMsg))
        → x ≡ joined
        → y ≡ joined
        → Phase x y l
        → (l ≡ front_place ∷ back_place ∷ d.sent) ⊎ (l ≡ back_place ∷ front_place ∷ d.sent)
    both-sent _ _ l p q (neither _ h) = cc
    both-sent _ _ l p q (front_only _ h) = cc
    both-sent _ _ l p q (back_only _ h) = cc
    both-sent _ _ l p q (both _ h) = h

    pub process_write_op-Written :
        (order : List Bool)
        → (d' : VirtualDisk s affinity) × (process_write_op s affinity retry order blks iod d
            ≡ some (ok (iod.num_sectors * k_device_alignment % u32_mod), d'))
          × Written d'
    unfolding process_write_op write_result is_faulted
    process_write_op-Written order =
        let (w, p, g, f, b) =
          run_threads-Going order
            (record {
              front = starts blks.front.info;
              back = starts blks.back.info;
              is_retrying = false;
              disk = d;
            })
            (record {
              not_retrying = refl;
              servers = refl;
              blk_res = refl;
              phase = neither _ refl;
            }) in
        (
          w.disk,
          rw (p, f, b) refl,
          record {
            servers = g.servers;
            blk_res = g.blk_res;
            sent = both-sent w.front w.back w.disk.sent f b g.phase;
          },
        )
