-- ===== src/Remote/ReadOp/Replicas.antt =====
-- Which messages a read sends.
use sandook.Base.{
  ℕ, zero, suc, ◌+◌, ◌≡◌, refl, subst, ◌∙◌, ap, ◌⊎◌, inl, inr, List, [], ◌∷◌, ◌++◌, Option, none,
  some, All, All-append, Bool-cases, Option-cases, arith,
}
use mathlib.Core.List.{append_assoc}
use sandook.Status.{Status, ok, err, fault, Error}
use sandook.Types.{ServerId, ServerBlockInfo, ServerReplicaBlockInfoList, IoDesc, OpType, get_op}
use sandook.Selection.{ServerSet, contains}
use sandook.Resolver.{BlockResolver}
use sandook.DiskServer.{StorageOpMsg, StorageOpReplyMsg}
use sandook.Remote.{handle_storage_op_reply}
use sandook.Remote.Disk.{
  Services, VirtualDisk, at_block, message, process_storage_op, count_submitted, with_world,
}
use sandook.Remote.ReadOp.{
  ReadStep, find_info, after_reply, after_call, after_selection, after_attempt, returns,
  resolves_again, tries, read_from, read_attempt, read_loop, count_read_error,
}

-- One of the two replicas.
abbrev pub IsReplica : ServerReplicaBlockInfoList → ServerBlockInfo → Type 0
IsReplica blks info = (info ≡ blks.front.info) ⊎ (info ≡ blks.back.info)

pub find_info-IsReplica :
    (blks : ServerReplicaBlockInfoList) (id : ServerId) (info : ServerBlockInfo)
    → find_info blks id ≡ some info
    → IsReplica blks info × (info.server_id ≡ id)
unfolding find_info
find_info-IsReplica blks id info h = ground arith

module _ {W : Type 0} (s : Services W) (affinity : ServerId) where
  abbrev Disk : Type 0
  Disk = VirtualDisk s affinity

  count_submitted-same :
      (d : Disk) (op : OpType)
      → ((count_submitted s affinity d op).sent ≡ d.sent)
        × ((count_submitted s affinity d op).servers ≡ d.servers)
        × ((count_submitted s affinity d op).blk_res ≡ d.blk_res)
  unfolding count_submitted
  count_submitted-same d OpType.write = (refl, refl, refl)
  count_submitted-same d _ = (refl, refl, refl)

  pub process_storage_op-sends :
      (d : Disk) (id : ServerId) (iod : IoDesc)
      → let d' = (process_storage_op s affinity d id iod).1 in
        (d'.sent ≡ (id, message s affinity iod) ∷ d.sent)
        × (d'.servers ≡ d.servers)
        × (d'.blk_res ≡ d.blk_res)
  unfolding process_storage_op get_op
  process_storage_op-sends d id iod =
      let (p, q, u) = count_submitted-same d (get_op iod) in
      (ap (λ l. (id, message s affinity iod) ∷ l) p, q, u)

  -- A request for the block of a replica, sent to that replica's server.
  abbrev pub IsPlace : ServerReplicaBlockInfoList → IoDesc → ServerId × StorageOpMsg → Type 0
  IsPlace blks iod m =
      (info : ServerBlockInfo) × IsReplica blks info
      × (m ≡ (info.server_id, message s affinity (at_block iod info)))

  -- What a read may do to a disk: send such requests; servers and mapping stay.
  pub record Asks (blks : ServerReplicaBlockInfoList) (iod : IoDesc) (d d' : Disk) : Type 0 where
    pub asked : List (ServerId × StorageOpMsg)
    pub sent_is : d'.sent ≡ asked ++ d.sent
    pub places : All (IsPlace blks iod) asked
    pub same_servers : d'.servers ≡ d.servers
    pub same_res : d'.blk_res ≡ d.blk_res

  abbrev pub Rests : (Disk → Disk) → Type 0
  Rests sleep =
      (d : Disk)
      → ((sleep d).sent ≡ d.sent)
        × ((sleep d).servers ≡ d.servers)
        × ((sleep d).blk_res ≡ d.blk_res)

  disk_of : Disk → Option (Status ℕ × Disk) → Disk
  disk_of d none = d
  disk_of d (some (res, e)) = e

  pub some-disk :
      {res res' : Status ℕ} {d d' : Disk}
      → ◌≡◌ {A = Option (Status ℕ × Disk)} (some (res, d)) (some (res', d'))
      → d ≡ d'
  unfolding disk_of
  some-disk {d = d} h = ap (disk_of d) h

  module _ (blks : ServerReplicaBlockInfoList) (iod : IoDesc) where
    pub Asks-same :
        (d d' : Disk)
        → d'.sent ≡ d.sent
        → d'.servers ≡ d.servers
        → d'.blk_res ≡ d.blk_res
        → Asks blks iod d d'
    Asks-same d d' p q r = record {
      asked = [];
      sent_is = p;
      places = tt;
      same_servers = q;
      same_res = r;
    }

    pub Asks-trans : (d e f : Disk) → Asks blks iod d e → Asks blks iod e f → Asks blks iod d f
    Asks-trans d e f x y = record {
      asked = y.asked ++ x.asked;
      sent_is = y.sent_is ∙ ap (λ l. y.asked ++ l) x.sent_is ∙ rw append_assoc;
      places = All-append _ y.asked x.asked y.places x.places;
      same_servers = y.same_servers ∙ x.same_servers;
      same_res = y.same_res ∙ x.same_res;
    }

    pub Asks-process_storage_op :
        (d : Disk) (info : ServerBlockInfo)
        → IsReplica blks info
        → Asks blks iod d (process_storage_op s affinity d info.server_id (at_block iod info)).1
    Asks-process_storage_op d info r =
        let (p, q, u) = process_storage_op-sends d info.server_id (at_block iod info) in
        record {
          asked = (info.server_id, message s affinity (at_block iod info)) ∷ [];
          sent_is = p;
          places = ((info, r, refl), tt);
          same_servers = q;
          same_res = u;
        }

    module _ (sleep : Disk → Disk) (rests : Rests sleep) where
      after_reply-Asks :
          (ids : ServerSet) (id : ServerId) (d : Disk) (res : Status ℕ)
          → Asks blks iod d (after_reply s affinity sleep ids id d res).1
      unfolding after_reply count_read_error
      after_reply-Asks ids id d (ok n) = Asks-same d _ refl refl refl
      after_reply-Asks ids id d fault = Asks-same d _ refl refl refl
      after_reply-Asks ids id d (err Error.ebusy) = Asks-same d _ refl refl refl
      after_reply-Asks ids id d (err _) = Asks-same d _ refl refl refl

      after_call-Asks :
          (ids : ServerSet) (id : ServerId) (resp : Status (Option StorageOpReplyMsg)) (d : Disk)
          → Asks blks iod d (after_call s affinity sleep ids id (resp, d)).1
      unfolding after_call
      after_call-Asks ids id (err e) d =
          let (p, q, r) = rests (record d { num_read_retries = d.num_read_retries + 1 }) in
          Asks-same d _ p q r
      after_call-Asks ids id fault d = Asks-same d d refl refl refl
      after_call-Asks ids id (ok reply) d =
          let x = handle_storage_op_reply s.signal_congested affinity d.client reply id in
          Asks-trans d (record d { client = x.1 }) _ (Asks-same d _ refl refl refl)
            (after_reply-Asks ids id (record d { client = x.1 }) x.0)

      read_from-Asks :
          (ids : ServerSet) (d : Disk) (id : ServerId)
          → Asks blks iod d (read_from s affinity sleep blks ids iod d id).1
      unfolding read_from
      read_from-Asks ids d id = elim (Bool-cases (contains d.servers id)) [
        | inr e ↦ rw e (Asks-same d d refl refl refl)
        | inl e ↦ elim (Option-cases (find_info blks id)) [
          | inl f ↦ rw (e, f) (Asks-same d d refl refl refl)
          | inr (info, f) ↦
              let (r, q) = find_info-IsReplica blks id info f in
              let x = process_storage_op s affinity d id (at_block iod info) in
              rw (e, f)
                (Asks-trans d x.1 _
                  (subst
                    (λ z. Asks blks iod d (process_storage_op s affinity d z (at_block iod info)).1)
                    q (Asks-process_storage_op d info r))
                  (after_call-Asks ids id x.0 x.1))
        ]
      ]

      after_selection-Asks :
          (ids : ServerSet) (d : Disk) (selected : Status ServerId)
          → Asks blks iod d (after_selection s affinity sleep blks ids iod d selected).1
      unfolding after_selection
      after_selection-Asks ids d (ok id) = read_from-Asks ids d id
      after_selection-Asks ids d (err e) = let (p, u, r) = rests d in Asks-same d _ p u r
      after_selection-Asks ids d fault = Asks-same d d refl refl refl

      read_attempt-Asks :
          (ids : ServerSet) (d : Disk)
          → Asks blks iod d (read_attempt s affinity sleep blks ids iod d).1
      unfolding read_attempt
      read_attempt-Asks ids d =
          let x = s.select_read_server d.client.sched ids iod in
          let d' = with_world s affinity d x.1 in
          Asks-trans d d' _ (Asks-same d d' refl refl refl) (after_selection-Asks ids d' x.0)

      -- `r` is the resolver whose entries stay.
      module _ (r : BlockResolver) (process_request : Disk → IoDesc → Option (Status ℕ × Disk))
          (again : (d d' : Disk) (res : Status ℕ)
            → d.blk_res ≡ r
            → process_request d iod ≡ some (res, d')
            → Asks blks iod d d') where
        after_attempt-Asks :
            (goes_on : ServerSet → Disk → Option (Status ℕ × Disk)) (step : ReadStep) (d d' : Disk)
            (res : Status ℕ)
            → d.blk_res ≡ r
            → ((ids : ServerSet) → goes_on ids d ≡ some (res, d') → Asks blks iod d d')
            → after_attempt s affinity sleep process_request goes_on iod step d ≡ some (res, d')
            → Asks blks iod d d'
        unfolding after_attempt
        after_attempt-Asks goes_on (returns x) d d' res e g h =
            subst (λ z. Asks blks iod d z) (some-disk h) (Asks-same d d refl refl refl)
        after_attempt-Asks goes_on resolves_again d d' res e g h = again d d' res e h
        after_attempt-Asks goes_on (tries ids) d d' res e g h = g ids h

        pub read_loop-Asks :
            (k : ℕ) (ids : ServerSet) (d d' : Disk) (res : Status ℕ)
            → d.blk_res ≡ r
            → read_loop s affinity sleep process_request blks iod k ids d ≡ some (res, d')
            → Asks blks iod d d'
        unfolding read_loop
        read_loop-Asks zero ids d d' res e h = cc
        read_loop-Asks (suc k) [] d d' res e h =
            let (p, u, v) = rests d in
            Asks-trans d (sleep d) d' (Asks-same d _ p u v)
              (read_loop-Asks k _ (sleep d) d' res (v ∙ e) h)
        read_loop-Asks (suc k) (x ∷ xs) d d' res e h =
            let a = read_attempt s affinity sleep blks (x ∷ xs) iod d in
            let step = read_attempt-Asks (x ∷ xs) d in
            let q = step.same_res ∙ e in
            Asks-trans d a.1 d' step (
              after_attempt-Asks _ a.0 a.1 d' res q (λ ids g. read_loop-Asks k ids a.1 d' res q g)
                h)
