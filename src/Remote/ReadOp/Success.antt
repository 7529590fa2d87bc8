-- ===== src/Remote/ReadOp/Success.antt =====
-- A read of which one replica answers.
use sandook.Base.{
  ℕ, zero, suc, ◌+◌, ◌≡◌, refl, sym, subst, ◌∙◌, ap, ◌⊎◌, inl, inr, ◌≢◌, ◌≤◌, ◌<◌, List, [], ◌∷◌,
  Option, none, some, length, true, arith,
}
use mathlib.Core.Option.{some-injective}
use sandook.Status.{Status, ok, err, Error}
use sandook.Types.{ServerId, ServerBlockInfo, ServerReplicaBlockInfoList, IoDesc}
use sandook.Selection.{ServerSet, contains}
use sandook.Selection.Members.{In}
use sandook.DiskServer.{StorageOpMsg, StorageOpReplyMsg}
use sandook.Remote.{Client, handle_storage_op_reply}
use sandook.Remote.ReadOp.Replicas.{process_storage_op-sends, Rests, IsReplica, find_info-IsReplica}
use sandook.Remote.Disk.{Services, VirtualDisk, at_block, message, process_storage_op, with_world}
use sandook.Remote.ReadOp.{
  ReadStep, find_info, erase, after_reply, after_call, read_from, read_attempt, read_loop,
  process_read_op, count_read_error, after_selection, after_attempt, returns, tries, server_ids,
}
use sandook.Remote.ReadOp.Servers.{
  IsServer, find_info-some, In-erase, erase-In, length-erase, none_left, server_ids-IsServer,
  server_ids-In, length-server_ids,
}
use sandook.Remote.ReadOp.Answers.{IsGood, IsAnswer, handle_storage_op_reply-IsGood}

module _ {W : Type 0} (s : Services W) (affinity : ServerId)
    (sleep : VirtualDisk s affinity → VirtualDisk s affinity) (rests : Rests s affinity sleep)
    (blks : ServerReplicaBlockInfoList) (iod : IoDesc) (a : ServerId) where
  abbrev Disk : Type 0
  Disk = VirtualDisk s affinity

  -- The read for a block of a replica.
  abbrev pub asking : ServerBlockInfo → StorageOpMsg
  asking info = message s affinity (at_block iod info)

  -- The scheduler finds one of the servers that it may choose from.
  abbrev pub Selects : Type 0
  Selects =
      (w : W) (x : ServerId) (xs : ServerSet)
      → (id : ServerId) × ((s.select_read_server w (x ∷ xs) iod).0 ≡ ok id) × In id (x ∷ xs)

  abbrev pub Answers : Type 0
  Answers =
      (w : W) (info : ServerBlockInfo)
      → IsReplica blks info
      → IsAnswer (s.call w info.server_id (asking info)).0

  -- Server `a` gives the result of a read of its replica, whenever it is asked.
  abbrev pub Serves : Type 0
  Serves =
      (w : W) (info : ServerBlockInfo)
      → find_info blks a ≡ some info
      → (reply : StorageOpReplyMsg) × ((s.call w info.server_id (asking info)).0 ≡ some reply)
        × IsGood reply

  -- The last message of `d'` asked for a replica, and its reply gave the result `n`.
  pub record Served (n : ℕ) (d' : Disk) : Type 0 where
    pub info : ServerBlockInfo
    pub is_replica : IsReplica blks info
    pub before : List (ServerId × StorageOpMsg)
    pub last_sent : d'.sent ≡ (info.server_id, asking info) ∷ before
    pub world : W
    pub reply : StorageOpReplyMsg
    pub replied : (s.call world info.server_id (asking info)).0 ≡ some reply
    pub good : IsGood reply
    pub result : n ≡ reply.res

  -- How an attempt may end: with a result, or without one server other than `a`.
  data Tried (d : Disk) (ids : ServerSet) : ReadStep × Disk → Type 0 where
    served :
        (n : ℕ) (d' : Disk)
        → Served n d'
        → length d'.sent ≡ suc (length d.sent)
        → Tried d ids (returns (ok n), d')
    left :
        (id : ServerId) (d' : Disk)
        → In id ids
        → id ≢ a
        → d'.servers ≡ d.servers
        → length d'.sent ≡ suc (length d.sent)
        → Tried d ids (tries (erase id ids), d')

  module _ (answers : Answers) (serves : Serves) (d : Disk) (ids : ServerSet)
      (info : ServerBlockInfo) (w : W) (d' : Disk) (i : IsReplica blks info)
      (f : find_info blks info.server_id ≡ some info) (m : In info.server_id ids)
      (v : d'.servers ≡ d.servers) (l : d'.sent ≡ (info.server_id, asking info) ∷ d.sent) where
    abbrev resp : Option StorageOpReplyMsg
    resp = (s.call w info.server_id (asking info)).0

    -- A server that does not give the result is not `a`.
    not-a : ((reply : StorageOpReplyMsg) → resp ≡ some reply → ¬ IsGood reply) → info.server_id ≢ a
    not-a n e =
        let (reply, q, g) = serves w info (subst (λ z. find_info blks z ≡ some info) e f) in
        n reply q g

    after_err-Tried :
        (e : Error) (c : Client s.signal_congested affinity)
        → info.server_id ≢ a
        → Tried d ids
            (after_reply s affinity sleep ids info.server_id (record d' { client = c }) (err e))
    unfolding after_reply count_read_error
    after_err-Tried Error.ebusy c n = left info.server_id _ m n v (ap length l)
    after_err-Tried Error.enoent c n = left info.server_id _ m n v (ap length l)
    after_err-Tried Error.eagain c n = left info.server_id _ m n v (ap length l)
    after_err-Tried Error.einval c n = left info.server_id _ m n v (ap length l)
    after_err-Tried Error.erofs c n = left info.server_id _ m n v (ap length l)
    after_err-Tried Error.ealready c n = left info.server_id _ m n v (ap length l)
    after_err-Tried Error.enotsup c n = left info.server_id _ m n v (ap length l)

    after_reply-Tried :
        (reply : StorageOpReplyMsg) (c : Client s.signal_congested affinity) (res : Status ℕ)
        → resp ≡ some reply
        → ((res ≡ ok reply.res) × IsGood reply) ⊎ ((e : Error) × (res ≡ err e) × ¬ IsGood reply)
        → Tried d ids
            (after_reply s affinity sleep ids info.server_id (record d' { client = c }) res)
    unfolding after_reply
    after_reply-Tried reply c res q (inl (p, g)) = rw p (
        served reply.res (record d' { client = c })
          (record {
            info = info;
            is_replica = i;
            before = d.sent;
            last_sent = l;
            world = w;
            reply = reply;
            replied = q;
            good = g;
            result = refl;
          })
          (ap length l))
    after_reply-Tried reply c res q (inr (e, p, n)) = rw p (
        after_err-Tried e c
          (not-a (λ other o g. n (subst IsGood (some-injective _ _ (sym o ∙ q)) g))))

    after_call-Tried :
        (x : Option StorageOpReplyMsg)
        → resp ≡ x
        → IsAnswer x
        → Tried d ids (after_call s affinity sleep ids info.server_id (ok x, d'))
    unfolding after_call handle_storage_op_reply
    after_call-Tried none q h =
        after_err-Tried Error.einval d'.client (not-a (λ reply p. cc (p, q)))
    after_call-Tried (some reply) q h =
        let x =
          handle_storage_op_reply s.signal_congested affinity d'.client (some reply)
            info.server_id in
        after_reply-Tried reply x.1 x.0 q (
          handle_storage_op_reply-IsGood s.signal_congested affinity d'.client reply info.server_id
            h.0 h.1)

  module _ (selects : Selects) (answers : Answers) (serves : Serves) where
    read_from-Tried :
        (d : Disk) (w : W) (ids : ServerSet) (info : ServerBlockInfo)
        → contains d.servers info.server_id ≡ true
        → IsReplica blks info
        → find_info blks info.server_id ≡ some info
        → In info.server_id ids
        → Tried d ids
            (read_from s affinity sleep blks ids iod (with_world s affinity d w) info.server_id)
    unfolding read_from process_storage_op
    read_from-Tried d w ids info k r f m =
        let d1 = with_world s affinity d w in
        let x = process_storage_op s affinity d1 info.server_id (at_block iod info) in
        let (p, u, v) = process_storage_op-sends s affinity d1 info.server_id (at_block iod info) in
        rw (k, f)
          (after_call-Tried answers serves d ids info w x.1 r f m u p
            (s.call w info.server_id (asking info)).0 refl (answers w info r))

    read_attempt-Tried :
        (d : Disk) (x : ServerId) (xs : ServerSet)
        → ((id : ServerId) → In id (x ∷ xs) → (contains d.servers id ≡ true) × IsServer blks id)
        → Tried d (x ∷ xs) (read_attempt s affinity sleep blks (x ∷ xs) iod d)
    unfolding read_attempt after_selection
    read_attempt-Tried d x xs h =
        let ids : ServerSet = x ∷ xs in
        let (id, e, m) = selects d.client.sched x xs in
        let w = (s.select_read_server d.client.sched ids iod).1 in
        let (info, f) = find_info-some blks id (h id m).1 in
        let (r, q) = find_info-IsReplica blks id info f in
        rw e (
          subst
            (λ z.
              Tried d ids (read_from s affinity sleep blks ids iod (with_world s affinity d w) z))
            q
            (read_from-Tried d w ids info (rw q (h id m).0) r (rw q f)
              (subst (λ z. In z ids) (sym q) m)))

    module _ (process_request : Disk → IoDesc → Option (Status ℕ × Disk)) where
      -- What the loop gives from a disk `d` on, with at most `k` messages.
      abbrev pub Gives : ℕ → Disk → Option (Status ℕ × Disk) → Type 0
      Gives k d r =
          (n : ℕ) × (d' : Disk) × (r ≡ some (ok n, d'))
          × Served n d'
          × (length d'.sent ≤ k + length d.sent)

      after_attempt-Gives :
          (goes_on : ServerSet → Disk → Option (Status ℕ × Disk)) (d : Disk) (ids : ServerSet)
          (r : ReadStep × Disk)
          → 0 < length ids
          → Tried d ids r
          → ((id : ServerId) (d' : Disk)
              → In id ids
              → id ≢ a
              → d'.servers ≡ d.servers
              → Gives (length (erase id ids)) d' (goes_on (erase id ids) d'))
          → Gives
              (length ids)
              d
              (after_attempt s affinity sleep process_request goes_on iod r.0 r.1)
      unfolding after_attempt
      after_attempt-Gives goes_on d ids _ p (served n d' y l) g =
          (n, d', refl, y, omega (arith, l, p))
      after_attempt-Gives goes_on d ids _ p (left id d' m ne v l) g =
          let (n, e, q, y, b) = g id d' m ne v in
          (n, e, q, y, omega (arith, l, b, length-erase id ids m))

      read_loop-Gives :
          (k : ℕ) (ids : ServerSet) (d : Disk)
          → ((id : ServerId) → In id ids → (contains d.servers id ≡ true) × IsServer blks id)
          → In a ids
          → length ids ≤ k
          → Gives (length ids) d (read_loop s affinity sleep process_request blks iod k ids d)
      unfolding read_loop
      read_loop-Gives k [] d h m l = absurd m
      read_loop-Gives zero (x ∷ xs) d h m l = absurd (none_left xs l)
      read_loop-Gives (suc k) (x ∷ xs) d h m l =
          let ids : ServerSet = x ∷ xs in
          after_attempt-Gives (read_loop s affinity sleep process_request blks iod k) d ids
            (read_attempt s affinity sleep blks ids iod d) (omega arith)
            (read_attempt-Tried d x xs h)
            (λ id d' i ne v.
              read_loop-Gives k (erase id ids) d'
                (λ z j. ((let (c, b) = h z (In-erase id z ids j) in (rw v c, b))))
                (erase-In id a ids ne m) (omega (arith, l, length-erase id ids i)))

      -- The whole loop, with two rounds or more.
      pub process_read_op-Gives :
          (k : ℕ) (d : Disk)
          → 2 ≤ k
          → contains d.servers blks.front.info.server_id ≡ true
          → contains d.servers blks.back.info.server_id ≡ true
          → IsServer blks a
          → Gives 2 d (process_read_op s affinity sleep process_request k blks iod d)
      unfolding process_read_op
      process_read_op-Gives k d p f b i =
          let few = length-server_ids blks in
          let (n, d', q, y, l) =
            read_loop-Gives k (server_ids blks) d
              (λ id m.
                (elim (server_ids-IsServer blks id m)
                  as (λ _. (contains d.servers id ≡ true) × IsServer blks id) [
                    | inl e ↦ (rw e f, inl e)
                    | inr e ↦ (rw e b, inr e)
                  ]))
              (server_ids-In blks a i) (omega (arith, few, p)) in
          (n, d', q, y, omega (arith, few, l))
