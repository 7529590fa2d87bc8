-- ===== src/Remote/Requests/Writes.antt =====
-- What a write request does, and the reads that come after it.
use sandook.Base.{
  ℕ, suc, ◌*◌, ◌%◌, ◌≡◌, refl, sym, subst, ◌∙◌, ◌<◌, ◌≢◌, ◌⊎◌, inl, inr, Bool, true, false,
  if◌then◌else◌, ◌==◌, List, ◌∷◌, Option, some, Bool-cases, ==_iff, arith,
}
use sandook.Status.{Status, ok, err, fault, ok-injective}
use sandook.Types.{
  ServerId, BlockAddr, ServerReplicaBlockInfo, ServerReplicaBlockInfoList, IoDesc, OpType, get_op,
  k_device_alignment, u32_mod, k_invalid_server_id,
}
use sandook.Selection.{ServerReplicaList, contains}
use sandook.Resolver.{BlockResolver, resolve_block, add_mapping}
use sandook.Resolver.Laws.{mapped, add_mapping_lem, resolve_block-add_mapping}
use sandook.Remote.Disk.{
  Services, VirtualDisk, get_blocks, get_replicas, get_replica, back_replica, with_world,
}
use sandook.Remote.WriteOp.{process_write_op}
use sandook.Remote.WriteOp.Accepted.{Takes, place, process_write_op-Written}
use sandook.Remote.ReadOp.Replicas.{Rests, Asks}
use sandook.Remote.Requests.{write_blocks, process_op, process_request}
use sandook.Remote.Requests.Reads.{process_request-Asks}

chosen :
    (b c : Bool) (x y z : Status ServerReplicaBlockInfoList)
    → b ≡ true
    → c ≡ false
    → (if b then if c then x else y else z) ≡ y
chosen b c x y z p q = rw (p, q) refl

resolve_block-mapped :
    (r : BlockResolver) (a : BlockAddr) (blks : ServerReplicaBlockInfoList)
    → a < r.nsectors
    → blks.front.info.server_id ≢ k_invalid_server_id
    → resolve_block (mapped r a blks) a ≡ ok blks
resolve_block-mapped r a blks p n =
    let (r', e, h) = resolve_block-add_mapping r a a blks p p in
    rw (ok-injective r' (mapped r a blks) (sym e ∙ add_mapping_lem r a blks p)) at (
      h
      ∙ chosen (a == a) (blks.front.info.server_id == k_invalid_server_id) _ _ _
          ((==_iff a a).1 refl) (ground (arith, n)))

module _ {W : Type 0} (s : Services W) (affinity : ServerId) where
  abbrev Disk : Type 0
  Disk = VirtualDisk s affinity

  -- Taking blocks only asks the scheduler and the caches.
  abbrev Stays : Disk → Disk → Type 0
  Stays d d' = (d'.sent ≡ d.sent) × (d'.servers ≡ d.servers) × (d'.blk_res ≡ d.blk_res)

  back_replica-Stays :
      (front : Status ServerReplicaBlockInfo) (d : Disk) (id : ServerId) (b : Bool)
      → Stays d (back_replica s affinity (front, d) id b).1
  unfolding back_replica get_replica
  back_replica-Stays (ok f) d id b = (refl, refl, refl)
  back_replica-Stays (err e) d id b = (refl, refl, refl)
  back_replica-Stays fault d id b = (refl, refl, refl)

  get_replicas-Stays :
      (d : Disk) (ids : Status ServerReplicaList) (b : Bool)
      → Stays d (get_replicas s affinity d ids b).1
  unfolding get_replicas get_replica
  get_replicas-Stays d (ok ids) b =
      let x = get_replica s affinity d ids.front b in back_replica-Stays x.0 x.1 ids.back b
  get_replicas-Stays d (err e) b = (refl, refl, refl)
  get_replicas-Stays d fault b = (refl, refl, refl)

  get_blocks-Stays :
      (d : Disk) (iod : IoDesc) (b : Bool) → Stays d (get_blocks s affinity d iod b).1
  unfolding get_blocks
  get_blocks-Stays d iod b = elim (Bool-cases (affinity == k_invalid_server_id)) [
    | inl e ↦
        let x = s.select_write_replicas d.client.sched iod in
        rw e (get_replicas-Stays (with_world s affinity d x.1) x.0 b)
    | inr e ↦ rw e (get_replicas-Stays d (ok (record { front = affinity; back = affinity })) b)
  ]

  module _ (sleep : Disk → Disk) (order : ℕ → List Bool) where
    -- What a write of `blks` leaves: the mapping of its sector to them, and both messages.
    abbrev pub Wrote : Disk → IoDesc → ServerReplicaBlockInfoList → Disk → Type 0
    Wrote d iod blks d' =
        (d'.blk_res ≡ mapped d.blk_res iod.start_sector blks)
        × (d'.servers ≡ d.servers)
        × ((d'.sent ≡ place s affinity iod blks.front ∷ place s affinity iod blks.back ∷ d.sent)
            ⊎ (d'.sent ≡ place s affinity iod blks.back ∷ place s affinity iod blks.front ∷ d.sent))

    write_blocks-process_write_op :
        (retry : Disk → IoDesc → Option (Status ℕ × Disk)) (steps : List Bool) (iod : IoDesc)
        (st : Status ServerReplicaBlockInfoList) (d : Disk) (blks : ServerReplicaBlockInfoList)
        (r : BlockResolver)
        → st ≡ ok blks
        → add_mapping d.blk_res iod.start_sector blks ≡ ok r
        → write_blocks s affinity sleep retry steps iod (st, d)
          ≡ process_write_op s affinity retry steps blks iod (record d { blk_res = r })
    unfolding write_blocks
    write_blocks-process_write_op retry steps iod st d blks r h e = rw h (rw e refl)

    process_request-Wrote :
        (n : ℕ) (d : Disk) (iod : IoDesc) (blks : ServerReplicaBlockInfoList)
        → get_op iod ≡ OpType.write
        → iod.start_sector < d.blk_res.nsectors
        → (get_blocks s affinity d iod true).0 ≡ ok blks
        → Takes s affinity iod blks.front
        → Takes s affinity iod blks.back
        → contains d.servers blks.front.info.server_id ≡ true
        → contains d.servers blks.back.info.server_id ≡ true
        → (d' : Disk) × (process_request s affinity sleep order (suc n) d iod
            ≡ some (ok (iod.num_sectors * k_device_alignment % u32_mod), d'))
          × Wrote d iod blks d'
    unfolding process_request process_op write_blocks
    process_request-Wrote n d iod blks op p g tf tb f b =
        let x = get_blocks s affinity d iod true in
        let (same_sent, same_servers, same_res) = get_blocks-Stays d iod true in
        let r = mapped d.blk_res iod.start_sector blks in
        let e = record x.1 { blk_res = r } in
        let (d', q, w) =
          process_write_op-Written s affinity (process_request s affinity sleep order n) iod blks e
            tf tb (rw same_servers f) (rw same_servers b) (order n) in
        let pf = place s affinity iod blks.front in
        let pb = place s affinity iod blks.back in
        (
          d',
          rw op (
              write_blocks-process_write_op (process_request s affinity sleep order n) (order n) iod
                x.0 x.1 blks r g (rw same_res (add_mapping_lem d.blk_res iod.start_sector blks p))
              ∙ q),
          (
            w.blk_res,
            w.servers ∙ same_servers,
            subst (λ l. (d'.sent ≡ pf ∷ pb ∷ l) ⊎ (d'.sent ≡ pb ∷ pf ∷ l)) same_sent w.sent,
          ),
        )

    -- A write takes new blocks, maps its sector to them and sends one message to the server of each block, if
    -- both servers take it: it returns its size in bytes, whatever the order of its threads, and no
    -- other sector's mapping changes. A read of that sector that comes next has, when it ends, only
    -- asked for these two blocks, each at its server, however the servers answer the read. This needs that the sector is in the
    -- volume, that the blocks could be taken and name a server, that both servers are connected, and
    -- that the connections, the mapping and the record of the messages stay while the read sleeps.
    pub process_request-write_read :
        (rests : Rests s affinity sleep) (n m : ℕ) (d : Disk) (iod iod' : IoDesc)
        (blks : ServerReplicaBlockInfoList)
        → get_op iod ≡ OpType.write
        → get_op iod' ≡ OpType.read
        → iod'.start_sector ≡ iod.start_sector
        → iod.start_sector < d.blk_res.nsectors
        → (get_blocks s affinity d iod true).0 ≡ ok blks
        → blks.front.info.server_id ≢ k_invalid_server_id
        → Takes s affinity iod blks.front
        → Takes s affinity iod blks.back
        → contains d.servers blks.front.info.server_id ≡ true
        → contains d.servers blks.back.info.server_id ≡ true
        → (d' : Disk) × (process_request s affinity sleep order (suc n) d iod
            ≡ some (ok (iod.num_sectors * k_device_alignment % u32_mod), d'))
          × Wrote d iod blks d'
          × ((res : Status ℕ) (d'' : Disk)
              → process_request s affinity sleep order m d' iod' ≡ some (res, d'')
              → Asks s affinity blks iod' d' d'')
    process_request-write_read rests n m d iod iod' blks op op' same p g ne tf tb f b =
        let (d', q, w) = process_request-Wrote n d iod blks op p g tf tb f b in
        (
          d',
          q,
          w,
          λ res d'' h'.
              process_request-Asks s affinity sleep order rests m d' d'' blks iod' res op'
                (rw (w.0, same) (resolve_block-mapped d.blk_res iod.start_sector blks p ne)) h',
        )
