-- ===== src/Remote/Collector/Delivery.antt =====
-- Which blocks the garbage collector sends to which server.
use mathlib.Core.List.{append_assoc, append-nil}
use sandook.Base.{
  ℕ, zero, suc, ◌≡◌, refl, sym, ap, subst, ◌∙◌, ◌≤◌, ◌≢◌, inl, inr, ◌↔◌, true, if◌then◌else◌, ◌==◌,
  min, List, [], ◌∷◌, ◌++◌, length, take, All, Distinct, some, Bool-cases, ==_iff, ne_of_==, arith,
}
use sandook.Status.{ok}
use sandook.Types.{ServerId, BlockAddr, ServerReplicaBlockInfoList, k_discard_batch}
use sandook.Selection.{contains}
use sandook.Selection.Members.{In}
use sandook.Resolver.{BlockResolver}
use sandook.Remote.Collector.{
  ServerBlocks, blocks_of, group_blocks, drop, Collector, send_batch, send_batches, after_server,
  visit_servers, collect, run_garbage_collector,
}
use sandook.Remote.Collector.Grouping.{
  addrs_on, sent_to, Fits, Walks, emptied, blocks_of-group_blocks, take-drop, length-take, nothing,
  no_rounds, length-drop, empty_or_not, All-not, none_discarded, some_discarded,
}

module _ {W : Type 0} (call : W → ServerId → List BlockAddr → W) where
  abbrev Gc : Type 0
  Gc = Collector call

  -- What a part of a collection adds to what each server was sent; each batch fits.
  pub record Adds (c c' : Gc) (more : ServerId → List BlockAddr) : Type 0 where
    pub delivered : (j : ServerId) → sent_to j c'.sent ≡ sent_to j c.sent ++ more j
    pub all_fit : All Fits c.sent → All Fits c'.sent
    pub servers : c'.servers ≡ c.servers
    pub blk_res : c'.blk_res ≡ c.blk_res

  Adds-none : (c : Gc) → Adds c c (λ j. [])
  Adds-none c = record {
    delivered = λ j. sym (append-nil _);
    all_fit = λ h. h;
    servers = refl;
    blk_res = refl;
  }

  Adds-trans :
      (c e g : Gc) (m n o : ServerId → List BlockAddr)
      → ((j : ServerId) → m j ++ n j ≡ o j)
      → Adds c e m
      → Adds e g n
      → Adds c g o
  Adds-trans c e g m n o h x y = record {
    delivered = λ j.
        (y.delivered j
          ∙ ap (λ l. l ++ n j) (x.delivered j)
          ∙ append_assoc (sent_to j c.sent) (m j) (n j)
          ∙ ap (λ l. sent_to j c.sent ++ l) (h j));
    all_fit = λ p. y.all_fit (x.all_fit p);
    servers = y.servers ∙ x.servers;
    blk_res = y.blk_res ∙ x.blk_res;
  }

  -- Blocks that only go to `id`.
  abbrev only : ServerId → List BlockAddr → ServerId → List BlockAddr
  only id blks j = if id == j then blks else []

  only-append :
      (id : ServerId) (xs ys : List BlockAddr) (j : ServerId)
      → only id xs j ++ only id ys j ≡ only id (xs ++ ys) j
  only-append id xs ys j = elim (Bool-cases (id == j)) [ inl e ↦ rw e refl | inr e ↦ rw e refl ]

  send_batch-Adds :
      (id x : ℕ) (xs : List BlockAddr) (c : Gc)
      → Adds c
          (send_batch call id (x ∷ xs) c)
          (only id (take (min (length (x ∷ xs)) k_discard_batch) (x ∷ xs)))
  unfolding send_batch
  send_batch-Adds id x xs c =
      let n = min (length (x ∷ xs)) k_discard_batch in
      let l = length-take n (x ∷ xs) in
      record {
        delivered = λ j. (elim (Bool-cases (id == j)) [
          | inl e ↦ rw e refl
          | inr e ↦ rw e (sym (append-nil _))
        ]);
        all_fit = λ p. ((omega (arith, l), omega (arith, l)), p);
        servers = refl;
        blk_res = refl;
      }

  send_batches-Adds :
      (k : ℕ) (id : ServerId) (blks : List BlockAddr) (c : Gc)
      → length blks ≤ k
      → (c' : Gc) × (send_batches call k id blks c ≡ some c') × Adds c c' (only id blks)
  unfolding send_batches
  send_batches-Adds k id [] c h =
      (c, refl, Adds-trans c c c _ (λ j. []) _ (λ j. nothing (id == j)) (Adds-none c) (Adds-none c))
  send_batches-Adds zero id (x ∷ xs) c h = absurd (no_rounds xs h)
  send_batches-Adds (suc k) id (x ∷ xs) c h =
      let n = min (length (x ∷ xs)) k_discard_batch in
      let l = length-drop n (x ∷ xs) in
      let (c', e, a) =
        send_batches-Adds k id (drop n (x ∷ xs)) (send_batch call id (x ∷ xs) c)
          (omega (arith, l, h)) in
      (
        c',
        e,
        Adds-trans c (send_batch call id (x ∷ xs) c) c' _ _ _
            (λ j.
              only-append id (take n (x ∷ xs)) (drop n (x ∷ xs)) j
              ∙ ap (λ z. only id z j) (take-drop n (x ∷ xs)))
            (send_batch-Adds id x xs c) a,
      )

  -- What the visits to some servers bring to one of them.
  abbrev visits : ServerBlocks → List ServerId → ServerId → List BlockAddr
  visits groups [] j = []
  visits groups (id ∷ ids) j = only id (blocks_of id groups) j ++ visits groups ids j

  visits-none :
      (groups : ServerBlocks) (ids : List ServerId) (j : ServerId)
      → ¬ In j ids
      → visits groups ids j ≡ []
  visits-none groups [] j n = refl
  visits-none groups (id ∷ ids) j n = elim (Bool-cases (id == j)) [
    | inl e ↦ absurd (n (inl (sym ((==_iff id j).0 e))))
    | inr e ↦ rw e (visits-none groups ids j (λ m. n (inr m)))
  ]

  visits-once :
      (groups : ServerBlocks) (ids : List ServerId) (j : ServerId)
      → Distinct ids
      → In j ids
      → visits groups ids j ≡ blocks_of j groups
  visits-once groups [] j d m = absurd m
  visits-once groups (id ∷ ids) j d m = elim (Bool-cases (id == j)) [
    | inl e ↦
        let q = (==_iff id j).0 e in
        rw e (
          ap (λ l. blocks_of id groups ++ l)
            (visits-none groups ids j
              (λ i. All-not ids j (subst (λ z. All (λ y. z ≢ y) ids) q d.0) i))
          ∙ append-nil (blocks_of id groups)
          ∙ ap (λ z. blocks_of z groups) q)
    | inr e ↦ rw e (elim m [
      | inl p ↦ absurd (ne_of_== id j e (sym p))
      | inr i ↦ visits-once groups ids j d.1 i
    ])
  ]

  visits-all :
      (groups : ServerBlocks) (ids : List ServerId) (j : ServerId)
      → Distinct ids
      → In j ids ↔ (blocks_of j groups ≢ [])
      → visits groups ids j ≡ blocks_of j groups
  visits-all groups ids j d w = elim (empty_or_not (blocks_of j groups)) [
    | inl e ↦ visits-none groups ids j (λ m. w.0 m e) ∙ sym e
    | inr n ↦ visits-once groups ids j d (w.1 n)
  ]

  visit_servers-Adds :
      (groups : ServerBlocks) (ids : List ServerId) (c : Gc)
      → ((id : ServerId) → In id ids → contains c.servers id ≡ true)
      → (c' : Gc) × (visit_servers call groups ids c ≡ some (ok c')) × Adds c c' (visits groups ids)
  unfolding visit_servers after_server
  visit_servers-Adds groups [] c k = (c, refl, Adds-none c)
  visit_servers-Adds groups (id ∷ ids) c k =
      let blks = blocks_of id groups in
      let (c1, e, a) = send_batches-Adds (length blks) id blks c (omega arith) in
      let (c2, f, b) =
        visit_servers-Adds groups ids c1
          (λ z m. subst (λ l. contains l z ≡ true) (sym a.servers) (k z (inr m))) in
      (c2, rw (k id (inl refl), e) f, Adds-trans c c1 c2 _ _ _ (λ j. refl) a b)

  collect-Adds :
      (visited : ServerBlocks → List ServerId) (c : Gc) (blks : List ServerReplicaBlockInfoList)
      (r : BlockResolver)
      → Walks visited (group_blocks blks [])
      → ((id : ServerId) → addrs_on id blks ≢ [] → contains c.servers id ≡ true)
      → (c' : Gc) × (collect call visited c (ok (blks, r)) ≡ some (ok c'))
        × Adds (record c { blk_res = r }) c' (λ j. addrs_on j blks)
  unfolding collect
  collect-Adds visited c blks r w k =
      let groups = group_blocks blks [] in
      let same : (j : ServerId) → blocks_of j groups ≡ addrs_on j blks =
        λ j. blocks_of-group_blocks j blks [] in
      let (c', e, a) =
        visit_servers-Adds groups (visited groups) (record c { blk_res = r })
          (λ id m. k id (subst (λ l. l ≢ []) (same id) ((w.1 id).0 m))) in
      (
        c',
        e,
        record {
          delivered = λ j.
              (a.delivered j
                ∙ ap (λ l. sent_to j c.sent ++ l)
                    (visits-all groups (visited groups) j w.0 (w.1 j) ∙ same j));
          all_fit = a.all_fit;
          servers = a.servers;
          blk_res = a.blk_res;
        },
      )

  taken-Adds :
      (visited : ServerBlocks → List ServerId) (c : Gc) (l : List ServerReplicaBlockInfoList)
      → c.blk_res.discard_list ≡ l
      → Walks visited (group_blocks l [])
      → ((id : ServerId) → addrs_on id l ≢ [] → contains c.servers id ≡ true)
      → (c' : Gc) × (run_garbage_collector call visited c ≡ some (ok c'))
        × Adds (record c { blk_res = emptied c.blk_res }) c' (λ j. addrs_on j l)
  unfolding run_garbage_collector collect
  taken-Adds visited c [] e w k = (
    c,
    ap (collect call visited c) (none_discarded c.blk_res e),
    record {
      delivered = λ j. sym (append-nil _);
      all_fit = λ h. h;
      servers = refl;
      blk_res = ap (λ l. record c.blk_res { discard_list = l }) e;
    },
  )
  taken-Adds visited c (x ∷ xs) e w k =
      let (c', f, a) = collect-Adds visited c (x ∷ xs) (emptied c.blk_res) w k in
      (c', ap (collect call visited c) (some_discarded c.blk_res x xs e) ∙ f, a)

  -- A collection of the blocks that a volume has overwritten ends, and sends each server exactly the blocks
  -- of the discarded mappings that are on it, in their order and after what it was sent before. No
  -- batch is empty or larger than a message takes, and the list of discarded mappings is empty afterwards.
  -- This needs that the servers of these blocks are connected, and that the walk of the map visits each
  -- of its servers once.
  pub run_garbage_collector-Adds :
      (visited : ServerBlocks → List ServerId) (c : Gc)
      → Walks visited (group_blocks c.blk_res.discard_list [])
      → ((id : ServerId) → addrs_on id c.blk_res.discard_list ≢ [] → contains c.servers id ≡ true)
      → (c' : Gc) × (run_garbage_collector call visited c ≡ some (ok c'))
        × ((j : ServerId)
            → sent_to j c'.sent ≡ sent_to j c.sent ++ addrs_on j c.blk_res.discard_list)
        × (All Fits c.sent → All Fits c'.sent)
        × (c'.blk_res ≡ emptied c.blk_res)
  run_garbage_collector-Adds visited c w k =
      let (c', e, a) = taken-Adds visited c c.blk_res.discard_list refl w k in
      (c', e, a.delivered, a.all_fit, a.blk_res)
