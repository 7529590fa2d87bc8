-- ===== src/Remote/Collector/Tests.antt =====
-- A collection of two mappings that share a server.
use sandook.Base.{
  ℕ, ◌+◌, ◌≡◌, refl, sym, ◌∙◌, ◌≢◌, inl, inr, true, if◌then◌else◌, ◌==◌, List, [], ◌∷◌, ◌++◌, map,
  length, All, some, Bool-cases, ==_iff, arith,
}
use sandook.Status.{ok}
use sandook.Types.{ServerId, BlockAddr, ServerReplicaBlockInfo, ServerReplicaBlockInfoList}
use sandook.Selection.{contains}
use sandook.Selection.Members.{In, contains-of-In}
use sandook.Remote.Collector.{
  ServerBlocks, blocks_of, emplace_back, group_blocks, Collector, run_garbage_collector,
}
use sandook.Remote.Collector.Grouping.{
  blocks_of-group_blocks, Walks, Fits, addrs_on, sent_to, emptied,
}
use sandook.Remote.Collector.Delivery.{run_garbage_collector-Adds}

abbrev count_blocks : ℕ → ServerId → List BlockAddr → ℕ
count_blocks w id blks = w + length blks

abbrev keys : ServerBlocks → List ServerId
keys groups = map (λ g. g.0) groups

abbrev replica : ServerId → BlockAddr → ServerReplicaBlockInfo
replica id addr = record { info = record { server_id = id; block_addr = addr }; dirty = true }

abbrev discarded : List ServerReplicaBlockInfoList
discarded =
    record { front = replica 1 10; back = replica 2 20 }
    ∷ record { front = replica 2 21; back = replica 3 30 }
    ∷ []

abbrev collector : Collector count_blocks
collector = record {
  world = 0;
  servers = 1 ∷ 2 ∷ 3 ∷ [];
  blk_res = record {
    nsectors = 8;
    blk_map = λ _. record { front = replica 1 11; back = replica 2 22 };
    discard_list = discarded;
  };
  num_gc_blocks = 0;
  sent = [];
}

-- One of the three servers.
abbrev OneOf : ServerId → Type 0
OneOf id = In id (1 ∷ 2 ∷ 3 ∷ [])

one_of :
    (id : ServerId) (l m n : List BlockAddr)
    → (if 1 == id then l else if 2 == id then m else if 3 == id then n else []) ≢ []
    → OneOf id
one_of id l m n h = elim (Bool-cases (1 == id)) [
  | inl e ↦ inl (sym ((==_iff 1 id).0 e))
  | inr e ↦ elim (Bool-cases (2 == id)) [
    | inl f ↦ inr (inl (sym ((==_iff 2 id).0 f)))
    | inr f ↦ elim (Bool-cases (3 == id)) [
      | inl g ↦ inr (inr (inl (sym ((==_iff 3 id).0 g))))
      | inr g ↦ absurd (h (rw (e, f, g) refl))
    ]
  ]
]

walks : Walks keys (group_blocks discarded [])
unfolding group_blocks emplace_back blocks_of
walks = (
  ((λ e. omega (arith, e), (λ e. omega (arith, e), tt)), ((λ e. omega (arith, e), tt), (tt, tt))),
  λ id. (has_blocks id, one_of id (10 ∷ []) (20 ∷ 21 ∷ []) (30 ∷ [])),
)
  where
    has_blocks : (id : ServerId) → OneOf id → blocks_of id (group_blocks discarded []) ≢ []
    has_blocks id (inl p) = rw p (λ e. cc)
    has_blocks id (inr (inl p)) = rw p (λ e. cc)
    has_blocks id (inr (inr (inl p))) = rw p (λ e. cc)
    has_blocks id (inr (inr (inr m))) = absurd m

connected : (id : ServerId) → addrs_on id discarded ≢ [] → contains (1 ∷ 2 ∷ 3 ∷ []) id ≡ true
unfolding group_blocks emplace_back blocks_of
connected id n = contains-of-In (1 ∷ 2 ∷ 3 ∷ []) id (
    one_of id (10 ∷ []) (20 ∷ 21 ∷ []) (30 ∷ [])
      (λ e. n (sym (blocks_of-group_blocks id discarded []) ∙ e)))

run_garbage_collector-Adds_example :
    (c' : Collector count_blocks) × (run_garbage_collector count_blocks keys collector
      ≡ some (ok c'))
    × ((j : ServerId) → sent_to j c'.sent ≡ sent_to j [] ++ addrs_on j discarded)
    × (All Fits [] → All Fits c'.sent)
    × (c'.blk_res ≡ emptied collector.blk_res)
run_garbage_collector-Adds_example =
    run_garbage_collector-Adds count_blocks keys collector walks connected
