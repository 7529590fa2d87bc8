-- ===== src/Remote/Collector.antt =====
-- virtual_disk/virtual_disk_remote.cc: RunGarbageCollector, which tells the servers which of their blocks are
-- no longer in use. What a call to a server does is a parameter, and so is the order in which the hash
-- map of the servers is visited.
pub mod Grouping
pub mod Delivery
mod Tests
use sandook.Base.{
  ℕ, zero, suc, ◌+◌, ◌-◌, Bool, true, false, if◌then◌else◌, ◌==◌, ltb, min, List, [], ◌∷◌, ◌++◌,
  length, take, map, Option, none, some,
}
use sandook.Status.{Status, ok, err, fault}
use sandook.Types.{
  ServerId, BlockAddr, ServerBlockInfo, ServerReplicaBlockInfoList, k_discard_batch,
}
use sandook.Selection.{ServerSet, contains}
use sandook.Resolver.{BlockResolver, get_and_reset_discarded_blocks}

-- The entries of `server_blks`, in the order of their insertion.
abbrev pub ServerBlocks : Type 0
ServerBlocks = List (ServerId × List BlockAddr)

-- `server_blks[id]`, which is empty for a new server.
pub blocks_of : ServerId → ServerBlocks → List BlockAddr
blocks_of id [] = []
blocks_of id ((a, blks) ∷ rest) = if a == id then blks else blocks_of id rest

-- `server_blks[id].emplace_back(addr)`.
pub emplace_back : ServerBlockInfo → ServerBlocks → ServerBlocks
emplace_back info [] = (info.server_id, info.block_addr ∷ []) ∷ []
emplace_back info ((a, blks) ∷ rest) =
    let more = emplace_back info rest in
    if a == info.server_id then (a, blks ++ info.block_addr ∷ []) ∷ rest else (a, blks) ∷ more

-- The two loops over the discarded mappings and their replicas.
pub group_blocks : List ServerReplicaBlockInfoList → ServerBlocks → ServerBlocks
unfolding emplace_back
group_blocks [] acc = acc
group_blocks (blks ∷ rest) acc =
    group_blocks rest (emplace_back blks.back.info (emplace_back blks.front.info acc))

module _ {A : Type 0} where
  pub drop : ℕ → List A → List A
  drop zero xs = xs
  drop (suc n) [] = []
  drop (suc n) (x ∷ xs) = drop n xs

module _ {W : Type 0} (call : W → ServerId → List BlockAddr → W) where
  -- `sent` is the record of the batches that were sent, the last one first; no code reads it.
  pub record Collector : Type 0 where
    pub world : W
    pub servers : ServerSet
    pub blk_res : BlockResolver
    pub num_gc_blocks : ℕ
    pub sent : List (ServerId × List BlockAddr)

  -- A round of the loop over a server's blocks.
  pub send_batch : ServerId → List BlockAddr → Collector → Collector
  send_batch id blks c = record c {
    world = call c.world id (take (min (length blks) k_discard_batch) blks);
    num_gc_blocks = c.num_gc_blocks + min (length blks) k_discard_batch;
    sent = (id, take (min (length blks) k_discard_batch) blks) ∷ c.sent;
  }

  -- The loop itself, for `k` rounds. `none` is a loop that has not ended.
  pub send_batches : ℕ → ServerId → List BlockAddr → Collector → Option Collector
  unfolding send_batch drop
  send_batches k id [] c = some c
  send_batches zero id (x ∷ xs) c = none
  send_batches (suc k) id (x ∷ xs) c =
      send_batches k id (drop (min (length (x ∷ xs)) k_discard_batch) (x ∷ xs))
        (send_batch id (x ∷ xs) c)

  after_server :
      (Collector → Option (Status Collector)) → Option Collector → Option (Status Collector)
  after_server rest none = none
  after_server rest (some c) = rest c

  -- The loop over the servers. A round for each block is enough for a server.
  pub visit_servers : ServerBlocks → List ServerId → Collector → Option (Status Collector)
  unfolding after_server send_batches blocks_of
  visit_servers groups [] c = some (ok c)
  visit_servers groups (id ∷ ids) c =
      let rest =
        after_server (visit_servers groups ids)
          (send_batches (length (blocks_of id groups)) id (blocks_of id groups) c) in
      if contains c.servers id then rest else some fault

  -- What follows once the discarded mappings are taken.
  collect :
      (ServerBlocks → List ServerId)
      → Collector
      → Status (List ServerReplicaBlockInfoList × BlockResolver)
      → Option (Status Collector)
  unfolding visit_servers group_blocks
  collect visited c (err e) = some (ok c)
  collect visited c fault = some fault
  collect visited c (ok (blks, r)) =
      visit_servers (group_blocks blks []) (visited (group_blocks blks []))
        (record c { blk_res = r })

  -- `RunGarbageCollector`; `visited` gives the servers in the order in which the map is walked.
  pub run_garbage_collector : (ServerBlocks → List ServerId) → Collector → Option (Status Collector)
  unfolding collect
  run_garbage_collector visited c = collect visited c (get_and_reset_discarded_blocks c.blk_res)
