-- ===== src/Resolver.antt =====
-- virtual_disk/block_resolver.h: the map from a volume's blocks to the server blocks that hold them,
-- and the list of overwritten blocks that the garbage collector takes. A call of `AddMapping` is a load,
-- a push to the list under its lock, and a store, which no lock joins: `add_mapping` is a call that no other
-- one interrupts, and Resolver/Overlap has the three steps of calls that overlap.
pub mod Laws
pub mod Conservation
pub mod Sums
pub mod Overlap
mod Tests
use sandook.Base.{
  ℕ, ◌≡◌, Bool, true, false, not, ◌&&◌, if◌then◌else◌, ltb, ◌==◌, List, [], ◌∷◌, ◌++◌,
}
use sandook.Status.{Status, ok, err, fault, Error, ◌>>=◌, ◌>>◌, check}
use sandook.Types.{
  BlockAddr, ServerBlockInfo, ServerReplicaBlockInfo, ServerReplicaBlockInfoList, put,
  k_invalid_server_id,
}

pub record BlockResolver : Type 0 where
  pub nsectors : ℕ
  pub blk_map : BlockAddr → ServerReplicaBlockInfoList
  pub discard_list : List ServerReplicaBlockInfoList

-- The entry of a block that was never mapped.
abbrev pub unmapped : ServerReplicaBlockInfoList
unmapped = record { front = blank; back = blank }
  where
    blank : ServerReplicaBlockInfo
    blank = record { info = record { server_id = 0; block_addr = 0 }; dirty = false }

pub init : ℕ → BlockResolver
init nsectors = record { nsectors = nsectors; blk_map = λ _. unmapped; discard_list = [] }

-- A mapping whose blocks have to be trimmed once it is overwritten.
pub needs_discard : ServerReplicaBlockInfoList → Bool
needs_discard blks = blks.front.dirty && not (blks.front.info.server_id == k_invalid_server_id)

-- The push under the lock of the discard list, of a mapping that was loaded.
abbrev pub record_discard : BlockResolver → ServerReplicaBlockInfoList → BlockResolver
record_discard r blocks =
    if needs_discard blocks then record r { discard_list = r.discard_list ++ blocks ∷ [] } else r

pub discard_existing_blocks : BlockResolver → BlockAddr → BlockResolver
discard_existing_blocks r blk_addr = record_discard r (r.blk_map blk_addr)

pub add_mapping : BlockResolver → BlockAddr → ServerReplicaBlockInfoList → Status BlockResolver
unfolding discard_existing_blocks
add_mapping r blk_addr srv_blk = do
  check (ltb blk_addr r.nsectors)
  let r' = discard_existing_blocks r blk_addr
  ok (record r' { blk_map = put r'.blk_map blk_addr srv_blk })

unfoldable pub resolve_block : BlockResolver → BlockAddr → Status ServerReplicaBlockInfoList
resolve_block r blk_addr = do
  check (ltb blk_addr r.nsectors)
  let blocks = r.blk_map blk_addr
  if blocks.front.info.server_id == k_invalid_server_id then err Error.enoent else ok blocks

unfoldable pub get_and_reset_discarded_blocks :
    BlockResolver → Status (List ServerReplicaBlockInfoList × BlockResolver)
get_and_reset_discarded_blocks r = elim r.discard_list [
  | [] ↦ err Error.enoent
  | x ∷ xs ↦ ok (x ∷ xs, record r { discard_list = [] })
]
