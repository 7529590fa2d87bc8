-- ===== src/Resolver/Laws.antt =====
-- A lookup after an update.
use sandook.Base.{◌≡◌, ◌<◌, if◌then◌else◌, ◌==◌, arith, lt→ltb}
use sandook.Status.{ok, err, Error}
use sandook.Types.{BlockAddr, ServerReplicaBlockInfoList, k_invalid_server_id, put}
use sandook.Resolver.{BlockResolver, add_mapping, resolve_block, discard_existing_blocks}

-- The resolver after a mapping.
abbrev pub mapped : BlockResolver → BlockAddr → ServerReplicaBlockInfoList → BlockResolver
mapped r a blks = record (discard_existing_blocks r a) {
  blk_map = put (discard_existing_blocks r a).blk_map a blks;
}

pub nsectors-discard :
    (r : BlockResolver) (a : BlockAddr) → (discard_existing_blocks r a).nsectors ≡ r.nsectors
unfolding discard_existing_blocks
nsectors-discard r a = ground arith

pub blk_map-discard :
    (r : BlockResolver) (a : BlockAddr) → (discard_existing_blocks r a).blk_map ≡ r.blk_map
unfolding discard_existing_blocks
blk_map-discard r a = ground arith

pub add_mapping_lem :
    (r : BlockResolver) (a : BlockAddr) (blks : ServerReplicaBlockInfoList)
    → a < r.nsectors
    → add_mapping r a blks ≡ ok (mapped r a blks)
unfolding add_mapping
add_mapping_lem r a blks p = rw (lt→ltb a r.nsectors p)

-- Mapping a block of the volume succeeds. From then on it resolves to the new blocks, or is not
-- found if the new mapping names no server, and every other block resolves as before.
pub resolve_block-add_mapping :
    (r : BlockResolver) (a j : BlockAddr) (blks : ServerReplicaBlockInfoList)
    → a < r.nsectors
    → j < r.nsectors
    → (r' : BlockResolver) × (add_mapping r a blks ≡ ok r')
      × (resolve_block r' j ≡ (
          if a == j
          then (if blks.front.info.server_id == k_invalid_server_id
              then err Error.enoent
              else ok blks)
          else resolve_block r j))
unfolding resolve_block
resolve_block-add_mapping r a j blks p q = (
  mapped r a blks,
  add_mapping_lem r a blks p,
  rw (nsectors-discard r a, blk_map-discard r a) (ground arith),
)
