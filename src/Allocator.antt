-- ===== src/Allocator.antt =====
-- controller/block_allocator.h, and the allocation path of controller/controller_agent.cc: each
-- server's blocks are handed out by a counter that only grows.
pub mod Batch
pub mod Fresh
mod Tests
use sandook.Base.{
  ℕ, zero, suc, ◌+◌, ◌%◌, ◌≡◌, refl, Bool, true, false, ◌&&◌, if◌then◌else◌, ltb, ◌==◌, List, [],
  ◌∷◌, length, set, replicate, take, ◌++◌,
}
use sandook.Status.{Status, ok, err, fault, ◌>>=◌, ◌>>◌, check}
use sandook.Types.{
  ServerId, BlockAddr, ServerBlockInfo, ServerArray, put, k_num_max_servers, k_invalid_server_id,
  k_allocation_batch, u64_mod,
}

pub record ServerAllocation : Type 0 where
  pub allocation_map : List Bool
  pub next_allocation : BlockAddr

pub record BlockAllocator : Type 0 where
  pub srv_allocs : ServerArray ServerAllocation

-- `std::vector::resize`: entries are dropped from the end, or `false` ones are added there.
resize : List Bool → ℕ → List Bool
resize xs zero = []
resize [] (suc n) = false ∷ resize [] n
resize (x ∷ xs) (suc n) = x ∷ resize xs n

-- The initial value of the member `srv_allocs_`.
pub empty_allocator : BlockAllocator
empty_allocator = record { srv_allocs = λ _. record { allocation_map = []; next_allocation = 0 } }

-- `assert(server_id < kNumMaxServers && server_id > kInvalidServerID)`.
valid_server_id : ServerId → Bool
valid_server_id id = ltb id k_num_max_servers && ltb k_invalid_server_id id

pub add_server : BlockAllocator → ServerId → ℕ → Status BlockAllocator
unfolding valid_server_id resize
add_server b id nsectors = do
  check (valid_server_id id)
  let old = b.srv_allocs id
  let new : ServerAllocation = record {
    allocation_map = resize old.allocation_map nsectors;
    next_allocation = 0;
  }
  ok (record { srv_allocs = put b.srv_allocs id new })

-- The loop that fills `allocs`, with `k` rounds left.
pub fill_allocs : ServerId → ℕ → ℕ → List ServerBlockInfo
fill_allocs id idx zero = []
fill_allocs id idx (suc k) =
    record { server_id = id; block_addr = idx % u64_mod } ∷ fill_allocs id (idx + 1) k

pub allocate_blocks : BlockAllocator → ServerId → ℕ → Status (List ServerBlockInfo × BlockAllocator)
unfolding valid_server_id fill_allocs
allocate_blocks b id n = do
  check (valid_server_id id)
  let server = b.srv_allocs id
  let start_idx = server.next_allocation
  let new : ServerAllocation = record server { next_allocation = (start_idx + n) % u64_mod }
  ok (fill_allocs id start_idx n, record { srv_allocs = put b.srv_allocs id new })

-- The loop of `ControllerAgent::AllocateBlocks` that copies the blocks into the array to return.
pub copy_blocks : List ServerBlockInfo → ℕ → List ServerBlockInfo → Status (List ServerBlockInfo)
copy_blocks dst next_blk [] = ok dst
copy_blocks dst next_blk (blk ∷ blks) =
    let rest = copy_blocks (set dst next_blk blk) (next_blk + 1) blks in
    if ltb next_blk (length dst) then rest else fault

-- An entry of the array `server_blks{}`.
abbrev no_block : ServerBlockInfo
no_block = record { server_id = 0; block_addr = 0 }

-- `ControllerAgent::AllocateBlocks`: a batch of blocks for one server.
pub allocate_batch : BlockAllocator → ServerId → Status (List ServerBlockInfo × BlockAllocator)
unfolding copy_blocks
allocate_batch b id = do
  (blks, b') ← allocate_blocks b id k_allocation_batch
  server_blks ← copy_blocks (replicate k_allocation_batch no_block) 0 blks
  ok (server_blks, b')
