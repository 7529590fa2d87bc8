-- ===== src/Allocator/Batch.antt =====
-- What one call of the allocator returns.
use mathlib.Core.List.{append-nil, append_assoc}
use native.Mathlib.Numerals.{add-one}
use sandook.Base.{
  All-map, ℕ, zero, suc, ◌+◌, ◌%◌, ◌<◌, ◌≤◌, ◌≡◌, refl, ap, sym, ◌∙◌, lt→ltb, List, [], ◌∷◌, ◌++◌,
  length, set, take, replicate, length-set, length-replicate, All, Distinct, arith,
}
use sandook.Status.{ok}
use sandook.Types.{ServerId, ServerBlockInfo, put, k_allocation_batch, u64_mod}
use sandook.Allocator.{
  BlockAllocator, ServerAllocation, resize, add_server, valid_server_id, fill_allocs,
  allocate_blocks, copy_blocks, allocate_batch, no_block,
}

length-fill_allocs : (id idx k : ℕ) → length (fill_allocs id idx k) ≡ k
unfolding fill_allocs
length-fill_allocs id idx zero = refl
length-fill_allocs id idx (suc k) = ap suc (length-fill_allocs id (idx + 1) k)

-- A block of one server in a range of addresses.
abbrev pub InRange : ServerId → ℕ → ℕ → ServerBlockInfo → Type 0
InRange id lo hi x = (x.server_id ≡ id) × (lo ≤ x.block_addr) × (x.block_addr < hi)

pub fill_allocs-InRange :
    (id lo hi idx k : ℕ)
    → lo ≤ idx
    → idx + k ≤ hi
    → hi ≤ u64_mod
    → All (InRange id lo hi) (fill_allocs id idx k)
unfolding fill_allocs
fill_allocs-InRange id lo hi idx zero h b m = tt
fill_allocs-InRange id lo hi idx (suc k) h b m = (
  (refl, omega arith, omega arith),
  fill_allocs-InRange id lo hi (idx + 1) k (omega arith) (omega arith) m,
)

pub fill_allocs-Distinct : (id idx k : ℕ) → idx + k ≤ u64_mod → Distinct (fill_allocs id idx k)
unfolding fill_allocs
fill_allocs-Distinct id idx zero b = tt
fill_allocs-Distinct id idx (suc k) b = (
  All-map (InRange id (idx + 1) (idx + suc k)) _
      (λ x r e. absurd (omega (arith, r.1, ap (λ z. z.block_addr) e))) (fill_allocs id (idx + 1) k)
      (fill_allocs-InRange id (idx + 1) (idx + suc k) (idx + 1) k (omega arith) (omega arith) b),
  fill_allocs-Distinct id (idx + 1) k (omega arith),
)

take-set :
    (dst : List ServerBlockInfo) (i : ℕ) (x : ServerBlockInfo)
    → i < length dst
    → take (suc i) (set dst i x) ≡ take i dst ++ x ∷ []
take-set [] i x h = elim h [ ]
take-set (y ∷ ys) zero x h = refl
take-set (y ∷ ys) (suc i) x h = ap (λ r. y ∷ r) (take-set ys i x (omega arith))

take-length : (n : ℕ) (xs : List ServerBlockInfo) → length xs ≡ n → take n xs ≡ xs
take-length zero [] h = refl
take-length zero (x ∷ xs) h = absurd (omega arith)
take-length (suc n) [] h = refl
take-length (suc n) (x ∷ xs) h = ap (λ r. x ∷ r) (take-length n xs (omega arith))

-- Copying into an array of the same size runs to its end.
copy_blocks_tail :
    (dst : List ServerBlockInfo) (i : ℕ) (blks : List ServerBlockInfo)
    → length dst ≡ i + length blks
    → copy_blocks dst i blks ≡ ok (take i dst ++ blks)
unfolding copy_blocks
copy_blocks_tail dst i [] h =
    ap ok (sym (append-nil (take i dst) ∙ take-length i dst (omega arith)))
copy_blocks_tail dst i (x ∷ xs) h =
    rw (lt→ltb i (length dst) (omega arith), add-one)
      (copy_blocks_tail (set dst i x) (suc i) xs (omega (arith, length-set dst i x))
        ∙ ap ok (
            ap (λ r. r ++ xs) (take-set dst i x (omega arith))
            ∙ append_assoc (take i dst) (x ∷ []) xs))

copy_blocks_lem :
    (dst blks : List ServerBlockInfo) → length dst ≡ length blks → copy_blocks dst 0 blks ≡ ok blks
copy_blocks_lem dst blks h = copy_blocks_tail dst 0 blks (omega arith)

-- Allocating from a valid server hands out the next addresses and moves the counter past them.
pub allocate_blocks_lem :
    (b : BlockAllocator) (id n : ℕ)
    → 0 < id
    → id < 20
    → allocate_blocks b id n
      ≡ ok (
        fill_allocs id (b.srv_allocs id).next_allocation n,
        record {
          srv_allocs = put b.srv_allocs id (record (b.srv_allocs id) {
            next_allocation = ((b.srv_allocs id).next_allocation + n) % u64_mod;
          });
        },
      )
unfolding allocate_blocks
allocate_blocks_lem b id n p q = rw (lt→ltb id 20 q, lt→ltb 0 id p)

-- For a valid server, a batch is what the allocator hands out for 2048 blocks: the copy into the
-- array loses nothing.
pub allocate_batch_lem :
    (b : BlockAllocator) (id : ℕ)
    → 0 < id
    → id < 20
    → allocate_batch b id ≡ allocate_blocks b id k_allocation_batch
unfolding allocate_batch
allocate_batch_lem b id p q = rw (
  allocate_blocks_lem b id k_allocation_batch p q,
  copy_blocks_lem (replicate k_allocation_batch no_block) _ (
      length-replicate k_allocation_batch no_block
      ∙ sym (length-fill_allocs id _ k_allocation_batch)),
)

-- A server with a valid id can be added.
pub add_server_lem :
    (b : BlockAllocator) (id n : ℕ)
    → 0 < id
    → id < 20
    → (b' : BlockAllocator) × (add_server b id n ≡ ok b')
unfolding add_server valid_server_id
add_server_lem b id n p q =
    let new : ServerAllocation = record {
      allocation_map = resize (b.srv_allocs id).allocation_map n;
      next_allocation = 0;
    } in
    (record { srv_allocs = put b.srv_allocs id new }, rw (lt→ltb id 20 q, lt→ltb 0 id p) refl)

pub allocate_batch-total :
    (b : BlockAllocator) (id : ℕ)
    → 0 < id
    → id < 20
    → (blks : List ServerBlockInfo) × (b' : BlockAllocator) × (allocate_batch b id ≡ ok (blks, b'))
allocate_batch-total b id p q =
    (_, _, allocate_batch_lem b id p q ∙ allocate_blocks_lem b id k_allocation_batch p q)
