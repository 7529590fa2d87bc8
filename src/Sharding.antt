-- ===== src/Sharding.antt =====
-- virtual_disk/virtual_disk_base.cc: a request for many sectors is split over a few threads, each of
-- which submits one-sector requests, and the results are combined when all threads have joined.
pub mod Cover
pub mod Joined
mod Tests
use sandook.Base.{
  ℕ, zero, suc, ◌+◌, ◌-◌, ◌*◌, ◌/◌, ◌%◌, ◌≡◌, Bool, true, false, if◌then◌else◌, ◌==◌, min, List, [],
  ◌∷◌, ◌++◌, All,
}
use sandook.Status.{Status, ok, err, fault, Error, code, ◌>>=◌, ◌>>◌, check}
use sandook.Types.{IoDesc, OpType, get_op, k_device_alignment, u32_mod, u64_mod}

pub record Plan : Type 0 where
  pub nthreads : ℕ
  pub sectors_per_thread : ℕ
  pub remaining : ℕ

-- `kMaxPerWriteRequestConcurrency` and `kMaxPerRequestConcurrency`.
unfoldable pub max_concurrency : OpType → ℕ
max_concurrency OpType.write = 1
max_concurrency _ = 4

pub plan : ℕ → ℕ → Plan
plan max_concurrency num_sectors =
    let nthreads = min num_sectors max_concurrency in
    let per_thread = if nthreads == num_sectors then 1 else num_sectors / nthreads in
    record {
      nthreads = nthreads;
      sectors_per_thread = per_thread;
      remaining = (num_sectors + u32_mod - per_thread * nthreads % u32_mod) % u32_mod;
    }

-- The descriptor of one sector of a request.
pub sector_request : IoDesc → ℕ → IoDesc
sector_request iod offset = record iod {
  num_sectors = 1;
  start_sector = (iod.start_sector + offset) % u64_mod;
  addr = (iod.addr + k_device_alignment * offset) % u64_mod;
}

-- A thread's loop over its sectors, with `k` rounds left.
pub requests_from : IoDesc → ℕ → ℕ → List IoDesc
requests_from iod offset zero = []
requests_from iod offset (suc k) = sector_request iod offset ∷ requests_from iod (offset + 1) k

pub thread_requests : IoDesc → Plan → ℕ → List IoDesc
thread_requests iod p tid = requests_from iod (tid * p.sectors_per_thread % u32_mod) (
    if tid == p.nthreads - 1
    then (p.sectors_per_thread + p.remaining) % u32_mod
    else p.sectors_per_thread)

-- The loop that starts the threads, with `k` of them left.
pub threads_from : IoDesc → Plan → ℕ → ℕ → List (List IoDesc)
threads_from iod p tid zero = []
threads_from iod p tid (suc k) = thread_requests iod p tid ∷ threads_from iod p (tid + 1) k

-- The requests of each thread; `BUG_ON` stops the process.
pub spawn_threads : IoDesc → Status (List (List IoDesc))
spawn_threads iod = do
  let p = plan (max_concurrency (get_op iod)) iod.num_sectors
  check ((p.sectors_per_thread * p.nthreads % u32_mod + p.remaining) % u32_mod == iod.num_sectors)
  ok (threads_from iod p 0 p.nthreads)

-- The orders in which the threads' requests can be processed: some thread with work left makes the
-- next step.
pub data Interleaves : List (List IoDesc) → List IoDesc → Type 0 where
  joined : {ts : List (List IoDesc)} → All (λ t. t ≡ []) ts → Interleaves ts []
  steps :
      (before after : List (List IoDesc)) (x : IoDesc) (t : List IoDesc) {ts : List (List IoDesc)}
      {order : List IoDesc}
      → ts ≡ before ++ ((x ∷ t) ∷ after)
      → Interleaves (before ++ (t ∷ after)) order
      → Interleaves ts (x ∷ order)

-- The shared counters of the threads: `err_code` and the bit pattern of the int `res`.
pub record Counters : Type 0 where
  pub err_code : ℕ
  pub res : ℕ

pub data IoResult : Type 0 where
  k_ok k_failed : ℕ → IoResult

-- What a thread does with the answer to one request. A fault in a thread stops the process.
pub count : Counters → Status ℕ → Status Counters
count c (ok n) = ok (record c { res = (c.res + n) % u32_mod })
count c (err e) = ok (record c { err_code = code e })
count c fault = fault

-- The status and result that the last lines of the function return.
abbrev pub result_of : Counters → IoResult
result_of c = if c.err_code == 0 then IoResult.k_ok c.res else IoResult.k_failed c.err_code

module _ {S : Type 0} (process_request : S → IoDesc → Status ℕ × S) where
  -- The requests processed one after the other, in some order.
  pub process_all : S → Counters → List IoDesc → Status (Counters × S)
  process_all s c [] = ok (c, s)
  process_all s c (iod ∷ iods) = do
    let (ret, s') = process_request s iod
    c' ← count c ret
    process_all s' c' iods

  -- `ProcessShardedRequests`, once the order of the requests is known.
  pub process_sharded_requests : S → List IoDesc → Status (IoResult × S)
  process_sharded_requests s order = do
    (c, s') ← process_all s (record { err_code = 0; res = 0 }) order
    ok (result_of c, s')
