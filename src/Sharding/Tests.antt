-- ===== src/Sharding/Tests.antt =====
-- Requests of two and of five sectors.
use sandook.Base.{
  ℕ, ◌≡◌, ◌+◌, ◌*◌, ◌<◌, ◌%◌, refl, List, [], ◌∷◌, if◌then◌else◌, ◌==◌, arith, flatten,
}
use sandook.Status.{Status, ok, err, Error}
use sandook.Types.{IoDesc, get_op, u32_mod}
use sandook.Sharding.{
  sector_request, requests_from, thread_requests, threads_from, plan, max_concurrency,
  spawn_threads, Interleaves, joined, steps, IoResult, process_sharded_requests,
}
use sandook.Sharding.Cover.{spawn_threads_cover}
use sandook.Sharding.Joined.{answers, process_sharded_requests-ok, process_sharded_requests-failed}

-- A read at sector 10.
abbrev read_of : ℕ → IoDesc
read_of n = record {
  op_flags = 0;
  num_sectors = n;
  start_sector = 10;
  addr = 65536;
  callback_args = 0;
  callback = 0;
}

spawn_threads_cover_example :
    (ts : List (List IoDesc)) × (spawn_threads (read_of 5) ≡ ok ts)
    × (flatten ts ≡ requests_from (read_of 5) 0 5)
spawn_threads_cover_example = spawn_threads_cover (read_of 5) (omega arith)

abbrev first : IoDesc
first = record (read_of 1) { start_sector = 10; addr = 65536 }

abbrev second : IoDesc
second = record (read_of 1) { start_sector = 11; addr = 69632 }

two_threads : spawn_threads (read_of 2) ≡ ok ((first ∷ []) ∷ (second ∷ []) ∷ [])
unfolding spawn_threads threads_from thread_requests requests_from sector_request plan
    max_concurrency get_op
two_threads = refl

back_to_front : Interleaves ((first ∷ []) ∷ (second ∷ []) ∷ []) (second ∷ first ∷ [])
back_to_front =
    steps ((first ∷ []) ∷ []) [] second [] refl
      (steps [] ([] ∷ []) first [] refl (joined (refl, (refl, tt))))

-- Each sector is answered with its bytes, and the requests are counted.
abbrev serve : ℕ → IoDesc → Status ℕ × ℕ
serve s iod = (ok 4096, s + 1)

process_sharded_requests-ok_example :
    (s : ℕ) × (process_sharded_requests serve 0 (second ∷ first ∷ [])
      ≡ ok (IoResult.k_ok (4096 * 2 % u32_mod), s))
process_sharded_requests-ok_example =
    process_sharded_requests-ok serve (read_of 2) 0 4096 (omega arith) two_threads back_to_front
      (unfold answers in (refl, (refl, tt)))

-- Sector 10 fails.
abbrev serve_odd : ℕ → IoDesc → Status ℕ × ℕ
serve_odd s iod = (if iod.start_sector == 10 then err Error.eagain else ok 4096, s + 1)

process_sharded_requests-failed_example :
    (n : ℕ) × (s : ℕ) × (process_sharded_requests serve_odd 0 (first ∷ second ∷ [])
      ≡ ok (IoResult.k_failed n, s))
    × (0 < n)
process_sharded_requests-failed_example =
    process_sharded_requests-failed serve_odd 0 (first ∷ second ∷ [])
      (unfold answers in ((λ e. cc), ((λ e. cc), tt))) (unfold answers in tt)
