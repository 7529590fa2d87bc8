-- ===== src/Sharding/Cover.antt =====
-- The threads together submit every sector of the request once, as one loop would.
use sandook.Base.{
  ℕ, zero, suc, ◌+◌, ◌-◌, ◌*◌, ◌/◌, ◌%◌, ◌≡◌, refl, ap, sym, ◌∙◌, ◌<◌, ◌≤◌, true, false,
  if◌then◌else◌, ◌==◌, min, arith, flatten, List, ◌∷◌, ◌++◌, ==_iff, ne_of_==, Bool-cases, inl, inr,
  ◌⊎◌,
}
use sandook.Status.{ok}
use sandook.Types.{IoDesc, OpType, get_op, u32_mod}
use sandook.Sharding.{
  sector_request, Plan, plan, max_concurrency, requests_from, thread_requests, threads_from,
  spawn_threads,
}
use mathlib.Core.List.{append-nil}
use mathlib.Core.Path.{ap₂}
use native.Mathlib.Nat.{zero-add, add-zero, suc-add}

max_concurrency_cases : (op : OpType) → (max_concurrency op ≡ 1) ⊎ (max_concurrency op ≡ 4)
unfolding max_concurrency
max_concurrency_cases op = ground arith

rest_lem : (n q : ℕ) → q ≤ n → n < u32_mod → q + (n + u32_mod - q % u32_mod) % u32_mod ≡ n
rest_lem n q h k = omega arith

product-le : (m n : ℕ) → (m ≡ 1) ⊎ (m ≡ 4) → (if min n m == n then 1 else n / min n m) * min n m ≤ n
product-le m n c = elim (Bool-cases (min n m == n)) [
  | inl e ↦ rw e (omega arith)
  | inr e ↦
      rw e (let d = ne_of_== (min n m) n e in let h : min n m ≡ m = omega arith in rw h (go c))
]
  where
    go : (m ≡ 1) ⊎ (m ≡ 4) → n / m * m ≤ n
    go (inl e) = rw e (omega arith)
    go (inr e) = rw e (omega arith)

-- The plan shares out exactly the sectors of the request, and no `uint32_t` operation wraps.
pub plan_total :
    (m n : ℕ)
    → (m ≡ 1) ⊎ (m ≡ 4)
    → n < u32_mod
    → ((plan m n).sectors_per_thread * (plan m n).nthreads + (plan m n).remaining ≡ n)
      × ((0 < n) → 0 < (plan m n).nthreads)
unfolding plan
plan_total m n c h = (rest_lem n _ (product-le m n c) h, omega arith)

requests_from-cong :
    (iod : IoDesc) {off off' k k' : ℕ}
    → off ≡ off'
    → k ≡ k'
    → requests_from iod off k ≡ requests_from iod off' k'
requests_from-cong iod p q = ap₂ (requests_from iod) p q

requests_from-append :
    (iod : IoDesc) (off a b : ℕ)
    → requests_from iod off (a + b) ≡ requests_from iod off a ++ requests_from iod (off + a) b
unfolding requests_from
requests_from-append iod off zero b = rw (zero-add, add-zero)
requests_from-append iod off (suc a) b =
    let shift : off + 1 + a ≡ off + suc a = omega arith in
    rw (suc-add, ← shift)
      (ap (λ r. sector_request iod off ∷ r) (requests_from-append iod (off + 1) a b))

thread_requests_last :
    (iod : IoDesc) (p : Plan) (tid : ℕ)
    → tid + 1 ≡ p.nthreads
    → p.sectors_per_thread * p.nthreads + p.remaining < u32_mod
    → thread_requests iod p tid
      ≡ requests_from iod (tid * p.sectors_per_thread) (p.sectors_per_thread + p.remaining)
unfolding thread_requests
thread_requests_last iod p tid e b =
    let times = ap (λ (t : ℕ). p.sectors_per_thread * t) e in
    rw ((==_iff tid (p.nthreads - 1)).1 (omega arith))
      (requests_from-cong iod (omega (arith, times)) (omega (arith, times)))

thread_requests_inner :
    (iod : IoDesc) (p : Plan) (tid k : ℕ)
    → tid + suc (suc k) ≡ p.nthreads
    → p.sectors_per_thread * p.nthreads + p.remaining < u32_mod
    → thread_requests iod p tid
      ≡ requests_from iod (tid * p.sectors_per_thread) p.sectors_per_thread
unfolding thread_requests
thread_requests_inner iod p tid k e b =
    let times = ap (λ (t : ℕ). p.sectors_per_thread * t) e in
    let differs : (tid == p.nthreads - 1) ≡ false = ground arith in
    rw differs (requests_from-cong iod (omega (arith, times)) refl)

-- What the threads from `tid` on submit.
flatten-threads_from :
    (iod : IoDesc) (p : Plan) (tid k : ℕ)
    → tid + suc k ≡ p.nthreads
    → p.sectors_per_thread * p.nthreads + p.remaining < u32_mod
    → flatten (threads_from iod p tid (suc k))
      ≡ requests_from iod (tid * p.sectors_per_thread) (suc k * p.sectors_per_thread + p.remaining)
unfolding threads_from
flatten-threads_from iod p tid zero e b =
    append-nil (thread_requests iod p tid)
    ∙ thread_requests_last iod p tid e b
    ∙ requests_from-cong iod refl (omega arith)
flatten-threads_from iod p tid (suc k) e b =
    ap₂ (◌++◌) (thread_requests_inner iod p tid k e b) (
      flatten-threads_from iod p (tid + 1) k (omega arith) b
      ∙ requests_from-cong iod (omega arith) refl)
    ∙ sym (
        requests_from-append iod (tid * p.sectors_per_thread) p.sectors_per_thread
          (suc k * p.sectors_per_thread + p.remaining))
    ∙ requests_from-cong iod refl (omega arith)

cover :
    (iod : IoDesc) (p : Plan) (num n : ℕ)
    → p.nthreads ≡ n
    → p.sectors_per_thread * p.nthreads + p.remaining ≡ num
    → ((0 < num) → 0 < p.nthreads)
    → num < u32_mod
    → flatten (threads_from iod p 0 n) ≡ requests_from iod 0 num
unfolding threads_from requests_from
cover iod p zero zero e t pos h = refl
cover iod p (suc num) zero e t pos h = absurd (omega (arith, pos (omega arith)))
cover iod p num (suc k) e t pos h =
    flatten-threads_from iod p 0 k (omega arith) (omega arith)
    ∙ requests_from-cong iod (omega arith)
        (omega (arith, ap (λ (n : ℕ). p.sectors_per_thread * n) e))

-- A request of fewer than 2 ^ 32 sectors is split without a fault, and the requests of all
-- threads, one thread after the other, are those of a single loop over the request's sectors: no
-- sector is left out, and none is submitted twice.
pub spawn_threads_cover :
    (iod : IoDesc)
    → iod.num_sectors < u32_mod
    → (ts : List (List IoDesc)) × (spawn_threads iod ≡ ok ts)
      × (flatten ts ≡ requests_from iod 0 iod.num_sectors)
unfolding spawn_threads
spawn_threads_cover iod h =
    let p = plan (max_concurrency (get_op iod)) iod.num_sectors in
    let (t, pos) =
      plan_total (max_concurrency (get_op iod)) iod.num_sectors (max_concurrency_cases (get_op iod))
        h in
    let checked : ((p.sectors_per_thread * p.nthreads % u32_mod + p.remaining) % u32_mod
          == iod.num_sectors)
        ≡ true =
      (==_iff _ _).1 (omega (arith, t)) in
    (
      threads_from iod p 0 p.nthreads,
      rw checked,
      cover iod p iod.num_sectors p.nthreads refl t pos h,
    )
