-- ===== src/Counter/Account.antt =====
-- What is counted is collected once.
use sandook.Base.{
  ℕ, zero, suc, ◌+◌, ◌%◌, ◌≡◌, ◌<◌, refl, List, [], ◌∷◌, All, set, length, length-set,
  length-replicate, replicate, arith, subst, sym, ◌∙◌, ap,
}
use sandook.Types.{u64_mod}
use sandook.Counter.{
  ThreadSafeCounter, init, negate, cell, inc_local, dec_local, add_cells, get_sum,
  get_sum_and_reset,
}

-- The calls, with the core that makes them.
pub data Op : Type 0 where
  incs decs : ℕ → ℕ → Op
  resets : Op

-- The sum that a call returns, if it is a reset, and the counter after it.
pub step : ThreadSafeCounter → Op → ℕ × ThreadSafeCounter
step t (incs cpu delta) = (0, inc_local t cpu delta)
step t (decs cpu delta) = (0, dec_local t cpu delta)
step t resets = get_sum_and_reset t

-- The total of the sums that the resets return, and the counter at the end.
pub run : ThreadSafeCounter → List Op → ℕ × ThreadSafeCounter
run t [] = (0, t)
run t (op ∷ ops) = let (got, t') = step t op in let (more, t'') = run t' ops in (got + more, t'')

-- The increments less the decrements, as a word.
pub net : ℕ → List Op → ℕ
net n [] = n
net n (incs cpu delta ∷ ops) = net ((n + delta) % u64_mod) ops
net n (decs cpu delta ∷ ops) = net ((n + negate delta) % u64_mod) ops
net n (resets ∷ ops) = net n ops

abbrev pub OnCores : ℕ → Op → Type 0
OnCores n (incs cpu delta) = cpu < n
OnCores n (decs cpu delta) = cpu < n
OnCores n resets = Unit

total : List ℕ → ℕ
total [] = 0
total (x ∷ xs) = x + total xs

add_cells_lem : (sum : ℕ) (xs : List ℕ) → add_cells sum xs % u64_mod ≡ (sum + total xs) % u64_mod
unfolding add_cells total
add_cells_lem sum [] = omega arith
add_cells_lem sum (x ∷ xs) = omega (arith, add_cells_lem ((sum + x) % u64_mod) xs)

total-set : (xs : List ℕ) (i v : ℕ) → i < length xs → total (set xs i v) + cell xs i ≡ total xs + v
unfolding total cell
total-set [] i v h = elim h [ ]
total-set (x ∷ xs) zero v h = omega arith
total-set (x ∷ xs) (suc i) v h = omega (arith, total-set xs i v (omega arith))

total-replicate : (n : ℕ) → total (replicate n 0) ≡ 0
unfolding total
total-replicate zero = refl
total-replicate (suc n) = omega (arith, total-replicate n)

get_sum_lem : (t : ThreadSafeCounter) → get_sum t ≡ (total t.cnts + t.delta) % u64_mod
unfolding get_sum
get_sum_lem t = omega (arith, add_cells_lem 0 t.cnts)

-- One call: what it returns and what is left account for what was there and what was counted.
step_lem :
    (t : ThreadSafeCounter) (op : Op)
    → OnCores (length t.cnts) op
    → ((step t op).0 + get_sum (step t op).1) % u64_mod ≡ net (get_sum t) (op ∷ []) % u64_mod
unfolding step net inc_local dec_local get_sum_and_reset negate
step_lem t (incs cpu delta) h = omega (
  arith,
  get_sum_lem t,
  get_sum_lem (inc_local t cpu delta),
  total-set t.cnts cpu ((cell t.cnts cpu + delta) % u64_mod) h,
)
step_lem t (decs cpu delta) h = omega (
  arith,
  get_sum_lem t,
  get_sum_lem (dec_local t cpu delta),
  total-set t.cnts cpu ((cell t.cnts cpu + negate delta) % u64_mod) h,
)
step_lem t resets h = omega (arith, get_sum_lem t, get_sum_lem (get_sum_and_reset t).1)

net_shift :
    (m n : ℕ) (ops : List Op) → net ((m + n) % u64_mod) ops % u64_mod ≡ (m + net n ops) % u64_mod
unfolding net
net_shift m n [] = omega arith
net_shift m n (incs cpu delta ∷ ops) =
    let same : ((m + n) % u64_mod + delta) % u64_mod ≡ (m + (n + delta) % u64_mod) % u64_mod =
      omega arith in
    rw same (net_shift m ((n + delta) % u64_mod) ops)
net_shift m n (decs cpu delta ∷ ops) =
    let same : ((m + n) % u64_mod + negate delta) % u64_mod
        ≡ (m + (n + negate delta) % u64_mod) % u64_mod =
      omega arith in
    rw same (net_shift m ((n + negate delta) % u64_mod) ops)
net_shift m n (resets ∷ ops) = net_shift m n ops

net_step : (n : ℕ) (op : Op) (ops : List Op) → net n (op ∷ ops) ≡ net (net n (op ∷ [])) ops
unfolding net
net_step n (incs cpu delta) ops = refl
net_step n (decs cpu delta) ops = refl
net_step n resets ops = refl

length-step : (t : ThreadSafeCounter) (op : Op) → length (step t op).1.cnts ≡ length t.cnts
unfolding step inc_local dec_local get_sum_and_reset
length-step t (incs cpu delta) = length-set t.cnts cpu _
length-step t (decs cpu delta) = length-set t.cnts cpu _
length-step t resets = refl

net_small :
    (t : ThreadSafeCounter) (op : Op)
    → net (get_sum t) (op ∷ []) % u64_mod ≡ net (get_sum t) (op ∷ [])
unfolding net
net_small t (incs cpu delta) = omega arith
net_small t (decs cpu delta) = omega arith
net_small t resets = omega (arith, get_sum_lem t)

run_lem :
    (t : ThreadSafeCounter) (ops : List Op)
    → All (OnCores (length t.cnts)) ops
    → ((run t ops).0 + get_sum (run t ops).1) % u64_mod ≡ net (get_sum t) ops % u64_mod
unfolding run
run_lem t [] h = unfold net in omega arith
run_lem t (op ∷ ops) h =
    let t' = (step t op).1 in
    let ih = run_lem t' ops (subst (λ n. All (OnCores n) ops) (sym (length-step t op)) h.1) in
    let shift = net_shift (step t op).0 (get_sum t') ops in
    let one = step_lem t op h.0 in
    let word : net (get_sum t) (op ∷ []) % u64_mod ≡ net (get_sum t) (op ∷ []) = net_small t op in
    let join = ap (λ n. net n ops % u64_mod) (one ∙ word) in
    omega (arith, ih, shift, join, ap (λ n. n % u64_mod) (net_step (get_sum t) op ops))

-- Over any history of calls on the cores of a new counter, what the resets returned and the sum that
-- is left are together the increments less the decrements, as a 64-bit word: nothing that is counted is
-- lost or returned twice.
pub run_account :
    (cores : ℕ) (ops : List Op)
    → All (OnCores cores) ops
    → ((run (init cores) ops).0 + get_sum (run (init cores) ops).1) % u64_mod ≡ net 0 ops % u64_mod
unfolding init
run_account cores ops h =
    let zero_sum : get_sum (init cores) ≡ 0 =
      omega (arith, get_sum_lem (init cores), total-replicate cores) in
    run_lem (init cores) ops (subst (λ n. All (OnCores n) ops) (sym (length-replicate cores 0)) h)
    ∙ ap (λ n. net n ops % u64_mod) zero_sum

-- After a reset nothing is left to collect.
pub get_sum_and_reset-zero : (t : ThreadSafeCounter) → get_sum (get_sum_and_reset t).1 ≡ 0
unfolding get_sum_and_reset negate
get_sum_and_reset-zero t = omega (arith, get_sum_lem t, get_sum_lem (get_sum_and_reset t).1)

-- A reset returns the sum.
pub get_sum_and_reset-sum : (t : ThreadSafeCounter) → (get_sum_and_reset t).0 ≡ get_sum t
unfolding get_sum_and_reset
get_sum_and_reset-sum t = refl
