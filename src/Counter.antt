-- ===== src/Counter.antt =====
-- base/counter.h and base/counter.cc: a counter with a cell for each core, so that threads on different
-- cores do not write to the same cell. The cells are 64-bit words, in two's complement.
pub mod Account
mod Tests
use sandook.Base.{ℕ, ◌+◌, ◌-◌, ◌%◌, List, [], ◌∷◌, set, replicate, get_elem?, Option, none, some}
use sandook.Types.{u64_mod}

pub record ThreadSafeCounter : Type 0 where
  pub cnts : List ℕ
  pub delta : ℕ

pub init : ℕ → ThreadSafeCounter
init k_max_num_cores = record { cnts = replicate k_max_num_cores 0; delta = 0 }

-- The word of `- x`.
pub negate : ℕ → ℕ
negate x = (u64_mod - x % u64_mod) % u64_mod

-- The value of a cell.
pub cell : List ℕ → ℕ → ℕ
cell xs i = elim (get_elem? xs i) [ none ↦ 0 | some c ↦ c ]

pub inc_local : ThreadSafeCounter → ℕ → ℕ → ThreadSafeCounter
inc_local t cpu delta = record t { cnts = set t.cnts cpu ((cell t.cnts cpu + delta) % u64_mod) }

pub dec_local : ThreadSafeCounter → ℕ → ℕ → ThreadSafeCounter
dec_local t cpu delta = record t {
  cnts = set t.cnts cpu ((cell t.cnts cpu + negate delta) % u64_mod);
}

-- The loop of `get_sum`.
pub add_cells : ℕ → List ℕ → ℕ
add_cells sum [] = sum
add_cells sum (c ∷ cs) = add_cells ((sum + c) % u64_mod) cs

pub get_sum : ThreadSafeCounter → ℕ
get_sum t = (add_cells 0 t.cnts + t.delta) % u64_mod

pub get_sum_and_reset : ThreadSafeCounter → ℕ × ThreadSafeCounter
get_sum_and_reset t =
    let sum = get_sum t in (sum, record t { delta = (t.delta + negate sum) % u64_mod })
