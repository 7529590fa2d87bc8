-- ===== src/Selection.antt =====
-- scheduler/data_plane/common.h and the schedulers beside it: which server a read goes to, and which
-- two servers a write goes to. A `ServerSet` is an ascending list. Weights are of an abstract type;
-- what the random engine draws is a parameter.
pub mod Members
pub mod Read
pub mod Write
mod Tests
use Prim.Native.Nat.{bit_xor}
use sandook.Base.{
  ℕ, zero, suc, ◌+◌, ◌%◌, ◌≡◌, Bool, true, false, not, ◌&&◌, ◌||◌, if◌then◌else◌, ltb, leb, ◌==◌,
  min, List, [], ◌∷◌, map, length, Option, none, some, get_elem?,
}
use sandook.Status.{Status, ok, err, fault, Error, ◌>>=◌, ◌>>◌, check}
use sandook.Types.{ServerId, ServerArray, VolumeId, k_num_replicas, k_num_max_servers}

abbrev pub ServerSet : Type 0
ServerSet = List ServerId

-- `ServerReplicaList`, an array of `kNumReplicas` entries.
pub record ServerReplicaList : Type 0 where
  pub front : ServerId
  pub back : ServerId

unfoldable pub contains : List ServerId → ServerId → Bool
contains [] a = false
contains (x ∷ xs) a = x == a || contains xs a

-- `std::set::insert` of an element that is not there.
unfoldable pub insert : ServerId → ServerSet → ServerSet
insert a [] = a ∷ []
insert a (x ∷ xs) = if ltb a x then a ∷ x ∷ xs else x ∷ insert a xs

-- `std::ranges::set_intersection` of two ascending sequences.
pub set_intersection : ServerSet → ServerSet → List ServerId
set_intersection [] ys = []
set_intersection (x ∷ xs) ys =
    if contains ys x then x ∷ set_intersection xs ys else set_intersection xs ys

pub is_empty : List ServerId → Bool
is_empty [] = true
is_empty (x ∷ xs) = false

-- `choices.at(idx)`, and `*std::next(begin, idx)` of a set.
pub at : List ServerId → ℕ → Status ServerId
at [] idx = fault
at (x ∷ xs) zero = ok x
at (x ∷ xs) (suc idx) = at xs idx

-- `erase` at a position.
pub erase_at : List ServerId → ℕ → List ServerId
erase_at [] idx = []
erase_at (x ∷ xs) zero = xs
erase_at (x ∷ xs) (suc idx) = x ∷ erase_at xs idx

module _ {W : Type 0} (is_invalid : W → Bool) where
  -- The loop of `GetValidServers` from `i` on, with `k` rounds left.
  pub valid_from : ServerArray W → ℕ → ℕ → ServerSet
  valid_from weights i zero = []
  valid_from weights i (suc k) =
      let rest = valid_from weights (i + 1) k in if is_invalid (weights i) then rest else i ∷ rest

  -- `GetValidServers`: all servers from `kInvalidServerID + 1` on whose weight is not the invalid one.
  pub get_valid_servers : ServerArray W → ServerSet
  get_valid_servers weights = valid_from weights 1 19

  -- `RandomRead::SelectReadServer`: `draw n` is what the uniform distribution over 0 .. n - 1 gives.
  pub random_read : (ℕ → ℕ) → ServerArray W → ServerSet → Status ServerId
  random_read draw weights subset = do
    let servers = get_valid_servers weights
    check (not (is_empty servers))
    let choices = set_intersection servers subset
    if is_empty choices then err Error.enoent else at choices (draw (length choices))

  -- `WeightedRead::SelectReadServer`: `draw ws` is what the discrete distribution with the weights
  -- `ws` gives.
  pub weighted_read : (List W → ℕ) → ServerArray W → ServerSet → Status ServerId
  weighted_read draw weights subset = do
    let servers = get_valid_servers weights
    check (not (is_empty servers))
    let choices = set_intersection servers subset
    if is_empty choices then err Error.enoent else at choices (draw (map weights choices))

-- The loop that `HashWrite` and `WeightedWrite` share: the server at an index that depends on the
-- round and on the servers left is taken out, `k` times.
pub pick : (ℕ → List ServerId → ℕ) → ℕ → ℕ → List ServerId → Status (List ServerId)
pick index i zero choices = ok []
pick index i (suc k) choices = do
  let idx = index i choices
  choice ← at choices idx
  rest ← pick index (i + 1) k (erase_at choices idx)
  ok (choice ∷ rest)

-- The array after its first entries are written, the remaining ones filled by the first.
pub fill_replicas : List ServerId → ServerReplicaList
fill_replicas [] = record { front = 0; back = 0 }
fill_replicas (a ∷ []) = record { front = a; back = a }
fill_replicas (a ∷ b ∷ _) = record { front = a; back = b }

module _ {W : Type 0} (is_invalid : W → Bool) where
  -- `HashWrite::SelectWriteReplicas`, with `std_hash` for `std::hash<uint64_t>`.
  pub hash_write : (ℕ → ℕ) → ServerArray W → VolumeId → ℕ → Status ServerReplicaList
  hash_write std_hash weights vol_id start_sector = do
    let servers = get_valid_servers is_invalid weights
    check (not (is_empty servers))
    let n_options = min (length servers) k_num_replicas
    let h = std_hash (bit_xor vol_id start_sector)
    if length servers == k_num_replicas then ok (fill_replicas servers) else (do
      replicas ← pick (λ i choices. h % length choices) 0 n_options servers
      ok (fill_replicas replicas))

  -- `RandomWrite::SelectWriteReplicas`, with `sample xs n` for `std::ranges::sample`.
  pub random_write : (List ServerId → ℕ → List ServerId) → ServerArray W → Status ServerReplicaList
  random_write sample weights = do
    let servers = get_valid_servers is_invalid weights
    check (not (is_empty servers))
    if length servers == k_num_replicas
        then ok (fill_replicas servers)
        else ok (fill_replicas (sample servers (min (length servers) k_num_replicas)))

  -- `WeightedWrite::SelectWriteReplicas`; `draw i ws` is the draw of round `i`.
  pub weighted_write :
      (List ServerId → ℕ → List ServerId)
      → (ℕ → List W → ℕ)
      → ServerArray W
      → Status ServerReplicaList
  weighted_write sample draw weights = do
    let servers = get_valid_servers is_invalid weights
    check (not (is_empty servers))
    if length servers == k_num_replicas
        then ok (fill_replicas servers)
        else if ltb (length servers) k_num_replicas
        then ok (fill_replicas (sample servers (min (length servers) k_num_replicas)))
        else (do
          replicas ← pick (λ i choices. draw i (map weights choices)) 0 k_num_replicas servers
          ok (fill_replicas replicas))
