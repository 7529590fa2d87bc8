-- ===== src/Slab.antt =====
-- mem/slab.h and mem/slab.cc: SlabAllocator. Objects are carved from the end of the used memory, and kept
-- in free lists when they are freed, one for each size class and core and one shared by the cores. A free
-- list is given by its contents, in the order in which they are popped (FreeList has its batches in
-- memory). The transfer cache is off, as `kEnableTransferCache` says.
pub mod FreeList
pub mod Classes
pub mod Ledger
pub mod Moves
pub mod Users
pub mod Loops
pub mod Safety
pub mod Answers
pub mod History
pub mod Room
mod Tests
use sandook.Base.{
  ℕ, zero, suc, ◌+◌, ◌-◌, ◌*◌, ◌/◌, ◌%◌, ◌^◌, Bool, true, false, not, ◌&&◌, ◌||◌, if◌then◌else◌,
  ltb, leb, ◌==◌, min, max, List, [], ◌∷◌, length,
}
use sandook.Status.{Status, ok, err, fault, ◌>>=◌, ◌>>◌, check}
use sandook.Slab.FreeList.{Ptr}

-- `bsr_64`: the highest bit that is set, below bit `k`.
pub bsr_below : ℕ → ℕ → ℕ
bsr_below a zero = 0
bsr_below a (suc k) = let rest = bsr_below a k in if leb (2 ^ k) a then k else rest

pub bsr_64 : ℕ → ℕ
unfolding bsr_below
bsr_64 a = bsr_below a 64

abbrev pub k_max_slab_class_shift : ℕ
k_max_slab_class_shift = 35

abbrev pub k_min_slab_class_shift : ℕ
k_min_slab_class_shift = 5

abbrev pub k_max_cache_size_bytes : ℕ
k_max_cache_size_bytes = 32768

abbrev pub k_max_cache_entries : ℕ
k_max_cache_entries = 64

-- sizeof(PtrHeader)
abbrev pub k_header_size : ℕ
k_header_size = 16

pub get_slab_shift : ℕ → ℕ
unfolding bsr_64
get_slab_shift data_size =
    if leb data_size (2 ^ k_min_slab_class_shift)
    then k_min_slab_class_shift
    else bsr_64 (data_size - 1) + 1

pub get_slab_size : ℕ → ℕ
get_slab_size slab_shift = 2 ^ slab_shift + k_header_size

-- `1 << slab_shift` is an `int`. From 31 on it does not fit: `beyond` is what the quotient comes to then.
pub get_max_num_cache_entries : (ℕ → ℕ) → ℕ → ℕ
get_max_num_cache_entries beyond slab_shift =
    if ltb slab_shift 31
    then min k_max_cache_entries (k_max_cache_size_bytes / 2 ^ slab_shift)
    else min k_max_cache_entries (beyond slab_shift)

pub record PtrHeader : Type 0 where
  pub size : ℕ
  pub core_id : ℕ

-- The free lists, by class, and by core and class; and the header at an address.
pub record SlabAllocator : Type 0 where
  pub start : Ptr
  pub end : Ptr
  pub cur : Ptr
  pub slab_lists : ℕ → List Ptr
  pub cache_lists : ℕ → ℕ → List Ptr
  pub headers : Ptr → PtrHeader

pub init : Ptr → ℕ → SlabAllocator
init mem size = record {
  start = mem;
  end = mem + size;
  cur = mem;
  slab_lists = λ s. [];
  cache_lists = λ c s. [];
  headers = λ p. record { size = 0; core_id = 0 };
}

abbrev pub set_slab : SlabAllocator → ℕ → List Ptr → SlabAllocator
set_slab a s l = record a { slab_lists = λ t. if t == s then l else a.slab_lists t }

abbrev pub set_cache : SlabAllocator → ℕ → ℕ → List Ptr → SlabAllocator
set_cache a c s l = record a {
  cache_lists = λ d t. if d == c && t == s then l else a.cache_lists d t;
}

-- `cache_list.push(slab_list.pop())`.
pub fetch : SlabAllocator → ℕ → ℕ → Ptr → List Ptr → SlabAllocator
fetch a c s p rest = set_cache (set_slab a s rest) c s (p ∷ a.cache_lists c s)

-- The loop that moves objects from the shared list to the cache, with at most `k` rounds left.
pub fetch_while : SlabAllocator → ℕ → ℕ → ℕ → ℕ → SlabAllocator
fetch_while a c s limit zero = a
fetch_while a c s limit (suc k) = elim (ltb (length (a.cache_lists c s)) limit) [
  | false ↦ a
  | true ↦ elim (a.slab_lists s) [
    | [] ↦ a
    | p ∷ rest ↦ fetch_while (fetch a c s p rest) c s limit k
  ]
]

-- `cache_list.push(cur_); cur_ += slab_size;`
pub carve : SlabAllocator → ℕ → ℕ → SlabAllocator
carve a c s = record (set_cache a c s (a.cur ∷ a.cache_lists c s)) { cur = a.cur + get_slab_size s }

-- The loop that carves objects, with `k` rounds left.
pub carve_while : SlabAllocator → ℕ → ℕ → ℕ → SlabAllocator
carve_while a c s zero = a
carve_while a c s (suc k) = elim (leb (a.cur + get_slab_size s) a.end) [
  | true ↦ carve_while (carve a c s) c s k
  | false ↦ a
]

-- The slow path of `allocate`, up to its `pop`.
pub refill : (ℕ → ℕ) → SlabAllocator → ℕ → ℕ → SlabAllocator
unfolding get_max_num_cache_entries
refill beyond a c s =
    let limit = max (get_max_num_cache_entries beyond s) 1 in
    let a' = fetch_while a c s limit limit in
    carve_while a' c s (limit - length (a'.cache_lists c s))

-- The pop of an object from the cache, and the header that is written into it. `BUG_ON` stops the
-- process.
pub serve : SlabAllocator → ℕ → ℕ → ℕ → Status (Ptr × SlabAllocator)
serve a c s size = elim (a.cache_lists c s) [
  | [] ↦ ok (0, a)
  | p ∷ rest ↦ (do
    check ((p + k_header_size) % 16 == 0)
    ok (
      p + k_header_size,
      record (set_cache a c s rest) {
        headers = λ q. if q == p then record { size = size; core_id = c } else a.headers q;
      },
    ))
]

is_empty : List Ptr → Bool
is_empty [] = true
is_empty (p ∷ ps) = false

-- `allocate` on core `c`. The null pointer is 0.
pub allocate : (ℕ → ℕ) → SlabAllocator → ℕ → ℕ → Status (Ptr × SlabAllocator)
unfolding is_empty
allocate beyond a c size =
    let s = get_slab_shift size in
    if size == 0 || ltb k_max_slab_class_shift s
    then ok (0, a)
    else serve (if is_empty (a.cache_lists c s) then refill beyond a c s else a) c s size

-- `slab_list.push(cache_list.pop())`.
pub turn_in : SlabAllocator → ℕ → ℕ → Ptr → List Ptr → SlabAllocator
turn_in a c s p rest = set_slab (set_cache a c s rest) s (p ∷ a.slab_lists s)

-- The loop that moves objects from the cache to the shared list, with at most `k` rounds left.
pub turn_in_while : SlabAllocator → ℕ → ℕ → ℕ → ℕ → SlabAllocator
turn_in_while a c s limit zero = a
turn_in_while a c s limit (suc k) = elim (a.cache_lists c s) [
  | [] ↦ a
  | p ∷ rest ↦ elim (ltb limit (length (p ∷ rest))) [
    | true ↦ turn_in_while (turn_in a c s p rest) c s limit k
    | false ↦ a
  ]
]

-- `free_to_cache_list`.
pub free_to_cache_list : (ℕ → ℕ) → SlabAllocator → ℕ → ℕ → Ptr → SlabAllocator
free_to_cache_list beyond a c s p =
    let limit = get_max_num_cache_entries beyond s in
    let a' = set_cache a c s (p ∷ a.cache_lists c s) in
    let n = length (p ∷ a.cache_lists c s) in
    let b = turn_in_while a' c s (limit / 2) n in if ltb limit n then b else a'

-- `free` on core `c`. `BUG_ON` stops the process.
pub free : (ℕ → ℕ) → SlabAllocator → ℕ → Ptr → Status SlabAllocator
free beyond a c ptr = if ptr == 0 then ok a else (do
  check (not (ltb ptr a.start) && ltb ptr a.cur)
  let p = ptr - k_header_size
  let s = get_slab_shift (a.headers p).size
  check (not (ltb s k_min_slab_class_shift || ltb k_max_slab_class_shift s))
  ok (free_to_cache_list beyond a c s p))

-- `reallocate`, which may go on to free on another core `d`. The copy of the data is left out.
pub reallocate : (ℕ → ℕ) → SlabAllocator → ℕ → ℕ → Ptr → ℕ → Status (Ptr × SlabAllocator)
reallocate beyond a c d ptr new_size = do
  check (not (ltb ptr a.start) && ltb ptr a.cur)
  let p = ptr - k_header_size
  let s = get_slab_shift (a.headers p).size
  (new_ptr, a') ← allocate beyond a c new_size
  if new_ptr == 0 then ok (0, a') else ok (new_ptr, free_to_cache_list beyond a' d s p)

pub if_own : SlabAllocator → Ptr → Bool
if_own a ptr = leb a.start ptr && ltb ptr a.end
