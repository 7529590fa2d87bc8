-- ===== src/Slab/FreeList.antt =====
-- mem/slab.cc and mem/slab.h, FreePtrsList: a list of free objects that is kept in the objects themselves.
-- A batch is a free object whose words point to other free objects; its first word points to the next
-- batch. Memory is read and written by the batch's address and the word's index.
pub mod Batches
pub mod Stack
pub mod Refine
mod Tests
use sandook.Base.{
  ℕ, zero, suc, ◌+◌, ◌-◌, ◌%◌, Bool, true, false, not, if◌then◌else◌, ◌==◌, Option, none, some,
}
use sandook.Status.{Status, ok, err, fault, ◌>>=◌, ◌>>◌, check}
use sandook.Types.{u64_mod}

-- (kMinObjectSize + sizeof(PtrHeader)) / sizeof(void *), for objects of 32 bytes.
abbrev pub k_batch_size : ℕ
k_batch_size = 6

abbrev pub Ptr : Type 0
Ptr = ℕ

-- The words of the objects. The null pointer is 0.
abbrev pub Memory : Type 0
Memory = Ptr → ℕ → Ptr

abbrev pub write : Memory → Ptr → ℕ → Ptr → Memory
write mem p i v q j = if q == p then (if j == i then v else mem q j) else mem q j

-- `std::fill` of a batch with null pointers, after `first` is written to its first word.
abbrev pub fill : Memory → Ptr → Ptr → Memory
fill mem p first q j = if q == p then (if j == 0 then first else 0) else mem q j

pub record FreePtrsList : Type 0 where
  pub head : Ptr
  pub size : ℕ

pub init : FreePtrsList
init = record { head = 0; size = 0 }

-- The loop of `pop`, from word `i` down to word 1: the last word that is not null.
pub last_used : (ℕ → Ptr) → ℕ → Option ℕ
last_used words zero = none
last_used words (suc i) =
    let rest = last_used words i in if words (suc i) == 0 then rest else some (suc i)

-- The loop of `push`, from word `i` on, with `k` rounds left: the first word that is null.
pub first_free : (ℕ → Ptr) → ℕ → ℕ → Option ℕ
first_free words i zero = none
first_free words i (suc k) =
    let rest = first_free words (i + 1) k in if words i == 0 then some i else rest

-- The end of `pop`, once its loop has found a word or none.
pub take_out : Memory → FreePtrsList → Option ℕ → Ptr × Memory × FreePtrsList
take_out mem l (some i) = (mem l.head i, write mem l.head i 0, l)
take_out mem l none = (l.head, mem, record l { head = mem l.head 0 })

-- `BUG_ON` stops the process.
pub pop : Memory → FreePtrsList → Status (Ptr × Memory × FreePtrsList)
unfolding last_used take_out
pop mem l = do
  check (not (l.head == 0))
  let l' : FreePtrsList = record l { size = (l.size + u64_mod - 1) % u64_mod }
  ok (take_out mem l' (last_used (mem l.head) 5))

-- The end of `push` to a list that is not empty.
pub put_in : Memory → FreePtrsList → Ptr → Option ℕ → Memory × FreePtrsList
put_in mem l ptr (some i) = (write mem l.head i ptr, l)
put_in mem l ptr none = (fill mem ptr l.head, record l { head = ptr })

pub push : Memory → FreePtrsList → Ptr → Memory × FreePtrsList
unfolding first_free put_in
push mem l ptr =
    let l' : FreePtrsList = record l { size = (l.size + 1) % u64_mod } in
    if l.head == 0
    then (fill mem ptr 0, record l' { head = ptr })
    else put_in mem l' ptr (first_free (mem l.head) 1 5)
