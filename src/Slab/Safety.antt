-- ===== src/Slab/Safety.antt =====
-- What each operation of the allocator does to the objects, whatever the caches hold.
use sandook.Base.{ℕ, ◌≤◌, inl, inr, ltb, List, ◌∷◌, Bool-cases, length}
use sandook.Selection.Members.{In}
use sandook.Slab.FreeList.{Ptr}
use sandook.Slab.Moves.{Tidy, fetch-Tidy, turn_in-Tidy, carve-Tidy}
use sandook.Slab.Users.{remove, give-Tidy}
use sandook.Slab.Loops.{fetch_while-keeps, carve_while-keeps, turn_in_while-keeps}
use sandook.Slab.{
  SlabAllocator, get_slab_shift, fetch_while, carve_while, refill, turn_in_while,
  free_to_cache_list, get_max_num_cache_entries,
}

pub fetch_while-Tidy :
    {lo hi : ℕ}
    → (a : SlabAllocator) (live : List Ptr) (c s limit k : ℕ) → Tidy lo hi a live
    → Tidy lo hi (fetch_while a c s limit k) live
fetch_while-Tidy {lo = lo} {hi = hi} a live c s limit k h =
    fetch_while-keeps (λ b. Tidy lo hi b live) c s limit
      (λ b p rest e l i. fetch-Tidy b live c s p rest e i) a k h

pub carve_while-Tidy :
    {lo hi : ℕ}
    → (a : SlabAllocator) (live : List Ptr) (c s k : ℕ) → 5 ≤ s
    → Tidy lo hi a live
    → Tidy lo hi (carve_while a c s k) live
carve_while-Tidy {lo = lo} {hi = hi} a live c s k l h =
    carve_while-keeps (λ b. Tidy lo hi b live) c s (λ b room i. carve-Tidy b live c s l room i) a k
      h

pub turn_in_while-Tidy :
    {lo hi : ℕ}
    → (a : SlabAllocator) (live : List Ptr) (c s limit k : ℕ) → Tidy lo hi a live
    → Tidy lo hi (turn_in_while a c s limit k) live
turn_in_while-Tidy {lo = lo} {hi = hi} a live c s limit k h =
    turn_in_while-keeps (λ b. Tidy lo hi b live) c s limit
      (λ b p rest e l i. turn_in-Tidy b live c s p rest e i) a k h

pub refill-Tidy :
    {lo hi : ℕ}
    → (beyond : ℕ → ℕ) (a : SlabAllocator) (live : List Ptr) (c s : ℕ) → 5 ≤ s
    → Tidy lo hi a live
    → Tidy lo hi (refill beyond a c s) live
unfolding refill
refill-Tidy beyond a live c s l h =
    carve_while-Tidy _ live c s _ l (fetch_while-Tidy a live c s _ _ h)

pub free_to_cache_list-Tidy :
    {lo hi : ℕ}
    → (beyond : ℕ → ℕ) (a : SlabAllocator) (live : List Ptr) (c p : ℕ) → In p live
    → Tidy lo hi a live
    → Tidy lo hi
        (free_to_cache_list beyond a c (get_slab_shift (a.headers p).size) p)
        (remove p live)
unfolding free_to_cache_list
free_to_cache_list-Tidy beyond a live c p m h =
    elim (Bool-cases (
      ltb (get_max_num_cache_entries beyond (get_slab_shift (a.headers p).size))
        (length (p ∷ a.cache_lists c (get_slab_shift (a.headers p).size))))) [
          | inl e ↦ rw e (turn_in_while-Tidy _ (remove p live) c _ _ _ (give-Tidy a live c p m h))
          | inr e ↦ rw e (give-Tidy a live c p m h)
        ]
