-- ===== src/Allocator/Fresh.antt =====
-- No block is handed out twice: the invariant of the allocator's counters over the blocks issued.

use sandook.Base.{
  ℕ, ◌+◌, ◌%◌, ◌<◌, ◌≤◌, ◌≡◌, refl, ap, subst, sym, ◌∙◌, ◌==◌, ◌≢◌, List, ◌++◌, All, All-map,
  All-append, Distinct, Distinct-append, arith, ==_iff, inl, inr, Bool-cases,
}
use sandook.Status.{ok, ok-injective}
use sandook.Types.{ServerId, ServerBlockInfo, put, u64_mod}
use sandook.Allocator.{BlockAllocator, fill_allocs, allocate_blocks}
use sandook.Allocator.Batch.{
  InRange, fill_allocs-InRange, fill_allocs-Distinct, allocate_blocks_lem,
}

-- The counter of a server.
abbrev pub next : BlockAllocator → ServerId → ℕ
next b id = (b.srv_allocs id).next_allocation

-- A block below its server's counter.
abbrev pub Below : BlockAllocator → ServerBlockInfo → Type 0
Below b x = x.block_addr < next b x.server_id

-- All blocks issued so far differ, and lie below the counters.
pub record Issued (b : BlockAllocator) (xs : List ServerBlockInfo) : Type 0 where
  pub distinct : Distinct xs
  pub below : All (Below b) xs

abbrev bump : BlockAllocator → ServerId → ℕ → BlockAllocator
bump b id n = record {
  srv_allocs =
      put b.srv_allocs id
        (record (b.srv_allocs id) { next_allocation = (next b id + n) % u64_mod });
}

apart :
    (id lo hi : ℕ) (x : ServerBlockInfo) (b : BlockAllocator) (y : ServerBlockInfo)
    → next b id ≡ lo
    → InRange id lo hi x
    → Below b y
    → x ≢ y
apart id lo hi x b y n r l e = absurd (
    omega (
      arith,
      r.1,
      ap (λ z. z.block_addr) e,
      l,
      ap (next b) (sym (ap (λ (z : ServerBlockInfo). z.server_id) e) ∙ r.0),
      n,
    ))

put_self : (b : BlockAllocator) (id n : ℕ) → next (bump b id n) id ≡ (next b id + n) % u64_mod
put_self b id n = rw (next, (==_iff id id).1 refl)

next-bump-le :
    (b : BlockAllocator) (id n j : ℕ)
    → next b id + n < u64_mod
    → (next b j ≤ next (bump b id n) j) × (next (bump b id n) j ≤ next b j + n)
next-bump-le b id n j room = elim (Bool-cases (id == j)) [
  | inl e ↦
      rw (next, e) (let h = ap (next b) ((==_iff id j).0 e) in (omega (arith, h), omega (arith, h)))
  | inr e ↦ rw (next, e) (omega arith)
]

Issued-bump :
    (b : BlockAllocator) (xs : List ServerBlockInfo) (id n : ℕ)
    → next b id + n < u64_mod
    → Issued b xs
    → Issued (bump b id n) (fill_allocs id (next b id) n ++ xs)
Issued-bump b xs id n room v = record {
  distinct =
      Distinct-append new xs (fill_allocs-Distinct id (next b id) n (omega arith)) v.distinct (
        All-map (InRange id (next b id) (next b id + n)) _
          (λ x r.
            All-map (Below b) _ (λ y l. apart id (next b id) (next b id + n) x b y refl r l) xs
              v.below)
          new in_range);
  below =
      All-append (Below (bump b id n)) new xs
        (All-map (InRange id (next b id) (next b id + n)) _
          (λ x r. omega (arith, r.1, r.2, put_self b id n, ap (next (bump b id n)) r.0)) new
          in_range)
        (All-map (Below b) _ (λ y l. omega (arith, l, next-bump-le b id n y.server_id room)) xs
          v.below);
}
  where
    new : List ServerBlockInfo
    new = fill_allocs id (next b id) n

    in_range : All (InRange id (next b id) (next b id + n)) new
    in_range =
        fill_allocs-InRange id (next b id) (next b id + n) (next b id) n (omega arith) (omega arith)
          (omega arith)

-- A further allocation from a valid server keeps all issued blocks distinct and below their
-- servers' counters, as long as the counter does not wrap.
pub Issued-allocate_blocks :
    (b : BlockAllocator) (xs : List ServerBlockInfo) (id n : ℕ) {new : List ServerBlockInfo}
    {b' : BlockAllocator}
    → 0 < id
    → id < 20
    → next b id + n < u64_mod
    → Issued b xs
    → allocate_blocks b id n ≡ ok (new, b')
    → Issued b' (new ++ xs)
Issued-allocate_blocks b xs id n {new} {b'} p q room v e =
    subst (λ (r : List ServerBlockInfo × BlockAllocator). Issued r.1 (r.0 ++ xs))
      (ok-injective _ (new, b') (sym (allocate_blocks_lem b id n p q) ∙ e))
      (Issued-bump b xs id n room v)
