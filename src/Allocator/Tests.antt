-- ===== src/Allocator/Tests.antt =====
-- The allocator on concrete servers.
use sandook.Base.{
  ℕ, ap, ◌≡◌, refl, List, [], ◌∷◌, ◌++◌, replicate, false, if◌then◌else◌, ◌==◌, arith,
}
use sandook.Status.{ok}
use sandook.Types.{ServerBlockInfo, put}
use sandook.Allocator.{BlockAllocator, fill_allocs, allocate_blocks}
use sandook.Allocator.Fresh.{Issued, Issued-allocate_blocks}

abbrev block_of_3 : ℕ → ServerBlockInfo
block_of_3 a = record { server_id = 3; block_addr = a }

-- Server 3 has 100 blocks, of which two are handed out.
abbrev two_handed_out : BlockAllocator
two_handed_out = record {
  srv_allocs = λ id. record {
    allocation_map = replicate 100 false;
    next_allocation = if id == 3 then 2 else 0;
  };
}

abbrev issued : List ServerBlockInfo
issued = block_of_3 0 ∷ block_of_3 1 ∷ []

issued-Issued : Issued two_handed_out issued
issued-Issued = record {
  distinct =
      ((λ e. absurd (omega (arith, ap (λ (z : ServerBlockInfo). z.block_addr) e)), tt), (tt, tt));
  below = (omega arith, (omega arith, tt));
}

abbrev four_handed_out : BlockAllocator
four_handed_out = record {
  srv_allocs =
      put two_handed_out.srv_allocs 3
        (record (two_handed_out.srv_allocs 3) { next_allocation = 4 });
}

abbrev next_two : List ServerBlockInfo
next_two = block_of_3 2 ∷ block_of_3 3 ∷ []

allocate_blocks-two : allocate_blocks two_handed_out 3 2 ≡ ok (next_two, four_handed_out)
unfolding allocate_blocks fill_allocs
allocate_blocks-two = refl

Issued-allocate_blocks_example : Issued four_handed_out (next_two ++ issued)
Issued-allocate_blocks_example =
    Issued-allocate_blocks two_handed_out issued 3 2 (omega arith) (omega arith) (omega arith)
      issued-Issued allocate_blocks-two
