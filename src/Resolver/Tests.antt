-- ===== src/Resolver/Tests.antt =====
-- The resolver on a volume of four sectors.
use sandook.Base.{ℕ, ◌≡◌, ◌+◌, List, [], ◌∷◌, true, arith}
use sandook.Status.{ok}
use sandook.Types.{ServerReplicaBlockInfo, ServerReplicaBlockInfoList}
use sandook.Resolver.{BlockResolver, init}
use sandook.Resolver.Conservation.{
  Call, maps, collects, run, installed, total, total_mapped, run-conserves,
}
use sandook.Resolver.Sums.{sum}
use sandook.Resolver.Overlap.{
  Event, loads, records, stores, collects, Outcome, start, cells, run-keeps_mappings,
}
use sandook.Resolver.Overlap

abbrev replica : ℕ → ℕ → ServerReplicaBlockInfo
replica id a = record { info = record { server_id = id; block_addr = a }; dirty = true }

abbrev on_servers : ℕ → ℕ → ServerReplicaBlockInfoList
on_servers a b = record { front = replica a 0; back = replica b 0 }

-- A block is overwritten before and after a collection.
abbrev history : List Call
history =
    maps 1 (on_servers 2 3) ∷ maps 1 (on_servers 3 4) ∷ collects ∷ maps 1 (on_servers 2 4) ∷ []

run-conserves_example :
    (out : List ServerReplicaBlockInfoList × BlockResolver) × (run (init 4) history ≡ ok out)
    × (total (λ blks. blks.back.info.server_id) (installed history)
        ≡ total (λ blks. blks.back.info.server_id) out.0
          + total (λ blks. blks.back.info.server_id) out.1.discard_list
          + total_mapped (λ blks. blks.back.info.server_id) out.1.blk_map out.1.nsectors)
run-conserves_example =
    run-conserves (λ blks. blks.back.info.server_id) 4 history
      (omega arith, (omega arith, (tt, (omega arith, tt))))

-- Two calls for different blocks overlap, with a collection between.
abbrev overlapping : List Event
overlapping =
    loads 1 (on_servers 2 3)
    ∷ loads 2 (on_servers 3 4)
    ∷ records 2
    ∷ records 1
    ∷ stores 1
    ∷ loads 1 (on_servers 2 4)
    ∷ records 1
    ∷ collects
    ∷ stores 2
    ∷ []

run-keeps_mappings_example :
    (o : Outcome) × (Overlap.run (start 4) overlapping ≡ ok o)
    × (total (λ blks. 1) o.started
        ≡ total (λ blks. 1) o.collected
          + total (λ blks. 1) o.calls.res.discard_list
          + sum (cells (λ blks. 1) o.calls) 4)
run-keeps_mappings_example =
    run-keeps_mappings (λ blks. 1) 4 overlapping
      (omega arith, (omega arith, (tt, (tt, (tt, (omega arith, (tt, (tt, (tt, tt)))))))))
