-- ===== src/Resolver/Overlap.antt =====
-- virtual_disk/block_resolver.h: calls of `AddMapping` that overlap, as their loads, their pushes to the discard
-- list and their stores. The calls for one block come one after the other; the source does not see to
-- that, and two of them that overlap can record one mapping twice and lose another.
use sandook.Base.{
  ℕ, ◌+◌, ◌≡◌, refl, ap, subst, sym, ◌∙◌, ◌<◌, ◌≢◌, ◌==◌, ltb, lt→ltb, arith, List, [], ◌∷◌, ◌++◌,
  All, Bool-cases, inl, inr, ==_iff, ne_of_==,
}
use sandook.Status.{Status, ok, err, fault, ◌>>=◌, ◌>>◌, check}
use sandook.Types.{BlockAddr, ServerReplicaBlockInfoList, put}
use sandook.Resolver.{
  BlockResolver, init, needs_discard, record_discard, add_mapping, discard_existing_blocks,
  get_and_reset_discarded_blocks,
}
use sandook.Resolver.Conservation.{
  weigh, total, total-none, total-one, weigh-unmapped, total-append, total-record_discard,
}
use sandook.Resolver.Sums.{sum, sum_other, put_self, put_other, sum_zero}

abbrev Replicas : Type 0
Replicas = ServerReplicaBlockInfoList

-- How far the call for a block is, if there is one: it has loaded the old mapping, or it has recorded it.
pub data Phase : Type 0 where
  idle : Phase
  loaded : (old new : Replicas) → Phase
  recorded : (new : Replicas) → Phase

pub record Calls : Type 0 where
  pub res : BlockResolver
  pub phase : BlockAddr → Phase

-- The start of a call with its load, the push and the store of the call for a block, and a collection. A
-- step that no call is at, or a start during another call for the block, does nothing.
pub data Event : Type 0 where
  loads : BlockAddr → Replicas → Event
  records stores : BlockAddr → Event
  collects : Event

-- The mappings of the calls that start, those that are collected, and the state after a step.
pub record Outcome : Type 0 where
  pub started : List Replicas
  pub collected : List Replicas
  pub calls : Calls

abbrev quiet : Calls → Outcome
quiet s = record { started = []; collected = []; calls = s }

load_at : Calls → BlockAddr → Replicas → Phase → Outcome
load_at s a blks idle = record {
  started = blks ∷ [];
  collected = [];
  calls = record s { phase = put s.phase a (loaded (s.res.blk_map a) blks) };
}
load_at s a blks (loaded old new) = quiet s
load_at s a blks (recorded new) = quiet s

record_at : Calls → BlockAddr → Phase → Outcome
record_at s a (loaded old new) =
    quiet (record { res = record_discard s.res old; phase = put s.phase a (recorded new) })
record_at s a idle = quiet s
record_at s a (recorded new) = quiet s

store_at : Calls → BlockAddr → Phase → Outcome
store_at s a (recorded new) = quiet (record {
  res = record s.res { blk_map = put s.res.blk_map a new };
  phase = put s.phase a idle;
})
store_at s a idle = quiet s
store_at s a (loaded old new) = quiet s

collected_of : Calls → Status (List Replicas × BlockResolver) → Status Outcome
collected_of s (ok (blks, r)) =
    ok (record { started = []; collected = blks; calls = record s { res = r } })
collected_of s (err e) = ok (quiet s)
collected_of s fault = fault

pub step : Calls → Event → Status Outcome
unfolding load_at record_at store_at collected_of
step s (loads a blks) = do check (ltb a s.res.nsectors); ok (load_at s a blks (s.phase a))
step s (records a) = ok (record_at s a (s.phase a))
step s (stores a) = ok (store_at s a (s.phase a))
step s collects = collected_of s (get_and_reset_discarded_blocks s.res)

pub run : Calls → List Event → Status Outcome
unfolding step
run s [] = ok (quiet s)
run s (e ∷ es) = do
  o ← step s e
  o' ← run o.calls es
  ok (record {
    started = o.started ++ o'.started;
    collected = o.collected ++ o'.collected;
    calls = o'.calls;
  })

-- A volume of `n` sectors that is not in use.
pub start : ℕ → Calls
start n = record { res = init n; phase = λ a. idle }

abbrev pub WithinBounds : ℕ → Event → Type 0
WithinBounds n (loads a blks) = a < n
WithinBounds n (records a) = Unit
WithinBounds n (stores a) = Unit
WithinBounds n collects = Unit

-- What the call for a block has loaded is still its mapping.
abbrev IsCurrent : ℕ → BlockAddr → Replicas → Phase → Type 0
IsCurrent n a now idle = Unit
IsCurrent n a now (loaded old new) = (a < n) × (old ≡ now)
IsCurrent n a now (recorded new) = a < n

abbrev AreCurrent : Calls → Type 0
AreCurrent s = (a : BlockAddr) → IsCurrent s.res.nsectors a (s.res.blk_map a) (s.phase a)

-- A call that no other one interrupts is `add_mapping`.
steps-add_mapping :
    (s : Calls) (a : BlockAddr) (blks : Replicas)
    → a < s.res.nsectors
    → s.phase a ≡ idle
    → (o : Outcome) × (run s (loads a blks ∷ records a ∷ stores a ∷ []) ≡ ok o)
      × (add_mapping s.res a blks ≡ ok o.calls.res)
unfolding run step load_at record_at store_at add_mapping discard_existing_blocks
steps-add_mapping s a blks l e =
    let r = record_discard s.res (s.res.blk_map a) in
    let p = put (put s.phase a (loaded (s.res.blk_map a) blks)) a (recorded blks) in
    (
      record {
        started = blks ∷ [];
        collected = [];
        calls = record { res = record r { blk_map = put r.blk_map a blks }; phase = put p a idle };
      },
      rw (lt→ltb a s.res.nsectors l, e, (==_iff a a).1 refl) (rw ((==_iff a a).1 refl) refl),
      rw (lt→ltb a s.res.nsectors l) refl,
    )

module _ (w : Replicas → ℕ) where
  -- What a block and its call hold, by the measure: the mapping unless it is recorded, and the new mapping.
  pub cell : Replicas → Phase → ℕ
  cell now idle = weigh w now
  cell now (loaded old new) = weigh w now + weigh w new
  cell now (recorded new) = weigh w new

  pub cells : Calls → BlockAddr → ℕ
  cells s a = cell (s.res.blk_map a) (s.phase a)

  abbrev held : Calls → ℕ
  held s = total w s.res.discard_list + sum (cells s) s.res.nsectors

  -- What a step keeps.
  record Keeps (s : Calls) (o : Outcome) : Type 0 where
    nsectors : o.calls.res.nsectors ≡ s.res.nsectors
    current : AreCurrent o.calls
    account : total w o.collected + held o.calls ≡ held s + total w o.started

  quiet-Keeps : (s : Calls) → AreCurrent s → Keeps s (quiet s)
  quiet-Keeps s c = record { nsectors = refl; current = c; account = omega (arith, total-none w) }

  -- The state after a change of one block and of its call.
  cells-one :
      (s : Calls) (a : BlockAddr) (now : Replicas) (p : Phase) (r : BlockResolver)
      → a < s.res.nsectors
      → ((b : BlockAddr) → b ≢ a → r.blk_map b ≡ s.res.blk_map b)
      → r.blk_map a ≡ now
      → let s' : Calls = record { res = r; phase = put s.phase a p } in
        sum (cells s') s.res.nsectors + cells s a ≡ sum (cells s) s.res.nsectors + cell now p
  unfolding cells
  cells-one s a now p r l o e =
      let s' : Calls = record { res = r; phase = put s.phase a p } in
      let q : cells s' a ≡ cell now p = rw (e, put_self s.phase a p) refl in
      let same =
        sum_other (cells s') (cells s) a s.res.nsectors l
          (λ b n. rw (o b n, put_other s.phase a b p n) refl) in
      omega (arith, same, q)

  AreCurrent-one :
      (s : Calls) (a : BlockAddr) (p : Phase) (r : BlockResolver)
      → r.nsectors ≡ s.res.nsectors
      → ((b : BlockAddr) → b ≢ a → r.blk_map b ≡ s.res.blk_map b)
      → IsCurrent s.res.nsectors a (r.blk_map a) p
      → AreCurrent s
      → AreCurrent (record { res = r; phase = put s.phase a p })
  AreCurrent-one s a p r n o h c b = elim (Bool-cases (b == a)) [
    | inl e ↦
        let q : b ≡ a = (==_iff b a).0 e in
        subst (λ z. IsCurrent r.nsectors z (r.blk_map z) (put s.phase a p z)) (sym q)
          (rw (n, put_self s.phase a p) h)
    | inr e ↦ let k = ne_of_== b a e in rw (n, o b k, put_other s.phase a b p k) (c b)
  ]

  load_at-Keeps :
      (s : Calls) (a : BlockAddr) (blks : Replicas) (p : Phase)
      → a < s.res.nsectors
      → AreCurrent s
      → s.phase a ≡ p
      → Keeps s (load_at s a blks p)
  unfolding load_at cells cell
  load_at-Keeps s a blks idle l c e = record {
    nsectors = refl;
    current =
        AreCurrent-one s a (loaded (s.res.blk_map a) blks) s.res refl (λ b n. refl) (l, refl) c;
    account =
        let one =
          cells-one s a (s.res.blk_map a) (loaded (s.res.blk_map a) blks) s.res l (λ b n. refl)
            refl in
        let here = ap (cell (s.res.blk_map a)) e in
        omega (arith, one, here, total-none w, total-one w blks);
  }
  load_at-Keeps s a blks (loaded old new) l c e = quiet-Keeps s c
  load_at-Keeps s a blks (recorded new) l c e = quiet-Keeps s c

  record_discard-same :
      (r : BlockResolver) (blks : Replicas)
      → ((record_discard r blks).nsectors ≡ r.nsectors)
        × ((b : BlockAddr) → (record_discard r blks).blk_map b ≡ r.blk_map b)
  record_discard-same r blks = elim (Bool-cases (needs_discard blks)) [
    | inl e ↦ rw e (refl, λ b. refl)
    | inr e ↦ rw e (refl, λ b. refl)
  ]

  record_at-Keeps :
      (s : Calls) (a : BlockAddr) (p : Phase)
      → AreCurrent s
      → s.phase a ≡ p
      → Keeps s (record_at s a p)
  unfolding record_at cells cell
  record_at-Keeps s a idle c e = quiet-Keeps s c
  record_at-Keeps s a (recorded new) c e = quiet-Keeps s c
  record_at-Keeps s a (loaded old new) c e =
      let (l, q) = subst (IsCurrent s.res.nsectors a (s.res.blk_map a)) e (c a) in
      let r = record_discard s.res old in
      let (n, same) = record_discard-same s.res old in
      let after : Calls = record { res = r; phase = put s.phase a (recorded new) } in
      record {
        nsectors = n;
        current = AreCurrent-one s a (recorded new) r n (λ b k. same b) l c;
        account =
            let one = cells-one s a (r.blk_map a) (recorded new) r l (λ b k. same b) refl in
            let here = ap (cell (s.res.blk_map a)) e in
            let sized = ap (sum (cells after)) n in
            omega (
              arith,
              one,
              here,
              sized,
              total-none w,
              total-record_discard w s.res old,
              ap (weigh w) q,
            );
      }

  store_at-Keeps :
      (s : Calls) (a : BlockAddr) (p : Phase)
      → AreCurrent s
      → s.phase a ≡ p
      → Keeps s (store_at s a p)
  unfolding store_at cells cell
  store_at-Keeps s a idle c e = quiet-Keeps s c
  store_at-Keeps s a (loaded old new) c e = quiet-Keeps s c
  store_at-Keeps s a (recorded new) c e =
      let l = subst (IsCurrent s.res.nsectors a (s.res.blk_map a)) e (c a) in
      let r : BlockResolver = record s.res { blk_map = put s.res.blk_map a new } in
      record {
        nsectors = refl;
        current = AreCurrent-one s a idle r refl (λ b n. put_other s.res.blk_map a b new n) tt c;
        account =
            let one =
              cells-one s a new idle r l (λ b n. put_other s.res.blk_map a b new n)
                (put_self s.res.blk_map a new) in
            let here = ap (cell (s.res.blk_map a)) e in omega (arith, one, here, total-none w);
      }

  collect-Keeps : (s : Calls) → AreCurrent s → (o : Outcome) × (step s collects ≡ ok o) × Keeps s o
  unfolding step collected_of get_and_reset_discarded_blocks cells
  collect-Keeps s c = go s.res.discard_list refl
    where
      go :
          (l : List Replicas)
          → s.res.discard_list ≡ l
          → (o : Outcome) × (step s collects ≡ ok o) × Keeps s o
      go [] e = (quiet s, rw e refl, quiet-Keeps s c)
      go (x ∷ xs) e = (
        record {
          started = [];
          collected = x ∷ xs;
          calls = record s { res = record s.res { discard_list = [] } };
        },
        rw e refl,
        record {
          nsectors = refl;
          current = c;
          account = omega (arith, total-none w, ap (total w) e);
        },
      )

  step-Keeps :
      (s : Calls) (e : Event)
      → WithinBounds s.res.nsectors e
      → AreCurrent s
      → (o : Outcome) × (step s e ≡ ok o) × Keeps s o
  unfolding step
  step-Keeps s (loads a blks) l c = (
    load_at s a blks (s.phase a),
    rw (lt→ltb a s.res.nsectors l) refl,
    load_at-Keeps s a blks (s.phase a) l c refl,
  )
  step-Keeps s (records a) l c =
      (record_at s a (s.phase a), refl, record_at-Keeps s a (s.phase a) c refl)
  step-Keeps s (stores a) l c =
      (store_at s a (s.phase a), refl, store_at-Keeps s a (s.phase a) c refl)
  step-Keeps s collects l c = collect-Keeps s c

  run_from :
      (s : Calls) (es : List Event)
      → All (WithinBounds s.res.nsectors) es
      → AreCurrent s
      → (o : Outcome) × (run s es ≡ ok o) × Keeps s o
  unfolding run
  run_from s [] u c = (quiet s, refl, quiet-Keeps s c)
  run_from s (e ∷ es) u c =
      let (o, f, k) = step-Keeps s e u.0 c in
      let (o', f', k') =
        run_from o.calls es (subst (λ n. All (WithinBounds n) es) (sym k.nsectors) u.1) k.current in
      (
        record {
          started = o.started ++ o'.started;
          collected = o.collected ++ o'.collected;
          calls = o'.calls;
        },
        rw (f, f') refl,
        record {
          nsectors = k'.nsectors ∙ k.nsectors;
          current = k'.current;
          account = omega (
            arith,
            k.account,
            k'.account,
            total-append w o.started o'.started,
            total-append w o.collected o'.collected,
          );
        },
      )

  start_lem : (n : ℕ) → sum (cells (start n)) n ≡ 0
  unfolding cells cell start init
  start_lem n = sum_zero _ n (λ a. weigh-unmapped w)

-- Over any interleaving of the loads, pushes and stores of `AddMapping` calls with collections, on a volume of
-- `n` sectors, in which the calls for one block come one after the other, no mapping that a write made is
-- lost or collected twice: by any weighting of the mappings whose first replica is dirty and on a server,
-- those of the calls that started weigh as much as those collected, those in the discard list, and
-- what the blocks hold together, which is the mapping of a block, unless its call has recorded it, and the
-- new mapping of its call.
pub run-keeps_mappings :
    (w : Replicas → ℕ) (n : ℕ) (es : List Event)
    → All (WithinBounds n) es
    → (o : Outcome) × (run (start n) es ≡ ok o)
      × (total w o.started
          ≡ total w o.collected + total w o.calls.res.discard_list + sum (cells w o.calls) n)
unfolding start init
run-keeps_mappings w n es u =
    let (o, e, k) = run_from w (start n) es u (λ a. tt) in
    let size : sum (cells w o.calls) o.calls.res.nsectors ≡ sum (cells w o.calls) n =
      ap (sum (cells w o.calls)) k.nsectors in
    (o, e, omega (arith, k.account, size, start_lem w n, total-none w))
