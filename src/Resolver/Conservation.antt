-- ===== src/Resolver/Conservation.antt =====
-- No dirty mapping is lost: over any history of `AddMapping` calls and garbage collections, each one
-- is either still mapped, or waits in the discard list, or was handed to the collector.
use sandook.Base.{
  ℕ, zero, suc, ◌+◌, ◌≡◌, refl, ap, subst, sym, ◌<◌, ◌≤◌, if◌then◌else◌, ◌==◌, arith, List, [], ◌∷◌,
  ◌++◌, ◌∙◌, All, Bool-cases, inl, inr, ==_iff, ne_of_==,
}
use sandook.Status.{Status, ok, err, fault, ◌>>=◌}
use sandook.Types.{BlockAddr, ServerReplicaBlockInfoList, put}
use sandook.Resolver.{
  BlockResolver, init, unmapped, needs_discard, record_discard, discard_existing_blocks,
  add_mapping, get_and_reset_discarded_blocks,
}
use sandook.Resolver.Laws.{mapped, add_mapping_lem, nsectors-discard, blk_map-discard}

pub data Call : Type 0 where
  maps : BlockAddr → ServerReplicaBlockInfoList → Call
  collects : Call

abbrev Replicas : Type 0
Replicas = ServerReplicaBlockInfoList

-- What a call hands to the garbage collector, and the resolver after it.
pub step : BlockResolver → Call → Status (List Replicas × BlockResolver)
step r (maps a blks) = do r' ← add_mapping r a blks; ok ([], r')
step r collects = elim (get_and_reset_discarded_blocks r) [
  | ok p ↦ ok p
  | err e ↦ ok ([], r)
  | fault ↦ fault
]

pub run : BlockResolver → List Call → Status (List Replicas × BlockResolver)
run r [] = ok ([], r)
run r (c ∷ cs) = do (collected, r') ← step r c; (more, r'') ← run r' cs; ok (collected ++ more, r'')

-- The mappings that the history installs.
pub installed : List Call → List Replicas
installed [] = []
installed (maps a blks ∷ cs) = blks ∷ installed cs
installed (collects ∷ cs) = installed cs

abbrev pub WithinBounds : ℕ → Call → Type 0
WithinBounds n (maps a blks) = a < n
WithinBounds n collects = Unit

-- A measure of lists that tells any two multisets of dirty mappings apart: it is a sum of arbitrary
-- weights over the mappings that a write made, whose first replica is dirty and on a server.
module _ (w : Replicas → ℕ) where
  pub weigh : Replicas → ℕ
  weigh blks =
      if blks.front.dirty then (if blks.front.info.server_id == 0 then 0 else w blks) else 0

  weigh_lem : (blks : Replicas) → weigh blks ≡ (if needs_discard blks then w blks else 0)
  unfolding weigh needs_discard
  weigh_lem blks = elim (Bool-cases blks.front.dirty) [
    | inr d ↦ rw d refl
    | inl d ↦ elim (Bool-cases (blks.front.info.server_id == 0)) [
      | inl e ↦ rw (d, e) refl
      | inr e ↦ rw (d, e) refl
    ]
  ]

  pub total : List Replicas → ℕ
  total [] = 0
  total (x ∷ xs) = weigh x + total xs

  pub total_mapped : (BlockAddr → Replicas) → ℕ → ℕ
  total_mapped m zero = 0
  total_mapped m (suc n) = weigh (m n) + total_mapped m n

  pub total-none : total [] ≡ 0
  unfolding total
  total-none = refl

  pub total-one : (x : Replicas) → total (x ∷ []) ≡ weigh x
  unfolding total
  total-one x = omega arith

  pub weigh-unmapped : weigh unmapped ≡ 0
  unfolding weigh
  weigh-unmapped = refl

  pub total-append : (xs ys : List Replicas) → total (xs ++ ys) ≡ total xs + total ys
  unfolding total
  total-append [] ys = omega arith
  total-append (x ∷ xs) ys = omega (arith, total-append xs ys)

  total_mapped-put_above :
      (m : BlockAddr → Replicas) (a : ℕ) (x : Replicas) (n : ℕ)
      → n ≤ a
      → total_mapped (put m a x) n ≡ total_mapped m n
  unfolding total_mapped
  total_mapped-put_above m a x zero h = refl
  total_mapped-put_above m a x (suc n) h = ground (arith, total_mapped-put_above m a x n)

  total_mapped-put :
      (m : BlockAddr → Replicas) (a : ℕ) (x : Replicas) (n : ℕ)
      → a < n
      → total_mapped (put m a x) n + weigh (m a) ≡ total_mapped m n + weigh x
  unfolding total_mapped
  total_mapped-put m a x zero h = elim h [ ]
  total_mapped-put m a x (suc n) h = elim (Bool-cases (a == n)) [
    | inl e ↦ rw e (
        let p = ap (λ k. weigh (m k)) ((==_iff a n).0 e) in
        omega (arith, p, total_mapped-put_above m a x n (omega (arith, (==_iff a n).0 e))))
    | inr e ↦ rw e (omega (arith, ne_of_== a n e, total_mapped-put m a x n))
  ]

  -- The weight of everything that waits or is mapped.
  pub held : BlockResolver → ℕ
  held r = total r.discard_list + total_mapped r.blk_map r.nsectors

  pub total-record_discard :
      (r : BlockResolver) (blks : Replicas)
      → total (record_discard r blks).discard_list ≡ total r.discard_list + weigh blks
  unfolding total
  total-record_discard r blks = elim (Bool-cases (needs_discard blks)) [
    | inl e ↦ rw e (
        omega (
          arith,
          total-append r.discard_list (blks ∷ []),
          weigh_lem blks ∙ ap (λ b. if b then w blks else 0) e,
        ))
    | inr e ↦ rw e (omega (arith, weigh_lem blks ∙ ap (λ b. if b then w blks else 0) e))
  ]

  total-discard :
      (r : BlockResolver) (a : BlockAddr)
      → total (discard_existing_blocks r a).discard_list
        ≡ total r.discard_list + weigh (r.blk_map a)
  unfolding discard_existing_blocks
  total-discard r a = total-record_discard r (r.blk_map a)

  held-mapped :
      (r : BlockResolver) (a : BlockAddr) (blks : Replicas)
      → a < r.nsectors
      → held (mapped r a blks) ≡ held r + weigh blks
  unfolding held
  held-mapped r a blks p =
      rw (nsectors-discard r a, blk_map-discard r a)
        (omega (arith, total-discard r a, total_mapped-put r.blk_map a blks r.nsectors p))

  total_mapped-unmapped : (n : ℕ) → total_mapped (λ _. unmapped) n ≡ 0
  unfolding total_mapped weigh
  total_mapped-unmapped zero = refl
  total_mapped-unmapped (suc n) = omega (arith, total_mapped-unmapped n)

  -- One call keeps the account.
  held-step :
      (r : BlockResolver) (c : Call)
      → WithinBounds r.nsectors c
      → (out : List Replicas × BlockResolver) × (step r c ≡ ok out)
        × (out.1.nsectors ≡ r.nsectors)
        × (total out.0 + held out.1 ≡ held r + total (installed (c ∷ [])))
  unfolding step total held installed get_and_reset_discarded_blocks
  held-step r (maps a blks) p = (
    ([], mapped r a blks),
    rw (add_mapping_lem r a blks p),
    nsectors-discard r a,
    omega (arith, held-mapped r a blks p),
  )
  held-step r collects p = go r.discard_list refl
    where
      go :
          (l : List Replicas)
          → r.discard_list ≡ l
          → (out : List Replicas × BlockResolver) × (step r collects ≡ ok out)
            × (out.1.nsectors ≡ r.nsectors)
            × (total out.0 + held out.1 ≡ held r + total (installed (collects ∷ [])))
      go [] e = (([], r), rw e, refl, omega arith)
      go (x ∷ xs) e =
          ((x ∷ xs, record r { discard_list = [] }), rw e, refl, rw (held, e) (omega arith))

  total-installed :
      (c : Call) (cs : List Call)
      → total (installed (c ∷ cs)) ≡ total (installed (c ∷ [])) + total (installed cs)
  unfolding installed total
  total-installed (maps a blks) cs = omega arith
  total-installed collects cs = omega arith

  held-run :
      (r : BlockResolver) (cs : List Call)
      → All (WithinBounds r.nsectors) cs
      → (out : List Replicas × BlockResolver) × (run r cs ≡ ok out)
        × (total out.0 + held out.1 ≡ held r + total (installed cs))
  unfolding run
  held-run r [] h = (([], r), refl, unfold total installed in omega arith)
  held-run r (c ∷ cs) h =
      let (o, e, n, t) = held-step r c h.0 in
      let (o', e', t') = held-run o.1 cs (subst (λ k. All (WithinBounds k) cs) (sym n) h.1) in
      (
        (o.0 ++ o'.0, o'.1),
        rw (e, e'),
        omega (arith, t, t', total-append o.0 o'.0, total-installed c cs),
      )

-- Starting from an empty volume of `n` sectors, any history of in-range mappings and collections, in which
-- no two mappings of the same block overlap, runs through, and for every weighting of mappings the mappings installed whose first replica is dirty and on a
-- server weigh as much as those of them collected, those that wait in the discard list and those
-- still mapped together.
pub run-conserves :
    (w : Replicas → ℕ) (n : ℕ) (cs : List Call)
    → All (WithinBounds n) cs
    → (out : List Replicas × BlockResolver) × (run (init n) cs ≡ ok out)
      × (total w (installed cs)
          ≡ total w out.0
            + total w out.1.discard_list
            + total_mapped w out.1.blk_map out.1.nsectors)
unfolding held init
run-conserves w n cs h =
    let (o, e, t) = held-run w (init n) cs h in
    (o, e, unfold total in omega (arith, t, total_mapped-unmapped w n))
