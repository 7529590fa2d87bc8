-- ===== src/ControlPlane/Rounds.antt =====
-- What a round of the scheduler does to the statistics.
use sandook.Base.{
  ℕ, zero, suc, ◌+◌, ◌^◌, ◌≡◌, ◌≢◌, refl, sym, ap, ◌∙◌, subst, ◌<◌, ◌≤◌, inl, inr, true, false,
  ◌||◌, ◌==◌, List, Option, none, some, All, length, arith, Bool-cases, ==_iff, ne_of_==, lt→ltb,
}
use sandook.Status.{ok}
use sandook.Types.{ServerId, ServerArray, put, ServerStats}
use sandook.Isolation.{SystemLoad}
use sandook.ControlPlane.Stats.{
  ServerStatsManager, get_server_stats, get_stats_of, new_stats_of, update_server_stats,
  get_system_load,
}
use sandook.ControlPlane.Policies.{Policy, Ambient}
use sandook.ControlPlane.{
  Scheduler, Decision, is_some, decide, publish_at, publish, compute, update, at_or,
}

none_of : {A : Type 0} (o : Option A) → is_some o ≡ false → o ≡ none
unfolding is_some
none_of none e = refl
none_of (some a) e = cc

-- The value of a server that was decided, or else the old one.
abbrev new_or_old : {A : Type 0} → Option (ServerArray A) → ServerId → A → A
new_or_old none id old = old
new_or_old (some values) id old = values id

at_or_lem :
    {A : Type 0} (a : Option (ServerArray A)) (id : ServerId) (old : A)
    → at_or a id old ≡ new_or_old a id old
at_or_lem none id old = refl
at_or_lem (some values) id old = refl

module _ {W : Type 0} where
  -- The entry of a server, under its own id.
  abbrev pub Listed : ServerStatsManager W → ServerId → Type 0
  Listed m id = (s : ServerStats W) × (m.stats_map id ≡ some s) × (s.server_id ≡ id)

  -- The servers are numbered from 1, each has its entry, and the sum of the loads fits into a word.
  pub record IsValid {S : Type 0} (st : Scheduler S W) : Type 0 where
    pub few : st.num_servers < 20
    pub counted : length st.stats_mgr.servers ≡ st.num_servers
    pub numbered : All (λ id. id ≤ st.num_servers) st.stats_mgr.servers
    pub small : (st.stats_mgr.read_ops < 2 ^ 63) × (st.stats_mgr.write_ops < 2 ^ 63)
    pub listed : (id : ServerId) → 1 ≤ id → id ≤ st.num_servers → Listed st.stats_mgr id

  -- An entry after the decision: only three of its fields change.
  abbrev pub decided : Decision W → ServerId → Option (ServerStats W) → Option (ServerStats W)
  decided d id none = none
  decided d id (some s) = some (record s {
    mode = new_or_old d.modes id s.mode;
    read_weight = new_or_old d.r_weights id s.read_weight;
    write_weight = new_or_old d.w_weights id s.write_weight;
  })

  decide_lem :
      (d : Decision W) (id : ServerId) (s : ServerStats W)
      → ◌≡◌ {A = Option (ServerStats W)} (some (decide d id s)) (decided d id (some s))
  unfolding decide
  decide_lem d id s =
      rw
        (
          sym (at_or_lem d.modes id s.mode),
          sym (at_or_lem d.r_weights id s.read_weight),
          sym (at_or_lem d.w_weights id s.write_weight),
        )
        refl

  -- What no decision changes.
  abbrev pub Same : ServerStatsManager W → ServerStatsManager W → Type 0
  Same m m' =
      (m'.servers ≡ m.servers)
      × (m'.stats_system_reads ≡ m.stats_system_reads)
      × (m'.stats_system_writes ≡ m.stats_system_writes)
      × (get_system_load m' ≡ get_system_load m)

  -- The manager after a decision about the servers from index `i` on, `k` of them.
  record Published (d : Decision W) (i k : ℕ) (m m' : ServerStatsManager W) : Type 0 where
    inside : (id : ServerId) → i < id → id ≤ i + k → m'.stats_map id ≡ decided d id (m.stats_map id)
    below : (id : ServerId) → id ≤ i → m'.stats_map id ≡ m.stats_map id
    above : (id : ServerId) → i + k < id → m'.stats_map id ≡ m.stats_map id
    same : Same m m'

  -- The part of a round that is about one server.
  publish_one :
      (d : Decision W) (m : ServerStatsManager W) (id : ServerId)
      → id < 20
      → Listed m id
      → (m' : ServerStatsManager W) × (publish_at d id m ≡ ok m')
        × (m'.stats_map id ≡ decided d id (m.stats_map id))
        × ((j : ServerId) → j ≢ id → m'.stats_map j ≡ m.stats_map j)
        × Same m m'
  unfolding publish_at decide update_server_stats get_stats_of new_stats_of get_system_load
  publish_one d m id l (s, e, q) =
      let e₁ : (id == s.server_id) ≡ true = ground (arith, q) in
      elim (Bool-cases (is_some d.r_weights || is_some d.w_weights || is_some d.modes)) [
        | inl f ↦ (
          record m { stats_map = put m.stats_map id (some (decide d id s)) },
          rw (lt→ltb id 20 l, e, f, e₁) refl,
          rw (e, (==_iff id id).1 refl) (decide_lem d id s),
          (λ j n. ground (arith, n)),
          (refl, refl, refl, refl),
        )
        | inr f ↦
            let r : is_some d.r_weights ≡ false = ground (arith, f) in
            let w : is_some d.w_weights ≡ false = ground (arith, f) in
            let o : is_some d.modes ≡ false = ground (arith, f) in
            (
              m,
              rw (lt→ltb id 20 l, e, f) refl,
              rw (e, none_of d.r_weights r, none_of d.w_weights w, none_of d.modes o) refl,
              (λ j n. refl),
              (refl, refl, refl, refl),
            )
      ]

  publish_lem :
      (d : Decision W) (i k : ℕ) (m : ServerStatsManager W)
      → i + k < 20
      → ((id : ServerId) → i < id → id ≤ i + k → Listed m id)
      → (m' : ServerStatsManager W) × (publish d i k m ≡ ok m') × Published d i k m m'
  unfolding publish
  publish_lem d i zero m l h = (
    m,
    refl,
    record {
      inside = λ id a b. absurd (omega (arith, a, b));
      below = λ id a. refl;
      above = λ id a. refl;
      same = (refl, refl, refl, refl);
    },
  )
  publish_lem d i (suc k) m l h =
      let (m₁, e, self, others, keep) =
        publish_one d m (i + 0 + 1) (omega (arith, l))
          (h (i + 0 + 1) (omega arith) (omega arith)) in
      let (m', f, p) = publish_lem d (i + 1) k m₁ (omega (arith, l)) (λ id a b.
        subst (λ o. (s : ServerStats W) × (o ≡ some s) × (s.server_id ≡ id))
          (sym (others id (ground (arith, a)))) (h id (omega (arith, a)) (omega (arith, b)))) in
      (
        m',
        rw e f,
        record {
          inside = λ id a b. elim (Bool-cases (id == i + 0 + 1)) [
            | inl z ↦
                let y : id ≡ i + 0 + 1 = (==_iff id (i + 0 + 1)).0 z in
                p.below id (omega (arith, y))
                ∙ subst (λ j. m₁.stats_map j ≡ decided d j (m.stats_map j)) (sym y) self
            | inr z ↦
                let n = ne_of_== id (i + 0 + 1) z in
                p.inside id (omega (arith, n, a)) (omega (arith, b))
                ∙ ap (decided d id) (others id n)
          ];
          below = λ id a. p.below id (omega (arith, a)) ∙ others id (ground (arith, a));
          above = λ id a. p.above id (omega (arith, a)) ∙ others id (ground (arith, a));
          same = (p.same.0 ∙ keep.0, p.same.1 ∙ keep.1, p.same.2 ∙ keep.2, p.same.3 ∙ keep.3);
        },
      )

  small_of :
      (m m' : ServerStatsManager W)
      → get_system_load m' ≡ get_system_load m
      → (m.read_ops < 2 ^ 63) × (m.write_ops < 2 ^ 63)
      → (m'.read_ops < 2 ^ 63) × (m'.write_ops < 2 ^ 63)
  unfolding get_system_load
  small_of m m' e h = (
    subst (λ n. n < 2 ^ 63) (sym (ap (λ (l : SystemLoad). l.read_ops) e)) h.0,
    subst (λ n. n < 2 ^ 63) (sym (ap (λ (l : SystemLoad). l.write_ops) e)) h.1,
  )

  decide_id :
      (d : Decision W) (id : ServerId) (s : ServerStats W) → (decide d id s).server_id ≡ s.server_id
  unfolding decide
  decide_id d id s = refl

  -- A round in which the policy decides `d`, and throws nothing, changes of each server's entry the modes
  -- and the weights that `d` has, and nothing else: the committed modes, the reported counts and the load
  -- stay, and so does what makes the scheduler valid.
  pub update-Decides :
      {S : Type 0} (policy : Policy S W) (st : Scheduler S W) (env : Ambient W)
      (stats : List (ServerStats W)) (d : Decision W) (sched' : S)
      → IsValid st
      → get_server_stats st.stats_mgr ≡ ok stats
      → compute policy st env stats (get_system_load st.stats_mgr) ≡ ok (d, sched')
      → (st' : Scheduler S W) × (update policy st env ≡ ok st')
        × (st'.sched ≡ sched')
        × (st'.num_servers ≡ st.num_servers)
        × ((id : ServerId)
            → 1 ≤ id
            → id ≤ st.num_servers
            → st'.stats_mgr.stats_map id ≡ decided d id (st.stats_mgr.stats_map id))
        × ((id : ServerId)
            → st.num_servers < id
            → st'.stats_mgr.stats_map id ≡ st.stats_mgr.stats_map id)
        × Same st.stats_mgr st'.stats_mgr
        × IsValid st'
  unfolding update
  update-Decides policy st env stats d sched' v e c =
      let (m, f, p) =
        publish_lem d 0 st.num_servers st.stats_mgr (omega (arith, v.few))
          (λ id a b. v.listed id a (omega (arith, b))) in
      (
        record st { stats_mgr = m; sched = sched' },
        rw (e, c, f) refl,
        refl,
        refl,
        (λ id a b. p.inside id a (omega (arith, b))),
        (λ id a. p.above id (omega (arith, a))),
        p.same,
        record {
          few = v.few;
          counted = ap (length {A = ServerId}) p.same.0 ∙ v.counted;
          numbered = subst (All (λ id. id ≤ st.num_servers)) (sym p.same.0) v.numbered;
          small = small_of st.stats_mgr m p.same.3 v.small;
          listed = λ id a b.
              let (s, g, q) = v.listed id a b in
              (
                decide d id s,
                p.inside id a (omega (arith, b)) ∙ ap (decided d id) g,
                decide_id d id s ∙ q,
              );
        },
      )
