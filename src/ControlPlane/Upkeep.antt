-- ===== src/ControlPlane/Upkeep.antt =====
-- Registrations and rounds of a valid scheduler, and what they need of a policy.
use sandook.Base.{
  ℕ, zero, suc, ◌+◌, ◌^◌, ◌≡◌, refl, sym, ap, subst, ◌<◌, ◌≤◌, ◌⊎◌, inl, inr, false, ltb, ◌==◌,
  List, [], ◌∷◌, Option, none, some, All, All-map, length, arith, Bool-cases, ==_iff, ne_of_==,
  lt→ltb,
}
use sandook.Status.{Status, Error, ok, err}
use sandook.Types.{ServerId, ServerArray, put, ServerMode, ServerStats}
use sandook.Selection.{contains, insert}
use sandook.Isolation.{SystemLoad}
use sandook.ControlPlane.Stats.{
  ServerStatsManager, entries, get_server_stats, new_stats_of, update_server_stats,
  commit_server_mode, calculate_load, get_system_load, default_stats,
}
use sandook.ControlPlane.Policies.{Policy, Ambient, Direction}
use sandook.ControlPlane.Rounds.{Listed, IsValid, update-Decides}
use sandook.ControlPlane.Weights.{InRange}
use sandook.ControlPlane.Stats
use sandook.ControlPlane.{
  Scheduler, Decision, settle, with_modes, ask_modes, ask_weights, compute, update, add_server,
}

-- The call throws nothing.
abbrev pub Returns : {A : Type 0} → Status A → Type 0
Returns {A = A} r = ((a : A) × (r ≡ ok a)) ⊎ ((e : Error) × (r ≡ err e))

-- What a policy promises about its state, for `n` servers.
pub record Keeps {S W : Type 0} (policy : Policy S W) (Inv : S → ℕ → Type 0) : Type 0 where
  pub joins :
      (s : S) (n : ℕ) (id : ServerId)
      → Inv s n
      → (s' : S) × (policy.add_server s id ≡ ok s') × Inv s' (n + 1)
  pub modes :
      (s : S) (stats : List (ServerStats W)) (load : SystemLoad) (env : Ambient W)
      → Inv s (length stats)
      → length stats < 20
      → load.read_ops < 2 ^ 63
      → load.write_ops < 2 ^ 63
      → Returns (policy.compute_modes s stats load env).0
        × Inv (policy.compute_modes s stats load env).1 (length stats)
  pub weights :
      (s : S) (stats : List (ServerStats W)) (op : Direction) (load : SystemLoad) (env : Ambient W)
      → InRange stats
      → Returns (policy.compute_weights s stats op load env)

settle_lem : {A : Type 0} (r : Status A) → Returns r → (o : Option A) × (settle r ≡ ok o)
unfolding settle
settle_lem r (inl (a, e)) = (some a, rw e refl)
settle_lem r (inr (x, e)) = (none, rw e refl)

module _ {W : Type 0} where
  entries_lem :
      (m : ServerStatsManager W) (i k : ℕ)
      → i + k ≤ 20
      → ((id : ServerId) → i ≤ id → id < i + k → Listed m id)
      → (ss : List (ServerStats W)) × (entries m.stats_map i k ≡ ok ss)
        × (length ss ≡ k)
        × InRange ss
  unfolding entries
  entries_lem m i zero l h = ([], refl, refl, tt)
  entries_lem m i (suc k) l h =
      let (s, e, q) = h i (omega arith) (omega arith) in
      let (ss, f, c, r) =
        entries_lem m (i + 1) k (omega (arith, l))
          (λ id a b. h id (omega (arith, a)) (omega (arith, b))) in
      (s ∷ ss, rw (e, f) refl, ap suc c, (omega (arith, q, l), r))

  with_modes_lem :
      (o : Option (ServerArray ServerMode)) (ss : List (ServerStats W))
      → InRange ss
      → (ss' : List (ServerStats W)) × (with_modes o ss ≡ ok ss') × InRange ss'
  unfolding with_modes
  with_modes_lem none ss h = (ss, refl, h)
  with_modes_lem (some modes) [] h = ([], refl, tt)
  with_modes_lem (some modes) (s ∷ ss) h =
      let (ss', e, r) = with_modes_lem (some modes) ss h.1 in
      (
        record s { mode = modes s.server_id } ∷ ss',
        rw (lt→ltb s.server_id 20 h.0, e) refl,
        (h.0, r),
      )

module _ {S W : Type 0} (policy : Policy S W) (Inv : S → ℕ → Type 0)
    (keeps : Keeps policy Inv) where
  -- Everything that is kept.
  pub record IsKept (st : Scheduler S W) : Type 0 where
    pub valid : IsValid st
    pub promised : Inv st.sched st.num_servers

  ask_modes_lem :
      (st : Scheduler S W) (env : Ambient W) (stats : List (ServerStats W)) (load : SystemLoad)
      → Inv st.sched (length stats)
      → length stats < 20
      → load.read_ops < 2 ^ 63
      → load.write_ops < 2 ^ 63
      → Returns (ask_modes policy st env stats load).0
        × Inv (ask_modes policy st env stats load).1 (length stats)
  unfolding ask_modes
  ask_modes_lem st env stats load i few rd wr = elim (Bool-cases st.freeze_modes) [
    | inl e ↦ rw e (inr (Error.einval, refl), i)
    | inr e ↦ rw e (keeps.modes st.sched stats load env i few rd wr)
  ]

  ask_weights_lem :
      (st : Scheduler S W) (env : Ambient W) (s : S) (stats : List (ServerStats W)) (op : Direction)
      (load : SystemLoad)
      → InRange stats
      → Returns (ask_weights policy st env s stats op load)
  unfolding ask_weights
  ask_weights_lem st env s stats op load h = elim (Bool-cases st.freeze_weights) [
    | inl e ↦ rw e (inr (Error.einval, refl))
    | inr e ↦ rw e (keeps.weights s stats op load env h)
  ]

  compute_lem :
      (st : Scheduler S W) (env : Ambient W) (stats : List (ServerStats W)) (load : SystemLoad)
      → Inv st.sched (length stats)
      → length stats < 20
      → load.read_ops < 2 ^ 63
      → load.write_ops < 2 ^ 63
      → InRange stats
      → (d : Decision W) × (sched' : S) × (compute policy st env stats load ≡ ok (d, sched'))
        × Inv sched' (length stats)
  unfolding compute
  compute_lem st env stats load i few rd wr h =
      let asked = ask_modes policy st env stats load in
      let (r, i') = ask_modes_lem st env stats load i few rd wr in
      let (o, e₁) = settle_lem asked.0 r in
      let (stats', e₂, h') = with_modes_lem o stats h in
      let (rw₁, e₃) =
        settle_lem _ (ask_weights_lem st env asked.1 stats' Direction.reads load h') in
      let (rw₂, e₄) =
        settle_lem _ (ask_weights_lem st env asked.1 stats' Direction.writes load h') in
      (
        record { modes = o; r_weights = rw₁; w_weights = rw₂ },
        asked.1,
        rw (e₁, e₂, e₃, e₄) refl,
        i',
      )

  -- From a valid scheduler, whose policy keeps its promises, a round ends without an exception.
  pub update-IsKept :
      (st : Scheduler S W) (env : Ambient W)
      → IsKept st
      → (st' : Scheduler S W) × (update policy st env ≡ ok st')
        × (st'.num_servers ≡ st.num_servers)
        × IsKept st'
  unfolding get_server_stats get_system_load
  update-IsKept st env k =
      let v = k.valid in
      let m = st.stats_mgr in
      let (ss, e, c, r) =
        entries_lem m 1 st.num_servers (omega (arith, v.few))
          (λ id a b. v.listed id a (omega (arith, b))) in
      let listing : get_server_stats m ≡ ok ss = rw (v.counted) e in
      let i = subst (Inv st.sched) (sym c) k.promised in
      let (d, s, f, i') =
        compute_lem st env ss (get_system_load m) i (omega (arith, c, v.few)) v.small.0 v.small.1
          r in
      let (st', u, g, q, _, _, _, v') = update-Decides policy st env ss d s v listing f in
      (st', u, q, record { valid = v'; promised = rw (g, q) (subst (Inv s) c i') })

  insert_lem :
      (P : ServerId → Type 0) (id : ServerId) (xs : List ServerId)
      → P id
      → All P xs
      → All P (insert id xs) × (length (insert id xs) ≡ suc (length xs))
  unfolding insert
  insert_lem P id [] p h = ((p, tt), refl)
  insert_lem P id (x ∷ xs) p h =
      let (a, l) = insert_lem P id xs p h.1 in
      elim (Bool-cases (ltb id x)) [
        | inl e ↦ rw e ((p, h), refl)
        | inr e ↦ rw e ((h.0, a), ap suc l)
      ]

  not_in : (n : ℕ) (xs : List ServerId) → All (λ id. id ≤ n) xs → contains xs (n + 1) ≡ false
  unfolding contains
  not_in n [] h = refl
  not_in n (x ∷ xs) h = ground (arith, not_in n xs h.1, h.0)

  pub add_server-IsKept :
      (zero_weight default_weight : W) (st : Scheduler S W)
      → st.num_servers + 1 < 20
      → IsKept st
      → (st' : Scheduler S W) × (add_server policy zero_weight default_weight st
            (st.num_servers + 1)
          ≡ ok st')
        × (st'.num_servers ≡ st.num_servers + 1)
        × IsKept st'
  unfolding add_server Stats.add_server default_stats
  add_server-IsKept z w st l k =
      let v = k.valid in
      let id = st.num_servers + 1 in
      let (s, e, i) = keeps.joins st.sched st.num_servers id k.promised in
      let n = not_in st.num_servers st.stats_mgr.servers v.numbered in
      let (a, c) =
        insert_lem (λ j. j ≤ id) id st.stats_mgr.servers (omega arith)
          (All-map (λ j. j ≤ st.num_servers) (λ j. j ≤ id) (λ j h. omega (arith, h))
            st.stats_mgr.servers v.numbered) in
      let m : ServerStatsManager W = record st.stats_mgr {
        stats_map = put st.stats_mgr.stats_map id (some (default_stats z w id));
        servers = insert id st.stats_mgr.servers;
      } in
      (
        record st { sched = s; stats_mgr = m; num_servers = id },
        rw (e, lt→ltb id 20 l, n) refl,
        refl,
        record {
          valid = record {
            few = l;
            counted = omega (arith, c, v.counted);
            numbered = a;
            small = v.small;
            listed = λ j p q. elim (Bool-cases (id == j)) [
              | inl f ↦ (default_stats z w id, rw f refl, (==_iff id j).0 f)
              | inr f ↦ rw f (v.listed j p (let y = ne_of_== id j f in omega (arith, y, q)))
            ];
          };
          promised = i;
        },
      )
