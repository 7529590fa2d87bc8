-- ===== src/Congestion/History.antt =====
-- The controller over a history of calls: servers that are added, congestion signals, reports of the
-- servers' states, and rounds of the worker.
use sandook.Base.{
  true, if◌then◌else◌, ◌∙◌, ℕ, ◌≡◌, refl, sym, subst, ◌<◌, List, [], ◌∷◌, inl, inr, Bool-cases,
  arith, All, lt→ltb,
}
use sandook.Status.{Status, ok, err, fault, ◌>>=◌}
use sandook.Types.{ServerId, put, CongestionState}
use sandook.Selection.{contains, insert}
use sandook.Selection.Members.{In, All-In, All-insert, contains-of-In}
use sandook.Congestion.{
  Doubles, CongestionControl, init, limit_step, add_server, update_server_rate_limit,
  signal_congested, set_congestion_state, update_servers, update_all_servers, mark_congested,
  is_uncongested, is_invalid,
}
use sandook.Congestion.Bounds.{Laws, AllInLimits, limit_step-AllInLimits}

pub data Event : Type 0 where
  adds : ServerId → Event
  signals : CongestionState → ServerId → ℕ → ℕ → Event
  reports : ServerId → CongestionState → Event
  rounds : (ServerId → ℕ) → Event

-- The servers that have been added, after one more event.
abbrev pub after : Event → List ServerId → List ServerId
after (adds id) ids = if contains ids id then ids else insert id ids
after _ ids = ids

-- Servers exist in the arrays, and signals come from servers that have been added.
abbrev pub Allowed : List ServerId → Event → Type 0
Allowed ids (adds id) = id < 20
Allowed ids (signals seen id at now) = (id < 20) × (contains ids id ≡ true)
Allowed ids (reports id state) = id < 20
Allowed ids (rounds now) = Unit

abbrev pub AllAllowed : List ServerId → List Event → Type 0
AllAllowed ids [] = Unit
AllAllowed ids (e ∷ es) = Allowed ids e × AllAllowed (after e ids) es

All-of_In :
    (P : ServerId → Type 0) (xs : List ServerId) → ((a : ServerId) → In a xs → P a) → All P xs
All-of_In P [] f = tt
All-of_In P (x ∷ xs) f = (f x (inl refl), All-of_In P xs (λ a m. f a (inr m)))

-- The state after a call that reports an error by its status.
settle : {d : Doubles} → CongestionControl d → Status (Unit {0}) → Status (CongestionControl d)
settle c (ok _) = ok c
settle c (err e) = ok c
settle c fault = fault

module _ (d : Doubles) where
  pub step : CongestionControl d → Event → Status (CongestionControl d)
  step c (adds id) = settle (add_server d c id).0 (add_server d c id).1
  step c (signals seen id at now) = signal_congested d c seen id at now
  step c (reports id state) = set_congestion_state d c id state
  step c (rounds now) = update_all_servers d c now

  pub run : CongestionControl d → List Event → Status (CongestionControl d)
  run c [] = ok c
  run c (e ∷ es) = do c' ← step c e; run c' es

  pub record Inv (c : CongestionControl d) : Type 0 where
    pub known : All (λ id. id < 20) c.servers
    pub limits : AllInLimits d c

  -- A call that succeeds, keeps the invariant and leaves some servers.
  abbrev Keeps : List ServerId → Status (CongestionControl d) → Type 0
  Keeps ids r = (c : CongestionControl d) × (r ≡ ok c) × Inv c × (c.servers ≡ ids)

  module _ (laws : Laws d) where
    servers-limit_step :
        (c : CongestionControl d) (id now : ℕ) (s : CongestionState)
        → (limit_step d c id now s).servers ≡ c.servers
    unfolding limit_step
    servers-limit_step c id now CongestionState.uncongested = refl
    servers-limit_step c id now _ = ground arith

    limit_step-Inv :
        (c : CongestionControl d) (id now : ℕ) (s : CongestionState)
        → Inv c
        → Inv (limit_step d c id now s)
    limit_step-Inv c id now s v = record {
      known = subst (All (λ i. i < 20)) (sym (servers-limit_step c id now s)) v.known;
      limits = limit_step-AllInLimits d laws c id now s v.limits;
    }

    update-Keeps :
        (c : CongestionControl d) (id now : ℕ)
        → id < 20
        → contains c.servers id ≡ true
        → Inv c
        → Keeps c.servers (update_server_rate_limit d c id now)
    unfolding update_server_rate_limit
    update-Keeps c id now l r v = (
      limit_step d c id now (c.states id),
      rw (lt→ltb id 20 l, r),
      limit_step-Inv c id now (c.states id) v,
      servers-limit_step c id now (c.states id),
    )

    mark-Inv : (c : CongestionControl d) (id at : ℕ) → Inv c → Inv (mark_congested d c id at)
    unfolding mark_congested
    mark-Inv c id at v = record { known = v.known; limits = v.limits }

    signal-Keeps :
        (c : CongestionControl d) (seen : CongestionState) (id at now : ℕ)
        → id < 20
        → contains c.servers id ≡ true
        → Inv c
        → Keeps c.servers (signal_congested d c seen id at now)
    unfolding signal_congested mark_congested
    signal-Keeps c seen id at now l r v = elim (Bool-cases (is_uncongested seen)) [
      | inl e ↦ elim (Bool-cases (is_uncongested (c.states id))) [
        | inl f ↦
            rw (lt→ltb id 20 l, e, f)
              (update-Keeps (mark_congested d c id at) id now l r (mark-Inv c id at v))
        | inr f ↦ rw (lt→ltb id 20 l, e, f) (c, refl, v, refl)
      ]
      | inr e ↦ rw (lt→ltb id 20 l, e) (mark_congested d c id at, refl, mark-Inv c id at v, refl)
    ]

    report-Keeps :
        (c : CongestionControl d) (id : ℕ) (state : CongestionState)
        → id < 20
        → Inv c
        → Keeps c.servers (set_congestion_state d c id state)
    unfolding set_congestion_state
    report-Keeps c id state l v = elim (Bool-cases (is_invalid (c.states id))) [
      | inl e ↦
          rw (lt→ltb id 20 l, e)
            (
              record c { states = put c.states id state },
              refl,
              record { known = v.known; limits = v.limits },
              refl,
            )
      | inr e ↦ rw (lt→ltb id 20 l, e) (c, refl, v, refl)
    ]

    update_servers-Keeps :
        (c : CongestionControl d) (ids : List ServerId) (now : ServerId → ℕ)
        → All (λ id. (id < 20) × (contains c.servers id ≡ true)) ids
        → Inv c
        → Keeps c.servers (update_servers d c ids now)
    unfolding update_servers
    update_servers-Keeps c [] now l v = (c, refl, v, refl)
    update_servers-Keeps c (id ∷ ids) now l v =
        let (c', e, v', s) = update-Keeps c id (now id) l.0.0 l.0.1 v in
        let (c'', e', v'', s') =
          update_servers-Keeps (record c' { states = put c'.states id CongestionState.invalid }) ids
            now (subst (λ xs. All (λ id. (id < 20) × (contains xs id ≡ true)) ids) (sym s) l.1)
            (record { known = v'.known; limits = v'.limits }) in
        (c'', rw e e', v'', s' ∙ s)

    step-Keeps :
        (c : CongestionControl d) (e : Event)
        → Allowed c.servers e
        → Inv c
        → Keeps (after e c.servers) (step c e)
    unfolding step settle add_server update_all_servers
    step-Keeps c (adds id) l v = elim (Bool-cases (contains c.servers id)) [
      | inl e ↦ rw (lt→ltb id 20 l, e) (c, refl, v, refl)
      | inr e ↦
          rw (lt→ltb id 20 l, e)
            (
              record c { servers = insert id c.servers },
              refl,
              record { known = All-insert (λ i. i < 20) id c.servers l v.known; limits = v.limits },
              refl,
            )
    ]
    step-Keeps c (signals seen id at now) l v = signal-Keeps c seen id at now l.0 l.1 v
    step-Keeps c (reports id state) l v = report-Keeps c id state l v
    step-Keeps c (rounds now) l v =
        update_servers-Keeps c c.servers now
          (All-of_In _ c.servers
            (λ a m. (All-In (λ i. i < 20) c.servers a v.known m, contains-of-In c.servers a m)))
          v

    run-Keeps :
        (c : CongestionControl d) (es : List Event)
        → AllAllowed c.servers es
        → Inv c
        → (c' : CongestionControl d) × (run c es ≡ ok c') × Inv c'
    unfolding run
    run-Keeps c [] l v = (c, refl, v)
    run-Keeps c (e ∷ es) l v =
        let (c', p, v', s) = step-Keeps c e l.0 v in
        rw p (run-Keeps c' es (subst (λ ids. AllAllowed ids es) (sym s) l.1) v')

    -- From the initial state, any history of calls that name servers of the arrays, and signal
    -- congestion only of servers that were added before, runs through. Afterwards every rate limit
    -- lies between the best limit under congestion and the best one without.
    pub run-AllInLimits :
        (es : List Event)
        → AllAllowed [] es
        → (c : CongestionControl d) × (run (init d) es ≡ ok c) × AllInLimits d c
    unfolding init
    run-AllInLimits es l =
        let (c, e, v) = run-Keeps (init d) es l (record {
          known = tt;
          limits = λ id. record { above = laws.limits_ordered; below = laws.le_refl _ };
        }) in
        (c, e, v.limits)
