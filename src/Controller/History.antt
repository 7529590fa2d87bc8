-- ===== src/Controller/History.antt =====
-- Histories of calls of the controller.
use sandook.Base.{
  ℕ, ◌+◌, ◌^◌, ◌%◌, ◌≡◌, refl, sym, ap, ◌∙◌, subst, ◌<◌, ◌≤◌, inl, inr, true, false, ◌==◌, List, [],
  ◌∷◌, ◌++◌, arith, Bool-cases, ne_of_==, lt→ltb,
}
use sandook.Status.{Status, ok, ◌>>=◌}
use sandook.Types.{ServerId, ServerMode, ServerStats, u32_mod}
use sandook.Allocator.Batch.{add_server_lem, allocate_batch-total}
use sandook.ControlPlane.Policies.{Policy, Ambient}
use sandook.ControlPlane.Upkeep.{Keeps, IsKept, add_server-IsKept, update-IsKept}
use sandook.ControlPlane.Calls.{report-IsValid, commit-IsValid, calculate_load-IsValid}
use sandook.ControlPlane.{add_server}
use sandook.Controller.{
  ControllerAgent, ServerDesc, has_key, try_emplace, to_einval, register_server,
  report_server_stats, commit_mode, allocate_batch_of, update_round, load_round,
}

pub data Call (W : Type 0) : Type 0 where
  registers : (ip : List ℕ) (port : ℕ) (name : List ℕ) (n_sectors : ℕ) → Call W
  reports : ServerId → ServerStats W → Call W
  commits : ServerId → ServerMode → Call W
  allocates : ServerId → Call W
  updates : Ambient W → Call W
  loads : Call W

module _ {W : Type 0} where
  -- With `n` servers, the next call is about one of them, or registers one for which there is room.
  abbrev pub Proper : ℕ → List (Call W) → Type 0
  Proper n [] = Unit
  Proper n (registers ip port name n_sectors ∷ cs) = (n + 1 < 20) × Proper (n + 1) cs
  Proper n (reports id stats ∷ cs) = (1 ≤ id) × (id ≤ n) × (stats.server_id ≡ id) × Proper n cs
  Proper n (commits id mode ∷ cs) = (1 ≤ id) × (id ≤ n) × Proper n cs
  Proper n (allocates id ∷ cs) = (1 ≤ id) × (id ≤ n) × Proper n cs
  Proper n (updates env ∷ cs) = Proper n cs
  Proper n (loads ∷ cs) = Proper n cs

  -- The ids from `n` on, one for each registration.
  abbrev pub numbers : ℕ → List (Call W) → List ServerId
  numbers n [] = []
  numbers n (registers ip port name n_sectors ∷ cs) = n ∷ numbers (n + 1) cs
  numbers n (reports id stats ∷ cs) = numbers n cs
  numbers n (commits id mode ∷ cs) = numbers n cs
  numbers n (allocates id ∷ cs) = numbers n cs
  numbers n (updates env ∷ cs) = numbers n cs
  numbers n (loads ∷ cs) = numbers n cs

module _ {S W : Type 0} (policy : Policy S W) (scaled : ℕ → ℕ)
    (zero_weight default_weight : W) where
  -- A call, with the ids that it hands out.
  unfoldable pub step : ControllerAgent S W → Call W → Status (List ServerId × ControllerAgent S W)
  step a (registers ip port name n_sectors) =
      let (r, a') = register_server policy zero_weight default_weight a ip port name n_sectors in
      r >>= λ id. ok (id ∷ [], a')
  step a (reports id stats) = do a' ← report_server_stats policy a id stats; ok ([], a')
  step a (commits id mode) = do a' ← commit_mode policy a id mode; ok ([], a')
  step a (allocates id) = do (blks, a') ← allocate_batch_of policy a id; ok ([], a')
  step a (updates env) = do a' ← update_round policy a env; ok ([], a')
  step a loads = ok ([], load_round policy scaled a)

  unfoldable pub run :
      ControllerAgent S W → List (Call W) → Status (List ServerId × ControllerAgent S W)
  run a [] = ok ([], a)
  run a (c ∷ cs) = do (ids, a') ← step a c; (more, a'') ← run a' cs; ok (ids ++ more, a'')

module _ {S W : Type 0} (policy : Policy S W) (Inv : S → ℕ → Type 0)
    (keeps : Keeps policy Inv) where
  -- The tables of the controller have the same servers, numbered from 1.
  pub record IsWhole (a : ControllerAgent S W) : Type 0 where
    pub kept : IsKept policy Inv keeps a.sched
    pub next : a.next_server_id ≡ a.sched.num_servers + 1
    pub known : (id : ServerId) → 1 ≤ id → id ≤ a.sched.num_servers → has_key a.servers id ≡ true
    pub fresh : (id : ServerId) → a.sched.num_servers < id → has_key a.servers id ≡ false

  -- What a call does, when it is one that `Proper` allows.
  abbrev pub Steps :
      ControllerAgent S W
      → ℕ
      → List ServerId
      → Status (List ServerId × ControllerAgent S W)
      → Type 0
  Steps a n ids r =
      (a' : ControllerAgent S W) × (r ≡ ok (ids, a')) × (a'.sched.num_servers ≡ n) × IsWhole a'

  pub register_lem :
      (scaled : ℕ → ℕ) (z w : W) (a : ControllerAgent S W) (ip : List ℕ) (port : ℕ) (name : List ℕ)
      (n : ℕ)
      → a.sched.num_servers + 1 < 20
      → IsWhole a
      → Steps a
          (a.sched.num_servers + 1)
          (a.next_server_id ∷ [])
          (step policy scaled z w a (registers ip port name n))
  unfolding step register_server to_einval try_emplace
  register_lem scaled z w a ip port name n l h =
      let id = a.next_server_id in
      let few : id < 20 = omega (arith, h.next, l) in
      let (b, e) = add_server_lem a.blk_alloc id n (omega (arith, h.next)) few in
      let (s, f, q, k) = add_server-IsKept policy Inv keeps z w a.sched l h.kept in
      let f' = subst (λ j. add_server policy z w a.sched j ≡ ok s) (sym h.next) f in
      let new = h.fresh id (omega (arith, h.next)) in
      let desc : ServerDesc = record { id = id; ip = ip; port = port; name = name; nsectors = n } in
      (
        record a {
          next_server_id = (id + 1) % u32_mod;
          servers = (id, desc) ∷ a.servers;
          blk_alloc = b;
          sched = s;
        },
        rw (register_server, lt→ltb id 20 few, e, f', new) refl,
        q,
        record {
          kept = k;
          next = omega (arith, q, h.next, few);
          known = λ j p r. elim (Bool-cases (id == j)) [
            | inl y ↦ rw y refl
            | inr y ↦ let o = ne_of_== id j y in rw y (h.known j p (omega (arith, o, r, q, h.next)))
          ];
          fresh = λ j p.
              let y : (id == j) ≡ false = ground (arith, p, q, h.next) in
              rw y (h.fresh j (omega (arith, p, q)));
        },
      )

  pub report_lem :
      (scaled : ℕ → ℕ) (z w : W) (a : ControllerAgent S W) (id : ServerId) (stats : ServerStats W)
      → 1 ≤ id
      → id ≤ a.sched.num_servers
      → stats.server_id ≡ id
      → IsWhole a
      → Steps a a.sched.num_servers [] (step policy scaled z w a (reports id stats))
  unfolding step report_server_stats
  report_lem scaled z w a id stats p q e h =
      let (m, f, v) = report-IsValid a.sched id stats p q e h.kept.valid in
      (
        record a { sched = record a.sched { stats_mgr = m } },
        rw (h.known id p q, f) refl,
        refl,
        record {
          kept = record { valid = v; promised = h.kept.promised };
          next = h.next;
          known = h.known;
          fresh = h.fresh;
        },
      )

  pub commit_lem :
      (scaled : ℕ → ℕ) (z w : W) (a : ControllerAgent S W) (id : ServerId) (mode : ServerMode)
      → 1 ≤ id
      → id ≤ a.sched.num_servers
      → IsWhole a
      → Steps a a.sched.num_servers [] (step policy scaled z w a (commits id mode))
  unfolding step commit_mode
  commit_lem scaled z w a id mode p q h =
      let (m, f, v) = commit-IsValid a.sched id mode p q h.kept.valid in
      (
        record a { sched = record a.sched { stats_mgr = m } },
        rw (h.known id p q, f) refl,
        refl,
        record {
          kept = record { valid = v; promised = h.kept.promised };
          next = h.next;
          known = h.known;
          fresh = h.fresh;
        },
      )

  pub allocate_lem :
      (scaled : ℕ → ℕ) (z w : W) (a : ControllerAgent S W) (id : ServerId)
      → 1 ≤ id
      → id ≤ a.sched.num_servers
      → IsWhole a
      → Steps a a.sched.num_servers [] (step policy scaled z w a (allocates id))
  unfolding step allocate_batch_of
  allocate_lem scaled z w a id p q h =
      let (blks, b, f) =
        allocate_batch-total a.blk_alloc id p (omega (arith, q, h.kept.valid.few)) in
      (
        record a { blk_alloc = b },
        rw f refl,
        refl,
        record { kept = h.kept; next = h.next; known = h.known; fresh = h.fresh },
      )

  pub update_lem :
      (scaled : ℕ → ℕ) (z w : W) (a : ControllerAgent S W) (env : Ambient W)
      → IsWhole a
      → Steps a a.sched.num_servers [] (step policy scaled z w a (updates env))
  unfolding step update_round
  update_lem scaled z w a env h =
      let (s, f, q, k) = update-IsKept policy Inv keeps a.sched env h.kept in
      (
        record a { sched = s },
        rw f refl,
        q,
        record {
          kept = k;
          next = h.next ∙ ap (λ n. n + 1) (sym q);
          known = λ id p r. h.known id p (subst (λ n. id ≤ n) q r);
          fresh = λ id p. h.fresh id (subst (λ n. n < id) q p);
        },
      )

  pub load_lem :
      (scaled : ℕ → ℕ) (z w : W) (a : ControllerAgent S W)
      → ((n : ℕ) → scaled n < 2 ^ 63)
      → IsWhole a
      → Steps a a.sched.num_servers [] (step policy scaled z w a loads)
  unfolding step load_round
  load_lem scaled z w a b h = (
    load_round policy scaled a,
    refl,
    refl,
    record {
      kept = record {
        valid = calculate_load-IsValid a.sched scaled b h.kept.valid;
        promised = h.kept.promised;
      };
      next = h.next;
      known = h.known;
      fresh = h.fresh;
    },
  )
