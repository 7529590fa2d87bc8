-- ===== src/Pulling/Views.antt =====
-- What a virtual disk knows after a pull.
use mathlib.Core.List.{append-nil, append_assoc}
use sandook.Base.{
  ℕ, zero, suc, ◌+◌, ◌≡◌, refl, sym, ap, subst, ◌∙◌, ◌<◌, ◌≤◌, inl, inr, true, ◌==◌, List, [], ◌∷◌,
  ◌++◌, length, length-append, some, lt→ltb, le→leb, Bool-cases, ==_iff, ne_of_==, arith,
}
use sandook.Status.{Status, ok}
use sandook.Types.{ServerId, VolumeId, ServerStats, CongestionState, put, k_num_max_servers}
use sandook.Selection.{contains}
use sandook.Congestion.{Doubles, CongestionControl, set_congestion_state, is_invalid}
use sandook.ControlPlane.Stats.{entries, get_server_stats}
use sandook.ControlPlane.Stats
use sandook.ControlPlane.Policies.{Policy}
use sandook.ControlPlane.Rounds.{Listed, IsValid}
use sandook.Controller.{ControllerAgent, list_server_stats}
use sandook.Routing.{ServerStatsManager, set_server_stats}
use sandook.Pulling.{
  GetServerStatsReplyMsg, add_server_stats, add_all, handle_get_server_stats,
  handle_get_server_stats_reply, keep_view, take_reply, pull,
}

add_all_lem :
    {W : Type 0} (msg : GetServerStatsReplyMsg W) (ss : List (ServerStats W))
    → length msg.servers + length ss ≤ k_num_max_servers
    → add_all msg ss ≡ ok (record msg { servers = msg.servers ++ ss })
unfolding add_all add_server_stats
add_all_lem msg [] h = ap (λ l. ok (record msg { servers = l })) (sym (append-nil msg.servers))
add_all_lem msg (s ∷ ss) h =
    let l = length-append msg.servers (s ∷ []) in
    let more = record msg { servers = msg.servers ++ s ∷ [] } in
    rw (lt→ltb (length msg.servers) k_num_max_servers (omega (arith, h))) (
      add_all_lem more ss (omega (arith, h, l))
      ∙ ap (λ x. ok (record msg { servers = x })) (append_assoc msg.servers (s ∷ []) ss))

module _ (d : Doubles) where
  -- The view has what the statistics of a server say of it.
  abbrev pub Sees : Stats.ServerStatsManager d.Num → ServerStatsManager d → ServerId → Type 0
  Sees c m id =
      (s : ServerStats d.Num) × (c.stats_map id ≡ some s)
      × (m.modes id ≡ s.committed_mode)
      × (m.read_weights id ≡ s.read_weight)
      × (m.write_weights id ≡ s.write_weight)

  -- Two views agree on a server.
  abbrev Agree : ServerStatsManager d → ServerStatsManager d → ServerId → Type 0
  Agree m m' id =
      (m'.modes id ≡ m.modes id)
      × (m'.read_weights id ≡ m.read_weights id)
      × (m'.write_weights id ≡ m.write_weights id)

  set_congestion_state-ok :
      (c : CongestionControl d) (id : ServerId) (state : CongestionState)
      → id < 20
      → (c' : CongestionControl d) × (set_congestion_state d c id state ≡ ok c')
  unfolding set_congestion_state
  set_congestion_state-ok c id state h = elim (Bool-cases (is_invalid (c.states id))) [
    | inl e ↦ (record c { states = put c.states id state }, rw (lt→ltb id 20 h) (rw e refl))
    | inr e ↦ (c, rw (lt→ltb id 20 h) (rw e refl))
  ]

  put-same : {A : Type 0} (a : ServerId → A) (i j : ServerId) (v : A) → i ≡ j → put a i v j ≡ v
  put-same a i j v e = rw ((==_iff i j).1 e) refl

  put-other :
      {A : Type 0} (a : ServerId → A) (i j : ServerId) (v : A) → (i ≡ j → ⊥) → put a i v j ≡ a j
  put-other a i j v n = elim (Bool-cases (i == j)) [
    | inl e ↦ absurd (n ((==_iff i j).0 e))
    | inr e ↦ rw e refl
  ]

  -- The entries of `k` servers from `i` on, as a view takes them.
  taken :
      (c : Stats.ServerStatsManager d.Num) (k i : ℕ) (m : ServerStatsManager d)
      → i + k ≤ 20
      → ((id : ServerId) → i ≤ id → id < i + k → Listed c id × (contains m.servers id ≡ true))
      → (ss : List (ServerStats d.Num)) × (m' : ServerStatsManager d) × (entries c.stats_map i k
          ≡ ok ss)
        × (length ss ≡ k)
        × (set_server_stats d m ss ≡ ok m')
        × (m'.servers ≡ m.servers)
        × ((id : ServerId) → i ≤ id → id < i + k → Sees c m' id)
        × ((id : ServerId) → id < i → Agree m m' id)
  unfolding entries set_server_stats
  taken c zero i m l h = (
    [],
    m,
    refl,
    refl,
    refl,
    refl,
    λ id a b. absurd (omega (arith, a, b)),
    λ id a. (refl, refl, refl),
  )
  taken c (suc k) i m l h =
      let ((s, e, q), f) = h i (omega arith) (omega arith) in
      let (cc', g) =
        set_congestion_state-ok m.cc s.server_id s.congestion_state (omega (arith, q, l)) in
      let m1 = record m {
        modes = put m.modes s.server_id s.committed_mode;
        read_weights = put m.read_weights s.server_id s.read_weight;
        write_weights = put m.write_weights s.server_id s.write_weight;
        cc = cc';
      } in
      let (ss, m', es, len, sets, srv, sees, agrees) =
        taken c k (i + 1) m1 (omega (arith, l))
          (λ id a b. h id (omega (arith, a)) (omega (arith, b))) in
      (
        s ∷ ss,
        m',
        rw (e, es) refl,
        ap suc len,
        rw (subst (λ z. contains m.servers z ≡ true) (sym q) f)
            (rw (lt→ltb s.server_id 20 (omega (arith, q, l))) (rw g sets)),
        srv,
        λ id a b. (elim (Bool-cases (i == id)) [
          | inl p ↦
              let r = (==_iff i id).0 p in
              let (x, y, z) = agrees i (omega arith) in
              subst (Sees c m') r (
                s,
                e,
                x ∙ put-same m.modes s.server_id i s.committed_mode q,
                y ∙ put-same m.read_weights s.server_id i s.read_weight q,
                z ∙ put-same m.write_weights s.server_id i s.write_weight q,
              )
          | inr p ↦ sees id (omega (arith, a, ne_of_== i id p)) (omega (arith, b))
        ]),
        λ id a.
            (let (x, y, z) = agrees id (omega (arith, a)) in
              let n : (s.server_id ≡ id → ⊥) = λ r. omega (arith, r, q, a) in
              (
                x ∙ put-other m.modes s.server_id id s.committed_mode n,
                y ∙ put-other m.read_weights s.server_id id s.read_weight n,
                z ∙ put-other m.write_weights s.server_id id s.write_weight n,
              )),
      )

  take_reply_lem :
      (m m' : ServerStatsManager d) (r : Status (GetServerStatsReplyMsg d.Num)) (vol_id : VolumeId)
      (ss : List (ServerStats d.Num))
      → r ≡ ok (record { vol_id = vol_id; servers = ss })
      → length ss ≤ k_num_max_servers
      → set_server_stats d m ss ≡ ok m'
      → take_reply d m r ≡ ok m'
  unfolding take_reply keep_view handle_get_server_stats_reply
  take_reply_lem m m' r vol_id ss e few sets =
      rw e (rw (le→leb (length ss) k_num_max_servers few) (rw sets refl))

  answered :
      {S : Type 0} (policy : Policy S d.Num) (a : ControllerAgent S d.Num) (vol_id : VolumeId)
      (ss : List (ServerStats d.Num))
      → entries a.sched.stats_mgr.stats_map 1 (length a.sched.stats_mgr.servers) ≡ ok ss
      → length ss ≤ k_num_max_servers
      → handle_get_server_stats policy a vol_id ≡ ok (record { vol_id = vol_id; servers = ss })
  unfolding handle_get_server_stats list_server_stats get_server_stats
  answered policy a vol_id ss e few =
      rw e (add_all_lem (record { vol_id = vol_id; servers = [] }) ss (omega (arith, few)))

  -- Controller and client composed: a round of the statistics updater of a client that knows the controller's
  -- servers throws nothing, and afterwards the client's mode and weights of each server are the
  -- committed mode and the weights that the controller's statistics have at that moment. The controller
  -- needs to be in a valid state.
  pub pull-Sees :
      {S : Type 0} (policy : Policy S d.Num) (a : ControllerAgent S d.Num) (vol_id : VolumeId)
      (m : ServerStatsManager d)
      → IsValid a.sched
      → ((id : ServerId) → 1 ≤ id → id ≤ a.sched.num_servers → contains m.servers id ≡ true)
      → (m' : ServerStatsManager d) × (pull d policy a vol_id m ≡ ok m')
        × (m'.servers ≡ m.servers)
        × ((id : ServerId) → 1 ≤ id → id ≤ a.sched.num_servers → Sees a.sched.stats_mgr m' id)
  unfolding pull
  pull-Sees policy a vol_id m v k =
      let c = a.sched.stats_mgr in
      let n = length c.servers in
      let (ss, m', es, len, sets, srv, sees, _) =
        taken c n 1 m (omega (arith, v.few, v.counted)) (λ id p q.
          (v.listed id p (omega (arith, q, v.counted)), k id p (omega (arith, q, v.counted)))) in
      let few : length ss ≤ k_num_max_servers = omega (arith, len, v.few, v.counted) in
      (
        m',
        take_reply_lem m m' (handle_get_server_stats policy a vol_id) vol_id ss
            (answered policy a vol_id ss es few) few sets,
        srv,
        λ id p q. sees id p (omega (arith, q, v.counted)),
      )
