-- ===== src/Routing/Modes.antt =====
-- Which servers the scheduler of the data plane sends reads and writes to.
use sandook.Base.{
  ◌≡◌, refl, sym, ap, ◌∙◌, ◌<◌, ◌≢◌, inl, inr, Bool, true, not, List, [], ◌∷◌, length, arith,
  le→leb,
}
use sandook.Status.{Status, ok}
use sandook.Types.{ServerId, ServerArray, ServerMode, k_num_replicas}
use sandook.Selection.{ServerSet, ServerReplicaList, get_valid_servers}
use sandook.Selection.Members.{
  In, IsCandidate, All-In, get_valid_servers-IsCandidate, get_valid_servers-In,
}
use sandook.Selection.Read.{Chooses, none_eligible, chosen, IsEligible}
use sandook.Selection.Write.{Selects}
use sandook.Congestion.{Doubles}
use sandook.Routing.{
  ServerStatsManager, is_read, is_invalid_weight, init_server_weights, keep_weights,
  get_rate_limited_read_weights, get_rate_limited_write_weights, get_read_only_weights,
  get_write_weights, or_else, select_read_server, select_write_replicas,
}
use sandook.Routing.Filter.{kept-Value, kept-In, kept_two}

read_lem : (x : ServerMode) → is_read x ≡ true → x ≡ ServerMode.read
unfolding is_read
read_lem ServerMode.read h = refl
read_lem ServerMode.mix h = cc
read_lem ServerMode.write h = cc

not-read_lem : (x : ServerMode) → not (is_read x) ≡ true → x ≢ ServerMode.read
unfolding is_read
not-read_lem ServerMode.read h = cc
not-read_lem ServerMode.mix h = λ e. cc
not-read_lem ServerMode.write h = λ e. cc

lem-not-read : (x : ServerMode) → x ≢ ServerMode.read → not (is_read x) ≡ true
unfolding is_read
lem-not-read ServerMode.read h = absurd (h refl)
lem-not-read ServerMode.mix h = refl
lem-not-read ServerMode.write h = refl

is_read-read : (x : ServerMode) → x ≡ ServerMode.read → is_read x ≡ true
unfolding is_read
is_read-read x h = ap is_read h

choice_of :
    {E : ServerId → Type 0} {s : Status ServerId} (a : ServerId)
    → Chooses E s
    → E a
    → (b : ServerId) × (s ≡ ok b) × E b
choice_of a (none_eligible n) e = absurd (n a e)
choice_of a (chosen b f) e = (b, refl, f)

two_members : (xs : List ServerId) (a b : ServerId) → In a xs → In b xs → a ≢ b → 1 < length xs
two_members [] a b m n ne = absurd m
two_members (x ∷ []) a b (inl p) (inl q) ne = absurd (ne (p ∙ sym q))
two_members (x ∷ []) a b (inl p) (inr n) ne = absurd n
two_members (x ∷ []) a b (inr m) n ne = absurd m
two_members (x ∷ y ∷ xs) a b m n ne = omega arith

module _ (d : Doubles) where
  -- The test for an invalid weight, at the weights of these doubles.
  abbrev pub Valid : ServerArray d.Num → ServerId → Type 0
  Valid w a = IsCandidate (is_invalid_weight d) w 1 a

  -- A valid weight that the filter has kept is that of a known server whose mode passes.
  kept-Valid :
      (keeps : ServerMode → Bool) (modes : ServerArray ServerMode) (all : ServerArray d.Num)
      (ids : List ServerId) (a : ServerId)
      → is_invalid_weight d d.invalid_server_weight ≡ true
      → Valid (keep_weights d keeps modes all ids (init_server_weights d, 0)).0 a
      → In a ids × (keeps (modes a) ≡ true) × Valid all a
  unfolding init_server_weights
  kept-Valid keeps modes all ids a inv v =
      elim (kept-Value d keeps modes all ids (init_server_weights d, 0) a) [
        | inl e ↦ cc (v.2, inv)
        | inr (m, k, e) ↦ (m, k, (v.0, v.1, sym (ap (is_invalid_weight d) e) ∙ v.2))
      ]

  -- If a replica on a known server in read mode has a valid rate-limited weight, the read goes to a
  -- server of the subset that is known, in read mode and of valid weight. The read scheduler that is
  -- configured needs to choose among the eligible servers whenever some server's weight is valid, as
  -- each of those of the data plane does.
  pub select_read_server-read :
      (select : ServerArray d.Num → ServerSet → Status ServerId) (m : ServerStatsManager d)
      (subset : ServerSet) (a : ServerId)
      → is_invalid_weight d d.invalid_server_weight ≡ true
      → ((w : ServerArray d.Num) (b : ServerId)
          → Valid w b
          → Chooses (IsEligible (is_invalid_weight d) w subset) (select w subset))
      → In a m.servers
      → m.modes a ≡ ServerMode.read
      → In a subset
      → Valid (get_rate_limited_read_weights d m) a
      → (b : ServerId) × (select_read_server d select m subset ≡ ok b)
        × In b subset
        × In b m.servers
        × (m.modes b ≡ ServerMode.read)
        × Valid (get_rate_limited_read_weights d m) b
  unfolding select_read_server get_read_only_weights or_else
  select_read_server-read select m subset a inv chooses known mode sub v =
      let all = get_rate_limited_read_weights d m in
      let out = keep_weights d is_read m.modes all m.servers (init_server_weights d, 0) in
      let (e, n) =
        kept-In d is_read m.modes all m.servers (init_server_weights d, 0) a known
          (is_read-read _ mode) in
      let v' : Valid out.0 a = (v.0, v.1, ap (is_invalid_weight d) e ∙ v.2) in
      let (b, q, ws) = choice_of a (chooses out.0 a v') (v', sub) in
      let (k, r, y) = kept-Valid is_read m.modes all m.servers b inv ws.0 in
      (b, rw (le→leb 1 out.1 (omega (arith, n)), q), ws.1, k, read_lem _ r, y)

  -- If two different known servers outside read mode have valid rate-limited weights, a write goes to
  -- two different known servers of valid weight, neither of them in read mode. The write scheduler
  -- that is configured needs to select among the valid servers whenever there is one, as each of those
  -- of the data plane does.
  pub select_write_replicas-not-read :
      (select : ServerArray d.Num → Status ServerReplicaList) (m : ServerStatsManager d)
      (a b : ServerId)
      → is_invalid_weight d d.invalid_server_weight ≡ true
      → ((w : ServerArray d.Num) (c : ServerId)
          → Valid w c
          → Selects (get_valid_servers (is_invalid_weight d) w) (select w))
      → In a m.servers
      → In b m.servers
      → a ≢ b
      → m.modes a ≢ ServerMode.read
      → m.modes b ≢ ServerMode.read
      → Valid (get_rate_limited_write_weights d m) a
      → Valid (get_rate_limited_write_weights d m) b
      → (r : ServerReplicaList) × (select_write_replicas d select m ≡ ok r)
        × (r.front ≢ r.back)
        × (In r.front m.servers × (m.modes r.front ≢ ServerMode.read))
        × (In r.back m.servers × (m.modes r.back ≢ ServerMode.read))
  unfolding select_write_replicas get_write_weights
  select_write_replicas-not-read select m a b inv selects ka kb ne ma mb va vb =
      let all = get_rate_limited_write_weights d m in
      let keeps : ServerMode → Bool = λ mode. not (is_read mode) in
      let out = keep_weights d keeps m.modes all m.servers (init_server_weights d, 0) in
      let pa = lem-not-read _ ma in
      let pb = lem-not-read _ mb in
      let (ea, na) = kept-In d keeps m.modes all m.servers (init_server_weights d, 0) a ka pa in
      let (eb, nb) = kept-In d keeps m.modes all m.servers (init_server_weights d, 0) b kb pb in
      let two =
        kept_two d keeps m.modes all m.servers (init_server_weights d, 0) a b ka kb ne pa pb in
      let wa : Valid out.0 a = (va.0, va.1, ap (is_invalid_weight d) ea ∙ va.2) in
      let wb : Valid out.0 b = (vb.0, vb.1, ap (is_invalid_weight d) eb ∙ vb.2) in
      let (r, q, reps) = selects out.0 a wa in
      let valid = get_valid_servers (is_invalid_weight d) out.0 in
      let member : (c : ServerId) → In c valid → In c m.servers × (m.modes c ≢ ServerMode.read) =
        λ c i.
          (let (k, p, y) = kept-Valid keeps m.modes all m.servers c inv (
              All-In (Valid out.0) valid c
                (get_valid_servers-IsCandidate (is_invalid_weight d) out.0) i) in
            (k, not-read_lem _ p)) in
      (
        r,
        rw (le→leb k_num_replicas out.1 (omega (arith, two))) q,
        reps.differ (
            two_members valid a b (get_valid_servers-In (is_invalid_weight d) out.0 a wa)
              (get_valid_servers-In (is_invalid_weight d) out.0 b wb) ne),
        member r.front reps.front_in,
        member r.back reps.back_in,
      )
