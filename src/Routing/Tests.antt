-- ===== src/Routing/Tests.antt =====
-- A client that knows a read server and two write servers.
use sandook.Base.{
  ℕ, ◌≡◌, ◌≢◌, ◌+◌, ◌*◌, ◌-◌, refl, [], ◌∷◌, if◌then◌else◌, ltb, ◌==◌, arith, inl, inr,
}
use sandook.Status.{ok}
use sandook.Types.{ServerId, ServerMode, CongestionState}
use sandook.Selection.{ServerReplicaList, random_read, hash_write}
use sandook.Selection.Members.{In}
use sandook.Selection.Read.{random_read-Chooses}
use sandook.Selection.Write.{hash_write-Selects}
use sandook.Congestion.{Doubles}
use sandook.Routing.{
  ServerStatsManager, is_invalid_weight, rate_limited, get_rate_limited_read_weights,
  get_rate_limited_write_weights, select_read_server, select_write_replicas,
}
use sandook.Routing.Modes.{Valid, select_read_server-read, select_write_replicas-not-read}

abbrev whole : Doubles
whole = record {
  Num = ℕ;
  lt = ltb;
  eq = λ x y. x == y;
  add = λ x y. x + y;
  mul = λ x y. x * y;
  best_congested_rate_limit = 1;
  best_uncongested_rate_limit = 1000;
  multiplicative_decrease_delta = 0;
  additive_increase_delta = 10;
  invalid_server_weight = 0;
}

-- Server 2 is in read mode, servers 4 and 5 in write mode.
abbrev client : ServerStatsManager whole
client = record {
  servers = 2 ∷ 4 ∷ 5 ∷ [];
  modes = λ id. if id == 2 then ServerMode.read else ServerMode.write;
  read_weights = λ id. 8;
  write_weights = λ id. 5;
  cc = record {
    servers = 2 ∷ 4 ∷ 5 ∷ [];
    states = λ _. CongestionState.uncongested;
    congested_at = λ _. 0;
    congestion_responded_at = λ _. 0;
    cc_rate_limits = λ _. 1000;
  };
}

read-Valid : Valid whole (get_rate_limited_read_weights whole client) 2
unfolding get_rate_limited_read_weights rate_limited is_invalid_weight
read-Valid = (omega arith, omega arith, refl)

write-Valid :
    Valid whole (get_rate_limited_write_weights whole client) 4
    × Valid whole (get_rate_limited_write_weights whole client) 5
unfolding get_rate_limited_write_weights rate_limited is_invalid_weight
write-Valid = ((omega arith, omega arith, refl), (omega arith, omega arith, refl))

select_read_server-read_example :
    (b : ServerId) × (select_read_server whole
        (random_read (is_invalid_weight whole) (λ n. n - 1))
        client
        (2 ∷ 4 ∷ [])
      ≡ ok b)
    × In b (2 ∷ 4 ∷ [])
    × In b (2 ∷ 4 ∷ 5 ∷ [])
    × (client.modes b ≡ ServerMode.read)
    × Valid whole (get_rate_limited_read_weights whole client) b
select_read_server-read_example =
    select_read_server-read whole (random_read (is_invalid_weight whole) (λ n. n - 1)) client
      (2 ∷ 4 ∷ []) 2 (unfold is_invalid_weight in refl)
      (λ w b v.
        random_read-Chooses (is_invalid_weight whole) w (2 ∷ 4 ∷ []) (λ n. n - 1) b
          (λ n p. omega arith) v)
      (inl refl) refl (inl refl) read-Valid

select_write_replicas-not-read_example :
    (r : ServerReplicaList) × (select_write_replicas whole
        (λ w. hash_write (is_invalid_weight whole) (λ x. x) w 7 1000)
        client
      ≡ ok r)
    × (r.front ≢ r.back)
    × (In r.front (2 ∷ 4 ∷ 5 ∷ []) × (client.modes r.front ≢ ServerMode.read))
    × (In r.back (2 ∷ 4 ∷ 5 ∷ []) × (client.modes r.back ≢ ServerMode.read))
select_write_replicas-not-read_example =
    select_write_replicas-not-read whole
      (λ w. hash_write (is_invalid_weight whole) (λ x. x) w 7 1000) client 4 5
      (unfold is_invalid_weight in refl)
      (λ w c v. hash_write-Selects (is_invalid_weight whole) w (λ x. x) 7 1000 c v) (inr (inl refl))
      (inr (inr (inl refl))) (omega arith) (λ e. cc) (λ e. cc) write-Valid.0 write-Valid.1
