-- ===== src/Rpc/Progress.antt =====
-- When a waiting request is written.
use mathlib.Core.List.{append-nil}
use sandook.Base.{
  ℕ, ◌+◌, ◌≡◌, refl, sym, ap, subst, ◌∙◌, ◌<◌, ◌≤◌, false, leb, List, [], ◌∷◌, ◌++◌, length,
  length-append, lt→ltb, arith,
}
use sandook.Rpc.{
  k_num_credits, Sender, parked, running, writing, stopped, failed, RpcFlow, FlowEvent, rounds,
  writes, init, is_empty, inflight, gather_requests, take_requests, sender_round, round_of,
  write_of, step, run, called,
}
use sandook.Rpc.Invariant.{IsFlow, held, MayPark, inflight_lem}
use sandook.Rpc.Sending.{write_of-IsFlow}
use sandook.Rpc.Flow.{run-IsFlow}

not-crowded : (n : ℕ) → n < k_num_credits → leb k_num_credits n ≡ false
not-crowded n h = ground (arith, h)

no_room : (n m : ℕ) → k_num_credits ≤ n → n + m < k_num_credits → ⊥
no_room n m h k = omega (arith, h, k)

module _ {A : Type 0} where
  -- The sender has not ended.
  abbrev pub IsAlive : Sender A → Type 0
  IsAlive parked = Unit
  IsAlive running = Unit
  IsAlive (writing taken) = Unit
  IsAlive (stopped taken) = ⊥
  IsAlive (failed taken) = ⊥

  gather_requests-some :
      (n : ℕ) (r : A) (rs reqs : List A)
      → reqs ≡ r ∷ rs
      → n < k_num_credits
      → (more : List A) × ((gather_requests n reqs).0 ≡ r ∷ more)
  unfolding gather_requests
  gather_requests-some n r rs reqs e h =
      ((gather_requests (n + 1) rs).0, rw e (rw (lt→ltb n k_num_credits h) refl))

  sender_round-take_requests :
      (f : RpcFlow A)
      → is_empty f.reqs ≡ false
      → inflight f < k_num_credits
      → sender_round f ≡ take_requests f
  unfolding sender_round
  sender_round-take_requests f e h = rw (e, not-crowded (inflight f) h) refl

  written-take_requests :
      (f : RpcFlow A) (taken : List A)
      → f.close ≡ false
      → (gather_requests (inflight f) f.reqs).0 ≡ taken
      → (step (take_requests f) writes).written ≡ f.written ++ taken
  unfolding step write_of take_requests
  written-take_requests f taken c e = rw (c, e) refl

  -- A round of a sender that runs, and the write after it.
  running_writes :
      (f : RpcFlow A) (r : A) (rs : List A)
      → f.sender ≡ running
      → f.close ≡ false
      → f.reqs ≡ r ∷ rs
      → inflight f < k_num_credits
      → (more : List A) × ((run f (rounds ∷ writes ∷ [])).written ≡ f.written ++ (r ∷ more))
  unfolding run step round_of is_empty
  running_writes f r rs s c q h =
      let (more, g) = gather_requests-some (inflight f) r rs f.reqs q h in
      (
        more,
        ap (λ z. (step (round_of f z) writes).written) s
            ∙ ap (λ z. (step z writes).written) (sender_round-take_requests f (ap is_empty q) h)
            ∙ written-take_requests f (r ∷ more) c g,
      )

  -- The same after the write that may come first.
  alive_writes :
      (f : RpcFlow A) (reqs : List A) (s : Sender A) (r : A) (rs : List A)
      → f.sender ≡ s
      → IsAlive s
      → IsFlow f reqs
      → f.close ≡ false
      → f.reqs ≡ r ∷ rs
      → length f.wire + length (held f.sender) < k_num_credits
      → (more : List A) × ((run (write_of f s) (rounds ∷ writes ∷ [])).written
          ≡ (f.written ++ held s) ++ (r ∷ more))
  unfolding write_of
  alive_writes f reqs parked r rs e a h c q w =
      let full : k_num_credits ≤ length f.wire =
        subst (λ z. MayPark f.close z (length f.wire) parked) q
          (subst (λ z. MayPark f.close f.reqs (length f.wire) z) e h.may_park) in
      absurd (no_room (length f.wire) (length (held f.sender)) full w)
  alive_writes f reqs running r rs e a h c q w =
      let (more, z) = running_writes f r rs e c q (omega (arith, inflight_lem f reqs h, w)) in
      (more, z ∙ ap (λ l. l ++ (r ∷ more)) (sym (append-nil f.written)))
  alive_writes f reqs (writing taken) r rs e a h c q w =
      let f' = write_of f (writing taken) in
      let h' = write_of-IsFlow f reqs (writing taken) e h in
      running_writes f' r rs refl c q (
        omega
          (arith, inflight_lem f' reqs h', w, ap length (ap held e), length-append f.wire taken))
  alive_writes f reqs (stopped taken) r rs e a h c q w = absurd a
  alive_writes f reqs (failed taken) r rs e a h c q w = absurd a

  -- After any history, a request that is first in the queue is written by the sender's next write after its
  -- next round, behind all that was taken before it: it needs no further call or answer to wake the
  -- sender. This holds while fewer than 128 requests are unanswered, no write has failed and the destructor
  -- has not started.
  pub run-writes :
      (es : List (FlowEvent A)) (r : A) (rs : List A)
      → let f = run init es in
        IsAlive f.sender
        → f.close ≡ false
        → f.reqs ≡ r ∷ rs
        → length f.wire + length (held f.sender) < k_num_credits
        → (more : List A) × ((run f (writes ∷ rounds ∷ writes ∷ [])).written
            ≡ (f.written ++ held f.sender) ++ (r ∷ more))
  unfolding run step
  run-writes es r rs a c q w =
      let f = run init es in alive_writes f (called es) f.sender r rs refl a (run-IsFlow es).0 c q w
