-- ===== src/Rpc/Flow.antt =====
-- rpc/rpc.cc: the steps of the receiver and the histories of a flow.
use mathlib.Core.List.{append_assoc, append-nil}
use sandook.Base.{
  ℕ, zero, suc, ◌+◌, ◌%◌, ◌≡◌, refl, ap, subst, ◌≤◌, inl, inr, true, false, not, ◌&&◌, ◌||◌, ltb,
  leb, All, List, [], ◌∷◌, ◌++◌, length, length-append, Option, none, some, Bool-cases, lt→ltb,
  arith,
}
use sandook.Types.{u32_mod}
use sandook.Rpc.{
  k_num_credits, Sender, parked, running, writing, stopped, failed, wake_of, call, take_requests,
  sender_round, round_of, write_of, RpcFlow, FlowEvent, calls, rounds, writes, write_fails, closes,
  answers, init, is_empty, inflight, keep_first, take_answer, receive, step, run, called,
}
use sandook.Rpc.Invariant.{held, IsFlow, inflight_of}
use sandook.Rpc.Sending.{
  empty_of, woken-IsFlow, MayPark-empty, call-IsFlow, round_of-IsFlow, write_of-IsFlow,
  fail_of-IsFlow,
}

module _ {A : Type 0} where
  -- Taking a request off the wire.
  abbrev IsPicked : List A → Option (A × List A) → Type 0
  IsPicked wire none = Unit
  IsPicked wire (some (req, left)) = length wire ≡ suc (length left)

  keep_first-IsPicked :
      (x : A) (xs : List A) (r : Option (A × List A))
      → IsPicked xs r
      → IsPicked (x ∷ xs) (keep_first x r)
  unfolding keep_first
  keep_first-IsPicked x xs none h = tt
  keep_first-IsPicked x xs (some (y, ys)) h = ap suc h

  take_answer-IsPicked : (i : ℕ) (wire : List A) → IsPicked wire (take_answer i wire)
  unfolding take_answer
  take_answer-IsPicked i [] = tt
  take_answer-IsPicked zero (x ∷ xs) = refl
  take_answer-IsPicked (suc i) (x ∷ xs) =
      keep_first-IsPicked x xs (take_answer i xs) (take_answer-IsPicked i xs)

  receive-IsFlow :
      (f : RpcFlow A) (reqs : List A) (r : Option (A × List A))
      → IsPicked f.wire r
      → IsFlow f reqs
      → IsFlow (receive f r) reqs
  unfolding receive
  receive-IsFlow f reqs none p h = h
  receive-IsFlow f reqs (some (req, wire)) p h =
      let f' = record f {
        recv_count = (f.recv_count + 1) % u32_mod;
        wire = wire;
        answered = f.answered ++ req ∷ [];
      } in
      let l = length-append f.answered (req ∷ []) in
      let w : length wire + length (held f.sender) ≤ k_num_credits = omega (arith, h.few, p) in
      let n : length f.written ≡ length wire + length (f.answered ++ req ∷ []) =
        omega (arith, h.on_wire, p, l) in
      let r : (f.recv_count + 1) % u32_mod ≡ length (f.answered ++ req ∷ []) % u32_mod =
        omega (arith, h.received, l) in
      let q = inflight_of f' w n h.sent r in
      elim (Bool-cases (ltb (inflight f') k_num_credits && not (is_empty f.reqs))) [
        | inl e ↦ rw e (woken-IsFlow f' reqs h.order w n h.sent r)
        | inr e ↦ rw e (record {
          order = h.order;
          few = w;
          on_wire = n;
          sent = h.sent;
          received = r;
          may_park =
              MayPark-empty f.close f.reqs (length f.wire) (length wire) f.sender
                (empty_of (ltb (inflight f') k_num_credits) (is_empty f.reqs)
                  (lt→ltb (inflight f') k_num_credits (omega (arith, q, h.few, p))) e)
                h.may_park;
        })
      ]

  pub called_by : List A → FlowEvent A → List A
  called_by reqs (calls req) = reqs ++ req ∷ []
  called_by reqs _ = reqs

  step-IsFlow :
      (f : RpcFlow A) (reqs : List A) (e : FlowEvent A)
      → IsFlow f reqs
      → IsFlow (step f e) (called_by reqs e)
  unfolding step called_by
  step-IsFlow f reqs (calls req) h = call-IsFlow f reqs req h
  step-IsFlow f reqs rounds h = round_of-IsFlow f reqs f.sender refl h
  step-IsFlow f reqs writes h = write_of-IsFlow f reqs f.sender refl h
  step-IsFlow f reqs write_fails h = fail_of-IsFlow f reqs f.sender refl h
  step-IsFlow f reqs closes h =
      woken-IsFlow (record f { close = true }) reqs h.order h.few h.on_wire h.sent h.received
  step-IsFlow f reqs (answers i) h =
      receive-IsFlow f reqs (take_answer i f.wire) (take_answer-IsPicked i f.wire) h

  called-cons :
      (reqs : List A) (e : FlowEvent A) (es : List (FlowEvent A))
      → called_by reqs e ++ called es ≡ reqs ++ called (e ∷ es)
  unfolding called called_by
  called-cons reqs (calls req) es = append_assoc reqs (req ∷ []) (called es)
  called-cons reqs rounds es = refl
  called-cons reqs writes es = refl
  called-cons reqs write_fails es = refl
  called-cons reqs closes es = refl
  called-cons reqs (answers i) es = refl

  run_from :
      (es : List (FlowEvent A)) (f : RpcFlow A) (reqs : List A)
      → IsFlow f reqs
      → IsFlow (run f es) (reqs ++ called es)
  unfolding run called
  run_from [] f reqs h = rw append-nil h
  run_from (e ∷ es) f reqs h =
      subst (IsFlow (run (step f e) es)) (called-cons reqs e es)
        (run_from es (step f e) (called_by reqs e) (step-IsFlow f reqs e h))

  -- A history without a destructor and without a write that fails.
  abbrev pub IsSound : FlowEvent A → Type 0
  IsSound closes = ⊥
  IsSound write_fails = ⊥
  IsSound _ = Unit

  -- The sender has not ended.
  abbrev pub Runs : Sender A → Type 0
  Runs (stopped taken) = ⊥
  Runs (failed taken) = ⊥
  Runs _ = Unit

  wake_of-Runs : (s : Sender A) → Runs s → Runs (wake_of s)
  unfolding wake_of
  wake_of-Runs parked h = tt
  wake_of-Runs running h = tt
  wake_of-Runs (writing taken) h = tt
  wake_of-Runs (stopped taken) h = absurd h
  wake_of-Runs (failed taken) h = absurd h

  -- The flow is open, and its sender runs.
  abbrev Alive : RpcFlow A → Type 0
  Alive f = (f.close ≡ false) × Runs f.sender

  take_requests-Alive : (f : RpcFlow A) → Alive f → Alive (take_requests f)
  unfolding take_requests
  take_requests-Alive f (o, h) = (o, rw o tt)

  step-Alive : (f : RpcFlow A) (e : FlowEvent A) → IsSound e → Alive f → Alive (step f e)
  unfolding step call round_of sender_round write_of receive
  step-Alive f (calls req) u (o, h) =
      let f' = record f { reqs = f.reqs ++ req ∷ [] } in
      elim (Bool-cases (ltb (inflight f') k_num_credits)) [
        | inl e ↦ rw e (o, wake_of-Runs f.sender h)
        | inr e ↦ rw e (o, h)
      ]
  step-Alive f rounds u (o, h) = go f.sender h
    where
      go : (s : Sender A) → Runs s → Alive (round_of f s)
      go running k =
          elim (Bool-cases (
            (is_empty f.reqs || leb k_num_credits (inflight f))
            && not (f.close && is_empty f.reqs))) [
              | inl e ↦ rw e (o, tt)
              | inr e ↦ rw e (take_requests-Alive f (o, h))
            ]
      go parked k = (o, h)
      go (writing taken) k = (o, h)
      go (stopped taken) k = absurd k
      go (failed taken) k = absurd k
  step-Alive f writes u (o, h) = go f.sender h
    where
      go : (s : Sender A) → Runs s → Alive (write_of f s)
      go running k = (o, h)
      go parked k = (o, h)
      go (writing taken) k = (o, tt)
      go (stopped taken) k = absurd k
      go (failed taken) k = absurd k
  step-Alive f closes u h = absurd u
  step-Alive f write_fails u h = absurd u
  step-Alive f (answers i) u (o, h) = go (take_answer i f.wire)
    where
      go : (r : Option (A × List A)) → Alive (receive f r)
      go none = (o, h)
      go (some (req, wire)) =
          let f' = record f {
            recv_count = (f.recv_count + 1) % u32_mod;
            wire = wire;
            answered = f.answered ++ req ∷ [];
          } in
          elim (Bool-cases (ltb (inflight f') k_num_credits && not (is_empty f.reqs))) [
            | inl e ↦ rw e (o, wake_of-Runs f.sender h)
            | inr e ↦ rw e (o, h)
          ]

  run-Alive :
      (es : List (FlowEvent A)) (f : RpcFlow A) → All IsSound es → Alive f → Runs (run f es).sender
  unfolding run
  run-Alive [] f u h = h.1
  run-Alive (e ∷ es) f u h = run-Alive es (step f e) u.1 (step-Alive f e u.0 h)

  -- Over any history of calls, rounds of the sender, writes that succeed or fail, answers in any order and a
  -- destructor that starts at any time: the requests that were written, those that the sender has
  -- taken and those that wait are together the requests that were called for, in their order; at most 128
  -- requests are taken or on the wire without an answer, and the 32-bit counters count them, however often they
  -- have wrapped. A sender that is parked has no reason to run: either nothing waits and the flow is
  -- not closing, or all credits are in use. A sender that ends drops what it has taken; it does not end in a
  -- history without a destructor and without a write that fails.
  pub run-IsFlow :
      (es : List (FlowEvent A))
      → IsFlow (run init es) (called es) × (All IsSound es → Runs (run init es).sender)
  unfolding init
  run-IsFlow es = (
    run_from es init [] (record {
      order = refl;
      few = omega arith;
      on_wire = refl;
      sent = omega arith;
      received = omega arith;
      may_park = tt;
    }),
    λ u. run-Alive es init u (refl, tt),
  )
