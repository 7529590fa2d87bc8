-- ===== src/Rpc/Tests.antt =====
-- Two calls on a flow whose sender is parked by then.
use sandook.Base.{All, ℕ, ◌≡◌, refl, List, [], ◌∷◌, ◌++◌, arith}
use sandook.Rpc.{FlowEvent, calls, rounds, writes, answers, init, run, called}
use sandook.Rpc.{
  call, inflight, gather_requests, take_requests, sender_round, round_of, write_of, receive,
  take_answer, step, is_empty, wake_of,
}
use sandook.Rpc.Invariant.{IsFlow, held}
use sandook.Rpc.Flow.{IsSound, Runs, run-IsFlow}
use sandook.Rpc.Progress.{run-writes}

abbrev history : List (FlowEvent ℕ)
history =
    rounds
    ∷ calls 7
    ∷ rounds
    ∷ writes
    ∷ calls 8
    ∷ rounds
    ∷ writes
    ∷ answers 1
    ∷ rounds
    ∷ calls 9
    ∷ []

run-IsFlow_example :
    IsFlow (run init history) (called history)
    × (All IsSound history → Runs (run init history).sender)
run-IsFlow_example = run-IsFlow history

run-writes_example :
    (more : List ℕ) × ((run (run init history) (writes ∷ rounds ∷ writes ∷ [])).written
      ≡ ((run init history).written ++ held (run init history).sender) ++ (9 ∷ more))
unfolding init run step call inflight gather_requests take_requests sender_round round_of write_of
    receive take_answer is_empty wake_of
run-writes_example = run-writes history 9 [] tt refl refl (omega arith)
