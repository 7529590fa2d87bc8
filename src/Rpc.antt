-- ===== src/Rpc.antt =====
-- rpc/rpc.cc and rpc/rpc.h: RPCFlow, the client's side of one connection: callers queue requests, a sender
-- writes as many as there are credits, and a receiver takes the answers. Each part that holds the lock
-- is one step. The connection is a parameter: it may fail to write, and the server answers the
-- requests that were written in any order. Requests are of any type.
pub mod Invariant
pub mod Sending
pub mod Flow
pub mod Progress
mod Tests
use sandook.Base.{
  ℕ, zero, suc, ◌+◌, ◌-◌, ◌%◌, Bool, true, false, not, ◌&&◌, ◌||◌, if◌then◌else◌, ltb, leb, List,
  [], ◌∷◌, ◌++◌, length, Option, none, some,
}
use sandook.Types.{u32_mod}

-- `kNumCredits`.
abbrev pub k_num_credits : ℕ
k_num_credits = 128

-- Where the sender is: parked, on its way to the lock, writing what it has taken, or at its end, with the
-- requests that it has taken and not written.
pub data Sender (A : Type 0) : Type 0 where
  parked running : Sender A
  writing stopped failed : List A → Sender A

-- `wire` has the requests that are written and not answered. `written` and `answered` are the record of
-- all requests that were, in their order; no code reads them.
pub record RpcFlow (A : Type 0) : Type 0 where
  pub reqs : List A
  pub sent_count : ℕ
  pub recv_count : ℕ
  pub close : Bool
  pub sender : Sender A
  pub wire : List A
  pub written : List A
  pub answered : List A

-- What happens to a flow: a call, a round of the sender, the end of its write or its failure, the answer to
-- a request on the wire, and the start of the destructor.
pub data FlowEvent (A : Type 0) : Type 0 where
  calls : A → FlowEvent A
  rounds writes write_fails closes : FlowEvent A
  answers : ℕ → FlowEvent A

module _ {A : Type 0} where
  pub init : RpcFlow A
  init = record {
    reqs = [];
    sent_count = 0;
    recv_count = 0;
    close = false;
    sender = running;
    wire = [];
    written = [];
    answered = [];
  }

  pub is_empty : List A → Bool
  is_empty [] = true
  is_empty (x ∷ xs) = false

  -- `sent_count_ - recv_count_`, of 32-bit words.
  pub inflight : RpcFlow A → ℕ
  inflight f = (f.sent_count + u32_mod - f.recv_count) % u32_mod

  -- `wake_sender_.Wake()`, which does nothing unless the sender is parked.
  pub wake_of : Sender A → Sender A
  wake_of parked = running
  wake_of running = running
  wake_of (writing taken) = writing taken
  wake_of (stopped taken) = stopped taken
  wake_of (failed taken) = failed taken

  pub call : RpcFlow A → A → RpcFlow A
  unfolding inflight wake_of
  call f req =
      let f' = record f { reqs = f.reqs ++ req ∷ [] } in
      if ltb (inflight f') k_num_credits then record f' { sender = wake_of f'.sender } else f'

  -- The loop that gathers queued requests up to the credit limit: what it takes, and what is left.
  pub gather_requests : ℕ → List A → List A × List A
  gather_requests inflight [] = ([], [])
  gather_requests inflight (req ∷ reqs) =
      let (taken, left) = gather_requests (inflight + 1) reqs in
      if ltb inflight k_num_credits then (req ∷ taken, left) else ([], req ∷ reqs)

  -- What the sender does under the lock once it has a reason to.
  pub take_requests : RpcFlow A → RpcFlow A
  unfolding gather_requests inflight is_empty
  take_requests f =
      let (taken, left) = gather_requests (inflight f) f.reqs in
      record f {
        reqs = left;
        sent_count = (f.sent_count + length taken) % u32_mod;
        sender = if f.close && is_empty left then stopped taken else writing taken;
      }

  -- A round of `SendWorker` up to the end of the lock.
  pub sender_round : RpcFlow A → RpcFlow A
  unfolding take_requests inflight is_empty
  sender_round f =
      if (is_empty f.reqs || leb k_num_credits (inflight f)) && not (f.close && is_empty f.reqs)
      then record f { sender = parked }
      else take_requests f

  -- The sender's part of a step, by where it is.
  pub round_of : RpcFlow A → Sender A → RpcFlow A
  unfolding sender_round
  round_of f running = sender_round f
  round_of f parked = f
  round_of f (writing taken) = f
  round_of f (stopped taken) = f
  round_of f (failed taken) = f

  -- `WritevFull` succeeds.
  pub write_of : RpcFlow A → Sender A → RpcFlow A
  write_of f (writing taken) = record f {
    sender = running;
    wire = f.wire ++ taken;
    written = f.written ++ taken;
  }
  write_of f parked = f
  write_of f running = f
  write_of f (stopped taken) = f
  write_of f (failed taken) = f

  -- `WritevFull` fails.
  pub fail_of : RpcFlow A → Sender A → RpcFlow A
  fail_of f (writing taken) = record f { sender = failed taken }
  fail_of f parked = f
  fail_of f running = f
  fail_of f (stopped taken) = f
  fail_of f (failed taken) = f

  keep_first : A → Option (A × List A) → Option (A × List A)
  keep_first x none = none
  keep_first x (some (y, ys)) = some (y, x ∷ ys)

  -- The answer to the request at a place on the wire.
  pub take_answer : ℕ → List A → Option (A × List A)
  unfolding keep_first
  take_answer i [] = none
  take_answer zero (x ∷ xs) = some (x, xs)
  take_answer (suc i) (x ∷ xs) = keep_first x (take_answer i xs)

  -- A round of `ReceiveWorker`.
  pub receive : RpcFlow A → Option (A × List A) → RpcFlow A
  unfolding inflight is_empty wake_of
  receive f none = f
  receive f (some (req, wire)) =
      let f' = record f {
        recv_count = (f.recv_count + 1) % u32_mod;
        wire = wire;
        answered = f.answered ++ req ∷ [];
      } in
      if ltb (inflight f') k_num_credits && not (is_empty f'.reqs)
      then record f' { sender = wake_of f'.sender }
      else f'

  pub step : RpcFlow A → FlowEvent A → RpcFlow A
  unfolding call round_of write_of fail_of receive take_answer wake_of
  step f (calls req) = call f req
  step f rounds = round_of f f.sender
  step f writes = write_of f f.sender
  step f write_fails = fail_of f f.sender
  step f closes = record f { close = true; sender = wake_of f.sender }
  step f (answers i) = receive f (take_answer i f.wire)

  pub run : RpcFlow A → List (FlowEvent A) → RpcFlow A
  unfolding step
  run f [] = f
  run f (e ∷ es) = run (step f e) es

  -- The requests that were called for, in their order.
  pub called : List (FlowEvent A) → List A
  called [] = []
  called (calls req ∷ es) = req ∷ called es
  called (rounds ∷ es) = called es
  called (writes ∷ es) = called es
  called (write_fails ∷ es) = called es
  called (closes ∷ es) = called es
  called (answers i ∷ es) = called es
