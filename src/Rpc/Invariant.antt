-- ===== src/Rpc/Invariant.antt =====
-- rpc/rpc.cc: the invariant of a flow.

use sandook.Base.{
  ℕ, ◌+◌, ◌%◌, ◌≡◌, refl, ap, ◌≤◌, inl, inr, Bool, false, ltb, List, [], ◌∷◌, ◌++◌, length,
  Bool-cases, arith,
}
use sandook.Types.{u32_mod}
use sandook.Rpc.{
  k_num_credits, Sender, parked, running, writing, stopped, failed, RpcFlow, inflight, wake_of,
  gather_requests,
}

module _ {A : Type 0} where
  -- The requests that the sender has taken and not written. A sender that has ended drops them.
  abbrev pub held : Sender A → List A
  held parked = []
  held running = []
  held (writing taken) = taken
  held (stopped taken) = taken
  held (failed taken) = taken

  -- Why a sender may be parked.
  abbrev pub MayPark : Bool → List A → ℕ → Sender A → Type 0
  MayPark close [] n parked = close ≡ false
  MayPark close (r ∷ rs) n parked = k_num_credits ≤ n
  MayPark close reqs n _ = Unit

  -- A flow after calls for `reqs`.
  pub record IsFlow (f : RpcFlow A) (reqs : List A) : Type 0 where
    pub order : (f.written ++ held f.sender) ++ f.reqs ≡ reqs
    pub few : length f.wire + length (held f.sender) ≤ k_num_credits
    pub on_wire : length f.written ≡ length f.wire + length f.answered
    pub sent : f.sent_count ≡ (length f.written + length (held f.sender)) % u32_mod
    pub received : f.recv_count ≡ length f.answered % u32_mod
    pub may_park : MayPark f.close f.reqs (length f.wire) f.sender

  pub inflight_of :
      (f : RpcFlow A)
      → length f.wire + length (held f.sender) ≤ k_num_credits
      → length f.written ≡ length f.wire + length f.answered
      → f.sent_count ≡ (length f.written + length (held f.sender)) % u32_mod
      → f.recv_count ≡ length f.answered % u32_mod
      → inflight f ≡ length f.wire + length (held f.sender)
  unfolding inflight
  inflight_of f w n s r = omega (arith, w, n, s, r)

  pub inflight_lem :
      (f : RpcFlow A) (reqs : List A)
      → IsFlow f reqs
      → inflight f ≡ length f.wire + length (held f.sender)
  inflight_lem f reqs h = inflight_of f h.few h.on_wire h.sent h.received

  pub gather_requests_lem :
      (n : ℕ) (reqs : List A)
      → n ≤ k_num_credits
      → let (taken, left) = gather_requests n reqs in
        (taken ++ left ≡ reqs) × (n + length taken ≤ k_num_credits)
  unfolding gather_requests
  gather_requests_lem n [] h = (refl, omega (arith, h))
  gather_requests_lem n (r ∷ rs) h = elim (Bool-cases (ltb n k_num_credits)) [
    | inl e ↦
        let (p, q) = gather_requests_lem (n + 1) rs (ground (arith, e)) in
        rw e (ap (λ l. r ∷ l) p, omega (arith, q))
    | inr e ↦ rw e (refl, omega (arith, h))
  ]

  pub held-wake_of : (s : Sender A) → held (wake_of s) ≡ held s
  unfolding wake_of
  held-wake_of parked = refl
  held-wake_of running = refl
  held-wake_of (writing t) = refl
  held-wake_of (stopped t) = refl
  held-wake_of (failed t) = refl

  pub MayPark-wake_of :
      (c : Bool) (reqs : List A) (n : ℕ) (s : Sender A) → MayPark c reqs n (wake_of s)
  unfolding wake_of
  MayPark-wake_of c [] n parked = tt
  MayPark-wake_of c [] n running = tt
  MayPark-wake_of c [] n (writing t) = tt
  MayPark-wake_of c [] n (stopped t) = tt
  MayPark-wake_of c [] n (failed t) = tt
  MayPark-wake_of c (r ∷ rs) n parked = tt
  MayPark-wake_of c (r ∷ rs) n running = tt
  MayPark-wake_of c (r ∷ rs) n (writing t) = tt
  MayPark-wake_of c (r ∷ rs) n (stopped t) = tt
  MayPark-wake_of c (r ∷ rs) n (failed t) = tt
