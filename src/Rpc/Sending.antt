-- ===== src/Rpc/Sending.antt =====
-- rpc/rpc.cc: calls and the steps of the sender, against the invariant of a flow.
use mathlib.Core.List.{append_assoc, append-nil}
use sandook.Base.{
  ℕ, ◌+◌, ◌%◌, ◌≡◌, refl, sym, ap, subst, ◌∙◌, ◌≤◌, inl, inr, Bool, true, false, not, ◌&&◌, ◌||◌,
  if◌then◌else◌, ltb, leb, List, [], ◌∷◌, ◌++◌, length, length-append, Bool-cases, not-ltb→le,
  arith,
}
use sandook.Types.{u32_mod}
use sandook.Rpc.{
  k_num_credits, Sender, parked, running, writing, stopped, failed, RpcFlow, is_empty, inflight,
  wake_of, call, gather_requests, take_requests, sender_round, round_of, write_of, fail_of,
}
use sandook.Rpc.Invariant.{
  held, MayPark, IsFlow, inflight_of, inflight_lem, gather_requests_lem, held-wake_of,
  MayPark-wake_of,
}

leb-true : (c : Bool) (n : ℕ) → (leb k_num_credits n && not (c && false)) ≡ true → k_num_credits ≤ n
leb-true c n e = ground (arith, e)

pub empty_of : (b c : Bool) → b ≡ true → (b && not c) ≡ false → c ≡ true
empty_of true true p q = refl
empty_of true false p q = cc
empty_of false c p q = cc

module _ {A : Type 0} where
  -- A flow stays one when its sender is woken.
  pub woken-IsFlow :
      (f : RpcFlow A) (reqs : List A)
      → (f.written ++ held f.sender) ++ f.reqs ≡ reqs
      → length f.wire + length (held f.sender) ≤ k_num_credits
      → length f.written ≡ length f.wire + length f.answered
      → f.sent_count ≡ (length f.written + length (held f.sender)) % u32_mod
      → f.recv_count ≡ length f.answered % u32_mod
      → IsFlow (record f { sender = wake_of f.sender }) reqs
  woken-IsFlow f reqs o w n s r =
      let e = held-wake_of f.sender in
      record {
        order = rw e o;
        few = rw e w;
        on_wire = n;
        sent = rw e s;
        received = r;
        may_park = MayPark-wake_of f.close f.reqs (length f.wire) f.sender;
      }

  MayPark-crowded :
      (c : Bool) (rs : List A) (r : A) (n : ℕ) (s : Sender A)
      → k_num_credits ≤ n + length (held s)
      → MayPark c (rs ++ r ∷ []) n s
  MayPark-crowded c [] r n parked h = omega (arith, h)
  MayPark-crowded c [] r n running h = tt
  MayPark-crowded c [] r n (writing t) h = tt
  MayPark-crowded c [] r n (stopped t) h = tt
  MayPark-crowded c [] r n (failed t) h = tt
  MayPark-crowded c (x ∷ rs) r n parked h = omega (arith, h)
  MayPark-crowded c (x ∷ rs) r n running h = tt
  MayPark-crowded c (x ∷ rs) r n (writing t) h = tt
  MayPark-crowded c (x ∷ rs) r n (stopped t) h = tt
  MayPark-crowded c (x ∷ rs) r n (failed t) h = tt

  pub MayPark-empty :
      (c : Bool) (rs : List A) (n m : ℕ) (s : Sender A)
      → is_empty rs ≡ true
      → MayPark c rs n s
      → MayPark c rs m s
  unfolding is_empty
  MayPark-empty c [] n m parked e h = h
  MayPark-empty c [] n m running e h = tt
  MayPark-empty c [] n m (writing t) e h = tt
  MayPark-empty c [] n m (stopped t) e h = tt
  MayPark-empty c [] n m (failed t) e h = tt
  MayPark-empty c (x ∷ rs) n m s e h = cc

  pub call-IsFlow :
      (f : RpcFlow A) (reqs : List A) (req : A)
      → IsFlow f reqs
      → IsFlow (call f req) (reqs ++ req ∷ [])
  unfolding call
  call-IsFlow f reqs req h =
      let f' = record f { reqs = f.reqs ++ req ∷ [] } in
      let o : (f.written ++ held f.sender) ++ f'.reqs ≡ reqs ++ req ∷ [] =
        sym (append_assoc (f.written ++ held f.sender) f.reqs (req ∷ []))
        ∙ ap (λ l. l ++ req ∷ []) h.order in
      let q = inflight_of f' h.few h.on_wire h.sent h.received in
      elim (Bool-cases (ltb (inflight f') k_num_credits)) [
        | inl e ↦ rw e (woken-IsFlow f' _ o h.few h.on_wire h.sent h.received)
        | inr e ↦ rw e (record {
          order = o;
          few = h.few;
          on_wire = h.on_wire;
          sent = h.sent;
          received = h.received;
          may_park =
              MayPark-crowded f.close f.reqs req (length f.wire) f.sender
                (omega (arith, q, not-ltb→le (inflight f') k_num_credits e));
        })
      ]

  -- The reason for which a sender parks.
  parks :
      (c : Bool) (rs : List A) (n : ℕ)
      → ((is_empty rs || leb k_num_credits n) && not (c && is_empty rs)) ≡ true
      → MayPark c rs n parked
  unfolding is_empty
  parks true [] n e = cc
  parks false [] n e = refl
  parks c (x ∷ rs) n e = leb-true c n e

  MayPark-busy :
      (c : Bool) (rs : List A) (n : ℕ) (b : Bool) (taken : List A)
      → MayPark c rs n (if b then stopped taken else writing taken)
  MayPark-busy c [] n true taken = tt
  MayPark-busy c [] n false taken = tt
  MayPark-busy c (x ∷ rs) n true taken = tt
  MayPark-busy c (x ∷ rs) n false taken = tt

  held-busy :
      (b : Bool) (taken : List A) → held (if b then stopped taken else writing taken) ≡ taken
  held-busy true taken = refl
  held-busy false taken = refl

  take_requests-IsFlow :
      (f : RpcFlow A) (reqs : List A)
      → held f.sender ≡ []
      → IsFlow f reqs
      → IsFlow (take_requests f) reqs
  unfolding take_requests
  take_requests-IsFlow f reqs s h =
      let (taken, left) = gather_requests (inflight f) f.reqs in
      let q = inflight_lem f reqs h in
      let l = ap length s in
      let (p, r) = gather_requests_lem (inflight f) f.reqs (omega (arith, q, h.few)) in
      let b = f.close && is_empty left in
      let k = held-busy b taken in
      record {
        order =
            ap (λ z. (f.written ++ z) ++ left) k
            ∙ append_assoc f.written taken left
            ∙ ap (λ z. f.written ++ z) p
            ∙ ap (λ z. z ++ f.reqs) (sym (append-nil f.written) ∙ ap (λ z. f.written ++ z) (sym s))
            ∙ h.order;
        few = rw k (omega (arith, q, r, l));
        on_wire = h.on_wire;
        sent = rw k (omega (arith, h.sent, l));
        received = h.received;
        may_park = MayPark-busy f.close left (length f.wire) b taken;
      }

  sender_round-IsFlow :
      (f : RpcFlow A) (reqs : List A)
      → held f.sender ≡ []
      → IsFlow f reqs
      → IsFlow (sender_round f) reqs
  unfolding sender_round
  sender_round-IsFlow f reqs s h =
      let q = inflight_lem f reqs h in
      let l = ap length s in
      let c =
        (is_empty f.reqs || leb k_num_credits (inflight f)) && not (f.close && is_empty f.reqs) in
      elim (Bool-cases c) [
        | inl e ↦ rw e (record {
          order = subst (λ z. (f.written ++ z) ++ f.reqs ≡ reqs) s h.order;
          few = omega (arith, h.few);
          on_wire = h.on_wire;
          sent = omega (arith, h.sent, l);
          received = h.received;
          may_park =
              subst (λ z. MayPark f.close f.reqs z parked) (omega (arith, q, l))
                (parks f.close f.reqs (inflight f) e);
        })
        | inr e ↦ rw e (take_requests-IsFlow f reqs s h)
      ]

  pub round_of-IsFlow :
      (f : RpcFlow A) (reqs : List A) (s : Sender A)
      → f.sender ≡ s
      → IsFlow f reqs
      → IsFlow (round_of f s) reqs
  unfolding round_of
  round_of-IsFlow f reqs running e h = sender_round-IsFlow f reqs (ap held e) h
  round_of-IsFlow f reqs parked e h = h
  round_of-IsFlow f reqs (writing taken) e h = h
  round_of-IsFlow f reqs (stopped taken) e h = h
  round_of-IsFlow f reqs (failed taken) e h = h

  MayPark-other : (c : Bool) (rs : List A) (n : ℕ) → MayPark c rs n running
  MayPark-other c [] n = tt
  MayPark-other c (x ∷ rs) n = tt

  MayPark-failed : (c : Bool) (rs : List A) (n : ℕ) (taken : List A) → MayPark c rs n (failed taken)
  MayPark-failed c [] n taken = tt
  MayPark-failed c (x ∷ rs) n taken = tt

  pub write_of-IsFlow :
      (f : RpcFlow A) (reqs : List A) (s : Sender A)
      → f.sender ≡ s
      → IsFlow f reqs
      → IsFlow (write_of f s) reqs
  unfolding write_of
  write_of-IsFlow f reqs running e h = h
  write_of-IsFlow f reqs parked e h = h
  write_of-IsFlow f reqs (stopped taken) e h = h
  write_of-IsFlow f reqs (failed taken) e h = h
  write_of-IsFlow f reqs (writing taken) e h =
      let k = ap held e in
      let l = ap length k in
      record {
        order =
            ap (λ z. z ++ f.reqs)
              (append-nil (f.written ++ taken) ∙ ap (λ z. f.written ++ z) (sym k))
            ∙ h.order;
        few = omega (arith, h.few, l, length-append f.wire taken);
        on_wire =
            omega (arith, h.on_wire, length-append f.wire taken, length-append f.written taken);
        sent = omega (arith, h.sent, l, length-append f.written taken);
        received = h.received;
        may_park = MayPark-other f.close f.reqs (length (f.wire ++ taken));
      }

  pub fail_of-IsFlow :
      (f : RpcFlow A) (reqs : List A) (s : Sender A)
      → f.sender ≡ s
      → IsFlow f reqs
      → IsFlow (fail_of f s) reqs
  unfolding fail_of
  fail_of-IsFlow f reqs running e h = h
  fail_of-IsFlow f reqs parked e h = h
  fail_of-IsFlow f reqs (stopped taken) e h = h
  fail_of-IsFlow f reqs (failed taken) e h = h
  fail_of-IsFlow f reqs (writing taken) e h =
      let k = ap held e in
      let l = ap length k in
      record {
        order = subst (λ z. (f.written ++ z) ++ f.reqs ≡ reqs) k h.order;
        few = omega (arith, h.few, l);
        on_wire = h.on_wire;
        sent = omega (arith, h.sent, l);
        received = h.received;
        may_park = MayPark-failed f.close f.reqs (length f.wire) taken;
      }
