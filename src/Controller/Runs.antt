-- ===== src/Controller/Runs.antt =====
-- Histories of calls from a new controller.
use sandook.Base.{ℕ, ◌+◌, ◌^◌, ◌≡◌, refl, ◌∙◌, subst, ◌<◌, List, [], ◌∷◌, ◌++◌, arith}
use sandook.Status.{ok}
use sandook.Types.{ServerId}
use sandook.ControlPlane.Policies.{Policy}
use sandook.ControlPlane.Upkeep.{Keeps}
use sandook.ControlPlane.Stats
use sandook.ControlPlane
use sandook.Controller.History.{
  Call, registers, reports, commits, allocates, updates, loads, Proper, numbers, step, run, IsWhole,
  Steps, register_lem, report_lem, commit_lem, allocate_lem, update_lem, load_lem,
}
use sandook.Controller.{ControllerAgent, has_key, init}

module _ {S W : Type 0} (policy : Policy S W) (Inv : S → ℕ → Type 0) (keeps : Keeps policy Inv)
    (scaled : ℕ → ℕ) (z w : W) (small : (n : ℕ) → scaled n < 2 ^ 63) where
  Serves : ControllerAgent S W → List (Call W) → List ServerId → Type 0
  Serves a cs ids =
      (a' : ControllerAgent S W) × (run policy scaled z w a cs ≡ ok (ids, a'))
      × IsWhole policy Inv keeps a'

  -- A call, and then the others.
  next_call :
      (a : ControllerAgent S W) (c : Call W) (cs : List (Call W)) (ids more : List ServerId) (n : ℕ)
      → Steps policy Inv keeps a n ids (step policy scaled z w a c)
      → ((a' : ControllerAgent S W)
          → a'.sched.num_servers ≡ n
          → IsWhole policy Inv keeps a'
          → Serves a' cs more)
      → Serves a (c ∷ cs) (ids ++ more)
  unfolding Serves run
  next_call a c cs ids more n (a', e, q, h) k = let (b, f, g) = k a' q h in (b, rw (e, f) refl, g)

  run_lem :
      (a : ControllerAgent S W) (cs : List (Call W)) (n : ℕ)
      → a.sched.num_servers ≡ n
      → Proper n cs
      → IsWhole policy Inv keeps a
      → Serves a cs (numbers (n + 1) cs)
  unfolding Serves run
  run_lem a [] n q p h = (a, refl, h)
  run_lem a (registers ip port name s ∷ cs) n q p h =
      let r =
        next_call a (registers ip port name s) cs (a.next_server_id ∷ []) (numbers (n + 1 + 1) cs)
          (n + 1)
          (subst
            (λ j.
              Steps policy Inv keeps a (j + 1) (a.next_server_id ∷ [])
                (step policy scaled z w a (registers ip port name s)))
            q (register_lem policy Inv keeps scaled z w a ip port name s (omega (arith, q, p.0)) h))
          (λ a' e g. run_lem a' cs (n + 1) e p.1 g) in
      let i : a.next_server_id ≡ n + 1 = omega (arith, h.next, q) in
      subst (λ j. Serves a (registers ip port name s ∷ cs) (j ∷ numbers (n + 1 + 1) cs)) i r
  run_lem a (reports id stats ∷ cs) n q p h =
      next_call a (reports id stats) cs [] (numbers (n + 1) cs) a.sched.num_servers
        (report_lem policy Inv keeps scaled z w a id stats p.0 (omega (arith, q, p.1)) p.2 h)
        (λ a' e g. run_lem a' cs n (e ∙ q) p.3 g)
  run_lem a (commits id mode ∷ cs) n q p h =
      next_call a (commits id mode) cs [] (numbers (n + 1) cs) a.sched.num_servers
        (commit_lem policy Inv keeps scaled z w a id mode p.0 (omega (arith, q, p.1)) h)
        (λ a' e g. run_lem a' cs n (e ∙ q) p.2 g)
  run_lem a (allocates id ∷ cs) n q p h =
      next_call a (allocates id) cs [] (numbers (n + 1) cs) a.sched.num_servers
        (allocate_lem policy Inv keeps scaled z w a id p.0 (omega (arith, q, p.1)) h)
        (λ a' e g. run_lem a' cs n (e ∙ q) p.2 g)
  run_lem a (updates env ∷ cs) n q p h =
      next_call a (updates env) cs [] (numbers (n + 1) cs) a.sched.num_servers
        (update_lem policy Inv keeps scaled z w a env h) (λ a' e g. run_lem a' cs n (e ∙ q) p g)
  run_lem a (loads ∷ cs) n q p h =
      next_call a loads cs [] (numbers (n + 1) cs) a.sched.num_servers
        (load_lem policy Inv keeps scaled z w a small h) (λ a' e g. run_lem a' cs n (e ∙ q) p g)

  init-IsWhole : (s : S) → Inv s 0 → IsWhole policy Inv keeps (init policy s)
  unfolding init ControlPlane.init Stats.init has_key
  init-IsWhole s i = record {
    kept = record {
      valid = record {
        few = omega arith;
        counted = refl;
        numbered = tt;
        small = (omega arith, omega arith);
        listed = λ id a b. absurd (omega (arith, a, b));
      };
      promised = i;
    };
    next = refl;
    known = λ id a b. absurd (omega (arith, a, b));
    fresh = λ id a. refl;
  }

  -- Over any history of calls that are about registered servers, with no more than 19 of them, a policy
  -- that keeps its promises and loads below 2^63, the controller throws nothing and no assertion fails.
  -- The registrations get the ids from 1 on, in their order, and the tables of the controller, of its
  -- scheduler and of the statistics agree on the servers at the end.
  pub run-IsWhole :
      (s : S) (cs : List (Call W))
      → Inv s 0
      → Proper 0 cs
      → (a : ControllerAgent S W) × (run policy scaled z w (init policy s) cs
          ≡ ok (numbers 1 cs, a))
        × IsWhole policy Inv keeps a
  unfolding Serves init ControlPlane.init
  run-IsWhole s cs i p = run_lem (init policy s) cs 0 start p (init-IsWhole s i)
    where
      start : (init policy s).sched.num_servers ≡ 0
      start = refl
