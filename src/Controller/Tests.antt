-- ===== src/Controller/Tests.antt =====
-- A controller with three servers, whose modes are isolated strictly.
use sandook.Base.{ℕ, zero, suc, ◌/◌, ◌^◌, ◌<◌, ◌≡◌, refl, false, List, [], ◌∷◌, arith}
use sandook.Status.{ok}
use sandook.Types.{ServerId, ServerMode, ServerStats, CongestionState}
use sandook.Isolation.{RwIsolation, get_peak_iops}
use sandook.Isolation
use sandook.ControlPlane.Policies.{Policy, Ambient, rw_isolation_strict}
use sandook.ControlPlane.Promises.{Counts, init-Counts, strict-Keeps}
use sandook.Controller.History.{
  Call, registers, reports, commits, allocates, updates, loads, Proper, run, IsWhole,
}
use sandook.Controller.Runs.{run-IsWhole}
use sandook.Controller.{ControllerAgent, init}

-- Weights in thousandths.
abbrev share : ℕ → ℕ
share n = 1000 / n

abbrev strict : Policy RwIsolation ℕ
strict = rw_isolation_strict share get_peak_iops

abbrev start : RwIsolation
start = Isolation.init 0 (record { read_ops = 0; write_ops = 0 })

abbrev bounded : ℕ → ℕ
bounded zero = 0
bounded (suc n) = 100

bounded_lem : (n : ℕ) → bounded n < 2 ^ 63
bounded_lem zero = omega arith
bounded_lem (suc n) = omega arith

abbrev report : ServerId → ServerStats ℕ
report id = record {
  server_id = id;
  mode = ServerMode.write;
  committed_mode = ServerMode.mix;
  read_mops = 0;
  write_mops = 0;
  read_weight = 7;
  write_weight = 7;
  inflight_reads = 1;
  inflight_writes = 2;
  completed_reads = 5;
  pure_reads = 0;
  impure_reads = 0;
  completed_writes = 6;
  rejected_reads = 0;
  rejected_writes = 1;
  median_read_latency = 0;
  median_write_latency = 0;
  signal_read_latency = 0;
  signal_write_latency = 0;
  is_rejecting_requests = false;
  congestion_state = CongestionState.uncongested;
}

abbrev around : Ambient ℕ
around = record {
  now = 400000;
  later = 400001;
  uninit_modes = λ id. ServerMode.mix;
  uninit_weights = λ id. 0;
}

abbrev calls : List (Call ℕ)
calls =
    registers [] 8080 [] 1024
    ∷ registers [] 8081 [] 1024
    ∷ reports 1 (report 1)
    ∷ registers [] 8082 [] 2048
    ∷ reports 3 (report 3)
    ∷ loads
    ∷ updates around
    ∷ commits 2 ServerMode.write
    ∷ allocates 3
    ∷ updates around
    ∷ []

calls-Proper : Proper 0 calls
calls-Proper = (
  omega arith,
  (
    omega arith,
    (
      omega arith,
      omega arith,
      refl,
      (
        omega arith,
        (
          omega arith,
          omega arith,
          refl,
          (omega arith, omega arith, (omega arith, omega arith, tt)),
        ),
      ),
    ),
  ),
)

run-IsWhole_example :
    (a : ControllerAgent RwIsolation ℕ) × (run strict bounded 0 1 (init strict start) calls
      ≡ ok (1 ∷ 2 ∷ 3 ∷ [], a))
    × IsWhole strict Counts (strict-Keeps get_peak_iops share) a
run-IsWhole_example =
    run-IsWhole strict Counts (strict-Keeps get_peak_iops share) bounded 0 1 bounded_lem start calls
      (init-Counts 0 _) calls-Proper
