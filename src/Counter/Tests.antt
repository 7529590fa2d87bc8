-- ===== src/Counter/Tests.antt =====
-- A counter on four cores.
use sandook.Base.{◌+◌, ◌%◌, ◌≡◌, List, [], ◌∷◌, arith}
use sandook.Types.{u64_mod}
use sandook.Counter.{init, get_sum}
use sandook.Counter.Account.{Op, incs, decs, resets, run, net, run_account}

abbrev history : List Op
history = incs 0 5 ∷ decs 3 2 ∷ resets ∷ decs 1 1 ∷ incs 0 7 ∷ resets ∷ incs 2 1 ∷ []

run_account_example :
    ((run (init 4) history).0 + get_sum (run (init 4) history).1) % u64_mod
    ≡ net 0 history % u64_mod
run_account_example =
    run_account 4 history
      (omega arith, (omega arith, (tt, (omega arith, (omega arith, (tt, (omega arith, tt)))))))
