-- ===== src/Timers/Sorted/Tests.antt =====
-- A run of the server that closes idle connections.
use unpvol.Common.{◌≡◌, refl, none, List, [], ◌∷◌, arith}
use unpvol.Timers.Sorted.Idle.{data_came, accepts, hears, alarms}
use unpvol.Timers.Sorted.Lookup.{expire_of, AreDistinct}
use unpvol.Timers.Sorted.Order.{IsSorted}
use unpvol.Timers.Sorted.Refine.{spec, Allows}
use unpvol.Timers.Sorted.Runs.{Timed, run, spec_run, IsTrace, no_clients, run-refines}

-- Two connections come; the first is heard once more, and an alarm finds the second idle.
abbrev events : List Timed
events =
    record { time = 1; event = accepts 7 }
    ∷ record { time = 2; event = accepts 8 }
    ∷ record { time = 9; event = hears 7 data_came }
    ∷ record { time = 18; event = alarms }
    ∷ []

run-refines_example :
    IsSorted (run events no_clients).timers
    × (AreDistinct (run events no_clients).timers
        × (expire_of (run events no_clients).timers ≡ spec_run events (λ g. none)))
unfolding IsTrace spec Allows
run-refines_example = run-refines events (
  omega arith,
  (refl, (omega arith, (refl, (omega arith, ((λ e. cc), (omega arith, (tt, tt))))))),
)
