-- ===== src/Prefork/Tests.antt =====
-- Two children: the first takes a connection.
use unpvol.Common.{ℕ, ◌≡◌, ◌≢◌, ◌↔◌, refl, some, List, [], ◌∷◌}
use unpvol.Stream.Kernel.{eintr, other}
use unpvol.Prefork.System.{
  System, Reach, begun, moved, lock, accept, start, accepting, accepted, at,
}
use unpvol.Prefork.Exclusion.{IsInside, one_inside, holder-IsInside}

abbrev two_pids : List ℕ
two_pids = 101 ∷ 102 ∷ []

other_error : other ≢ eintr
other_error e = cc

abbrev locked : System
locked = record (at start 0 accepting) { holder = some 0 }

abbrev took : System
took = at locked 0 (accepted (some 7))

took-Reach : Reach took
took-Reach = moved (moved begun (lock 0 refl refl)) (accept 0 7 refl)

one_inside_example : ◌≡◌ {A = ℕ} 0 0
one_inside_example = one_inside took 0 0 took-Reach tt tt

holder-IsInside_example : (took.holder ≡ some 0) ↔ IsInside (took.children 0)
holder-IsInside_example = holder-IsInside took 0 took-Reach
