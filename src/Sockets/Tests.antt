-- ===== src/Sockets/Tests.antt =====
-- Two addresses: the first cannot be bound, the second can.
use unpvol.Common.{◌≡◌, true, false, some, [], ◌∷◌, List}
use unpvol.Sockets.Open.{
  Attempt, tcp_listen, tcp_connect, create_and_bind, create_and_bind_reuse, exits, minus_one,
}
use unpvol.Sockets.Leak.{Keeps, open-Keeps}
use unpvol.Sockets.First.{first_working, result_or, open-first}

abbrev second_free : List Attempt
second_free = record { sock = some 3; works = false } ∷ record { sock = some 4; works = true } ∷ []

open-Keeps_example :
    Keeps (tcp_listen (some second_free))
    × Keeps (tcp_connect (some second_free))
    × Keeps (create_and_bind (some second_free))
    × Keeps (create_and_bind_reuse (some second_free))
open-Keeps_example = open-Keeps (some second_free)

open-first_example :
    ((tcp_listen (some second_free)).result ≡ result_or exits (first_working second_free))
    × ((tcp_connect (some second_free)).result ≡ result_or exits (first_working second_free))
    × ((create_and_bind (some second_free)).result
        ≡ result_or minus_one (first_working second_free))
    × ((create_and_bind_reuse (some second_free)).result
        ≡ result_or minus_one (first_working second_free))
open-first_example = open-first second_free
