-- ===== src/ThreadPool/Fifo.antt =====
-- What 30chp/serv08.c uses its ring for: a list of connections, oldest first, of at most 31.
use unpvol.Common.{ℕ, ◌+◌, Option, none, some, List, [], ◌∷◌, ◌++◌, ◌==◌, if◌then◌else◌, length}
use unpvol.ThreadPool.Queue.{max_ncli}

-- `none`: there is no room, and the server ends.
unfoldable pub put : List ℕ → ℕ → Option (List ℕ)
put xs v = if length xs + 1 == max_ncli then none else some (xs ++ (v ∷ []))

-- `none`: nothing waits.
unfoldable pub take_conn : List ℕ → Option (ℕ × List ℕ)
take_conn [] = none
take_conn (x ∷ xs) = some (x, xs)
