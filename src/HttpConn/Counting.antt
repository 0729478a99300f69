-- ===== src/HttpConn/Counting.antt =====
-- The count of connections, `m_user_count`, over the events of `main` and the steps of the workers.
use unpvol.Common.{
  ℕ, ◌+◌, ◌≤◌, ◌<◌, ◌≡◌, true, Option, none, some, List, [], ◌∷◌, if◌then◌else◌, sum_below,
}
use unpvol.HttpConn.{Conn}
use unpvol.HttpConn.Send.{Processed}
use unpvol.HttpConn.Main.{
  max_fd, Event, accepts, hangs_up, can_read, can_write, works, User, Server, handle,
}

unfoldable pub of_sockfd : Option ℕ → ℕ
of_sockfd none = 0
of_sockfd (some fd) = 1

-- 1 for an entry that has been set up and whose socket is not -1.
abbrev pub is_open : User → ℕ
is_open u = if u.set_up then of_sockfd u.conn.sockfd else 0

abbrev pub IsCounted : Server → Type 0
IsCounted s = s.user_count ≡ sum_below is_open s.users max_fd

-- The descriptor of an event is in the table. `accept` gives one that is not open; the other events
-- are about an entry that has been set up, since only `init` adds its socket to epoll.
unfoldable pub Allows : Server → Event → Type 0
Allows s (accepts fd) = (fd < max_fd) × (is_open (s.users fd) ≡ 0)
Allows s (hangs_up fd) = (fd < max_fd) × ((s.users fd).set_up ≡ true)
Allows s (can_read fd arrivals) = (fd < max_fd) × ((s.users fd).set_up ≡ true)
Allows s (can_write fd replies) = (fd < max_fd) × ((s.users fd).set_up ≡ true)
Allows s (works fd answers) = (fd < max_fd) × ((s.users fd).set_up ≡ true)

-- What a routine does to the count, if it is at least 1 when the connection is open.
abbrev Counts : Conn → ℕ → Processed → Type 0
Counts c n p =
    of_sockfd c.sockfd ≤ n → p.user_count + of_sockfd c.sockfd ≡ n + of_sockfd p.conn.sockfd

unfoldable pub run : List Event → Server → Server
run [] s = s
run (e ∷ es) s = run es (handle e s)

unfoldable pub IsTrace : List Event → Server → Type 0
IsTrace [] s = Unit
IsTrace (e ∷ es) s = Allows s e × IsTrace es (handle e s)
