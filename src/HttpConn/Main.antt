-- ===== src/HttpConn/Main.antt =====
-- The loop of `main` in highperformenceserver/examples/15/15-6main.cpp, for one event, and one step of
-- a worker of the pool: `process` of a connection, from its start to its end.
use unpvol.Common.{ℕ, Bool, true, List, [], ◌∷◌, ◌++◌, leb, if◌then◌else◌, update}
use unpvol.Stream.Kernel.{Reply, Arrival}
use unpvol.HttpConn.{Answers, Conn}
use unpvol.HttpConn.Send.{read, write, process, init_socket, close_conn, Processed}

-- MAX_FD
unfoldable pub max_fd : ℕ
max_fd = 65536

-- What epoll reports: on the listening socket, with the descriptor that `accept` gives; EPOLLRDHUP,
-- EPOLLHUP or EPOLLERR; EPOLLIN, with what `recv` finds; or EPOLLOUT, with the answers of `writev`.
-- And what the pool does: a worker runs `process`, with what `stat` and `atol` answer.
pub data Event : Type 0 where
  accepts : ℕ → Event
  hangs_up : ℕ → Event
  can_read : ℕ → List Arrival → Event
  can_write : ℕ → List Reply → Event
  works : ℕ → Answers → Event

-- An entry of `users`. `new http_conn[ MAX_FD ]` leaves the members as the memory has them;
-- `set_up` says whether `init` has been called for the entry.
pub record User : Type 0 where
  pub conn : Conn
  pub set_up : Bool

-- `users`, `m_user_count`, and the requests that have been passed to the pool.
pub record Server : Type 0 where
  pub users : ℕ → User
  pub user_count : ℕ
  pub requests : List ℕ

abbrev pub put : ℕ → User → ℕ → Server → Server
put fd u count s = record s { users = update s.users fd u; user_count = count }

-- The entry with another connection.
abbrev pub becomes : Conn → User → User
becomes c u = record u { conn = c }

abbrev pub puts : ℕ → Processed → Server → Server
puts fd p s = put fd (becomes p.conn (s.users fd)) p.user_count s

-- `users[fd].close_conn()`, once the connection is as given.
abbrev pub closes : ℕ → Conn → Server → Server
closes fd c s = puts fd (close_conn true c s.user_count) s

abbrev pub keeps : ℕ → Conn → Server → Server
keeps fd c s = put fd (becomes c (s.users fd)) s.user_count s

-- `users[connfd].init( connfd, client_address )`
abbrev pub sets_up : ℕ → Processed → Server → Server
sets_up fd p s = put fd (record { conn = p.conn; set_up = true }) p.user_count s

unfoldable pub handle : Event → Server → Server
handle (accepts fd) s =
    if leb max_fd s.user_count
    then s
    else sets_up fd (init_socket fd (s.users fd).conn s.user_count) s
handle (hangs_up fd) s = closes fd (s.users fd).conn s
handle (can_read fd arrivals) s =
    let r = read arrivals (s.users fd).conn in
    if r.ok
    then record (keeps fd r.conn s) { requests = s.requests ++ fd ∷ [] }
    else closes fd r.conn s
handle (can_write fd replies) s =
    let w = write replies (s.users fd).conn in
    if w.ok then keeps fd w.conn s else closes fd w.conn s
handle (works fd answers) s = puts fd (process answers (s.users fd).conn s.user_count) s
