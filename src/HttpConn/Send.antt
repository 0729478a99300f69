-- ===== src/HttpConn/Send.antt =====
-- `read`, `write`, `process` and `close_conn`.
use unpvol.Common.{
  ℕ, ◌+◌, ◌-◌, Bool, true, false, Option, none, some, List, [], ◌∷◌, ◌++◌, leb, ◌==◌, if◌then◌else◌,
  take, length,
}
use unpvol.Stream.Memory.{store}
use unpvol.Stream.Kernel.{Errno, eagain, Reply, wrote, failed, Arrival, chunk, broken}
use unpvol.HttpConn.{HttpCode, no_request, Answers, Conn, init, read_buffer_size}
use unpvol.HttpConn.Read.{process_read}
use unpvol.HttpConn.Respond.{Added, process_write}

pub record Heard : Type 0 where
  pub ok : Bool
  pub conn : Conn

abbrev pub stored : List ℕ → Conn → Conn
stored xs c = record c {
  read_buf = store c.read_buf c.read_idx xs;
  read_idx = c.read_idx + length xs;
}

-- A result of 0 or of -1 other than EAGAIN.
unfoldable pub recv_failed : Errno → Conn → Heard
recv_failed eagain c = record { ok = true; conn = c }
recv_failed e c = record { ok = false; conn = c }

unfoldable pub unless_empty : List ℕ → Conn → Heard → Heard
unless_empty [] c rest = record { ok = false; conn = c }
unless_empty (x ∷ xs) c rest = rest

-- The loop of `read` over what `recv` finds; at the end of the list nothing has arrived. `recv`
-- takes as many bytes as there is room for.
unfoldable pub recv_loop : List Arrival → Conn → Heard
recv_loop [] c = record { ok = true; conn = c }
recv_loop (broken e ∷ rest) c = recv_failed e c
recv_loop (chunk xs ∷ rest) c =
    let ys = take (read_buffer_size - c.read_idx) xs in
    let later = recv_loop rest (stored ys c) in unless_empty ys c later

unfoldable pub read : List Arrival → Conn → Heard
read arrivals c =
    if leb read_buffer_size c.read_idx
    then record { ok = false; conn = c }
    else recv_loop arrivals c

-- The calls of `modfd`, `removefd` and `addfd`, with the descriptor (none is -1).
pub data Call : Type 0 where
  mod_in mod_out : Option ℕ → Call
  removes adds : ℕ → Call

-- What `write` returns, the calls it makes, and how many bytes of the entries, from their start,
-- each `writev` took.
pub record Sent : Type 0 where
  pub ok : Bool
  pub conn : Conn
  pub calls : List Call
  pub counts : List ℕ

abbrev pub unmap : Conn → Conn
unmap c = record c { mapped = false }

-- The branch that takes the answer for sent.
unfoldable pub all_sent : Conn → Sent
all_sent c =
    if c.linger
    then record { ok = true; conn = init (unmap c); calls = mod_in c.sockfd ∷ []; counts = [] }
    else record { ok = false; conn = unmap c; calls = mod_in c.sockfd ∷ []; counts = [] }

unfoldable pub writev_failed : Errno → Conn → Sent
writev_failed eagain c = record { ok = true; conn = c; calls = mod_out c.sockfd ∷ []; counts = [] }
writev_failed e c = record { ok = false; conn = unmap c; calls = []; counts = [] }

abbrev pub counted : ℕ → Sent → Sent
counted k s = record s { counts = k ∷ s.counts }

-- The loop of `write` over the answers of `writev`, with `bytes_have_send`. `bytes_to_send` is
-- `m_write_idx - bytes_have_send` as an int, so the test reads `m_write_idx <= 2 * bytes_have_send`.
unfoldable pub write_loop : List Reply → ℕ → Conn → Sent
write_loop [] sent c = writev_failed eagain c
write_loop (failed e ∷ rest) sent c = writev_failed e c
write_loop (wrote k ∷ rest) sent c =
    let later = write_loop rest (sent + k) c in
    counted k (if leb (length c.write_buf) (sent + k + (sent + k)) then all_sent c else later)

unfoldable pub write : List Reply → Conn → Sent
write replies c =
    if length c.write_buf == 0
    then record { ok = true; conn = init c; calls = mod_in c.sockfd ∷ []; counts = [] }
    else write_loop replies 0 c

-- A connection, `m_user_count`, and the calls.
pub record Processed : Type 0 where
  pub conn : Conn
  pub user_count : ℕ
  pub calls : List Call

-- `init( sockfd, addr )`. The options of the socket and the address change nothing that is modelled.
unfoldable pub init_socket : ℕ → Conn → ℕ → Processed
init_socket fd c users = record {
  conn = init (record c { sockfd = some fd });
  user_count = users + 1;
  calls = adds fd ∷ [];
}

unfoldable pub close_conn : Bool → Conn → ℕ → Processed
close_conn real_close c users = by real_close c.sockfd
  where
    by : Bool → Option ℕ → Processed
    by true (some fd) = record {
      conn = record c { sockfd = none };
      user_count = users - 1;
      calls = removes fd ∷ [];
    }
    by real fd = record { conn = c; user_count = users; calls = [] }

-- `modfd( m_epollfd, m_sockfd, EPOLLOUT )`
abbrev pub then_out : Processed → Processed
then_out p = record p { calls = p.calls ++ mod_out p.conn.sockfd ∷ [] }

unfoldable pub after_write : Added → ℕ → Processed
after_write r users = then_out (
    if r.ok
    then record { conn = r.conn; user_count = users; calls = [] }
    else close_conn true r.conn users)

unfoldable pub after_read : HttpCode → Conn → ℕ → Processed
after_read no_request c users = record {
  conn = c;
  user_count = users;
  calls = mod_in c.sockfd ∷ [];
}
after_read code c users = after_write (process_write code c) users

unfoldable pub process : Answers → Conn → ℕ → Processed
process a c users = let p = process_read a c in after_read p.code p.conn users
