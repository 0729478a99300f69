-- ===== src/Nonblock/Client.antt =====
-- The loop of `str_cli` in 16chp/strclinonb.c, one turn at a time. The answers of `select`, `read`
-- and `write` are parameters; the state also records what went through the four descriptors.
use unpvol.Common.{
  ℕ, ◌+◌, ◌-◌, min, Bool, true, false, not, ◌&&◌, List, [], ◌∷◌, ◌++◌, ◌==◌, ltb, if◌then◌else◌,
  take,
}
use unpvol.Stream.Kernel.{eagain, Arrival, chunk, broken, Reply, wrote, failed}
use unpvol.Stream.Memory.{slice}
use unpvol.Nonblock.Buffer.{Buffer, maxline, fresh, fill, drain}

-- `to` and `fr` with their pointers, `stdineof`, and the two bits of `wset`; then what came in
-- from the terminal and the socket, what was put out to the socket and the terminal, and how often
-- FIN was sent.
pub record State : Type 0 where
  pub to : Buffer
  pub fr : Buffer
  pub stdineof : Bool
  pub wset_socket : Bool
  pub wset_stdout : Bool
  pub typed : List ℕ
  pub heard : List ℕ
  pub sent : List ℕ
  pub shown : List ℕ
  pub fins : ℕ

-- The loop goes on, `str_cli` returns, or `err_sys` or `err_quit` ends the program.
pub data Flow : Type 0 where
  goes : State → Flow
  returns : State → Flow
  dies : State → Flow

unfoldable pub next : Flow → (State → Flow) → Flow
next (goes s) f = f s
next (returns s) f = returns s
next (dies s) f = dies s

-- Which descriptors are ready, and the answers to the calls that follow. Of the bytes that have
-- arrived `read` takes as many as fit, and `write` takes at most what it is offered.
pub record Answers : Type 0 where
  pub stdin_ready : Bool
  pub socket_ready : Bool
  pub stdout_free : Bool
  pub socket_free : Bool
  pub from_stdin : Arrival
  pub from_socket : Arrival
  pub to_stdout : Reply
  pub to_socket : Reply

unfoldable pub start : State
start = record {
  to = fresh;
  fr = fresh;
  stdineof = false;
  wset_socket = false;
  wset_stdout = false;
  typed = [];
  heard = [];
  sent = [];
  shown = [];
  fins = 0;
}

-- The descriptors in `rset` before `select`.
unfoldable pub wants_stdin : State → Bool
wants_stdin s = not s.stdineof && ltb s.to.iptr maxline

unfoldable pub wants_socket : State → Bool
wants_socket s = ltb s.fr.iptr maxline

-- `wset` after `select`.
unfoldable pub select : Answers → State → State
select a s = record s {
  wset_socket = not (s.to.optr == s.to.iptr) && a.socket_free;
  wset_stdout = not (s.fr.optr == s.fr.iptr) && a.stdout_free;
}

-- `read(STDIN_FILENO, toiptr, &to[MAXLINE] - toiptr)` gave these bytes.
unfoldable pub got_typed : State → List ℕ → State
got_typed s [] = record s {
  stdineof = true;
  fins = if s.to.optr == s.to.iptr then s.fins + 1 else s.fins;
}
got_typed s (x ∷ xs) = record s {
  to = fill s.to (x ∷ xs);
  wset_socket = true;
  typed = s.typed ++ x ∷ xs;
}

unfoldable pub at_stdin : State → Arrival → Flow
at_stdin s (broken eagain) = goes s
at_stdin s (broken e) = dies s
at_stdin s (chunk xs) = goes (got_typed s (take (maxline - s.to.iptr) xs))

-- `read(sockfd, friptr, &fr[MAXLINE] - friptr)` gave these bytes.
unfoldable pub got_heard : State → List ℕ → Flow
got_heard s [] = if s.stdineof then returns s else dies s
got_heard s (x ∷ xs) =
    goes (record s { fr = fill s.fr (x ∷ xs); wset_stdout = true; heard = s.heard ++ x ∷ xs })

unfoldable pub at_socket : State → Arrival → Flow
at_socket s (broken eagain) = goes s
at_socket s (broken e) = dies s
at_socket s (chunk xs) = got_heard s (take (maxline - s.fr.iptr) xs)

-- `write(STDOUT_FILENO, froptr, n)` took `k` bytes.
unfoldable pub put_shown : State → ℕ → State
put_shown s k = record s { fr = drain s.fr k; shown = s.shown ++ slice s.fr.bytes s.fr.optr k }

unfoldable pub to_terminal : State → Reply → Flow
to_terminal s (failed eagain) = goes s
to_terminal s (failed e) = dies s
to_terminal s (wrote k) = goes (put_shown s (min k (s.fr.iptr - s.fr.optr)))

-- `write(sockfd, tooptr, n)` took `k` bytes.
unfoldable pub put_sent : State → ℕ → State
put_sent s k = record s {
  to = drain s.to k;
  sent = s.sent ++ slice s.to.bytes s.to.optr k;
  fins = if (s.to.optr + k == s.to.iptr) && s.stdineof then s.fins + 1 else s.fins;
}

unfoldable pub to_server : State → Reply → Flow
to_server s (failed eagain) = goes s
to_server s (failed e) = dies s
to_server s (wrote k) = goes (put_sent s (min k (s.to.iptr - s.to.optr)))

-- The four parts of a turn, each behind its test.
unfoldable pub stdin_part : Bool → Arrival → State → Flow
stdin_part true r s = at_stdin s r
stdin_part false r s = goes s

unfoldable pub socket_part : Bool → Arrival → State → Flow
socket_part true r s = at_socket s r
socket_part false r s = goes s

unfoldable pub stdout_part : Reply → State → Flow
stdout_part w s = if s.wset_stdout && ltb 0 (s.fr.iptr - s.fr.optr) then to_terminal s w else goes s

unfoldable pub server_part : Reply → State → Flow
server_part w s = if s.wset_socket && ltb 0 (s.to.iptr - s.to.optr) then to_server s w else goes s

-- One turn of `for ( ; ; )`.
unfoldable pub turn : Answers → State → Flow
turn a s = next (stdin_part (wants_stdin s && a.stdin_ready) a.from_stdin (select a s)) (λ t.
    next (socket_part (wants_socket s && a.socket_ready) a.from_socket t)
      (λ u. next (stdout_part a.to_stdout u) (server_part a.to_socket)))

unfoldable pub run : List Answers → State → Flow
run [] s = goes s
run (a ∷ rest) s = next (turn a s) (run rest)
