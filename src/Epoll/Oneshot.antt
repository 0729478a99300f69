-- ===== src/Epoll/Oneshot.antt =====
-- `epoll_thread` of highperformenceserver/epoll/epoll_server_edge_trigger_oneshot.c
use unpvol.Common.{ℕ, Bool, true, false, ◌||◌, not, List, [], ◌∷◌, ◌++◌, ◌==◌, if◌then◌else◌}
use unpvol.Stream.Kernel.{eagain, Arrival, chunk, broken}
use unpvol.Epoll.Calls.{
  Event, Accepted, connfd, refused, closes, adds, rearms, removes, prints, left, left_done, aborted,
  running, Outcome, ends, also, AcceptStep, ReadStep, Script,
}

-- What `accept` answered; the listening socket is armed again after EAGAIN only.
unfoldable pub accept_one : ℕ → Accepted → Bool → Outcome → Outcome
accept_one listenfd (refused eagain) added rest = ends (rearms listenfd ∷ []) left
accept_one listenfd (refused e) added rest = ends [] left
accept_one listenfd (connfd c) true rest = also (adds c) rest
accept_one listenfd (connfd c) false rest = ends (adds c ∷ []) left

unfoldable pub accept_all : ℕ → List AcceptStep → Outcome
accept_all listenfd [] = ends [] running
accept_all listenfd (step ∷ steps) =
    accept_one listenfd step.accepted step.added (accept_all listenfd steps)

-- What `read` answered; the connection is armed again after EAGAIN.
unfoldable pub read_one : ℕ → Arrival → Bool → Outcome → Outcome
read_one fd (broken eagain) wrote_out rest = ends (rearms fd ∷ []) left
read_one fd (broken e) wrote_out rest = ends [] left_done
read_one fd (chunk []) wrote_out rest = ends [] left_done
read_one fd (chunk (x ∷ xs)) true rest = also (prints (x ∷ xs)) rest
read_one fd (chunk (x ∷ xs)) false rest = ends (prints (x ∷ xs) ∷ []) aborted

unfoldable pub read_all : ℕ → List ReadStep → Outcome
read_all fd [] = ends [] running
read_all fd (step ∷ steps) = read_one fd step.arrival step.wrote_out (read_all fd steps)

abbrev pub close_if_done : ℕ → Outcome → Outcome
close_if_done fd o = elim (o.exit) [ left_done ↦ ends (o.calls ++ closes fd ∷ []) left | _ ↦ o ]

-- The body of `for(i = 0; i < n; i++)`.
unfoldable pub handle : ℕ → Event → Script → Outcome
handle listenfd ev script =
    if ev.epollerr || ev.epollhup || not ev.epollin
    then ends (closes ev.fd ∷ removes ev.fd ∷ []) left
    else if ev.fd == listenfd
    then accept_all listenfd script.accepts
    else close_if_done ev.fd (read_all ev.fd script.reads)
