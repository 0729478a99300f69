-- ===== src/Epoll/Edge.antt =====
-- highperformenceserver/epoll/epoll_server_edge_trigger.c
use unpvol.Common.{ℕ, Bool, true, false, ◌||◌, not, List, [], ◌∷◌, ◌++◌, ◌==◌, if◌then◌else◌}
use unpvol.Stream.Kernel.{eagain, Arrival, chunk, broken}
use unpvol.Epoll.Calls.{
  Event, connfd, refused, closes, adds, removes, prints, left, left_done, aborted, running, Outcome,
  ends, also, AcceptStep, ReadStep, Script,
}

-- Accepts until `accept` fails, with EAGAIN or otherwise, or a connection cannot be added.
unfoldable pub accept_one : AcceptStep → Outcome → Outcome
accept_one step rest = elim (step.accepted) [
  | refused e ↦ ends [] left
  | connfd c ↦ if step.added then also (adds c) rest else ends (adds c ∷ []) left
]

unfoldable pub accept_all : List AcceptStep → Outcome
accept_all [] = ends [] running
accept_all (step ∷ steps) = accept_one step (accept_all steps)

-- Reads and prints until `read` has nothing more, fails, or finds the end of the stream.
unfoldable pub read_one : Arrival → Bool → Outcome → Outcome
read_one (broken eagain) wrote_out rest = ends [] left
read_one (broken e) wrote_out rest = ends [] left_done
read_one (chunk []) wrote_out rest = ends [] left_done
read_one (chunk (x ∷ xs)) true rest = also (prints (x ∷ xs)) rest
read_one (chunk (x ∷ xs)) false rest = ends (prints (x ∷ xs) ∷ []) aborted

unfoldable pub read_all : List ReadStep → Outcome
read_all [] = ends [] running
read_all (step ∷ steps) = read_one step.arrival step.wrote_out (read_all steps)

-- `if(done) close(events[i].data.fd);`
abbrev pub close_if_done : ℕ → Outcome → Outcome
close_if_done fd o = elim (o.exit) [ left_done ↦ ends (o.calls ++ closes fd ∷ []) left | _ ↦ o ]

-- The body of `for(i = 0; i < n; i++)`.
unfoldable pub handle : ℕ → Event → Script → Outcome
handle listenfd ev script =
    if ev.epollerr || ev.epollhup || not ev.epollin
    then ends (closes ev.fd ∷ removes ev.fd ∷ []) left
    else if ev.fd == listenfd
    then accept_all script.accepts
    else close_if_done ev.fd (read_all script.reads)
