-- ===== src/Epoll/Example.antt =====
-- epoll/epoll-example-server.c
use unpvol.Common.{ℕ, Bool, true, false, ◌||◌, not, List, [], ◌∷◌, ◌++◌, ◌==◌, if◌then◌else◌}
use unpvol.Stream.Kernel.{eagain, Arrival, chunk, broken}
use unpvol.Epoll.Calls.{
  Event, Accepted, connfd, refused, closes, adds, prints, left, left_done, aborted, running,
  Outcome, ends, also, AcceptStep, ReadStep, Script,
}

-- A connection that cannot be made non-blocking, or not be added, aborts the server.
unfoldable pub accept_one : Accepted → Bool → Bool → Outcome → Outcome
accept_one (refused e) unblocked added rest = ends [] left
accept_one (connfd c) false added rest = ends [] aborted
accept_one (connfd c) true false rest = ends (adds c ∷ []) aborted
accept_one (connfd c) true true rest = also (adds c) rest

unfoldable pub accept_all : List AcceptStep → Outcome
accept_all [] = ends [] running
accept_all (step ∷ steps) = accept_one step.accepted step.unblocked step.added (accept_all steps)

unfoldable pub read_one : Arrival → Bool → Outcome → Outcome
read_one (broken eagain) wrote_out rest = ends [] left
read_one (broken e) wrote_out rest = ends [] left_done
read_one (chunk []) wrote_out rest = ends [] left_done
read_one (chunk (x ∷ xs)) true rest = also (prints (x ∷ xs)) rest
read_one (chunk (x ∷ xs)) false rest = ends (prints (x ∷ xs) ∷ []) aborted

unfoldable pub read_all : List ReadStep → Outcome
read_all [] = ends [] running
read_all (step ∷ steps) = read_one step.arrival step.wrote_out (read_all steps)

abbrev pub close_if_done : ℕ → Outcome → Outcome
close_if_done fd o = elim (o.exit) [ left_done ↦ ends (o.calls ++ closes fd ∷ []) left | _ ↦ o ]

-- The body of `for (i = 0; i < n; i++)`.
unfoldable pub handle : ℕ → Event → Script → Outcome
handle sfd ev script =
    if ev.epollerr || ev.epollhup || not ev.epollin
    then ends (closes ev.fd ∷ []) left
    else if sfd == ev.fd
    then accept_all script.accepts
    else close_if_done ev.fd (read_all script.reads)
