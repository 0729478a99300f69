-- ===== src/Epoll/Calls.antt =====
-- What an event handler is told and what it does. The answers that the kernel gives to a handler
-- are a script, and the calls that the handler makes, with what it prints, are its result.
use unpvol.Common.{ℕ, Bool, List, ◌∷◌}
use unpvol.Stream.Kernel.{Errno, Arrival}

-- `struct epoll_event`, as `epoll_wait` fills it.
pub record Event : Type 0 where
  pub epollerr : Bool
  pub epollhup : Bool
  pub epollin : Bool
  pub fd : ℕ

-- An answer to `accept`.
pub data Accepted : Type 0 where
  connfd : ℕ → Accepted
  refused : Errno → Accepted

pub data Call : Type 0 where
  closes : ℕ → Call
  adds : ℕ → Call
  rearms : ℕ → Call
  removes : ℕ → Call
  prints : List ℕ → Call

-- How a loop was left: by `break`, with `done` set, by `abort()`, or not at all, the script being
-- at its end.
pub data Exit : Type 0 where
  left : Exit
  left_done : Exit
  aborted : Exit
  running : Exit

pub record Outcome : Type 0 where
  pub calls : List Call
  pub exit : Exit

abbrev pub ends : List Call → Exit → Outcome
ends cs x = record { calls = cs; exit = x }

abbrev pub also : Call → Outcome → Outcome
also c o = record { calls = c ∷ o.calls; exit = o.exit }

-- One `accept`, with the answers to what follows it: did `make_socket_nonblock` and
-- `epoll_ctl(…, EPOLL_CTL_ADD, …)` succeed?
pub record AcceptStep : Type 0 where
  pub accepted : Accepted
  pub unblocked : Bool
  pub added : Bool

-- One `read`, and whether the `write` that follows it succeeded.
pub record ReadStep : Type 0 where
  pub arrival : Arrival
  pub wrote_out : Bool

-- The answers to one handler, whichever of its loops it runs.
pub record Script : Type 0 where
  pub accepts : List AcceptStep
  pub reads : List ReadStep
