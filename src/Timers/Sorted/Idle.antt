-- ===== src/Timers/Sorted/Idle.antt =====
-- The server of highperformenceserver/examples/11/11-3nonactive_conn.cpp, which closes connections
-- that have been idle: the branches of its loop that concern a connection, and the timeout.
use unpvol.Common.{ℕ, ◌+◌, ◌*◌, some, List, [], ◌∷◌}
use unpvol.Stream.Kernel.{Errno, eintr, eagain, other}
use unpvol.Timers.Sorted.{UtilTimer, add_timer, adjust_timer, del_timer, tick, called}

-- TIMESLOT
abbrev pub timeslot : ℕ
timeslot = 5

-- What `recv` gives on a connection.
pub data Heard : Type 0 where
  data_came peer_closed : Heard
  recv_failed : Errno → Heard

-- An event of the loop, and the alarm.
pub data Event : Type 0 where
  accepts : ℕ → Event
  hears : ℕ → Heard → Event
  alarms : Event

-- `timer_lst`, and the connections that `cb_func` has closed, the last one first.
pub record Server : Type 0 where
  pub timers : List UtilTimer
  pub closed : List ℕ

-- `cur + 3 * TIMESLOT`
abbrev pub deadline : ℕ → ℕ
deadline cur = cur + 3 * timeslot

-- `cb_func` and `del_timer`
abbrev pub drops : ℕ → Server → Server
drops fd s = record { timers = del_timer fd s.timers; closed = fd ∷ s.closed }

unfoldable pub on_heard : ℕ → ℕ → Heard → Server → Server
on_heard cur fd data_came s = record s { timers = adjust_timer fd (deadline cur) s.timers }
on_heard cur fd peer_closed s = drops fd s
on_heard cur fd (recv_failed eagain) s = s
on_heard cur fd (recv_failed eintr) s = drops fd s
on_heard cur fd (recv_failed other) s = drops fd s

unfoldable pub pushed : List ℕ → List ℕ → List ℕ
pushed [] old = old
pushed (fd ∷ fds) old = pushed fds (fd ∷ old)

unfoldable pub handle : ℕ → Event → Server → Server
handle cur (accepts fd) s = record s {
  timers = add_timer (some (record { sockfd = fd; expire = deadline cur })) s.timers;
}
handle cur (hears fd h) s = on_heard cur fd h s
handle cur alarms s = record {
  timers = tick cur s.timers;
  closed = pushed (called cur s.timers) s.closed;
}
