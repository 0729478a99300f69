-- ===== src/Timers/Sorted/Runs.antt =====
-- Runs of the server.
use unpvol.Common.{ℕ, ◌≤◌, ◌≡◌, ◌≢◌, refl, ap, ◌∙◌, fun_ext, none, List, [], ◌∷◌}
use unpvol.Stream.Kernel.{eintr, eagain, other}
use unpvol.Timers.Sorted.{UtilTimer, del_timer}
use unpvol.Timers.Sorted.Idle.{
  Heard, data_came, peer_closed, recv_failed, Event, accepts, hears, alarms, Server, deadline,
  on_heard, handle,
}
use unpvol.Timers.Sorted.Lookup.{
  expire_of, AreDistinct, add_timer_lem, expire_of-add_behind, expire_of-adjust_timer,
  expire_of-del_timer,
}
use unpvol.Timers.Sorted.Order.{All, IsSorted}
use unpvol.Timers.Sorted.Refine.{
  Deadlines, with_deadline, spec, Allows, IsValid, expire_of-tick, IsValid-later, IsValid-add,
  IsValid-adjust, IsValid-del, IsValid-tick,
}

-- What a branch of the loop does, against the specification.
record Agrees (now : ℕ) (m : Deadlines) (list : List UtilTimer) : Type 0 where
  valid : IsValid now list
  same : expire_of list ≡ m

Agrees-drop :
    (now fd : ℕ) (list : List UtilTimer)
    → IsValid now list
    → Agrees now (with_deadline fd none (expire_of list)) (del_timer fd list)
Agrees-drop now fd list v = record {
  valid = IsValid-del now fd list v;
  same = fun_ext (λ g. expire_of-del_timer fd list g v.distinct);
}

on_heard-Agrees :
    (now fd : ℕ) (h : Heard) (s : Server)
    → IsValid now s.timers
    → expire_of s.timers fd ≢ none
    → Agrees now (spec now (hears fd h) (expire_of s.timers)) (on_heard now fd h s).timers
unfolding on_heard spec
on_heard-Agrees now fd data_came s v n = record {
  valid = IsValid-adjust now fd s.timers v n;
  same = fun_ext (λ g. expire_of-adjust_timer fd (deadline now) s.timers g v.distinct n);
}
on_heard-Agrees now fd peer_closed s v n = Agrees-drop now fd s.timers v
on_heard-Agrees now fd (recv_failed eagain) s v n = record { valid = v; same = refl }
on_heard-Agrees now fd (recv_failed eintr) s v n = Agrees-drop now fd s.timers v
on_heard-Agrees now fd (recv_failed other) s v n = Agrees-drop now fd s.timers v

handle-Agrees :
    (now : ℕ) (e : Event) (s : Server)
    → IsValid now s.timers
    → Allows (expire_of s.timers) e
    → Agrees now (spec now e (expire_of s.timers)) (handle now e s).timers
unfolding handle spec Allows
handle-Agrees now (accepts fd) s v n =
    let t : UtilTimer = record { sockfd = fd; expire = deadline now } in
    record {
      valid = IsValid-add now fd s.timers v n;
      same = fun_ext (λ g.
          ap (λ l. expire_of l g) (add_timer_lem t s.timers) ∙ expire_of-add_behind t s.timers g n);
    }
handle-Agrees now (hears fd h) s v n = on_heard-Agrees now fd h s v n
handle-Agrees now alarms s v n = record {
  valid = IsValid-tick now s.timers v;
  same = fun_ext (λ g. expire_of-tick now s.timers g v.sorted v.distinct);
}

-- Events with the time at which each is handled.
pub record Timed : Type 0 where
  pub time : ℕ
  pub event : Event

unfoldable pub run : List Timed → Server → Server
run [] s = s
run (x ∷ xs) s = run xs (handle x.time x.event s)

unfoldable pub spec_run : List Timed → Deadlines → Deadlines
spec_run [] m = m
spec_run (x ∷ xs) m = spec_run xs (spec x.time x.event m)

-- The clock does not go back, and every event is one that can come.
unfoldable pub IsTrace : ℕ → List Timed → Deadlines → Type 0
IsTrace cur [] m = Unit
IsTrace cur (x ∷ xs) m =
    (cur ≤ x.time) × (Allows m x.event × IsTrace x.time xs (spec x.time x.event m))

run-Agrees :
    (xs : List Timed) (cur : ℕ) (s : Server)
    → IsValid cur s.timers
    → IsTrace cur xs (expire_of s.timers)
    → (IsSorted (run xs s).timers)
      × (AreDistinct (run xs s).timers
          × (expire_of (run xs s).timers ≡ spec_run xs (expire_of s.timers)))
unfolding run spec_run IsTrace
run-Agrees [] cur s v t = (v.sorted, (v.distinct, refl))
run-Agrees (x ∷ xs) cur s v (later, (allowed, t)) =
    let step = handle-Agrees x.time x.event s (IsValid-later cur x.time s.timers later v) allowed in
    let end = run-Agrees xs x.time (handle x.time x.event s) step.valid (rw step.same t) in
    (end.0, (end.1.0, (end.1.1 ∙ ap (spec_run xs) step.same)))

abbrev pub no_clients : Server
no_clients = record { timers = []; closed = [] }

-- From a server without connections, after any events that can come, at times that do not go back,
-- the list is sorted by deadline, no connection has two timers in it, and the deadlines that it gives
-- the connections are those that are meant: with its acceptance and with all data that comes, a
-- connection's deadline is three time slots ahead; the end of its stream or an error other than EAGAIN
-- removes it; an alarm removes those whose deadline is over.
pub run-refines :
    (xs : List Timed)
    → IsTrace 0 xs (λ g. none)
    → (IsSorted (run xs no_clients).timers)
      × (AreDistinct (run xs no_clients).timers
          × (expire_of (run xs no_clients).timers ≡ spec_run xs (λ g. none)))
unfolding expire_of IsSorted AreDistinct All
run-refines xs t = run-Agrees xs 0 no_clients (record { sorted = tt; distinct = tt; timely = tt }) t
