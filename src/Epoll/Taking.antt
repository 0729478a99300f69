-- ===== src/Epoll/Taking.antt =====
-- The edge-triggered servers take every connection that came; the one-shot server arms its
-- listening socket again only if `accept` ends with EAGAIN.
use unpvol.Common.{ℕ, ◌≡◌, refl, ap, true, false, List, [], ◌∷◌, ◌++◌, ◌==◌, arith}
use unpvol.Epoll.Calls.{
  Event, Call, adds, rearms, Exit, left, aborted, ends, also, AcceptStep, Script,
}
use unpvol.Epoll.Burst.{
  Stop, drained, failed, unadded, Connects, drains, fails, interrupts, refuses, takes, watched,
}
use unpvol.Epoll.Edge
use unpvol.Epoll.Oneshot
use unpvol.Epoll.Example

-- An event that brings connections.
unfoldable pub IsIncoming : ℕ → Event → Type 0
IsIncoming listenfd ev =
    (ev.epollerr ≡ false) × (ev.epollhup ≡ false) × (ev.epollin ≡ true) × (ev.fd ≡ listenfd)

-- The last attempt to watch a connection.
unfoldable pub attempt : Stop → List Call
attempt drained = []
attempt failed = []
attempt (unadded c) = adds c ∷ []

-- A connection that cannot be watched aborts the example server.
unfoldable pub example_exit : Stop → Exit
example_exit (unadded c) = aborted
example_exit drained = left
example_exit failed = left

-- What the one-shot server does when it stops.
unfoldable pub arming : ℕ → Stop → List Call
arming listenfd drained = rearms listenfd ∷ []
arming listenfd failed = []
arming listenfd (unadded c) = adds c ∷ []

accept_all-Connects :
    (listenfd : ℕ) {ss : List AcceptStep} {cs : List ℕ} {stop : Stop}
    → Connects ss cs stop
    → (Edge.accept_all ss ≡ ends (watched cs ++ attempt stop) left)
      × (Example.accept_all ss ≡ ends (watched cs ++ attempt stop) (example_exit stop))
      × (Oneshot.accept_all listenfd ss ≡ ends (watched cs ++ arming listenfd stop) left)
unfolding Edge.accept_all Edge.accept_one Example.accept_all Example.accept_one Oneshot.accept_all
    Oneshot.accept_one watched attempt example_exit arming
accept_all-Connects listenfd drains = (refl, refl, refl)
accept_all-Connects listenfd fails = (refl, refl, refl)
accept_all-Connects listenfd interrupts = (refl, refl, refl)
accept_all-Connects listenfd refuses = (refl, refl, refl)
accept_all-Connects listenfd (takes {c} h) =
    let (e, f, g) = accept_all-Connects listenfd h in
    (ap (also (adds c)) e, ap (also (adds c)) f, ap (also (adds c)) g)

==-same : (a b : ℕ) → a ≡ b → ((a == b) ≡ true) × ((b == a) ≡ true)
==-same a b e = ground arith

-- For an event on the listening socket, whose `accept` calls give some connections and then stop,
-- the edge-triggered server and the example server watch these connections in order; if the stop is
-- a connection that cannot be watched, the first goes on and the second aborts.
pub handle-takes :
    (listenfd : ℕ) (ev : Event) (script : Script) (cs : List ℕ) (stop : Stop)
    → IsIncoming listenfd ev
    → Connects script.accepts cs stop
    → (Edge.handle listenfd ev script ≡ ends (watched cs ++ attempt stop) left)
      × (Example.handle listenfd ev script ≡ ends (watched cs ++ attempt stop) (example_exit stop))
unfolding IsIncoming Edge.handle Example.handle
handle-takes listenfd ev script cs stop (e, h, i, n) s =
    let (x, y) = ==-same ev.fd listenfd n in
    let (f, g, _) = accept_all-Connects listenfd s in (rw (e, h, i, x) f, rw (e, h, i, y) g)

-- For an event on the listening socket, whose `accept` calls give some connections and then stop,
-- the one-shot server watches these connections in order and arms the listening socket again if
-- the stop is EAGAIN; after any other error of `accept` and after a connection that cannot be
-- watched it does not, so no connection is announced any more.
pub handle-arms :
    (listenfd : ℕ) (ev : Event) (script : Script) (cs : List ℕ) (stop : Stop)
    → IsIncoming listenfd ev
    → Connects script.accepts cs stop
    → Oneshot.handle listenfd ev script ≡ ends (watched cs ++ arming listenfd stop) left
unfolding IsIncoming Oneshot.handle
handle-arms listenfd ev script cs stop (e, h, i, n) s =
    let (x, _) = ==-same ev.fd listenfd n in
    let (_, _, g) = accept_all-Connects listenfd s in rw (e, h, i, x) g
