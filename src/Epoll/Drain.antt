-- ===== src/Epoll/Drain.antt =====
-- The reading handlers of the edge-triggered servers, on what an event announced.
use unpvol.Common.{
  ℕ, ◌≡◌, ◌≢◌, refl, sym, ap, Bool, true, false, List, [], ◌∷◌, ◌++◌, ◌==◌, append-nil, arith,
}
use unpvol.Stream.Kernel.{eintr, eagain, other, Arrival, chunk, broken}
use unpvol.Epoll.Calls.{
  Event, Call, closes, rearms, prints, Exit, left, left_done, aborted, Outcome, ends, also,
  ReadStep, Script,
}
use unpvol.Epoll.Burst.{
  Pause, for_now, for_good, no_output, IsFinal, Plays, pauses, breaks, gives, printed,
}
use unpvol.Epoll.Edge
use unpvol.Epoll.Oneshot
use unpvol.Epoll.Example

-- EPOLLIN, with neither EPOLLERR nor EPOLLHUP, on a connection.
unfoldable pub IsInput : ℕ → Event → Type 0
IsInput listenfd ev =
    (ev.epollerr ≡ false) × (ev.epollhup ≡ false) × (ev.epollin ≡ true) × (ev.fd ≢ listenfd)

-- What an edge-triggered server does after the last read.
unfoldable pub finish : ℕ → Pause → List Call
finish fd for_now = []
finish fd for_good = closes fd ∷ []
finish fd no_output = []

-- How the loop is left: for the next event, or by `abort()`.
unfoldable pub stop_of : Pause → Exit
stop_of for_now = left
stop_of for_good = left
stop_of no_output = aborted

-- What the one-shot server does after the last read.
unfoldable pub settle : ℕ → Pause → List Call
settle fd for_now = rearms fd ∷ []
settle fd for_good = closes fd ∷ []
settle fd no_output = []

abbrev exit_of : Pause → Exit
exit_of for_now = left
exit_of for_good = left_done
exit_of no_output = aborted

abbrev rearm_of : ℕ → Pause → List Call
rearm_of fd for_now = rearms fd ∷ []
rearm_of fd for_good = []
rearm_of fd no_output = []

read_one-IsFinal :
    (fd : ℕ) (a : Arrival) (w : Bool) (o o' o'' : Outcome) (p : Pause)
    → IsFinal a p
    → (Edge.read_one a w o ≡ ends [] (exit_of p))
      × (Example.read_one a w o' ≡ ends [] (exit_of p))
      × (Oneshot.read_one fd a w o'' ≡ ends (rearm_of fd p) (exit_of p))
unfolding IsFinal Edge.read_one Example.read_one Oneshot.read_one
read_one-IsFinal fd (broken eagain) w o o' o'' for_now h = (refl, refl, refl)
read_one-IsFinal fd (broken eintr) w o o' o'' for_good h = (refl, refl, refl)
read_one-IsFinal fd (broken other) w o o' o'' for_good h = (refl, refl, refl)
read_one-IsFinal fd (chunk []) w o o' o'' for_good h = (refl, refl, refl)
read_one-IsFinal fd (chunk []) w o o' o'' for_now h = absurd h
read_one-IsFinal fd (chunk []) w o o' o'' no_output h = absurd h
read_one-IsFinal fd (broken eintr) w o o' o'' no_output h = absurd h
read_one-IsFinal fd (broken eagain) w o o' o'' no_output h = absurd h
read_one-IsFinal fd (broken other) w o o' o'' no_output h = absurd h
read_one-IsFinal fd (chunk (_ ∷ _)) w o o' o'' p h = absurd h
read_one-IsFinal fd (broken eintr) w o o' o'' for_now h = absurd h
read_one-IsFinal fd (broken eagain) w o o' o'' for_good h = absurd h
read_one-IsFinal fd (broken other) w o o' o'' for_now h = absurd h

read_all-Plays :
    (fd : ℕ) {ss : List ReadStep} {ps : List (List ℕ)} {p : Pause}
    → Plays ss ps p
    → (Edge.read_all ss ≡ ends (printed ps) (exit_of p))
      × (Example.read_all ss ≡ ends (printed ps) (exit_of p))
      × (Oneshot.read_all fd ss ≡ ends (printed ps ++ rearm_of fd p) (exit_of p))
unfolding Edge.read_all Edge.read_one Example.read_all Example.read_one Oneshot.read_all
    Oneshot.read_one printed
read_all-Plays fd (pauses {a} {w} {ss} {p} h) = read_one-IsFinal fd a w _ _ _ p h
read_all-Plays fd (breaks {x} {xs}) = (refl, refl, refl)
read_all-Plays fd (gives {x} {xs} h) =
    let (e, f, g) = read_all-Plays fd h in
    (ap (also (prints (x ∷ xs))) e, ap (also (prints (x ∷ xs))) f, ap (also (prints (x ∷ xs))) g)

==-other : (a b : ℕ) → a ≢ b → ((a == b) ≡ false) × ((b == a) ≡ false)
==-other a b n = ground arith

close_if_done-finish :
    (fd : ℕ) (cs : List Call) (p : Pause)
    → Edge.close_if_done fd (ends cs (exit_of p)) ≡ ends (cs ++ finish fd p) (stop_of p)
unfolding finish stop_of
close_if_done-finish fd cs for_now = ap (λ ds. ends ds left) (sym (append-nil cs))
close_if_done-finish fd cs for_good = refl
close_if_done-finish fd cs no_output = ap (λ ds. ends ds aborted) (sym (append-nil cs))

close_if_done-settle :
    (fd : ℕ) (cs : List Call) (p : Pause)
    → Edge.close_if_done fd (ends (cs ++ rearm_of fd p) (exit_of p))
      ≡ ends (cs ++ settle fd p) (stop_of p)
unfolding settle stop_of
close_if_done-settle fd cs for_now = refl
close_if_done-settle fd cs no_output = refl
close_if_done-settle fd cs for_good = ap (λ ds. ends (ds ++ closes fd ∷ []) left) (append-nil cs)

-- For an event on a connection with EPOLLIN, and with neither EPOLLERR nor EPOLLHUP, whose reads give
-- some pieces, the edge-triggered server and the example server make the same calls: they pass the
-- pieces to `write` in order. If each `write` succeeds, they go on, closing the connection if and
-- only if the stream has ended or `read` has failed with an error other than EAGAIN. If `write` fails
-- for a piece, that piece is the last one, and they abort.
pub handle-drains :
    (listenfd : ℕ) (ev : Event) (script : Script) (ps : List (List ℕ)) (p : Pause)
    → IsInput listenfd ev
    → Plays script.reads ps p
    → (Edge.handle listenfd ev script ≡ ends (printed ps ++ finish ev.fd p) (stop_of p))
      × (Example.handle listenfd ev script ≡ ends (printed ps ++ finish ev.fd p) (stop_of p))
unfolding IsInput Edge.handle Example.handle finish
handle-drains listenfd ev script ps p (e, h, i, n) s =
    let (x, y) = ==-other ev.fd listenfd n in
    let (f, g, _) = read_all-Plays ev.fd s in
    (
      rw (e, h, i, x, f) (close_if_done-finish ev.fd (printed ps) p),
      rw (e, h, i, y, g) (close_if_done-finish ev.fd (printed ps) p),
    )

-- For an event on a connection with EPOLLIN, and with neither EPOLLERR nor EPOLLHUP, whose reads give
-- some pieces, the one-shot server passes them to `write` in order. If each `write` succeeds, it then
-- makes exactly one further call and goes on: it arms the connection again if `read` has failed with
-- EAGAIN, and closes it if the stream has ended or `read` has failed otherwise. If `write` fails for
-- a piece, that piece is the last one, and the server makes no further call and aborts.
pub handle-settles :
    (listenfd : ℕ) (ev : Event) (script : Script) (ps : List (List ℕ)) (p : Pause)
    → IsInput listenfd ev
    → Plays script.reads ps p
    → Oneshot.handle listenfd ev script ≡ ends (printed ps ++ settle ev.fd p) (stop_of p)
unfolding IsInput Oneshot.handle settle
handle-settles listenfd ev script ps p (e, h, i, n) s =
    let (x, _) = ==-other ev.fd listenfd n in
    let (_, _, g) = read_all-Plays ev.fd s in
    rw (e, h, i, x, g) (close_if_done-settle ev.fd (printed ps) p)
