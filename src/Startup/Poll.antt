-- ===== src/Startup/Poll.antt =====
-- The loop of `main` in highperformenceserver/select_poll/poll.c.
use unpvol.Common.{ℕ, Bool, true, false, List, [], ◌∷◌, ◌++◌, drop, length}
use unpvol.Stream.Kernel.{Arrival, chunk, broken}
use unpvol.Stream.Readline.{c_string}

-- One `poll`: is there input, or urgent input, and what do `read` and `recv` give?
pub record Polled : Type 0 where
  pub pollin : Bool
  pub pollpri : Bool
  pub read : Arrival
  pub recv : Arrival

pub data Printed : Type 0 where
  normal : List ℕ → Printed
  urgent : List ℕ → Printed

-- What was printed, and what the program returns: minus a number, or nothing yet.
pub data Ended : Type 0 where
  returns : ℕ → Ended
  runs : Ended

pub record Run : Type 0 where
  pub printed : List Printed
  pub ended : Ended

abbrev pub and_then : Printed → Run → Run
and_then p r = record { printed = p ∷ r.printed; ended = r.ended }

abbrev pub stop : ℕ → Run
stop code = record { printed = []; ended = returns code }

-- `if(pfd[0].revents & POLLPRI)`. The buffer, which was cleared when the turn began, still holds what
-- `read` put there in this turn; `%s` prints it up to a NUL. A `recv` of no bytes is printed too.
unfoldable pub on_pollpri : Bool → Arrival → List ℕ → Run → Run
on_pollpri false a buff rest = rest
on_pollpri true (chunk xs) buff rest =
    and_then (urgent (c_string (xs ++ drop (length xs) buff))) rest
on_pollpri true (broken e) buff rest = stop 5

-- `if(pfd[0].revents & POLLIN)`, and what follows it with the buffer. The bytes are taken to be fewer
-- than the buffer has, so that a NUL follows them.
unfoldable pub on_pollin : Bool → Arrival → (List ℕ → Run) → Run
on_pollin false a onward = onward []
on_pollin true (chunk []) onward = stop 0
on_pollin true (chunk (x ∷ xs)) onward = and_then (normal (c_string (x ∷ xs))) (onward (x ∷ xs))
on_pollin true (broken e) onward = stop 4

unfoldable pub serve_loop : List Polled → Run
serve_loop [] = record { printed = []; ended = runs }
serve_loop (p ∷ rest) =
    let after = serve_loop rest in
    on_pollin p.pollin p.read (λ buff. on_pollpri p.pollpri p.recv buff after)
