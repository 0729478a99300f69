-- ===== src/Epoll/Burst.antt =====
-- What a socket holds when an event announces it, as the answers to the calls of a handler: pieces
-- of text and then nothing more, or connections and then none.
use unpvol.Common.{ℕ, Bool, true, false, List, [], ◌∷◌}
use unpvol.Stream.Kernel.{eintr, eagain, other, Arrival, chunk, broken}
use unpvol.Epoll.Calls.{Call, adds, prints, connfd, refused, AcceptStep, ReadStep}

-- How the pieces end: the socket gives no more for now, or for good, or one of them could not be
-- printed.
pub data Pause : Type 0 where
  for_now : Pause
  for_good : Pause
  no_output : Pause

-- A pause for good is an end of the stream or an error other than EAGAIN.
unfoldable pub IsFinal : Arrival → Pause → Type 0
IsFinal (broken eagain) for_now = Unit
IsFinal (broken eagain) for_good = ⊥
IsFinal (broken eagain) no_output = ⊥
IsFinal (broken e) for_good = Unit
IsFinal (broken e) for_now = ⊥
IsFinal (broken e) no_output = ⊥
IsFinal (chunk []) for_good = Unit
IsFinal (chunk []) for_now = ⊥
IsFinal (chunk []) no_output = ⊥
IsFinal (chunk (x ∷ xs)) p = ⊥

-- The reads give the pieces, none of them empty, and then the pause; each piece is printed, except
-- that `write` fails for the last one if there is no output.
pub data Plays : List ReadStep → List (List ℕ) → Pause → Type 0 where
  pauses :
      {a : Arrival} {w : Bool} {ss : List ReadStep} {p : Pause}
      → IsFinal a p
      → Plays (record { arrival = a; wrote_out = w } ∷ ss) [] p
  breaks :
      {x : ℕ} {xs : List ℕ} {ss : List ReadStep}
      → Plays
          (record { arrival = chunk (x ∷ xs); wrote_out = false } ∷ ss)
          ((x ∷ xs) ∷ [])
          no_output
  gives :
      {x : ℕ} {xs : List ℕ} {ss : List ReadStep} {ps : List (List ℕ)} {p : Pause}
      → Plays ss ps p
      → Plays (record { arrival = chunk (x ∷ xs); wrote_out = true } ∷ ss) ((x ∷ xs) ∷ ps) p

-- Why no more connections are taken: there are none, `accept` failed otherwise, or one could not
-- be added.
pub data Stop : Type 0 where
  drained : Stop
  failed : Stop
  unadded : ℕ → Stop

-- The calls of `accept` give the connections, all of them made non-blocking, and then the stop.
pub data Connects : List AcceptStep → List ℕ → Stop → Type 0 where
  drains :
      {u a : Bool} {ss : List AcceptStep}
      → Connects (record { accepted = refused eagain; unblocked = u; added = a } ∷ ss) [] drained
  fails :
      {u a : Bool} {ss : List AcceptStep}
      → Connects (record { accepted = refused other; unblocked = u; added = a } ∷ ss) [] failed
  interrupts :
      {u a : Bool} {ss : List AcceptStep}
      → Connects (record { accepted = refused eintr; unblocked = u; added = a } ∷ ss) [] failed
  refuses :
      {c : ℕ} {ss : List AcceptStep}
      → Connects
          (record { accepted = connfd c; unblocked = true; added = false } ∷ ss)
          []
          (unadded c)
  takes :
      {c : ℕ} {ss : List AcceptStep} {cs : List ℕ} {stop : Stop}
      → Connects ss cs stop
      → Connects (record { accepted = connfd c; unblocked = true; added = true } ∷ ss) (c ∷ cs) stop

-- The calls of `write( 1, … )`.
unfoldable pub printed : List (List ℕ) → List Call
printed [] = []
printed (p ∷ ps) = prints p ∷ printed ps

unfoldable pub watched : List ℕ → List Call
watched [] = []
watched (c ∷ cs) = adds c ∷ watched cs
