-- ===== src/Nonblock/Copying.antt =====
-- The client neither loses, repeats nor reorders a byte in either direction, and sends FIN once,
-- when all that was typed is out.
use unpvol.Common.{
  ◌-◌, ◌<◌, ◌≡◌, refl, min, Bool, true, false, ◌&&◌, List, [], ◌∷◌, ltb, arith, take, inl, inr,
  Bool-cases,
}
use unpvol.Stream.Kernel.{eintr, eagain, other, Arrival, chunk, broken, Reply, wrote, failed}
use unpvol.Stream.Memory.{slice}
use unpvol.Nonblock.Buffer.{maxline, pending}
use unpvol.Nonblock.Client.{
  State, Flow, goes, returns, dies, next, Answers, start, wants_stdin, wants_socket, select,
  at_stdin, at_socket, to_terminal, to_server, stdin_part, socket_part, stdout_part, server_part,
  turn, run,
}
use unpvol.Nonblock.Handlers.{
  IsValid, state_of, length-take_le, got_typed-IsValid, got_heard-IsValid, put_shown-IsValid,
  put_sent-IsValid,
}

next-IsValid :
    (f : Flow) (g : State → Flow)
    → IsValid (state_of f)
    → ((s : State) → IsValid s → IsValid (state_of (g s)))
    → IsValid (state_of (next f g))
unfolding next state_of
next-IsValid (goes s) g v h = h s v
next-IsValid (returns s) g v h = v
next-IsValid (dies s) g v h = v

at_stdin-IsValid :
    (s : State) (r : Arrival) → IsValid s → s.stdineof ≡ false → IsValid (state_of (at_stdin s r))
unfolding at_stdin state_of
at_stdin-IsValid s (broken eagain) v e = v
at_stdin-IsValid s (broken eintr) v e = v
at_stdin-IsValid s (broken other) v e = v
at_stdin-IsValid s (chunk xs) v e =
    got_typed-IsValid s (take (maxline - s.to.iptr) xs) v e
      (omega (arith, length-take_le (maxline - s.to.iptr) xs, v.to_server.sound.inside))

at_socket-IsValid : (s : State) (r : Arrival) → IsValid s → IsValid (state_of (at_socket s r))
unfolding at_socket state_of
at_socket-IsValid s (broken eagain) v = v
at_socket-IsValid s (broken eintr) v = v
at_socket-IsValid s (broken other) v = v
at_socket-IsValid s (chunk xs) v =
    got_heard-IsValid s (take (maxline - s.fr.iptr) xs) v
      (omega (arith, length-take_le (maxline - s.fr.iptr) xs, v.to_terminal.sound.inside))

stdin_part-IsValid :
    (s t : State) (ready : Bool) (r : Arrival)
    → IsValid t
    → t.stdineof ≡ s.stdineof
    → IsValid (state_of (stdin_part (wants_stdin s && ready) r t))
unfolding stdin_part wants_stdin state_of
stdin_part-IsValid s t ready r v e = elim (Bool-cases (wants_stdin s && ready)) [
  | inl w ↦ rw w (at_stdin-IsValid t r v (ground (arith, e, w)))
  | inr w ↦ rw w v
]

socket_part-IsValid :
    (ready : Bool) (r : Arrival) (s : State)
    → IsValid s
    → IsValid (state_of (socket_part ready r s))
unfolding socket_part state_of
socket_part-IsValid true r s v = at_socket-IsValid s r v
socket_part-IsValid false r s v = v

to_terminal-IsValid : (s : State) (w : Reply) → IsValid s → IsValid (state_of (to_terminal s w))
unfolding to_terminal state_of
to_terminal-IsValid s (failed eagain) v = v
to_terminal-IsValid s (failed eintr) v = v
to_terminal-IsValid s (failed other) v = v
to_terminal-IsValid s (wrote k) v =
    put_shown-IsValid s (min k (s.fr.iptr - s.fr.optr)) v
      (omega (arith, v.to_terminal.sound.ordered))

to_server-IsValid :
    (s : State) (w : Reply) → IsValid s → s.to.optr < s.to.iptr → IsValid (state_of (to_server s w))
unfolding to_server state_of
to_server-IsValid s (failed eagain) v h = v
to_server-IsValid s (failed eintr) v h = v
to_server-IsValid s (failed other) v h = v
to_server-IsValid s (wrote k) v h =
    put_sent-IsValid s (min k (s.to.iptr - s.to.optr)) v h (omega arith)

stdout_part-IsValid : (w : Reply) (s : State) → IsValid s → IsValid (state_of (stdout_part w s))
unfolding stdout_part state_of
stdout_part-IsValid w s v = elim (Bool-cases (s.wset_stdout && ltb 0 (s.fr.iptr - s.fr.optr))) [
  | inl t ↦ rw t (to_terminal-IsValid s w v)
  | inr t ↦ rw t v
]

server_part-IsValid : (w : Reply) (s : State) → IsValid s → IsValid (state_of (server_part w s))
unfolding server_part state_of
server_part-IsValid w s v = elim (Bool-cases (s.wset_socket && ltb 0 (s.to.iptr - s.to.optr))) [
  | inl t ↦ rw t (to_server-IsValid s w v (ground (arith, t)))
  | inr t ↦ rw t v
]

select-IsValid : (a : Answers) (s : State) → IsValid s → IsValid (select a s)
unfolding select
select-IsValid a s v = record { to_server = v.to_server; to_terminal = v.to_terminal; fin = v.fin }

turn-IsValid : (a : Answers) (s : State) → IsValid s → IsValid (state_of (turn a s))
unfolding turn select
turn-IsValid a s v =
    next-IsValid _ _
      (stdin_part-IsValid s (select a s) a.stdin_ready a.from_stdin (select-IsValid a s v) refl)
      (λ t p.
        next-IsValid _ _ (socket_part-IsValid (wants_socket s && a.socket_ready) a.from_socket t p)
          (λ u q.
            next-IsValid _ _ (stdout_part-IsValid a.to_stdout u q)
              (server_part-IsValid a.to_socket)))

-- Whatever `select`, `read` and `write` answer, in the state in which the loop goes on or ends, the
-- bytes written to the socket, followed by the bytes that are still in `to`, are the bytes that
-- were read from the standard input, in order; likewise for the socket, `fr` and the standard
-- output. In both buffers 0 ≤ optr ≤ iptr ≤ MAXLINE, and an empty buffer is rewound. FIN was sent once if
-- the standard input has ended and `to` is empty, and not at all otherwise.
pub run-IsValid :
    (answers : List Answers) (s : State) → IsValid s → IsValid (state_of (run answers s))
unfolding run state_of
run-IsValid [] s v = v
run-IsValid (a ∷ rest) s v =
    next-IsValid (turn a s) (run rest) (turn-IsValid a s v) (run-IsValid rest)

pub start-IsValid : IsValid start
unfolding start pending slice
start-IsValid = record {
  to_server = record {
    sound = record { ordered = omega arith; inside = omega arith; rewound = λ e. refl };
    conserved = refl;
  };
  to_terminal = record {
    sound = record { ordered = omega arith; inside = omega arith; rewound = λ e. refl };
    conserved = refl;
  };
  fin = refl;
}
