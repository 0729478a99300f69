-- ===== src/Nonblock/Tests.antt =====
-- A client that reads five bytes, sends three of them, and hears two.
use unpvol.Common.{◌≡◌, refl, ◌<◌, true, false, [], ◌∷◌, ◌++◌, arith}
use unpvol.Stream.Kernel.{eagain, chunk, broken, wrote, failed}
use unpvol.Stream.Memory.{slice, store}
use unpvol.Nonblock.Buffer.{maxline, fill, drain, pending}
use unpvol.Nonblock.Client.{
  State, returns, Answers, start, run, turn, next, select, wants_stdin, wants_socket, stdin_part,
  socket_part, stdout_part, server_part, at_stdin, at_socket, got_typed, got_heard, to_terminal,
  to_server, put_shown, put_sent,
}
use unpvol.Nonblock.Handlers.{IsValid, state_of}
use unpvol.Nonblock.Copying.{run-IsValid, start-IsValid}
use unpvol.Nonblock.Ending.{turn-drops}

abbrev busy : Answers
busy = record {
  stdin_ready = true;
  socket_ready = true;
  stdout_free = false;
  socket_free = true;
  from_stdin = chunk (1 ∷ 2 ∷ 3 ∷ 4 ∷ 5 ∷ []);
  from_socket = chunk (8 ∷ 9 ∷ []);
  to_stdout = wrote 1;
  to_socket = wrote 3;
}

abbrev ending : Answers
ending = record busy {
  from_stdin = chunk [];
  from_socket = broken eagain;
  to_stdout = failed eagain;
}

run-IsValid_example : IsValid (state_of (run (busy ∷ ending ∷ []) start))
run-IsValid_example = run-IsValid (busy ∷ ending ∷ []) start start-IsValid

-- One byte, 9, has been read from the socket and not yet written when the stream ends.
abbrev halfway : State
halfway = state_of (run (busy ∷ ending ∷ []) start)

halfway_ended : halfway.stdineof ≡ true
unfolding start run turn next select wants_stdin wants_socket stdin_part socket_part stdout_part
    server_part at_stdin at_socket got_typed got_heard to_terminal to_server put_shown put_sent
    state_of fill drain store slice pending
halfway_ended = refl

halfway_room : halfway.fr.iptr < maxline
unfolding start run turn next select wants_stdin wants_socket stdin_part socket_part stdout_part
    server_part at_stdin at_socket got_typed got_heard to_terminal to_server put_shown put_sent
    state_of fill drain store slice pending
halfway_room = omega arith

one_left : pending halfway.fr ≡ 9 ∷ []
unfolding start run turn next select wants_stdin wants_socket stdin_part socket_part stdout_part
    server_part at_stdin at_socket got_typed got_heard to_terminal to_server put_shown put_sent
    state_of fill drain store slice pending
one_left = refl

turn-drops_example :
    (t : State) × (turn (record busy { from_socket = chunk [] }) halfway ≡ returns t)
    × (t.shown ≡ halfway.shown)
    × (t.shown ++ pending halfway.fr ≡ t.heard)
turn-drops_example =
    turn-drops halfway (record busy { from_socket = chunk [] })
      (run-IsValid (busy ∷ ending ∷ []) start start-IsValid) halfway_ended halfway_room refl refl
