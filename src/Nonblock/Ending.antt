-- ===== src/Nonblock/Ending.antt =====
-- What the client waits for, and how it ends.
use unpvol.Common.{
  ℕ, zero, suc, ◌<◌, ◌≡◌, refl, ap, ◌∙◌, ◌-◌, ◌⊎◌, Bool, true, false, ◌&&◌, [], ◌++◌, take,
  if◌then◌else◌, arith,
}
use unpvol.Stream.Kernel.{Arrival, chunk}
use unpvol.Nonblock.Buffer.{maxline, pending}
use unpvol.Nonblock.Client.{
  State, Flow, returns, goes, dies, next, Answers, wants_stdin, wants_socket, select, stdin_part,
  socket_part, at_socket, got_heard, turn,
}
use unpvol.Nonblock.Handlers.{IsValid}

-- In a valid state `select` waits for the socket to have input, or for room on the standard output;
-- and it waits for the standard input, unless this has ended, or for room on the socket: neither
-- direction stops for good.
pub select-waits :
    (s : State)
    → IsValid s
    → ((wants_socket s ≡ true) ⊎ (s.fr.optr < s.fr.iptr))
      × ((wants_stdin s ≡ true) ⊎ ((s.stdineof ≡ true) ⊎ (s.to.optr < s.to.iptr)))
unfolding wants_socket wants_stdin
select-waits s v =
    let h = v.to_terminal.sound in
    let g = v.to_server.sound in
    (ground (arith, h.ordered, h.inside, h.rewound), ground (arith, g.ordered, g.inside, g.rewound))

stdin_part-eof :
    (s t : State) (ready : Bool) (r : Arrival)
    → s.stdineof ≡ true
    → stdin_part (wants_stdin s && ready) r t ≡ goes t
unfolding stdin_part wants_stdin
stdin_part-eof s t ready r e = let w : (wants_stdin s && ready) ≡ false = ground arith in rw w refl

take-nil : (n : ℕ) → take {A = ℕ} n [] ≡ []
take-nil zero = refl
take-nil (suc n) = refl

next-goes : (f : Flow) (k : State → Flow) {s : State} → f ≡ goes s → next f k ≡ k s
unfolding next
next-goes f k e = rw e refl

next-returns : (f : Flow) (k : State → Flow) {s : State} → f ≡ returns s → next f k ≡ returns s
unfolding next
next-returns f k e = rw e refl

at_socket-eof : (t : State) → t.stdineof ≡ true → at_socket t (chunk []) ≡ returns t
unfolding at_socket got_heard
at_socket-eof t e =
    ap (got_heard t) (take-nil (maxline - t.fr.iptr)) ∙ ap (λ b. if b then returns t else dies t) e

socket_part-eof :
    (s t : State) (ready : Bool) (r : Arrival)
    → s.fr.iptr < maxline
    → ready ≡ true
    → r ≡ chunk []
    → t.stdineof ≡ true
    → socket_part (wants_socket s && ready) r t ≡ returns t
unfolding socket_part wants_socket
socket_part-eof s t ready r room i c e =
    let w : (wants_socket s && ready) ≡ true = ground arith in rw (w, c) (at_socket-eof t e)

-- In a valid state in which the standard input has ended and `fr` is not full, if the socket is
-- ready and its stream is at the end, `str_cli` returns at once: nothing more is written to the
-- standard output, so the bytes that `fr` still holds are lost.
pub turn-drops :
    (s : State) (a : Answers)
    → IsValid s
    → s.stdineof ≡ true
    → s.fr.iptr < maxline
    → a.socket_ready ≡ true
    → a.from_socket ≡ chunk []
    → (t : State) × (turn a s ≡ returns t)
      × (t.shown ≡ s.shown)
      × (t.shown ++ pending s.fr ≡ t.heard)
unfolding turn select
turn-drops s a v e room r c = (
  select a s,
  next-goes _ _ (stdin_part-eof s (select a s) a.stdin_ready a.from_stdin e)
      ∙ next-returns _ _ (socket_part-eof s (select a s) a.socket_ready a.from_socket room r c e),
  refl,
  v.to_terminal.conserved,
)
