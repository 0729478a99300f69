-- ===== src/GroupChat/Deaf.antt =====
-- What the chat client sends, and what an end of its input does to it.
use unpvol.Common.{
  ℕ, ◌≡◌, ◌⊎◌, inl, inr, refl, Bool, true, false, List, [], ◌∷◌, ◌++◌, arith, Bool-cases,
  append-nil,
}
use unpvol.Stream.Kernel.{Arrival, chunk, broken, Reply}
use unpvol.Stream.Copy.{NoZero, c_string_lem}
use unpvol.GroupChat.Server.{Mask}
use unpvol.GroupChat.Client.{
  Client, Action, nothing, sends, receives, writes, closes, exits, Answers, on_typed, on_room,
  at_stdin, at_socket, reported, turn, Input, then_turns, has_exit, run,
}

-- The client waits to send, and has nothing to send.
pub record IsDeaf (c : Client) : Type 0 where
  pub nothing_to_send : c.sendpos ≡ 0
  pub no_input : c.events.pollin ≡ false

-- The input has ended: a `read` on it gives no byte and no error.
abbrev pub Ended : List Input → Type 0
Ended [] = Unit
Ended (i ∷ rest) = (i.answers.typed ≡ chunk []) × Ended rest

-- No action is a `recv` or a `send`.
abbrev pub Silent : List Action → Type 0
Silent [] = Unit
Silent (sends xs ∷ rest) = ⊥
Silent (receives ∷ rest) = ⊥
Silent (closes ∷ rest) = Silent rest
Silent (exits ∷ rest) = Silent rest
Silent (nothing ∷ rest) = Silent rest
Silent (writes xs ∷ rest) = Silent rest

Silent-append : (xs ys : List Action) → Silent xs → Silent ys → Silent (xs ++ ys)
Silent-append [] ys h k = k
Silent-append (sends x ∷ xs) ys h k = h
Silent-append (receives ∷ xs) ys h k = h
Silent-append (closes ∷ xs) ys h k = Silent-append xs ys h k
Silent-append (exits ∷ xs) ys h k = Silent-append xs ys h k
Silent-append (nothing ∷ xs) ys h k = Silent-append xs ys h k
Silent-append (writes x ∷ xs) ys h k = Silent-append xs ys h k

at_stdin-IsDeaf :
    (c : Client) (input : Mask) (typed : Arrival)
    → typed ≡ chunk []
    → IsDeaf c ⊎ (input.pollin ≡ true)
    → IsDeaf (at_stdin c input typed).0
at_stdin-IsDeaf c input typed e d = elim (Bool-cases input.pollin) [
  | inl p ↦ rw (p, e) (record { nothing_to_send = refl; no_input = refl })
  | inr p ↦ rw p (ground arith)
]

at_stdin-quiet : (c : Client) (input : Mask) (typed : Arrival) → (at_stdin c input typed).1 ≡ []
at_stdin-quiet c input typed = ground arith

on_room-quiet : (c : Client) (taken : Reply) → c.sendpos ≡ 0 → on_room c taken ≡ (c, [])
on_room-quiet c taken e = rw e

at_socket-IsDeaf :
    (c : Client) (revents : Mask) (a : Answers)
    → IsDeaf c
    → IsDeaf (at_socket c revents a).0 × (revents.pollin ≡ false → Silent (at_socket c revents a).1)
at_socket-IsDeaf c revents a d =
    by_test revents.pollerr revents.pollrdhup revents.pollin revents.pollout a.incoming
  where
    by_test :
        (err hup readable writable : Bool) (incoming : Arrival)
        → let r =
            at_socket c
              (record { pollin = readable; pollout = writable; pollrdhup = hup; pollerr = err })
              (record a { incoming = incoming }) in
          IsDeaf r.0 × (readable ≡ false → Silent r.1)
    by_test true hup readable writable incoming = (d, λ e. tt)
    by_test false true readable writable incoming = (d, λ e. tt)
    by_test false false true writable (chunk xs) = (d, λ e. cc)
    by_test false false true writable (broken x) = (d, λ e. cc)
    by_test false false false true incoming =
        rw (on_room-quiet c a.taken d.nothing_to_send) (d, λ e. tt)
    by_test false false false false incoming = (d, λ e. tt)

reported-no_input :
    (events ready : Mask) → events.pollin ≡ false → (reported events ready).pollin ≡ false
reported-no_input events ready e = rw e

turn-IsDeaf :
    (input ready : Mask) (a : Answers) (c : Client)
    → a.typed ≡ chunk []
    → IsDeaf c
    → IsDeaf (turn input ready a c).0 × Silent (turn input ready a c).1
unfolding turn
turn-IsDeaf input ready a c e d =
    let at =
      at_socket-IsDeaf (at_stdin c input a.typed).0 (reported c.events ready) a
        (at_stdin-IsDeaf c input a.typed e (inl d)) in
    (
      at.0,
      Silent-append (at_stdin c input a.typed).1 _ (rw (at_stdin-quiet c input a.typed) tt)
          (at.1 (reported-no_input c.events ready d.no_input)),
    )

-- The turn in which the input ends.
turn-ends :
    (input ready : Mask) (a : Answers) (c : Client)
    → a.typed ≡ chunk []
    → input.pollin ≡ true
    → IsDeaf (turn input ready a c).0
unfolding turn
turn-ends input ready a c e p =
    (at_socket-IsDeaf (at_stdin c input a.typed).0 (reported c.events ready) a
      (at_stdin-IsDeaf c input a.typed e (inr p))).0

then_turns-Silent :
    (next : Client → Client × List Action) (r : Client × List Action)
    → Silent r.1
    → Silent (next r.0).1
    → Silent (then_turns next r).1
then_turns-Silent next (c, out) h k = elim (Bool-cases (has_exit out)) [
  | inl e ↦ rw e h
  | inr e ↦ rw e (Silent-append out _ h k)
]

run-Silent : (is : List Input) (c : Client) → Ended is → IsDeaf c → Silent (run is c).1
unfolding run
run-Silent [] c e d = tt
run-Silent (i ∷ is) c e d =
    let (d', quiet) = turn-IsDeaf i.input i.ready i.answers c e.0 d in
    then_turns-Silent (run is) (turn i.input i.ready i.answers c) quiet (run-Silent is _ e.1 d')

-- Once the standard input has ended, the chat client hears and says nothing more: whatever state
-- it was in, from the turn after the one in which `read` found the end of the input on, and for as
-- long as `read` finds nothing but that end, it calls neither `recv` nor `send`, whatever `poll`
-- reports and whatever the server sends.
pub turn-Silent :
    (i : Input) (is : List Input) (c : Client)
    → i.input.pollin ≡ true
    → Ended (i ∷ is)
    → Silent (run is (turn i.input i.ready i.answers c).0).1
turn-Silent i is c p e = run-Silent is _ e.1 (turn-ends i.input i.ready i.answers c e.0 p)

-- Bytes that the user types, none of them null, go out whole in the next turn that has room for
-- them and no error, after which the client listens again.
pub typed-sends :
    (c : Client) (x : ℕ) (xs : List ℕ) (i : Input)
    → NoZero (x ∷ xs)
    → i.input.pollin ≡ false
    → (i.ready.pollerr ≡ false) × (i.ready.pollrdhup ≡ false) × (i.ready.pollout ≡ true)
    → let c' = (on_typed c (chunk (x ∷ xs))).0 in
      let (c'', out) = turn i.input i.ready i.answers c' in
      (out ≡ sends (x ∷ xs) ∷ []) × (c''.events.pollin ≡ true) × (c''.events.pollout ≡ false)
unfolding turn
typed-sends c x xs i nz quiet (no_err, no_hup, room) =
    rw (quiet, no_err, no_hup, room)
      (ground (arith, c_string_lem (x ∷ xs) [] (x ∷ xs) (append-nil _) nz))
