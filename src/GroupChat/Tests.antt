-- ===== src/GroupChat/Tests.antt =====
-- Runs of the chat server and client, and the theorems at concrete states.
use unpvol.Common.{
  ℕ, zero, suc, Bool, not, ◌&&◌, inl, inr, Bool-cases, ◌+◌, ◌<◌, ◌≤◌, ◌≡◌, ◌≢◌, refl, true, Option,
  none, some, List, [], ◌∷◌, ◌++◌, arith, replicate, ◌==◌, if◌then◌else◌,
}
use unpvol.Stream.Kernel.{chunk, wrote}
use unpvol.Stream.Readline.{c_string}
use unpvol.GroupChat.Server.{
  Effect, sent, closed, Mask, no_events, Server, Pollfd, ClientInfo, drop_client, told, message,
  start,
}
use unpvol.GroupChat.Invariant.{IsValid, IsFresh}
use unpvol.GroupChat.Loop.{Turn, EndsValid, run, run-EndsValid}
use unpvol.GroupChat.Messages.{told_lem, drop_client-message}
use unpvol.GroupChat.Client.{Input, turn}
use unpvol.GroupChat.Deaf.{Silent, turn-Silent}

abbrev readable : Mask
readable = record no_events { pollin = true }

-- A client with the descriptor `fd`, read from.
abbrev entry : ℕ → Pollfd
entry fd = record {
  fd = fd;
  events = record no_events { pollin = true; pollrdhup = true };
  revents = no_events;
}

-- A buffer that holds the text `xs`.
abbrev slot : Option ℕ → List ℕ → ClientInfo
slot wb xs = record { address = 0; wb = wb; rb = xs ++ replicate 8 0 }

-- The listening socket 3 and the clients 4, 5 and 6; client 5 is still to be sent what 4 said.
abbrev three : Server
three = record {
  clients = λ k.
      if k == 4
      then slot none (b'h' ∷ b'i' ∷ [])
      else if k == 5
      then slot (some 4) (b'y' ∷ [])
      else slot none (b'n' ∷ b'o' ∷ []);
  pfd = λ j.
      if j == 0
      then record { fd = 3; events = readable; revents = no_events }
      else if j == 2
      then record {
        fd = 5;
        events = record no_events { pollout = true; pollrdhup = true };
        revents = no_events;
      }
      else entry (j + 3);
  current_client_num = 3;
}

three-IsValid : IsValid 3 three
three-IsValid = record {
  few = omega arith;
  listening = refl;
  listens = refl;
  distinct = λ i j hi hj e. ground arith;
  one_way = λ i pos le. ground arith;
  has_text = λ i pos le e. ground arith;
}

-- Client 4 leaves: client 5 would now be sent what client 6 said last.
wrong_text : message (drop_client three 1).server 5 ≡ some (b'n' ∷ b'o' ∷ [])
unfolding message drop_client c_string
wrong_text = refl

told_lem_example :
    ((told three 1 (b'a' ∷ [])).pfd 1 ≡ three.pfd 1)
    × ((k : ℕ)
        → 0 < k
        → k ≤ 3
        → k ≢ 1
        → (((told three 1 (b'a' ∷ [])).pfd k).fd ≡ (three.pfd k).fd)
          × (((told three 1 (b'a' ∷ [])).pfd k).events.pollout ≡ true)
          × (message (told three 1 (b'a' ∷ [])) (three.pfd k).fd ≡ some (b'a' ∷ [])))
told_lem_example =
    told_lem 3 three 1 (b'a' ∷ []) three-IsValid (omega arith) (omega arith) (omega arith)
      (omega arith)

drop_client-message_example :
    message (drop_client three 1).server 5 ≡ some (c_string (three.clients 6).rb)
drop_client-message_example =
    drop_client-message 3 three 1 2 three-IsValid (omega arith) (omega arith) (omega arith)
      (omega arith) (omega arith) refl

-- No entry up to `n` has the descriptor.
unused : ℕ → ℕ → Server → Bool
unused zero c s = not ((s.pfd 0).fd == c)
unused (suc n) c s = not ((s.pfd (suc n)).fd == c) && unused n c s

unused-free : (n c : ℕ) (s : Server) → unused n c s ≡ true → (j : ℕ) → j ≤ n → (s.pfd j).fd ≢ c
unfolding unused
unused-free zero c s h j le = let e : j ≡ 0 = omega (arith, le) in rw e (ground (arith, h))
unused-free (suc n) c s h j le = elim (Bool-cases (j == suc n)) [
  | inl t ↦ (let e : j ≡ suc n = ground (arith, t) in rw e (ground (arith, h)))
  | inr f ↦ unused-free n c s (ground (arith, h)) j (ground (arith, f, le))
]

-- The kernel gives the descriptor `c` while it is not in use.
abbrev calls : ℕ → Server → Option (ℕ × ℕ)
calls c s = if unused s.current_client_num c s then some (c, 0) else none

calls-IsFresh : (c : ℕ) (s : Server) → IsFresh s (calls c s)
calls-IsFresh c s = elim (Bool-cases (unused s.current_client_num c s)) [
  | inl t ↦ rw t (unused-free s.current_client_num c s t)
  | inr f ↦ rw f tt
]

-- Two clients come, 4 and 5; then 4 speaks, 5 is sent what 4 said, and 4 leaves.
abbrev comes : ℕ → Turn
comes c = record {
  ready = λ j. if j == 0 then readable else no_events;
  env = λ k s. record { accepted = calls c s; incoming = chunk [] };
}

abbrev speaks : Turn
speaks = record {
  ready = λ j. if j == 1 then readable else no_events;
  env = λ k s. record { accepted = none; incoming = chunk (b'h' ∷ b'i' ∷ []) };
}

abbrev hears : Turn
hears = record {
  ready = λ j. if j == 2 then record no_events { pollout = true } else no_events;
  env = λ k s. record { accepted = none; incoming = chunk [] };
}

abbrev leaves_first : Turn
leaves_first = record {
  ready = λ j. if j == 1 then record no_events { pollrdhup = true } else no_events;
  env = λ k s. record { accepted = none; incoming = chunk [] };
}

abbrev chat : List Turn
chat = comes 4 ∷ comes 5 ∷ speaks ∷ hears ∷ leaves_first ∷ []

run-EndsValid_example : EndsValid 3 (run 3 chat (start 3))
run-EndsValid_example = run-EndsValid 3 chat (
  (refl, λ k s. calls-IsFresh 4 s),
  (
    (refl, λ k s. calls-IsFresh 5 s),
    ((refl, λ k s. tt), ((refl, λ k s. tt), ((refl, λ k s. tt), tt))),
  ),
)

-- The effects of that run: 5 was sent what 4 said, and the socket 4 was closed.
abbrev effects_of : Option (Server × List Effect) → List Effect
effects_of none = []
effects_of (some (s, es)) = es

conversation : effects_of (run 3 chat (start 3)) ≡ sent 5 (b'h' ∷ b'i' ∷ []) ∷ closed 4 ∷ []
unfolding run unpvol.GroupChat.Server.turn unpvol.GroupChat.Server.sweep
    unpvol.GroupChat.Server.polled unpvol.GroupChat.Server.handle unpvol.GroupChat.Server.on_accept
    unused unpvol.GroupChat.Server.on_input told unpvol.GroupChat.Server.broadcast
    unpvol.GroupChat.Server.notify unpvol.GroupChat.Server.on_output message drop_client c_string
conversation = refl

-- The input ends, while the server sends.
abbrev at_end : Input
at_end = record {
  input = readable;
  ready = record no_events { pollin = true; pollout = true };
  answers = record { typed = chunk []; taken = wrote 0; incoming = chunk (b'x' ∷ []) };
}

abbrev room : Input
room = record at_end { input = no_events }

turn-Silent_example :
    Silent
      (unpvol.GroupChat.Client.run
        (room ∷ [])
        (turn at_end.input at_end.ready at_end.answers unpvol.GroupChat.Client.start).0).1
turn-Silent_example =
    turn-Silent at_end (room ∷ []) unpvol.GroupChat.Client.start refl (refl, (refl, tt))
