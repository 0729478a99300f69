-- ===== src/GroupChat/Client.antt =====
-- The event loop of highperformenceserver/group_chat/client_poll.c (the copy under
-- highperformenceserver/group_chat/ui is the same loop). `pfd[0]` is the standard input and
-- `pfd[1]` the connection; only the events of the connection ever change.
use unpvol.Common.{ℕ, Bool, true, false, List, [], ◌∷◌, ◌++◌, ◌==◌, if◌then◌else◌}
use unpvol.Stream.Kernel.{Arrival, chunk, broken, arrival_size, Reply, to_size, sub_size}
use unpvol.Stream.Readline.{c_string}
use unpvol.GroupChat.Server.{Mask, no_events}

-- `sendbuff`, in front of the zeros of `memset`; `sendpos`; and the events of the connection.
pub record Client : Type 0 where
  pub sendbuff : List ℕ
  pub sendpos : ℕ
  pub events : Mask

pub data Action : Type 0 where
  nothing : Action
  sends : List ℕ → Action
  receives : Action
  writes : List ℕ → Action
  closes : Action
  exits : Action

-- What the kernel answers, should the body of the loop read, send or receive.
pub record Answers : Type 0 where
  pub typed : Arrival
  pub taken : Reply
  pub incoming : Arrival

abbrev pub bytes : Arrival → List ℕ
bytes (chunk xs) = xs
bytes (broken e) = []

-- User input: -1 and an end of the input are stored in `sendpos` like a count.
abbrev pub on_typed : Client → Arrival → Client × List Action
on_typed c typed = (
  record {
    sendbuff = bytes typed;
    sendpos = arrival_size typed;
    events = record (c.events) { pollin = false; pollout = true };
  },
  [],
)

-- The server's data. After a failed `recv` the count handed to `write` is -1, which it refuses.
abbrev pub on_data : Client → Arrival → Client × List Action
on_data c (broken e) = (c, receives ∷ closes ∷ [])
on_data c (chunk xs) = (c, receives ∷ writes xs ∷ [])

abbrev pub on_room : Client → Reply → Client × List Action
on_room c taken = if c.sendpos == 0 then (c, []) else (
  record c {
    sendpos = sub_size c.sendpos (to_size taken);
    events = record (c.events) { pollout = false; pollin = true };
  },
  sends (c_string c.sendbuff) ∷ [],
)

-- The body of the loop at index 0 (`stdin`) and at index 1 (the connection).
abbrev pub at_stdin : Client → Mask → Arrival → Client × List Action
at_stdin c revents typed = if revents.pollin then on_typed c typed else (c, [])

abbrev pub at_socket : Client → Mask → Answers → Client × List Action
at_socket c revents a =
    if revents.pollerr
    then (c, [])
    else if revents.pollrdhup
    then (c, closes ∷ exits ∷ [])
    else if revents.pollin
    then on_data c a.incoming
    else if revents.pollout
    then on_room c a.taken
    else (c, [])

-- What `poll` reports for the connection is what was asked for, or an error.
abbrev pub reported : Mask → Mask → Mask
reported events ready = record {
  pollin = if events.pollin then ready.pollin else false;
  pollout = if events.pollout then ready.pollout else false;
  pollrdhup = ready.pollrdhup;
  pollerr = ready.pollerr;
}

-- One turn of `while (1)`: `poll`, then both indices.
unfoldable pub turn : Mask → Mask → Answers → Client → Client × List Action
turn input ready a c =
    let revents = reported c.events ready in
    let (c', early) = at_stdin c input a.typed in
    let (c'', late) = at_socket c' revents a in (c'', early ++ late)

abbrev pub start : Client
start = record {
  sendbuff = [];
  sendpos = 0;
  events = record no_events { pollin = true; pollrdhup = true; pollerr = true };
}

-- The input of one turn.
pub record Input : Type 0 where
  pub input : Mask
  pub ready : Mask
  pub answers : Answers

abbrev pub has_exit : List Action → Bool
has_exit [] = false
has_exit (exits ∷ rest) = true
has_exit (_ ∷ rest) = has_exit rest

-- After `exit` there are no more turns.
abbrev pub then_turns :
    (Client → Client × List Action) → Client × List Action → Client × List Action
then_turns next (c, out) =
    let rest = next c in if has_exit out then (c, out) else (rest.0, out ++ rest.1)

unfoldable pub run : List Input → Client → Client × List Action
run [] c = (c, [])
run (i ∷ is) c = then_turns (run is) (turn i.input i.ready i.answers c)
