-- ===== src/GroupChat/Server.antt =====
-- The state and the event loop of highperformenceserver/group_chat/server_poll.c. Both tables are
-- families over their indices. `wb` points into the `rb` of a slot of `clients`: it is the slot.
use unpvol.Common.{
  ℕ, zero, suc, ◌+◌, ◌-◌, Bool, true, false, ◌&&◌, Option, none, some, List, [], ◌∷◌, ◌++◌, ltb,
  leb, ◌==◌, if◌then◌else◌, length, set, drop, replicate, update,
}
use unpvol.Stream.Kernel.{eagain, Arrival, chunk, broken}
use unpvol.Stream.Readline.{c_string}

abbrev pub max_client_num : ℕ
max_client_num = 128

abbrev pub buffer_size : ℕ
buffer_size = 1024

-- POLLIN, POLLOUT, POLLRDHUP and POLLERR as bits of `events` and `revents`.
pub record Mask : Type 0 where
  pub pollin : Bool
  pub pollout : Bool
  pub pollrdhup : Bool
  pub pollerr : Bool

abbrev pub no_events : Mask
no_events = record { pollin = false; pollout = false; pollrdhup = false; pollerr = false }

pub record Pollfd : Type 0 where
  pub fd : ℕ
  pub events : Mask
  pub revents : Mask

-- `struct client_info`
pub record ClientInfo : Type 0 where
  pub address : ℕ
  pub wb : Option ℕ
  pub rb : List ℕ

pub record Server : Type 0 where
  pub clients : ℕ → ClientInfo
  pub pfd : ℕ → Pollfd
  pub current_client_num : ℕ

-- The calls that others see: `send` with its bytes, and `close`.
pub data Effect : Type 0 where
  sent : ℕ → List ℕ → Effect
  closed : ℕ → Effect

-- What `accept` and `recv` answer, should the body of the loop call them: a descriptor with the
-- client's address, or -1; and what arrives.
pub record Env : Type 0 where
  pub accepted : Option (ℕ × ℕ)
  pub incoming : Arrival

-- The state after the body of the loop, and the index that comes next.
pub record Handled : Type 0 where
  pub server : Server
  pub next : ℕ
  pub effects : List Effect

abbrev pub skip : Server → ℕ → Handled
skip s i = record { server = s; next = i + 1; effects = [] }

-- A new connection.
unfoldable pub on_accept : Server → ℕ → Option (ℕ × ℕ) → Handled
on_accept s i none = skip s i
on_accept s i (some (connfd, client_address)) =
    if leb max_client_num s.current_client_num
    then record { server = s; next = i + 1; effects = closed connfd ∷ [] }
    else record {
      server = record {
        clients = update s.clients connfd (record (s.clients connfd) { address = client_address });
        pfd = update s.pfd (s.current_client_num + 1) (record {
          fd = connfd;
          events = record no_events { pollin = true; pollrdhup = true };
          revents = no_events;
        });
        current_client_num = s.current_client_num + 1;
      };
      next = i + 1;
      effects = [];
    }

-- The client of entry `i` is closed, and the last entry moves to `i`, which comes next again.
unfoldable pub drop_client : Server → ℕ → Handled
drop_client s i = record {
  server = record {
    clients = update s.clients (s.pfd i).fd (s.clients (s.pfd s.current_client_num).fd);
    pfd = update s.pfd i (s.pfd s.current_client_num);
    current_client_num = s.current_client_num - 1;
  };
  next = i;
  effects = closed (s.pfd i).fd ∷ [];
}

-- One round of the loop over the other clients.
unfoldable pub notify : ℕ → ℕ → Server → Server
notify connfd j s = if (s.pfd j).fd == connfd then s else record s {
  pfd =
      update s.pfd j (record (s.pfd j) {
        events = record ((s.pfd j).events) { pollin = false; pollout = true };
      });
  clients = update s.clients (s.pfd j).fd (record (s.clients (s.pfd j).fd) { wb = some connfd });
}

-- `for (int j = 1; j <= current_client_num; ++j)`, from `j` on, with the rounds left.
unfoldable pub broadcast : ℕ → ℕ → ℕ → Server → Server
broadcast connfd zero j s = s
broadcast connfd (suc rounds) j s = broadcast connfd rounds (j + 1) (notify connfd j s)

-- `recv` into the buffer, and the null byte behind what arrived.
abbrev pub fill : List ℕ → List ℕ → List ℕ
fill xs rb = set (xs ++ drop (length xs) rb) (length xs) 0

-- What a client has said goes into its buffer, and the others are to be told.
unfoldable pub told : Server → ℕ → List ℕ → Server
told s i xs =
    let connfd = (s.pfd i).fd in
    broadcast connfd s.current_client_num 1 (record s {
      clients =
          update s.clients connfd
            (record (s.clients connfd) { rb = fill xs (s.clients connfd).rb });
    })

unfoldable pub on_input : Server → ℕ → Arrival → Handled
on_input s i (broken eagain) = skip s i
on_input s i (broken e) = drop_client s i
on_input s i (chunk []) = skip s i
on_input s i (chunk (x ∷ xs)) = skip (told s i (x ∷ xs)) i

-- The message that waits for the client with the descriptor `fd`.
unfoldable pub message : Server → ℕ → Option (List ℕ)
message s fd = elim ((s.clients fd).wb) [
  | none ↦ none
  | some slot ↦ some (c_string (s.clients slot).rb)
]

-- `send`, of what `wb` points to.
abbrev pub on_output_to : Server → ℕ → Option (List ℕ) → Handled
on_output_to s i none = skip s i
on_output_to s i (some bytes) = record {
  server = record s {
    clients = update s.clients (s.pfd i).fd (record (s.clients (s.pfd i).fd) { wb = none });
    pfd = update s.pfd i (record (s.pfd i) {
      events = record ((s.pfd i).events) { pollout = false; pollin = true };
    });
  };
  next = i + 1;
  effects = sent (s.pfd i).fd bytes ∷ [];
}

unfoldable pub on_output : Server → ℕ → Handled
on_output s i = on_output_to s i (message s (s.pfd i).fd)

-- The body of `for (int i = 0; i < current_client_num + 1; i++)`.
unfoldable pub handle : ℕ → Server → ℕ → Env → Handled
handle listenfd s i env =
    if (s.pfd i).fd == listenfd && (s.pfd i).revents.pollin
    then on_accept s i env.accepted
    else if (s.pfd i).revents.pollerr
    then skip s i
    else if (s.pfd i).revents.pollrdhup
    then drop_client s i
    else if (s.pfd i).revents.pollin
    then on_input s i env.incoming
    else if (s.pfd i).revents.pollout
    then on_output s i
    else skip s i

abbrev pub also : List Effect → Option (Server × List Effect) → Option (Server × List Effect)
also es none = none
also es (some (s, fs)) = some (s, es ++ fs)

-- The whole `for`, from `i` on; `env k` is met by the k-th body, and may depend on the state.
-- `none`: the fuel is used up.
unfoldable pub sweep : ℕ → ℕ → ℕ → (ℕ → Server → Env) → Server → Option (Server × List Effect)
sweep listenfd zero i env s = none
sweep listenfd (suc fuel) i env s = elim (ltb i (s.current_client_num + 1)) [
  | false ↦ some (s, [])
  | true ↦
      let h = handle listenfd s i (env 0 s) in
      also h.effects (sweep listenfd fuel h.next (λ k. env (k + 1)) h.server)
]

-- `poll` writes the `revents` of the entries in use.
unfoldable pub polled : (ℕ → Mask) → Server → Server
polled ready s = record s {
  pfd = λ j. if leb j s.current_client_num then record (s.pfd j) { revents = ready j } else s.pfd j;
}

-- One turn of `while (1)`. Twice the entries, and two, are fuel enough.
unfoldable pub turn : ℕ → (ℕ → Mask) → (ℕ → Server → Env) → Server → Option (Server × List Effect)
turn listenfd ready env s =
    sweep listenfd (s.current_client_num + s.current_client_num + 5) 0 env (polled ready s)

-- The state before the loop: both tables come from `calloc`.
abbrev pub start : ℕ → Server
start listenfd = record {
  clients = λ _. record { address = 0; wb = none; rb = replicate buffer_size 0 };
  pfd = λ j.
      if j == 0
      then record {
        fd = listenfd;
        events = record no_events { pollin = true };
        revents = no_events;
      }
      else record { fd = 0; events = no_events; revents = no_events };
  current_client_num = 0;
}
