-- ===== src/Sockets/Open.antt =====
-- Each of these routines tries the addresses that `getaddrinfo` found, in order, and stops at the
-- first on which `bind` or `connect` succeeds; a list from `getaddrinfo` has at least one address. The
-- answers of the kernel are parameters; the calls are the result.
use unpvol.Common.{ℕ, Bool, true, false, Option, none, some, List, [], ◌∷◌, ◌++◌}

-- One address: what `socket` gives for it, and whether `bind` or `connect` then succeeds.
pub record Attempt : Type 0 where
  pub sock : Option ℕ
  pub works : Bool

-- `frees` is `freeaddrinfo` of the whole list.
pub data Call : Type 0 where
  sockets : ℕ → Call
  reuses : ℕ → Call
  binds : ℕ → Call
  connects : ℕ → Call
  closes : ℕ → Call
  listens : ℕ → Call
  frees : Call

pub record Search : Type 0 where
  pub calls : List Call
  pub found : Option ℕ

-- A routine returns a descriptor, or -1, or ends the program.
pub data Result : Type 0 where
  returned : ℕ → Result
  minus_one : Result
  exits : Result

pub record Opened : Type 0 where
  pub calls : List Call
  pub result : Result

-- The loop over the addresses, with the calls that it makes for a socket.
unfoldable pub try_one : Option ℕ → Bool → Search → (ℕ → List Call) → Search
try_one none works rest each = rest
try_one (some fd) true rest each = record { calls = each fd; found = some fd }
try_one (some fd) false rest each = record {
  calls = each fd ++ closes fd ∷ rest.calls;
  found = rest.found;
}

unfoldable pub search : (ℕ → List Call) → List Attempt → Search
search each [] = record { calls = []; found = none }
search each (a ∷ rest) = try_one a.sock a.works (search each rest) each

abbrev pub listen_each : ℕ → List Call
listen_each fd = sockets fd ∷ reuses fd ∷ binds fd ∷ []

abbrev pub connect_each : ℕ → List Call
connect_each fd = sockets fd ∷ connects fd ∷ []

abbrev pub bind_each : ℕ → List Call
bind_each fd = sockets fd ∷ binds fd ∷ []

-- What follows the loop.
unfoldable pub finish : (ℕ → List Call) → Result → List Call → Option ℕ → Opened
finish last failure calls none = record { calls = calls; result = failure }
finish last failure calls (some fd) = record { calls = calls ++ last fd; result = returned fd }

unfoldable pub open_with :
    (ℕ → List Call) → (ℕ → List Call) → Result → Option (List Attempt) → Opened
open_with each last failure none = record { calls = []; result = failure }
open_with each last failure (some addresses) =
    finish last failure (search each addresses).calls (search each addresses).found

-- `listen` and `freeaddrinfo` follow; a failure ends the program.
unfoldable pub tcp_listen : Option (List Attempt) → Opened
tcp_listen found = open_with listen_each (λ fd. listens fd ∷ frees ∷ []) exits found

unfoldable pub tcp_connect : Option (List Attempt) → Opened
tcp_connect found = open_with connect_each (λ fd. frees ∷ []) exits found

-- highperformenceserver/epoll; the failure is -1.
unfoldable pub create_and_bind : Option (List Attempt) → Opened
create_and_bind found = open_with bind_each (λ fd. frees ∷ []) minus_one found

-- highperformenceserver/group_chat, which sets SO_REUSEADDR first.
unfoldable pub create_and_bind_reuse : Option (List Attempt) → Opened
create_and_bind_reuse found = open_with listen_each (λ fd. frees ∷ []) minus_one found
