-- ===== src/SelectServer/Table.antt =====
-- The tables and the loop of `main` in 6chp/tcpservselect01.c. An entry of `client` that is -1 is
-- `none`, and `maxi + 1` is the number `used`. `allset` is a family of bits, of
-- which those below `fd_setsize` exist. `accept` is taken to succeed.
use unpvol.Common.{
  ℕ, zero, suc, ◌+◌, ◌-◌, Bool, true, false, Option, none, some, List, [], ◌∷◌, ◌++◌, ltb, leb,
  ◌==◌, if◌then◌else◌, replicate, update,
}
use unpvol.Stream.Kernel.{Arrival, chunk, broken}

-- The size of an `fd_set` of the system.
abbrev pub fd_setsize : ℕ
fd_setsize = 1024

abbrev pub Slots : Type 0
Slots = List (Option ℕ)

pub record Table : Type 0 where
  pub client : Slots
  pub used : ℕ
  pub allset : ℕ → Bool
  pub maxfd : ℕ

-- What is done for a client: the bytes are written back, `write` is called with the -1 that `read`
-- returned, or the socket is closed.
pub data Action : Type 0 where
  echoes : ℕ → List ℕ → Action
  writes_minus_one : ℕ → Action
  closes : ℕ → Action

-- The first entry that is available takes the descriptor; none is left for "too many clients".
pub record Saved : Type 0 where
  pub at : ℕ
  pub slots : Slots

unfoldable pub behind : Option ℕ → Option Saved → Option Saved
behind x none = none
behind x (some r) = some (record { at = r.at + 1; slots = x ∷ r.slots })

unfoldable pub save : ℕ → Slots → Option Saved
save connfd [] = none
save connfd (none ∷ slots) = some (record { at = 0; slots = some connfd ∷ slots })
save connfd (some fd ∷ slots) = behind (some fd) (save connfd slots)

-- The slots and `allset`, as the loop over the clients leaves them, and what it did.
pub record Swept : Type 0 where
  pub slots : Slots
  pub set : ℕ → Bool
  pub done : List Action

-- What `read` makes of a client and its entry.
unfoldable pub kept : Arrival → ℕ → Option ℕ
kept (chunk []) fd = none
kept (chunk (x ∷ xs)) fd = some fd
kept (broken e) fd = some fd

unfoldable pub cleared : Arrival → ℕ → (ℕ → Bool) → ℕ → Bool
cleared (chunk []) fd set = update set fd false
cleared (chunk (x ∷ xs)) fd set = set
cleared (broken e) fd set = set

unfoldable pub action : Arrival → ℕ → Action
action (chunk []) fd = closes fd
action (chunk (x ∷ xs)) fd = echoes fd (x ∷ xs)
action (broken e) fd = writes_minus_one fd

abbrev pub onto : Option ℕ → List Action → Swept → Swept
onto x acts r = record { slots = x ∷ r.slots; set = r.set; done = acts ++ r.done }

-- `for (i = 0; i <= maxi; i++)`, with the descriptors that are ready, their number, and what
-- `read` gives for each of them.
module _ (rset : ℕ → Bool) (reads : ℕ → Arrival) where
  unfoldable pub sweep : ℕ → ℕ → Slots → (ℕ → Bool) → Swept
  sweep zero nready slots set = record { slots = slots; set = set; done = [] }
  sweep (suc k) nready [] set = record { slots = []; set = set; done = [] }
  sweep (suc k) nready (none ∷ slots) set = onto none [] (sweep k nready slots set)
  sweep (suc k) nready (some fd ∷ slots) set =
      let passed = sweep k nready slots set in
      let set' = cleared (reads fd) fd set in
      let rest = sweep k (nready - 1) slots set' in
      if rset fd
      then onto (kept (reads fd) fd) (action (reads fd) fd ∷ [])
          (if leb (nready - 1) 0 then record { slots = slots; set = set'; done = [] } else rest)
      else onto (some fd) [] passed

-- The answers of one turn: what `select` returns, the new connection, and the data.
pub record Answers : Type 0 where
  pub nready : ℕ
  pub rset : ℕ → Bool
  pub connfd : ℕ
  pub reads : ℕ → Arrival

pub record Turned : Type 0 where
  pub table : Table
  pub done : List Action

unfoldable pub check_clients : Answers → ℕ → Table → Turned
check_clients a nready t =
    let r = sweep a.rset a.reads t.used nready t.client t.allset in
    record { table = record t { client = r.slots; allset = r.set }; done = r.done }

unfoldable pub greater : ℕ → ℕ → ℕ
greater new old = if ltb old new then new else old

abbrev pub with_client : ℕ → Table → Saved → Table
with_client connfd t r = record {
  client = r.slots;
  used = greater (r.at + 1) t.used;
  allset = update t.allset connfd true;
  maxfd = greater connfd t.maxfd;
}

-- How a turn ends: with the exit for "too many clients", with `FD_SET` of a descriptor that an
-- `fd_set` has no place for, which the code does not test and whose behaviour is undefined, or with
-- the next turn to come.
pub data Turn : Type 0 where
  too_many_clients : Turn
  overruns : Turn
  goes_on : Turned → Turn

unfoldable pub after_save : Answers → Table → Option Saved → Turn
after_save a t none = too_many_clients
after_save a t (some r) =
    if leb fd_setsize a.connfd
    then overruns
    else if leb (a.nready - 1) 0
    then goes_on (record { table = with_client a.connfd t r; done = [] })
    else goes_on (check_clients a (a.nready - 1) (with_client a.connfd t r))

-- One turn of `for ( ; ; )`.
unfoldable pub turn : ℕ → Answers → Table → Turn
turn listenfd a t =
    if a.rset listenfd
    then after_save a t (save a.connfd t.client)
    else goes_on (check_clients a a.nready t)

unfoldable pub start : ℕ → Table
start listenfd = record {
  client = replicate fd_setsize none;
  used = 0;
  allset = λ fd. listenfd == fd;
  maxfd = listenfd;
}
