-- ===== src/Startup/Mains.antt =====
-- `main`, up to the loop, of the three servers of highperformenceserver/epoll, of
-- epoll/epoll-example-server.c and of highperformenceserver/group_chat/server_poll.c.
use unpvol.Common.{
  ℕ, ◌-◌, Bool, true, false, not, Option, none, some, ◌==◌, leb, ltb, if◌then◌else◌,
}
use unpvol.GroupChat.Server.{max_client_num}

-- The arguments of the program and the answers of the kernel: what `create_and_bind` returned (none
-- for -1), whether F_GETFL, F_SETFL, `listen` and EPOLL_CTL_ADD succeeded, what `epoll_create1`
-- returned, and whether the two calls of `calloc` gave memory.
pub record Answers : Type 0 where
  pub argc : ℕ
  pub opened : Option ℕ
  pub got_flags : Bool
  pub set_flags : Bool
  pub listened : Bool
  pub epfd : Option ℕ
  pub added : Bool
  pub clients : Bool
  pub pfd : Bool

-- The state in which a loop is entered.
pub record Ready : Type 0 where
  pub listenfd : ℕ
  pub nonblocking : Bool
  pub listening : Bool
  pub watching : Bool

-- `main` returns minus a number, calls `exit(EXIT_FAILURE)` or `abort()`, or enters its loop.
pub data Started : Type 0 where
  ends : ℕ → Started
  exit_failure : Started
  aborts : Started
  loops : Ready → Started

unfoldable pub make_socket_nonblock : Bool → Bool → Bool
make_socket_nonblock got_flags set_flags = if got_flags then set_flags else false

unfoldable pub make_socket_non_blocking : Bool → Bool → Bool
make_socket_non_blocking got_flags set_flags = if got_flags then set_flags else false

-- `epoll_create1` and the `epoll_ctl` that follows it.
unfoldable pub watch : Started → Option ℕ → Bool → Ready → Started
watch failure none added r = failure
watch failure (some e) true r = loops r
watch failure (some e) false r = failure

unfoldable pub level_bound : Answers → Option ℕ → Started
level_bound a none = ends 2
level_bound a (some fd) =
    watch (ends 1) a.epfd a.added
      (record { listenfd = fd; nonblocking = false; listening = a.listened; watching = true })

unfoldable pub level_main : Answers → Started
level_main a = if leb a.argc 1 then ends 1 else level_bound a a.opened

unfoldable pub edge_bound : Answers → Option ℕ → Started
edge_bound a none = ends 2
edge_bound a (some fd) = watch (ends 1) a.epfd a.added (record {
  listenfd = fd;
  nonblocking = make_socket_nonblock a.got_flags a.set_flags;
  listening = a.listened;
  watching = true;
})

unfoldable pub edge_main : Answers → Started
edge_main a = if leb a.argc 1 then ends 1 else edge_bound a a.opened

-- The threads start where the loop is entered.
unfoldable pub oneshot_main : Answers → Started
oneshot_main a = if leb a.argc 2 then ends 1 else edge_bound a a.opened

unfoldable pub example_bound : Answers → Option ℕ → Started
example_bound a none = aborts
example_bound a (some fd) =
    if not (make_socket_non_blocking a.got_flags a.set_flags)
    then aborts
    else if not a.listened
    then aborts
    else watch aborts a.epfd a.added
        (record { listenfd = fd; nonblocking = true; listening = true; watching = true })

unfoldable pub example_main : Answers → Started
example_main a = if not (a.argc == 2) then exit_failure else example_bound a a.opened

abbrev pub fd_limit : ℕ
fd_limit = 65535

unfoldable pub chat_bound : Answers → Option ℕ → Started
chat_bound a none = ends 2
chat_bound a (some fd) =
    if not a.listened
    then ends 3
    else if not a.clients
    then ends 4
    else if ltb (fd_limit - 1 - 3) max_client_num
    then ends 5
    else if not a.pfd
    then ends 4
    else loops (record { listenfd = fd; nonblocking = false; listening = true; watching = true })

unfoldable pub chat_main : Answers → Started
chat_main a = if not (a.argc == 2) then ends 1 else chat_bound a a.opened
