-- ===== src/Startup/Checked.antt =====
-- Which of the answers the servers look at before they enter their loops.
use unpvol.Common.{ℕ, ◌<◌, ◌≡◌, refl, true, false, some, leb, arith}
use unpvol.Startup.Mains.{
  Answers, Ready, loops, make_socket_nonblock, make_socket_non_blocking, watch, level_bound,
  level_main, edge_bound, edge_main, oneshot_main, example_bound, example_main, chat_bound,
  chat_main,
}

-- If the example server enters its loop, its socket is bound, listens, does not block and is watched
-- by epoll: every call on the way has succeeded.
pub example_main-checks :
    (a : Answers) (r : Ready)
    → example_main a ≡ loops r
    → (a.opened ≡ some r.listenfd)
      × (a.listened ≡ true)
      × (make_socket_non_blocking a.got_flags a.set_flags ≡ true)
      × (a.added ≡ true)
unfolding example_main example_bound watch
example_main-checks a r e = ground (arith, e)

-- If the chat server enters its loop, its socket is bound and listens, and both calls of `calloc`
-- gave memory.
pub chat_main-checks :
    (a : Answers) (r : Ready)
    → chat_main a ≡ loops r
    → (a.opened ≡ some r.listenfd) × (a.listened ≡ true) × (a.clients ≡ true) × (a.pfd ≡ true)
unfolding chat_main chat_bound
chat_main-checks a r e = ground (arith, e)

-- With enough arguments, once the socket is bound and epoll watches it, the three servers of
-- highperformenceserver/epoll enter their loops whatever `listen` and `fcntl` answered: also with a
-- socket that does not listen, or that blocks.
pub main-unchecked :
    (a : Answers) (fd e : ℕ)
    → 2 < a.argc
    → a.opened ≡ some fd
    → a.epfd ≡ some e
    → a.added ≡ true
    → (level_main a
        ≡ loops (record {
          listenfd = fd;
          nonblocking = false;
          listening = a.listened;
          watching = true;
        }))
      × (edge_main a
          ≡ loops (record {
            listenfd = fd;
            nonblocking = make_socket_nonblock a.got_flags a.set_flags;
            listening = a.listened;
            watching = true;
          }))
      × (oneshot_main a
          ≡ loops (record {
            listenfd = fd;
            nonblocking = make_socket_nonblock a.got_flags a.set_flags;
            listening = a.listened;
            watching = true;
          }))
unfolding level_main level_bound edge_main edge_bound oneshot_main watch
main-unchecked a fd e h o p d =
    let one : leb a.argc 1 ≡ false = ground (arith, h) in
    let two : leb a.argc 2 ≡ false = ground (arith, h) in
    (rw (one, o, p, d) refl, rw (one, o, p, d) refl, rw (two, o, p, d) refl)
