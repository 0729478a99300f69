-- ===== src/Epoll/Level.antt =====
-- highperformenceserver/epoll/epoll_server_level_trigger.c: one call of `accept` or `read` for each
-- event, since the event comes again while there is more. What is printed is the bytes that were
-- read; the code prints a buffer that has no NUL behind them.
use unpvol.Common.{ℕ, ◌||◌, not, List, [], ◌∷◌, ◌==◌, if◌then◌else◌}
use unpvol.Stream.Kernel.{Arrival, chunk, broken}
use unpvol.Epoll.Calls.{Event, Accepted, connfd, refused, Call, closes, adds, removes, prints}

unfoldable pub on_accept : Accepted → List Call
on_accept (refused e) = []
on_accept (connfd c) = adds c ∷ []

unfoldable pub on_read : ℕ → Arrival → List Call
on_read fd (broken e) = []
on_read fd (chunk []) = closes fd ∷ removes fd ∷ []
on_read fd (chunk (x ∷ xs)) = prints (x ∷ xs) ∷ []

-- The body of `for(i = 0; i < n; i++)`.
unfoldable pub handle : ℕ → Event → Accepted → Arrival → List Call
handle listenfd ev accepted arrival =
    if ev.epollerr || ev.epollhup || not ev.epollin
    then closes ev.fd ∷ removes ev.fd ∷ []
    else if ev.fd == listenfd
    then on_accept accepted
    else on_read ev.fd arrival
