-- ===== src/Startup/Tests.antt =====
-- Servers that start, and a client of the poll server.
use unpvol.Common.{◌≡◌, refl, Bool, true, false, some, List, [], ◌∷◌}
use unpvol.Startup.Mains.{
  Answers, Ready, loops, make_socket_non_blocking, example_main, chat_main, example_bound,
  chat_bound, watch,
}
use unpvol.Startup.Printed.{Talk, says, both}

abbrev all_well : Answers
all_well = record {
  argc = 2;
  opened = some 3;
  got_flags = true;
  set_flags = true;
  listened = true;
  epfd = some 4;
  added = true;
  clients = true;
  pfd = true;
}

abbrev ready : Bool → Ready
ready b = record { listenfd = 3; nonblocking = b; listening = true; watching = true }

example_starts : example_main all_well ≡ loops (ready true)
unfolding example_main example_bound watch make_socket_non_blocking
example_starts = refl

chat_starts : chat_main all_well ≡ loops (ready false)
unfolding chat_main chat_bound
chat_starts = refl

-- `listen` fails, and the flags of the socket cannot be set.
abbrev unheard : Answers
unheard = record all_well { argc = 3; set_flags = false; listened = false }

abbrev deaf : Bool → Ready
deaf b = record { listenfd = 3; nonblocking = b; listening = false; watching = true }

abbrev talk : List Talk
talk = says 104 (105 ∷ []) ∷ both 33 [] (7 ∷ []) ∷ []
