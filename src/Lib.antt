-- ===== src/Lib.antt =====
-- Network programs after Stevens' "UNIX Network Programming", and servers over poll and epoll.
--
-- The repository holds small client and server programs, each in one file that repeats the helper
-- routines it needs. What they share is a way to move whole buffers and lines over a byte stream, a
-- way to open a socket, and one of several designs for a server: a pool of threads, preforked
-- processes, or one process that waits with select, poll or epoll. A routine that is copied into
-- several files is modelled once, from the file that is named here.
--
-- The parts, and where the models stand:
--
-- ThreadPool: 30chp/serv08.c (`main`, `thread_main`; 30chp/pthread08.c is the same). `main` puts
--   connections into the ring `clifd` under a mutex and signals, the threads take them out. Queue is
--   the ring, with `put` and `take_conn` for the two critical sections; Fifo and Refine give its
--   abstract view, a bounded queue; System is the interleaving of `main` and `n` threads, a step for
--   each call that another thread can observe. The threads pass each connection to `web_child`.
-- Prefork: 30chp/serv03.c. Forking is `child_make` and the loop of `main`, Lock is `my_lock_wait`,
--   System is `child_main` in all children at once, and Shutdown is `sig_int` and `web_child`.
-- Stream: `writen` (30chp/serv08.c, and 15chp/unixstrserv01.c with a signed result), `readn`
--   (30chp/client.c and 16chp/readn.c), and `my_read`, `readline` and `str_cli`
--   (26chp/v1/tcpcli01.c). Kernel holds the answers of `read` and `write`, which all other parts use,
--   and Memory the bytes behind a pointer.
-- Nonblock: the client of 16chp/strclinonb.c. Buffer is one of its two buffers with its pointers,
--   Client one turn of its loop; Handlers, Copying and Ending hold the proofs.
-- SelectServer: 6chp/tcpservselect01.c. Table has the tables `client`, `allset`, `maxi` and `maxfd`
--   and the loop; Early is about the early exit of the inner loop, Watch and Reach about the tables.
-- GroupChat: highperformenceserver/group_chat/server_poll.c and client_poll.c. Server and Client
--   model the two loops of `main`; Invariant, Budget, Loop, Messages and Deaf hold the proofs.
-- Epoll: the loop bodies of highperformenceserver/epoll (Level, Edge, Oneshot) and of
--   epoll/epoll-example-server.c (Example), for one event. Burst says what a socket holds.
-- Sockets: `tcp_listen` (30chp/serv08.c), `tcp_connect` (30chp/client.c) and `create_and_bind`
--   (highperformenceserver/epoll and group_chat).
-- Startup: `main` of the epoll servers and the chat server up to their loops, and the loop of
--   highperformenceserver/select_poll/poll.c.
-- Timers: three containers of timers from highperformenceserver/examples/11. Wheel is `time_wheel`
--   (11-5tw_timer.h) with its slots as lists; Due and Fire say when a timer is called. Heap is
--   `time_heap` (11-6time_heap.h), a heap in an array; Order says what a heap is, Down, Up, Tick and
--   Build treat `percolate_down`, `add_timer`, `tick` and the constructor. Sorted is `sort_timer_lst`
--   (11-2lst_timer.h) and Idle the server that drops idle connections with it (11-3nonactive_conn.cpp);
--   Lookup and Order are about the list, Refine and Runs about the server.
-- Http: highperformenceserver/examples/8/8-3httpparser.cpp. Line is `parse_line`, Request
--   `parse_requestline` and `parse_headers` over the string functions in Text, and Content is
--   `parse_content` and the loop of `main`. Feed specifies the parser as an automaton over single
--   bytes; Scan, Follow and Answer relate the code to it, and Printing prints requests.
-- HttpConn: `http_conn` of highperformenceserver/examples/15 (15-4http_conn.h, 15-5http_conn.cpp).
--   Parse has the handlers of a line, Read `process_read` and `do_request`, Format and Respond the
--   texts and `process_write`, and Send `read`, `write` and `process`. Lines and Served are about
--   whole requests, Turns and Ends about the turns of the loop, Stalls about the content of a request,
--   Fitting and Answered about the write buffer, and Halfway about `write`. Main is one
--   event of the loop of 15-6main.cpp, or one run of `process` in a worker, and Counting is about the
--   count of connections, for which Transfer and Keeping show what leaves the socket alone. `stat`
--   and `atol` are parameters. It reads lines as Http does.
-- WorkQueue: the pool of threads of highperformenceserver/examples/15/15-3threadpool.h, `append` and
--   `run` as a step relation with the semaphore; Order holds its invariant.
-- Timeout: `signal` and `connect_timeo` of 14chp/connect_timeo.c, with the handler and the alarm that
--   they change.
--
-- How the code is modelled. The state of a program is a record that its operations pass along;
-- programs with threads or processes are step relations. The answers of the kernel are parameters: a
-- function of the call, a list of answers, or a premise of a step. Descriptors and bytes are natural
-- numbers. Counts in a size_t wrap at 2 ^ 64; the other counts are bounded by buffers of a fixed
-- size, or stay below a bound that is proved. Arrays are lists or functions of the index.
--
-- Fuel. The loops of `writen` and `readn`, and that of `str_cli` in 26chp, run on fuel. A theorem that
-- one of them returns asks for more fuel than there are bytes (and interruptions, for the signed
-- `writen`) or lines to come, since each turn moves at least a byte, is interrupted, or takes a line.
-- In Timers, `percolate_down`, `add_timer` and `tick` take the number of timers as fuel, since a turn
-- goes to a child or a parent or takes a timer off. In Http, `parse_content` makes at most
-- `read_index - start_line + 1` turns, since each moves `start_line`. In HttpConn,
-- `process_read` makes at most two turns for each byte that it has not looked at, and two more.
-- `readline` makes at most `maxlen` turns, as its loop does. The other loops recurse on the answers
-- that they consume.
--
-- Not modelled: what is printed as a diagnostic; the addresses of clients, where nothing depends on
-- them; CPU times; the other examples of highperformenceserver/examples and the graphical chat
-- client; and the programs of 1chp, 5chp, 8chp, 11chp and 17chp and the rest of 14chp, which are short
-- sequences of system calls or rest on signals and control messages.
pub mod Common
pub mod ThreadPool
pub mod Stream
pub mod GroupChat
pub mod Epoll
pub mod Nonblock
pub mod SelectServer
pub mod Sockets
pub mod Prefork
pub mod Startup
pub mod Timers
pub mod WorkQueue
pub mod Http
pub mod HttpConn
pub mod Timeout
