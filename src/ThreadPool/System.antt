-- ===== src/ThreadPool/System.antt =====
-- 30chp/serv08.c as threads: `main` puts accepted connections into the ring, `thread_main` takes
-- them out, and both hold `clifd_mutex` while they do. A step is one access to what they share.
use unpvol.Common.{ℕ, ◌+◌, ◌<◌, ◌≡◌, ◌≢◌, none, some, List, [], ◌∷◌, ◌++◌, update}
use unpvol.ThreadPool.Queue.{Clifd, empty, stored, exited, put, take_conn}

-- Who holds `clifd_mutex`.
pub data Owner : Type 0 where
  free : Owner
  by_main : Owner
  by_thread : ℕ → Owner

-- Where a thread stands in `thread_main`.
pub data Pc : Type 0 where
  locking : Pc  -- at `pthread_mutex_lock`
  testing : Pc  -- at `while (iget == iput)`, with the mutex
  sleeping : Pc  -- in `pthread_cond_wait`, the mutex released
  woken : Pc  -- in `pthread_cond_wait`, to take the mutex again
  leaving : ℕ → Pc  -- at `pthread_mutex_unlock`, with its connection
  counting : ℕ → Pc  -- at `thread_count++`
  serving : ℕ → Pc  -- in `web_child` and `close`

-- Where `main` stands in its endless loop.
pub data MainPc : Type 0 where
  accepting : MainPc
  waiting : ℕ → MainPc  -- at `pthread_mutex_lock`
  storing : ℕ → MainPc  -- with the mutex
  signalling : MainPc  -- at `pthread_cond_signal`, with the mutex
  unlocking : MainPc
  ended : MainPc  -- after `exit(1)`

-- `queued` and `handed` record, in order, the connections that went into the ring and out of it.
pub record Shared : Type 0 where
  pub queue : Clifd
  pub owner : Owner
  pub queued : List ℕ
  pub handed : List ℕ

-- A step of thread `i` that sleeps on no signal.
pub data Move (i : ℕ) (m : Shared) : Pc → Shared → Pc → Type 0 where
  lock : m.owner ≡ free → Move i m locking (record m { owner = by_thread i }) testing
  wait : take_conn m.queue ≡ none → Move i m testing (record m { owner = free }) sleeping
  -- A wake-up that no signal caused, which POSIX allows.
  stir : Move i m sleeping m woken
  relock : m.owner ≡ free → Move i m woken (record m { owner = by_thread i }) testing
  take :
      {connfd : ℕ} {q : Clifd}
      → take_conn m.queue ≡ some (connfd, q)
      → Move i m testing
          (record m { queue = q; handed = m.handed ++ (connfd ∷ []) })
          (leaving connfd)
  unlock : {connfd : ℕ} → Move i m (leaving connfd) (record m { owner = free }) (counting connfd)
  serve : {connfd : ℕ} → Move i m (serving connfd) m locking

pub record System : Type 0 where
  pub shared : Shared
  pub main : MainPc
  pub pc : ℕ → Pc
  pub thread_count : ℕ → ℕ

-- A step with `n` threads. After `exit` nothing moves.
pub data Step (n : ℕ) (s : System) : System → Type 0 where
  thread :
      (i : ℕ) {m : Shared} {p : Pc}
      → i < n
      → s.main ≢ ended
      → Move i s.shared (s.pc i) m p
      → Step n s (record s { shared = m; pc = update s.pc i p })
  count :
      (i : ℕ) {connfd : ℕ}
      → i < n
      → s.main ≢ ended
      → s.pc i ≡ counting connfd
      → Step n s (record s {
        pc = update s.pc i (serving connfd);
        thread_count = update s.thread_count i (s.thread_count i + 1);
      })
  accept : {connfd : ℕ} → s.main ≡ accepting → Step n s (record s { main = waiting connfd })
  main_lock :
      {connfd : ℕ}
      → s.main ≡ waiting connfd
      → s.shared.owner ≡ free
      → Step n s
          (record s { main = storing connfd; shared = record (s.shared) { owner = by_main } })
  main_put :
      {connfd : ℕ} {q : Clifd}
      → s.main ≡ storing connfd
      → put s.shared.queue connfd ≡ stored q
      → Step n s (record s {
        main = signalling;
        shared = record (s.shared) { queue = q; queued = s.shared.queued ++ (connfd ∷ []) };
      })
  main_full :
      {connfd : ℕ} {q : Clifd}
      → s.main ≡ storing connfd
      → put s.shared.queue connfd ≡ exited q
      → Step n s (record s { main = ended; shared = record (s.shared) { queue = q } })
  -- The signal wakes a thread that sleeps, if there is one.
  signal_one :
      (i : ℕ)
      → i < n
      → s.main ≡ signalling
      → s.pc i ≡ sleeping
      → Step n s (record s { main = unlocking; pc = update s.pc i woken })
  signal_none :
      s.main ≡ signalling
      → ((i : ℕ) → i < n → s.pc i ≢ sleeping)
      → Step n s (record s { main = unlocking })
  main_unlock :
      s.main ≡ unlocking
      → Step n s (record s { main = accepting; shared = record (s.shared) { owner = free } })

-- `main` before its loop: the threads are made and none has run.
abbrev pub start : System
start = record {
  shared = record { queue = empty; owner = free; queued = []; handed = [] };
  main = accepting;
  pc = λ _. locking;
  thread_count = λ _. 0;
}

pub data Reach (n : ℕ) : System → Type 0 where
  begin : Reach n start
  next : {s t : System} → Reach n s → Step n s t → Reach n t
