-- ===== src/ThreadPool/Safety.antt =====
-- What 30chp/serv08.c guarantees while it runs, however its threads are interleaved.
use unpvol.Common.{
  ℕ, ◌+◌, ◌<◌, ◌≡◌, ◌≢◌, true, false, [], ◌++◌, arith, sum_below, sum_below_pos, le-sum_below,
  length,
}
use unpvol.ThreadPool.Refine.{contents, length-contents}
use unpvol.ThreadPool.System.{sleeping, signalling, ended, System, Reach}
use unpvol.ThreadPool.Invariant.{critical, main_critical, asleep, ready, uncounted, Reach-Inv}

-- In every reachable state, two threads that both stand between the lock of `clifd_mutex` and its
-- unlock are one thread, and while one does, `main` does not.
pub mutual_exclusion :
    {n : ℕ} {s : System}
    → Reach n s
    → (i : ℕ) → critical (s.pc i) ≡ true
    → ((j : ℕ) → critical (s.pc j) ≡ true → i ≡ j) × (main_critical s.main ≡ false)
mutual_exclusion {n} {s} r i c = (
  λ j d. ground (arith, (Reach-Inv r).thread_owns i c, (Reach-Inv r).thread_owns j d),
  ground (arith, (Reach-Inv r).thread_owns i c, (Reach-Inv r).main_owns),
)

-- In every reachable state in which the server has not exited, the connections that `main` stored
-- are those that were handed to threads, in the same order, followed by those in the ring: none is
-- lost, handed out twice or overtaken.
pub connections_in_order :
    {n : ℕ} {s : System}
    → Reach n s
    → s.main ≢ ended
    → s.shared.queued ≡ s.shared.handed ++ contents s.shared.queue
connections_in_order r runs = (Reach-Inv r).fifo runs

-- In every reachable state the `thread_count` of the threads sum up to the connections that were
-- handed out, less those of the threads that have still to count theirs.
pub counts_add_up :
    {n : ℕ} {s : System}
    → Reach n s
    → sum_below (λ k. k) s.thread_count n + sum_below uncounted s.pc n ≡ length s.shared.handed
counts_add_up r = (Reach-Inv r).counted

-- No wake-up is lost: in every reachable state in which the server has not exited and `main` has no
-- signal to send, if a connection waits in the ring and some thread sleeps, then another thread
-- is about to test the ring.
pub no_lost_wakeup :
    {n : ℕ} {s : System}
    → Reach n s
    → s.main ≢ ended
    → s.main ≢ signalling
    → contents s.shared.queue ≢ []
    → (i : ℕ) → i < n
    → s.pc i ≡ sleeping
    → (j : ℕ) × (j < n) × (0 < ready (s.pc j))
no_lost_wakeup {n} {s} r runs signalled waits i lt e = sum_below_pos ready s.pc n (
    ground (
      arith,
      (Reach-Inv r).awake runs,
      le-sum_below asleep s.pc n i lt,
      length-contents s.shared.queue,
    ))
