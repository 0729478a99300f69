-- ===== src/ThreadPool/Tests.antt =====
-- Runs of the ring and of the threads, and the theorems at concrete states.
use unpvol.Common.{
  ℕ, ◌+◌, ◌<◌, ◌≡◌, ◌≢◌, refl, true, false, [], ◌∷◌, ◌++◌, arith, length, replicate, sum_below,
}
use unpvol.ThreadPool.Queue.{Clifd, put, take_conn}
use unpvol.ThreadPool.Fifo
use unpvol.ThreadPool.Refine.{contents, segment, view, view_take, put_refines, take_conn_refines}
use unpvol.ThreadPool.System.{
  lock, wait, System, thread, accept, main_lock, accepting, ended, unlocking, signalling, main_put,
  signal_one, Reach, begin, next,
}
use unpvol.ThreadPool.Invariant.{critical, main_critical, ready, uncounted}
use unpvol.ThreadPool.Safety.{mutual_exclusion, connections_in_order, counts_add_up, no_lost_wakeup}

-- 8, then 9, round the end of the array
abbrev wrapped : Clifd
wrapped = record { clifd = 9 ∷ replicate 30 7 ++ 8 ∷ []; iget = 31; iput = 1 }

contents-wrapped : contents wrapped ≡ 8 ∷ 9 ∷ []
unfolding contents segment
contents-wrapped = refl

put_refines_example : view (put wrapped 5) ≡ Fifo.put (contents wrapped) 5
put_refines_example = put_refines wrapped 5 (omega arith)

take_conn_refines_example : view_take (take_conn wrapped) ≡ Fifo.take_conn (contents wrapped)
take_conn_refines_example = take_conn_refines wrapped (omega arith)

accepting_runs : accepting ≢ ended
accepting_runs h = cc

unlocking_runs : unlocking ≢ ended
unlocking_runs h = cc

unlocking_signalled : unlocking ≢ signalling
unlocking_signalled h = cc

-- Thread 0 holds the mutex.
abbrev locked : (s : System) × Reach 2 s
locked = (_, next begin (thread 0 (omega arith) accepting_runs (lock refl)))

-- Two threads sleep, `main` puts connection 7 into the ring and wakes thread 0.
abbrev after_signal : (s : System) × Reach 2 s
unfolding put take_conn
after_signal = (
  _,
  next
      (next
        (next
          (next
            (next
              (next
                (next (next begin (thread 0 (omega arith) accepting_runs (lock refl)))
                  (thread 0 (omega arith) accepting_runs (wait refl)))
                (thread 1 (omega arith) accepting_runs (lock refl)))
              (thread 1 (omega arith) accepting_runs (wait refl)))
            (accept {connfd = 7} refl))
          (main_lock {connfd = 7} refl refl))
        (main_put {connfd = 7} refl refl))
      (signal_one 0 (omega arith) refl refl),
)

one_waits : contents after_signal.0.shared.queue ≢ []
unfolding put take_conn contents segment
one_waits h = cc

mutual_exclusion_example :
    ((j : ℕ) → critical (locked.0.pc j) ≡ true → 0 ≡ j) × (main_critical locked.0.main ≡ false)
mutual_exclusion_example = mutual_exclusion locked.1 0 refl

connections_in_order_example :
    after_signal.0.shared.queued
    ≡ after_signal.0.shared.handed ++ contents after_signal.0.shared.queue
unfolding put take_conn
connections_in_order_example = connections_in_order after_signal.1 unlocking_runs

counts_add_up_example :
    sum_below (λ k. k) locked.0.thread_count 2 + sum_below uncounted locked.0.pc 2
    ≡ length locked.0.shared.handed
counts_add_up_example = counts_add_up locked.1

no_lost_wakeup_example : (j : ℕ) × (j < 2) × (0 < ready (after_signal.0.pc j))
unfolding put take_conn
no_lost_wakeup_example =
    no_lost_wakeup after_signal.1 unlocking_runs unlocking_signalled one_waits 1 (omega arith) refl
