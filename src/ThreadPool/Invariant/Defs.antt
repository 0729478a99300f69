-- ===== src/ThreadPool/Invariant/Defs.antt =====
-- The invariant of 30chp/serv08.c: the mutex, the order of the connections, the counts, and the
-- threads that a signal must have woken.
use unpvol.Common.{ℕ, ◌+◌, ◌≤◌, ◌≡◌, ◌≢◌, ◌⊎◌, Bool, true, false, ◌++◌, sum_below, length}
use unpvol.ThreadPool.Refine.{IsValid, pending, contents}
use unpvol.ThreadPool.System.{
  by_main, by_thread, Pc, locking, testing, sleeping, woken, leaving, counting, MainPc, storing,
  signalling, unlocking, ended, System,
}

-- Between a lock of `clifd_mutex` and its unlock.
abbrev pub critical : Pc → Bool
critical testing = true
critical (leaving _) = true
critical _ = false

abbrev pub main_critical : MainPc → Bool
main_critical (storing _) = true
main_critical signalling = true
main_critical unlocking = true
main_critical _ = false

abbrev pub asleep : Pc → ℕ
asleep sleeping = 1
asleep _ = 0

-- A thread that will test the queue before it sleeps.
abbrev pub ready : Pc → ℕ
ready locking = 1
ready testing = 1
ready woken = 1
ready _ = 0

-- A connection taken and not yet counted.
abbrev pub uncounted : Pc → ℕ
uncounted (leaving _) = 1
uncounted (counting _) = 1
uncounted _ = 0

-- A `put` whose signal is still to come.
abbrev pub unsignalled : MainPc → ℕ
unsignalled signalling = 1
unsignalled _ = 0

pub record Inv (n : ℕ) (s : System) : Type 0 where
  pub valid : IsValid (s.shared.queue)
  pub thread_owns : (i : ℕ) → critical (s.pc i) ≡ true → s.shared.owner ≡ by_thread i
  pub main_owns : main_critical s.main ≡ true → s.shared.owner ≡ by_main
  pub fifo : s.main ≢ ended → s.shared.queued ≡ s.shared.handed ++ contents s.shared.queue
  pub counted :
      sum_below (λ k. k) s.thread_count n + sum_below uncounted s.pc n ≡ length s.shared.handed
  pub awake :
      s.main ≢ ended
      → (sum_below asleep s.pc n ≡ 0)
        ⊎ (pending s.shared.queue ≤ sum_below ready s.pc n + unsignalled s.main)
