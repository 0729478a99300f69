-- ===== src/ThreadPool/Invariant.antt =====
-- What every reachable state of 30chp/serv08.c satisfies.
mod Defs
mod Moves
pub use Defs.*
use Moves.{Move-Inv}
use unpvol.Common.{
  ℕ, zero, suc, ◌+◌, ◌≤◌, ◌<◌, ◌≡◌, ◌≢◌, refl, ◌⊎◌, inl, inr, Bool, true, false, none, some, List,
  [], ◌∷◌, ◌++◌, arith, update, sum_below, sum_below-update, le-sum_below, append_assoc, length,
  length-append, sum_below-const, sum_below_pos, dec_lt,
}
use unpvol.ThreadPool.Queue.{Clifd, empty, put, take_conn, stored, exited}
use unpvol.ThreadPool.Refine.{
  IsValid, pending, contents, put_refines, take_conn_refines, put-IsValid, take_conn-IsValid,
  empty-IsValid, segment, take_conn-some, take_conn-none, put_stored, put_stored-IsValid,
  put_exited-IsValid,
}
use unpvol.ThreadPool.Fifo
use unpvol.ThreadPool.System.{
  Owner, free, by_main, by_thread, Pc, locking, testing, sleeping, woken, leaving, counting,
  serving, MainPc, accepting, waiting, storing, signalling, unlocking, ended, Shared, Move, lock,
  wait, stir, relock, take, unlock, serve, System, Step, thread, count, accept, main_lock, main_put,
  main_full, signal_one, signal_none, main_unlock, start, Reach, begin, next,
}

pub Inv-start : (n : ℕ) → Inv n start
unfolding contents segment
Inv-start n = record {
  valid = empty-IsValid;
  thread_owns = λ i e. cc;
  main_owns = λ e. cc;
  fifo = λ _. refl;
  counted =
      omega
        (arith, sum_below-const (λ (k : ℕ). k) 0 n refl, sum_below-const uncounted locking n refl);
  awake = λ _. inl (sum_below-const asleep locking n refl);
}

module _ {n : ℕ} {s : System} (inv : Inv n s) where
  Inv-count :
      (i : ℕ) {connfd : ℕ}
      → i < n
      → s.pc i ≡ counting connfd
      → Inv n (record s {
        pc = update s.pc i (serving connfd);
        thread_count = update s.thread_count i (s.thread_count i + 1);
      })
  Inv-count i {connfd} lt e = record {
    valid = inv.valid;
    thread_owns = λ j c. ground (arith, inv.thread_owns j);
    main_owns = inv.main_owns;
    fifo = inv.fifo;
    counted = ground (
      arith,
      inv.counted,
      sum_below-update uncounted s.pc i (serving connfd) n lt,
      sum_below-update (λ (k : ℕ). k) s.thread_count i (s.thread_count i + 1) n lt,
    );
    awake = λ runs. ground (
      arith,
      inv.awake runs,
      sum_below-update asleep s.pc i (serving connfd) n lt,
      sum_below-update ready s.pc i (serving connfd) n lt,
    );
  }

  -- A step of `main` that changes no thread and no queue.
  Inv-main :
      (main' : MainPc) (o : Owner)
      → s.main ≢ ended
      → ((i : ℕ) → critical (s.pc i) ≡ true → o ≡ by_thread i)
      → (main_critical main' ≡ true → o ≡ by_main)
      → unsignalled s.main ≤ unsignalled main'
      → Inv n (record s { main = main'; shared = record (s.shared) { owner = o } })
  Inv-main main' o runs threads mains less = record {
    valid = inv.valid;
    thread_owns = threads;
    main_owns = mains;
    fifo = λ _. inv.fifo runs;
    counted = inv.counted;
    awake = λ _. omega (arith, inv.awake runs);
  }

  Inv-put :
      {connfd : ℕ} {q : Clifd}
      → s.main ≡ storing connfd
      → put s.shared.queue connfd ≡ stored q
      → Inv n (record s {
        main = signalling;
        shared = record (s.shared) { queue = q; queued = s.shared.queued ++ (connfd ∷ []) };
      })
  Inv-put {connfd} {q} e g = record {
    valid = put_stored-IsValid s.shared.queue connfd inv.valid g;
    thread_owns = inv.thread_owns;
    main_owns = λ _. inv.main_owns (rw e);
    fifo = λ _. ground (
      arith,
      inv.fifo (λ x. cc),
      put_stored s.shared.queue connfd inv.valid g,
      append_assoc s.shared.handed (contents s.shared.queue) (connfd ∷ []),
    );
    counted = inv.counted;
    awake = λ _. ground (arith, inv.awake (λ x. cc), put_stored s.shared.queue connfd inv.valid g);
  }

  Inv-signal :
      (i : ℕ)
      → i < n
      → s.main ≡ signalling
      → s.pc i ≡ sleeping
      → Inv n (record s { main = unlocking; pc = update s.pc i woken })
  Inv-signal i lt e z = record {
    valid = inv.valid;
    thread_owns = λ j c. ground (arith, inv.thread_owns j);
    main_owns = λ _. inv.main_owns (rw e);
    fifo = λ _. inv.fifo (λ x. cc);
    counted = ground (arith, inv.counted, sum_below-update uncounted s.pc i woken n lt);
    awake = λ _. ground (
      arith,
      inv.awake (λ x. cc),
      sum_below-update asleep s.pc i woken n lt,
      sum_below-update ready s.pc i woken n lt,
    );
  }

none_asleep :
    (n : ℕ) (s : System) → ((i : ℕ) → i < n → s.pc i ≢ sleeping) → sum_below asleep s.pc n ≡ 0
none_asleep n s h = elim (dec_lt 0 (sum_below asleep s.pc n)) [
  | yes p ↦ let (i, lt, w) = sum_below_pos asleep s.pc n p in ground (arith, h i lt)
  | no p ↦ omega arith
]

-- Every step keeps the invariant.
pub Step-Inv : {n : ℕ} {s t : System} → Step n s t → Inv n s → Inv n t
Step-Inv (thread i lt runs mv) inv = Move-Inv inv i lt runs mv
Step-Inv (count i lt runs e) inv = Inv-count inv i lt e
Step-Inv {s} (accept {connfd} e) inv =
    Inv-main inv (waiting connfd) s.shared.owner (λ x. cc) inv.thread_owns (λ c. cc) (ground arith)
Step-Inv (main_lock {connfd} e g) inv =
    Inv-main inv (storing connfd) by_main (λ x. cc) (λ i c. ground (arith, inv.thread_owns i c))
      (λ c. refl) (ground arith)
Step-Inv (main_put e g) inv = Inv-put inv e g
Step-Inv {s} (main_full {connfd} e g) inv = record {
  valid = put_exited-IsValid s.shared.queue connfd inv.valid g;
  thread_owns = inv.thread_owns;
  main_owns = λ c. cc;
  fifo = λ runs. absurd (runs refl);
  counted = inv.counted;
  awake = λ runs. absurd (runs refl);
}
Step-Inv (signal_one i lt e z) inv = Inv-signal inv i lt e z
Step-Inv {n} {s} (signal_none e none_sleeps) inv = record {
  valid = inv.valid;
  thread_owns = inv.thread_owns;
  main_owns = λ c. inv.main_owns (rw e);
  fifo = λ runs. inv.fifo (λ x. cc);
  counted = inv.counted;
  awake = λ runs. inl (none_asleep n s none_sleeps);
}
Step-Inv (main_unlock e) inv =
    Inv-main inv accepting free (λ x. cc)
      (λ i c. ground (arith, inv.thread_owns i c, inv.main_owns)) (λ c. cc) (ground arith)

pub Reach-Inv : {n : ℕ} {s : System} → Reach n s → Inv n s
Reach-Inv {n} begin = Inv-start n
Reach-Inv (next r st) = Step-Inv st (Reach-Inv r)
