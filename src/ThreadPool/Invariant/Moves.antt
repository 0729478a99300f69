-- ===== src/ThreadPool/Invariant/Moves.antt =====
-- A step of one thread keeps each part of the invariant.
use unpvol.Common.{
  ℕ, ◌+◌, ◌≤◌, ◌<◌, ◌≡◌, ◌≢◌, refl, ◌⊎◌, true, [], ◌∷◌, ◌++◌, arith, update, sum_below,
  sum_below-update, append_assoc, length, length-append,
}
use unpvol.ThreadPool.Refine.{
  IsValid, pending, contents, take_conn-IsValid, take_conn-some, take_conn-none,
}
use unpvol.ThreadPool.System.{
  by_main, by_thread, Pc, ended, Shared, Move, lock, wait, stir, relock, take, unlock, serve,
  System,
}
use unpvol.ThreadPool.Invariant.Defs.{
  critical, main_critical, asleep, ready, uncounted, unsignalled, Inv,
}

module _ {n : ℕ} {s : System} (inv : Inv n s) (i : ℕ) (lt : i < n) (runs : s.main ≢ ended) where
  abbrev moved : Shared → Pc → System
  moved m p = record s { shared = m; pc = update s.pc i p }

  -- The weights of the threads after thread `i` has gone from `p` to `p'`.
  record Weights (p p' : Pc) : Type 0 where
    here : s.pc i ≡ p
    sleepers :
        sum_below asleep (update s.pc i p') n + asleep p ≡ asleep p' + sum_below asleep s.pc n
    readies : sum_below ready (update s.pc i p') n + ready p ≡ ready p' + sum_below ready s.pc n
    pendings :
        sum_below uncounted (update s.pc i p') n + uncounted p
        ≡ uncounted p' + sum_below uncounted s.pc n

  Weights-update : (p' : Pc) → Weights (s.pc i) p'
  Weights-update p' = record {
    here = refl;
    sleepers = sum_below-update asleep s.pc i p' n lt;
    readies = sum_below-update ready s.pc i p' n lt;
    pendings = sum_below-update uncounted s.pc i p' n lt;
  }

  Move-thread_owns :
      {p p' : Pc} {m : Shared}
      → Move i s.shared p m p'
      → s.pc i ≡ p
      → (j : ℕ) → critical (update s.pc i p' j) ≡ true
      → m.owner ≡ by_thread j
  Move-thread_owns (lock g) w j c = ground (arith, inv.thread_owns j)
  Move-thread_owns (wait g) w j c = ground (arith, inv.thread_owns j, inv.thread_owns i)
  Move-thread_owns stir w j c = ground (arith, inv.thread_owns j)
  Move-thread_owns (relock g) w j c = ground (arith, inv.thread_owns j)
  Move-thread_owns (take g) w j c = ground (arith, inv.thread_owns j, inv.thread_owns i)
  Move-thread_owns unlock w j c = ground (arith, inv.thread_owns j, inv.thread_owns i)
  Move-thread_owns serve w j c = ground (arith, inv.thread_owns j)

  Move-main_owns :
      {p p' : Pc} {m : Shared}
      → Move i s.shared p m p'
      → s.pc i ≡ p
      → main_critical s.main ≡ true
      → m.owner ≡ by_main
  Move-main_owns (lock g) w c = ground (arith, inv.main_owns c)
  Move-main_owns (wait g) w c = ground (arith, inv.main_owns c, inv.thread_owns i)
  Move-main_owns stir w c = inv.main_owns c
  Move-main_owns (relock g) w c = ground (arith, inv.main_owns c)
  Move-main_owns (take g) w c = inv.main_owns c
  Move-main_owns unlock w c = ground (arith, inv.main_owns c, inv.thread_owns i)
  Move-main_owns serve w c = inv.main_owns c

  Move-queue :
      {p p' : Pc} {m : Shared}
      → Move i s.shared p m p'
      → IsValid (m.queue) × (m.queued ≡ m.handed ++ contents m.queue)
  Move-queue (take {connfd} {q} g) = (
    take_conn-IsValid s.shared.queue q connfd inv.valid g,
    ground (
      arith,
      inv.fifo runs,
      take_conn-some s.shared.queue inv.valid g,
      append_assoc s.shared.handed (connfd ∷ []) (contents q),
    ),
  )
  Move-queue (lock g) = (inv.valid, inv.fifo runs)
  Move-queue (wait g) = (inv.valid, inv.fifo runs)
  Move-queue stir = (inv.valid, inv.fifo runs)
  Move-queue (relock g) = (inv.valid, inv.fifo runs)
  Move-queue unlock = (inv.valid, inv.fifo runs)
  Move-queue serve = (inv.valid, inv.fifo runs)

  Move-counted :
      {p p' : Pc} {m : Shared}
      → Move i s.shared p m p'
      → Weights p p'
      → sum_below (λ k. k) s.thread_count n + sum_below uncounted (update s.pc i p') n
        ≡ length m.handed
  Move-counted (take {connfd} g) w =
      omega (arith, inv.counted, w.pendings, length-append s.shared.handed (connfd ∷ []))
  Move-counted (lock g) w = omega (arith, inv.counted, w.pendings)
  Move-counted (wait g) w = omega (arith, inv.counted, w.pendings)
  Move-counted stir w = omega (arith, inv.counted, w.pendings)
  Move-counted (relock g) w = omega (arith, inv.counted, w.pendings)
  Move-counted unlock w = omega (arith, inv.counted, w.pendings)
  Move-counted serve w = omega (arith, inv.counted, w.pendings)

  Move-awake :
      {p p' : Pc} {m : Shared}
      → Move i s.shared p m p'
      → Weights p p'
      → (sum_below asleep (update s.pc i p') n ≡ 0)
        ⊎ (pending m.queue ≤ sum_below ready (update s.pc i p') n + unsignalled s.main)
  Move-awake (take g) w =
      omega
        (arith, inv.awake runs, w.sleepers, w.readies, take_conn-some s.shared.queue inv.valid g)
  Move-awake (lock g) w = omega (arith, inv.awake runs, w.sleepers, w.readies)
  Move-awake (wait g) w =
      omega
        (arith, inv.awake runs, w.sleepers, w.readies, take_conn-none s.shared.queue inv.valid g)
  Move-awake stir w = omega (arith, inv.awake runs, w.sleepers, w.readies)
  Move-awake (relock g) w = omega (arith, inv.awake runs, w.sleepers, w.readies)
  Move-awake unlock w = omega (arith, inv.awake runs, w.sleepers, w.readies)
  Move-awake serve w = omega (arith, inv.awake runs, w.sleepers, w.readies)

  pub Move-Inv : {p' : Pc} {m : Shared} → Move i s.shared (s.pc i) m p' → Inv n (moved m p')
  Move-Inv {p'} mv = record {
    valid = (Move-queue mv).0;
    thread_owns = Move-thread_owns mv refl;
    main_owns = Move-main_owns mv refl;
    fifo = λ _. (Move-queue mv).1;
    counted = Move-counted mv (Weights-update p');
    awake = λ _. Move-awake mv (Weights-update p');
  }
