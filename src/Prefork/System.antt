-- ===== src/Prefork/System.antt =====
-- `child_main` of 30chp/serv03.c in all children at once, step by step.
use unpvol.Common.{ℕ, ◌≡◌, Option, none, some, update}

-- Where a child is: before `my_lock_wait` returns, in `accept`, before `my_lock_release`, in
-- `web_child`, or past its end. `accept` gives a connection or -1.
pub data Pc : Type 0 where
  waiting : Pc
  accepting : Pc
  accepted : Option ℕ → Pc
  serving : Option ℕ → Pc
  ended : Pc

-- The children, and who holds the lock.
pub record System : Type 0 where
  pub children : ℕ → Pc
  pub holder : Option ℕ

abbrev pub at : System → ℕ → Pc → System
at s i pc = record s { children = update s.children i pc }

-- A process that ends loses its lock.
pub data Step (s : System) : System → Type 0 where
  lock :
      (i : ℕ)
      → s.children i ≡ waiting
      → s.holder ≡ none
      → Step s (record (at s i accepting) { holder = some i })
  lock_error : (i : ℕ) → s.children i ≡ waiting → Step s (at s i ended)
  accept : (i c : ℕ) → s.children i ≡ accepting → Step s (at s i (accepted (some c)))
  accept_error : (i : ℕ) → s.children i ≡ accepting → Step s (at s i (accepted none))
  unlock :
      (i : ℕ) (c : Option ℕ)
      → s.children i ≡ accepted c
      → Step s (record (at s i (serving c)) { holder = none })
  unlock_error :
      (i : ℕ) (c : Option ℕ)
      → s.children i ≡ accepted c
      → Step s (record (at s i ended) { holder = none })
  close : (i : ℕ) (c : Option ℕ) → s.children i ≡ serving c → Step s (at s i waiting)
  web_exit : (i : ℕ) (c : Option ℕ) → s.children i ≡ serving c → Step s (at s i ended)

abbrev pub start : System
start = record { children = λ i. waiting; holder = none }

pub data Reach : System → Type 0 where
  begun : Reach start
  moved : {s t : System} → Reach s → Step s t → Reach t
