-- ===== src/WorkQueue.antt =====
-- The pool of threads of highperformenceserver/examples/15/15-3threadpool.h: `append` and `run`, with
-- the threads that call them interleaved. What is done between `lock` and `unlock` is one step. The
-- workers are alike, so the state counts those that wait returned to; `m_stop` is set only when the
-- pool is destroyed, which is left out.
pub mod Order
mod Tests
use unpvol.Common.{ℕ, suc, ◌+◌, ◌≤◌, ◌<◌, ◌≡◌, List, [], ◌∷◌, ◌++◌, length}

-- `m_workqueue`, the value of `m_queuestat`, the calls of `append` between `unlock` and `post`, the
-- workers between `wait` and `lock`, and all requests that were queued and taken off so far.
pub record Pool : Type 0 where
  pub workqueue : List ℕ
  pub queuestat : ℕ
  pub posting : ℕ
  pub woken : ℕ
  pub appended : List ℕ
  pub taken : List ℕ

abbrev pub new_pool : Pool
new_pool = record {
  workqueue = [];
  queuestat = 0;
  posting = 0;
  woken = 0;
  appended = [];
  taken = [];
}

-- The critical section of `append`, when there is room.
abbrev pub pushed_back : ℕ → Pool → Pool
pushed_back request p = record p {
  workqueue = p.workqueue ++ request ∷ [];
  posting = p.posting + 1;
  appended = p.appended ++ request ∷ [];
}

-- That of `run`, with the rest of a queue that is not empty.
abbrev pub popped_front : ℕ → ℕ → List ℕ → Pool → Pool
popped_front w request rest p = record p {
  workqueue = rest;
  woken = w;
  taken = p.taken ++ request ∷ [];
}

-- A step of a pool with `m_max_requests`.
pub data Step (max : ℕ) (p : Pool) : Pool → Type 0 where
  appends : (request : ℕ) → length p.workqueue ≤ max → Step max p (pushed_back request p)
  refuses : max < length p.workqueue → Step max p p
  posts :
      {n : ℕ}
      → p.posting ≡ suc n
      → Step max p (record p { posting = n; queuestat = p.queuestat + 1 })
  waits :
      {n : ℕ} → p.queuestat ≡ suc n → Step max p (record p { queuestat = n; woken = p.woken + 1 })
  takes :
      {w request : ℕ} {rest : List ℕ}
      → p.woken ≡ suc w
      → p.workqueue ≡ request ∷ rest
      → Step max p (popped_front w request rest p)
  continues : {w : ℕ} → p.woken ≡ suc w → p.workqueue ≡ [] → Step max p (record p { woken = w })

pub data Reach (max : ℕ) : Pool → Type 0 where
  starts : Reach max new_pool
  steps : {p q : Pool} → Reach max p → Step max p q → Reach max q
