-- ===== src/WorkQueue/Tests.antt =====
-- A request is appended and taken.
use unpvol.Common.{refl, [], ◌∷◌, arith}
use unpvol.WorkQueue.{Pool, appends, posts, waits, takes, Reach, starts, steps}
use unpvol.WorkQueue.Order.{IsOrderly, Reach-IsOrderly}

-- The queue of size 1, with the request 7 appended and taken off again.
abbrev served : Pool
served = record {
  workqueue = [];
  queuestat = 0;
  posting = 0;
  woken = 0;
  appended = 7 ∷ [];
  taken = 7 ∷ [];
}

served-Reach : Reach 1 served
served-Reach =
    steps
      (steps (steps (steps starts (appends 7 (omega arith))) (posts {n = 0} refl))
        (waits {n = 0} refl))
      (takes {w = 0} {request = 7} {rest = []} refl refl)

Reach-IsOrderly_example : IsOrderly 1 served
Reach-IsOrderly_example = Reach-IsOrderly 1 served served-Reach
