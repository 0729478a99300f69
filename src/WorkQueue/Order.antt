-- ===== src/WorkQueue/Order.antt =====
-- The requests of the pool stay in order, and none is left behind.
use unpvol.Common.{
  ℕ, suc, ◌+◌, ◌≤◌, ◌≡◌, refl, ap, sym, ◌∙◌, [], ◌∷◌, ◌++◌, arith, length, length-append,
  append_assoc,
}
use unpvol.WorkQueue.{
  Pool, Step, appends, refuses, posts, waits, takes, continues, Reach, starts, steps,
}

-- A queued request has its `post` to come, its value in the semaphore, or a worker on its way.
pub record IsOrderly (max : ℕ) (p : Pool) : Type 0 where
  pub in_order : p.appended ≡ p.taken ++ p.workqueue
  pub accounted : length p.workqueue ≡ p.posting + p.queuestat + p.woken
  pub bounded : length p.workqueue ≤ max + 1

Step-IsOrderly : (max : ℕ) (p q : Pool) → IsOrderly max p → Step max p q → IsOrderly max q
Step-IsOrderly max p _ h (appends request room) =
    let size = length-append p.workqueue (request ∷ []) in
    record {
      in_order =
          ap (λ xs. xs ++ request ∷ []) h.in_order
          ∙ append_assoc p.taken p.workqueue (request ∷ []);
      accounted = omega (arith, size, h.accounted);
      bounded = omega (arith, size, room);
    }
Step-IsOrderly max p _ h (refuses full) = h
Step-IsOrderly max p _ h (posts {n} e) = record {
  in_order = h.in_order;
  accounted = omega (arith, e, h.accounted);
  bounded = h.bounded;
}
Step-IsOrderly max p _ h (waits {n} e) = record {
  in_order = h.in_order;
  accounted = omega (arith, e, h.accounted);
  bounded = h.bounded;
}
Step-IsOrderly max p _ h (takes {w} {request} {rest} e f) =
    let size : length p.workqueue ≡ suc (length rest) = rw f refl in
    record {
      in_order =
          h.in_order ∙ ap (λ xs. p.taken ++ xs) f ∙ sym (append_assoc p.taken (request ∷ []) rest);
      accounted = omega (arith, e, size, h.accounted);
      bounded = omega (arith, size, h.bounded);
    }
Step-IsOrderly max p _ h (continues {w} e f) =
    let size : length p.workqueue ≡ 0 = rw f refl in absurd (omega (arith, e, size, h.accounted))

-- In every state that the pool reaches: the requests that the workers took, followed by those in the
-- queue, are all that were appended, in order; the queue has as many as there are posts to come,
-- values in the semaphore and workers that have been woken, so none is left without a worker; and it
-- has at most one more than `m_max_requests`.
pub Reach-IsOrderly : (max : ℕ) (p : Pool) → Reach max p → IsOrderly max p
Reach-IsOrderly max _ starts = record {
  in_order = refl;
  accounted = omega arith;
  bounded = omega arith;
}
Reach-IsOrderly max _ (steps {p} {q} r s) = Step-IsOrderly max p q (Reach-IsOrderly max p r) s
