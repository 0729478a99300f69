-- ===== src/Timers/Heap/Up.antt =====
-- `add_timer` keeps the order and adds its timer.
use unpvol.Common.{
  ℕ, zero, suc, ◌+◌, ◌≤◌, ◌<◌, ◌≡◌, ◌≢◌, refl, inl, inr, ◌&&◌, some, ltb, leb, arith, update,
  update_ne, ap, sum_below, sum_below-update, sum_below-update_behind, sum_below-last, update_self,
  Bool-cases,
}
use unpvol.Timers.Heap.{HeapTimer, Timers, TimeHeap, parent, rise, place, resize, add_timer}
use unpvol.Timers.Heap.Order.{IsOrderedFrom, IsHeap, total}

-- With `timer` to be written at `hole`, which stands at the end of a path to the root: all edges that
-- do not touch the hole are in order, `timer` fits below the hole, and so does what is above it.
record IsRising (a : Timers) (size hole : ℕ) (timer : HeapTimer) : Type 0 where
  inside : hole < size
  edges :
      (c : ℕ) → 0 < c → c < size → c ≢ hole → parent c ≢ hole → (a (parent c)).expire ≤ (a c).expire
  below : (c : ℕ) → 0 < c → c < size → parent c ≡ hole → timer.expire ≤ (a c).expire
  bridged :
      (c : ℕ)
      → 0 < c
      → c < size
      → parent c ≡ hole
      → 0 < hole
      → (a (parent hole)).expire ≤ (a c).expire

IsRising-settled :
    (a : Timers) (size hole : ℕ) (timer : HeapTimer)
    → IsRising a size hole timer
    → (0 < hole → (a (parent hole)).expire ≤ timer.expire)
    → IsOrderedFrom 0 (update a hole timer) size
IsRising-settled a size hole timer s above c p q r = ground (arith, s.edges c, s.below c, above)

IsRising-step :
    (a : Timers) (size hole : ℕ) (timer : HeapTimer)
    → IsRising a size hole timer
    → 0 < hole
    → timer.expire < (a (parent hole)).expire
    → IsRising (update a hole (a (parent hole))) size (parent hole) timer
IsRising-step a size hole timer s pos less = record {
  inside = omega (arith, s.inside);
  edges = λ c p q n o. ground (arith, s.edges c, s.bridged c);
  below = λ c p q e. ground (arith, s.edges c, less);
  bridged = λ c p q e f. ground (arith, s.edges c, s.edges (parent hole));
}

rise-ordered :
    (turns : ℕ) (a : Timers) (size hole : ℕ) (timer : HeapTimer)
    → hole ≤ turns
    → IsRising a size hole timer
    → IsOrderedFrom 0 (rise turns a hole timer) size
unfolding rise
rise-ordered zero a size hole timer f s =
    IsRising-settled a size hole timer s (λ p. absurd (omega arith))
rise-ordered (suc turns) a size hole timer f s =
    elim (Bool-cases (ltb 0 hole && ltb timer.expire (a (parent hole)).expire)) [
      | inl t ↦ rw t (
          rise-ordered turns (update a hole (a (parent hole))) size (parent hole) timer
            (ground (arith, t, f))
            (IsRising-step a size hole timer s (ground (arith, t)) (ground (arith, t))))
      | inr e ↦ rw e (IsRising-settled a size hole timer s (λ p. ground (arith, e)))
    ]

rise-total :
    (weight : HeapTimer → ℕ) (turns : ℕ) (a : Timers) (size hole : ℕ) (timer : HeapTimer)
    → hole < size
    → sum_below weight (rise turns a hole timer) size ≡ sum_below weight (update a hole timer) size
unfolding rise
rise-total weight zero a size hole timer h = refl
rise-total weight (suc turns) a size hole timer h =
    elim (Bool-cases (ltb 0 hole && ltb timer.expire (a (parent hole)).expire)) [
      | inl t ↦
          let pos : 0 < hole = ground (arith, t) in
          let above : parent hole < size = omega arith in
          let b = update a hole (a (parent hole)) in
          let same : b (parent hole) ≡ a (parent hole) =
            update_ne a {i = hole} {j = parent hole} (a (parent hole)) (omega arith) in
          let same_weight : weight (b (parent hole)) ≡ weight (a (parent hole)) = ap weight same in
          rw t (
            omega (
              arith,
              rise-total weight turns b size (parent hole) timer above,
              sum_below-update weight b (parent hole) timer size above,
              sum_below-update weight a hole (a (parent hole)) size h,
              sum_below-update weight a hole timer size h,
              same_weight,
            ))
      | inr e ↦ rw e refl
    ]

IsRising-start :
    (h : TimeHeap) (timer : HeapTimer)
    → IsHeap h
    → IsRising h.array (h.cur_size + 1) h.cur_size timer
IsRising-start h timer o = record {
  inside = omega arith;
  edges = λ c p q n m. o c p (omega arith) (omega arith);
  below = λ c p q e. absurd (omega arith);
  bridged = λ c p q e f. absurd (omega arith);
}

place-IsHeap : (h : TimeHeap) (timer : HeapTimer) → IsHeap h → IsHeap (place timer h)
unfolding place
place-IsHeap h timer o =
    rise-ordered h.cur_size h.array (h.cur_size + 1) h.cur_size timer (omega arith)
      (IsRising-start h timer o)

place-total :
    (weight : HeapTimer → ℕ) (h : TimeHeap) (timer : HeapTimer)
    → total weight (place timer h) ≡ weight timer + total weight h
unfolding place
place-total weight h timer =
    let n = h.cur_size in
    let b = update h.array n timer in
    let top : weight (b n) ≡ weight timer = ap weight (update_self h.array n timer) in
    omega (
      arith,
      rise-total weight n h.array (n + 1) n timer (omega arith),
      sum_below-last weight b n,
      top,
      sum_below-update_behind weight h.array n timer n (omega arith),
    )

resize-room :
    (h : TimeHeap)
    → 0 < h.capacity
    → h.cur_size ≤ h.capacity
    → (resize h).cur_size < (resize h).capacity
unfolding resize
resize-room h room le = omega arith

place-room :
    (h : TimeHeap) (timer : HeapTimer)
    → h.cur_size < h.capacity
    → (place timer h).cur_size ≤ (place timer h).capacity
unfolding place
place-room h timer le = omega arith

-- `add_timer` on a heap whose array is not empty: the heap stays in order, the timer is added to its
-- contents and nothing else changes in them, and the array has room for it.
pub add_timer-IsHeap :
    (weight : HeapTimer → ℕ) (h : TimeHeap) (timer : HeapTimer)
    → IsHeap h
    → 0 < h.capacity
    → h.cur_size ≤ h.capacity
    → IsHeap (add_timer (some timer) h)
      × (total weight (add_timer (some timer) h) ≡ weight timer + total weight h)
      × ((add_timer (some timer) h).cur_size ≡ h.cur_size + 1)
      × ((add_timer (some timer) h).cur_size ≤ (add_timer (some timer) h).capacity)
unfolding add_timer resize place
add_timer-IsHeap weight h timer o room le = elim (Bool-cases (leb h.capacity h.cur_size)) [
  | inl t ↦ rw t (
    place-IsHeap (resize h) timer o,
    place-total weight (resize h) timer,
    refl,
    place-room (resize h) timer (resize-room h room le),
  )
  | inr f ↦ rw f (
    place-IsHeap h timer o,
    place-total weight h timer,
    refl,
    place-room h timer (ground (arith, f)),
  )
]
