-- ===== src/Timers/Heap/Build.antt =====
-- The constructor makes a heap of any array, and lazy deletion keeps it one.
use unpvol.Common.{
  ℕ, zero, suc, ◌+◌, ◌/◌, ◌≤◌, ◌<◌, ◌≡◌, refl, inl, inr, none, some, List, [], ◌∷◌, ◌⊎◌, ◌-◌, ◌&&◌,
  sum_below_none, ltb, ◌==◌, if◌then◌else◌, arith, ◌∙◌, sum_below, Bool-cases,
}
use unpvol.Timers.Heap.{
  HeapTimer, Timers, TimeHeap, parent, percolate_down, heapify, heap_of, without_cb, del_timer,
  called, tick,
}
use unpvol.Timers.Heap.Order.{IsOrderedFrom, IsHeap, total}
use unpvol.Timers.Heap.Down.{percolate_down-ordered, percolate_down-total}
use unpvol.Timers.Heap.Tick.{weigh, tick-IsTicked}

heapify-ordered :
    (i : ℕ) (a : Timers) (size : ℕ)
    → IsOrderedFrom i a size
    → IsOrderedFrom 0 (heapify i a size) size
unfolding heapify
heapify-ordered zero a size o = o
heapify-ordered (suc i) a size o = heapify-ordered i (percolate_down a size i) size (
    percolate_down-ordered i a size i (record {
      edges = λ c p q r n m. o c p q (omega arith);
      above = λ p q. absurd (omega arith);
      bridged = λ c p q r s t. absurd (omega arith);
    }))

heapify-total :
    (weight : HeapTimer → ℕ) (i : ℕ) (a : Timers) (size : ℕ)
    → i ≤ size
    → sum_below weight (heapify i a size) size ≡ sum_below weight a size
unfolding heapify
heapify-total weight zero a size h = refl
heapify-total weight (suc i) a size h =
    heapify-total weight i (percolate_down a size i) size (omega arith)
    ∙ percolate_down-total weight a size i h

built : Timers → ℕ → Timers
built init size = if size == 0 then init else heapify ((size - 1) / 2 + 1) init size

parents-ordered : (a : Timers) (size : ℕ) → IsOrderedFrom ((size - 1) / 2 + 1) a size
parents-ordered a size c p q r = absurd (omega arith)

built-ordered : (init : Timers) (size : ℕ) → IsOrderedFrom 0 (built init size) size
unfolding built
built-ordered init size = elim (Bool-cases (size == 0)) [
  | inl t ↦ rw t (λ c p q r. absurd (ground (arith, t, q)))
  | inr f ↦ rw f (heapify-ordered ((size - 1) / 2 + 1) init size (parents-ordered init size))
]

built-total :
    (weight : HeapTimer → ℕ) (init : Timers) (size : ℕ)
    → sum_below weight (built init size) size ≡ sum_below weight init size
unfolding built
built-total weight init size = elim (Bool-cases (size == 0)) [
  | inl t ↦ rw t refl
  | inr f ↦ rw f (heapify-total weight ((size - 1) / 2 + 1) init size (ground (arith, f)))
]

-- The constructor from an array throws if and only if the timers do not fit; otherwise it makes a
-- heap of exactly the timers of the array, in whatever order they stand.
pub heap_of-IsHeap :
    (init : Timers) (size capacity : ℕ)
    → ((capacity < size) × (heap_of init size capacity ≡ none))
      ⊎ ((size ≤ capacity)
          × (h : TimeHeap) × (heap_of init size capacity ≡ some h)
          × IsHeap h
          × ((weight : HeapTimer → ℕ) → total weight h ≡ sum_below weight init size))
unfolding heap_of built
heap_of-IsHeap init size capacity = elim (Bool-cases (ltb capacity size)) [
  | inl t ↦ inl (ground (arith, t), rw t refl)
  | inr f ↦ inr (
    ground (arith, f),
    record { array = built init size; capacity = capacity; cur_size = size },
    rw f refl,
    built-ordered init size,
    λ weight. built-total weight init size,
  )
]

same_expire : (id : ℕ) (t : HeapTimer) → (without_cb id t).expire ≡ t.expire
same_expire id t = ground arith

del_timer-IsHeap : (timer : HeapTimer) (h : TimeHeap) → IsHeap h → IsHeap (del_timer (some timer) h)
unfolding del_timer
del_timer-IsHeap timer h o c p q r =
    rw (same_expire timer.id (h.array (parent c)), same_expire timer.id (h.array c)) (o c p q r)

-- A callback that is set, for the timer with an id.
abbrev calls : ℕ → HeapTimer → ℕ
calls id t = if t.live && t.id == id then 1 else 0

without_cb-calls : (id : ℕ) (t : HeapTimer) → calls id (without_cb id t) ≡ 0
without_cb-calls id t = ground arith

unfoldable pub times : ℕ → List ℕ → ℕ
times id [] = 0
times id (x ∷ xs) = (if x == id then 1 else 0) + times id xs

times-called : (id : ℕ) (ts : List HeapTimer) → times id (called ts) ≡ weigh (calls id) ts
unfolding times called weigh
times-called id [] = refl
times-called id (t ∷ ts) = ground (arith, times-called id ts)

-- After `del_timer` the heap is still one, and no later `tick` calls the timer's callback, although the
-- timer stays in the heap until it expires.
pub del_timer-silences :
    (cur : ℕ) (timer : HeapTimer) (h : TimeHeap)
    → IsHeap h
    → IsHeap (del_timer (some timer) h)
      × (times timer.id (called (tick cur (del_timer (some timer) h)).popped) ≡ 0)
      × ((del_timer (some timer) h).cur_size ≡ h.cur_size)
unfolding del_timer
del_timer-silences cur timer h o =
    let d = del_timer (some timer) h in
    let none_left : total (calls timer.id) d ≡ 0 =
      sum_below_none (calls timer.id) d.array d.cur_size
        (λ i p. without_cb-calls timer.id (h.array i)) in
    let kept = (tick-IsTicked cur d (del_timer-IsHeap timer h o)).conserved (calls timer.id) in
    (
      del_timer-IsHeap timer h o,
      omega (arith, times-called timer.id (tick cur d).popped, kept, none_left),
      refl,
    )
