-- ===== src/Timers/Heap/Tests.antt =====
-- A heap of three timers.
use unpvol.Common.{
  ℕ, ◌+◌, ◌≤◌, ◌<◌, ◌≡◌, ◌⊎◌, true, none, some, arith, sum_below, ◌==◌, if◌then◌else◌,
}
use unpvol.Timers.Heap.{HeapTimer, Timers, TimeHeap, new_heap, add_timer, heap_of, tick}
use unpvol.Timers.Heap.Order.{IsHeap, total}
use unpvol.Timers.Heap.Up.{add_timer-IsHeap}
use unpvol.Timers.Heap.Tick.{IsTicked, tick-IsTicked}
use unpvol.Timers.Heap.Build.{heap_of-IsHeap}

abbrev timer : ℕ → ℕ → HeapTimer
timer i e = record { id = i; expire = e; live = true }

abbrev nulls : Timers
nulls i = timer 0 0

abbrev empty : TimeHeap
empty = new_heap 1 nulls

empty-IsHeap : IsHeap empty
empty-IsHeap c p q r = absurd (omega arith)

add_timer-IsHeap_example :
    IsHeap (add_timer (some (timer 1 30)) empty)
    × (total (λ t. t.id) (add_timer (some (timer 1 30)) empty) ≡ 1 + total (λ t. t.id) empty)
    × ((add_timer (some (timer 1 30)) empty).cur_size ≡ 0 + 1)
    × ((add_timer (some (timer 1 30)) empty).cur_size
        ≤ (add_timer (some (timer 1 30)) empty).capacity)
add_timer-IsHeap_example =
    add_timer-IsHeap (λ t. t.id) empty (timer 1 30) empty-IsHeap (omega arith) (omega arith)

-- The array 30, 10, 20.
abbrev three : Timers
three i = if i == 0 then timer 1 30 else if i == 1 then timer 2 10 else timer 3 20

heap_of-IsHeap_example :
    ((3 < 3) × (heap_of three 3 3 ≡ none))
    ⊎ ((3 ≤ 3)
        × (h : TimeHeap) × (heap_of three 3 3 ≡ some h)
        × IsHeap h
        × ((weight : HeapTimer → ℕ) → total weight h ≡ sum_below weight three 3))
heap_of-IsHeap_example = heap_of-IsHeap three 3 3

abbrev one : TimeHeap
one = add_timer (some (timer 1 30)) empty

one-IsHeap : IsHeap one
one-IsHeap =
    (add_timer-IsHeap (λ t. 0) empty (timer 1 30) empty-IsHeap (omega arith) (omega arith)).0

tick-IsTicked_example : IsTicked 0 40 one (tick 40 one)
tick-IsTicked_example = tick-IsTicked 40 one one-IsHeap
