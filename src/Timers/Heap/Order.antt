-- ===== src/Timers/Heap/Order.antt =====
-- The heap order and the contents of a heap.
use unpvol.Common.{ℕ, zero, suc, ◌≤◌, ◌<◌, arith, sum_below}
use unpvol.Timers.Heap.{HeapTimer, Timers, TimeHeap, parent}

-- No timer from `lo` on expires before its parent, if that stands at `lo` or behind it.
abbrev pub IsOrderedFrom : ℕ → Timers → ℕ → Type 0
IsOrderedFrom lo a size =
    (c : ℕ) → 0 < c → c < size → lo ≤ parent c → (a (parent c)).expire ≤ (a c).expire

abbrev pub IsHeap : TimeHeap → Type 0
IsHeap h = IsOrderedFrom 0 h.array h.cur_size

-- The weights of the timers of a heap, together: two heaps on which all weights agree hold the same
-- timers, equally often.
abbrev pub total : (HeapTimer → ℕ) → TimeHeap → ℕ
total weight h = sum_below weight h.array h.cur_size

root_least_before :
    (k : ℕ) (a : Timers) (size i : ℕ)
    → IsOrderedFrom 0 a size
    → i < k
    → i < size
    → (a 0).expire ≤ (a i).expire
root_least_before zero a size i o h p = absurd (omega arith)
root_least_before (suc k) a size i o h p =
    ground (arith, o i, root_least_before k a size (parent i) o)

-- The first timer of a heap expires first.
pub root_least :
    (a : Timers) (size i : ℕ) → IsOrderedFrom 0 a size → i < size → (a 0).expire ≤ (a i).expire
root_least a size i o p = root_least_before (suc i) a size i o (omega arith) p
