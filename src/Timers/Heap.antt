-- ===== src/Timers/Heap.antt =====
-- The time heap of highperformenceserver/examples/11/11-6time_heap.h. `array` is a family over its
-- indices; its pointers below `cur_size` are never NULL, since `add_timer` turns NULL away. A
-- timer's address is its `id`, and `live` says whether its `cb_func` is set. Memory is taken to be
-- available.
pub mod Order
pub mod Down
pub mod Up
pub mod Tick
pub mod Build
mod Tests
use unpvol.Common.{
  ℕ, zero, suc, ◌+◌, ◌-◌, ◌*◌, ◌/◌, Bool, true, false, ◌&&◌, Option, none, some, List, [], ◌∷◌, ltb,
  leb, ◌==◌, if◌then◌else◌, update,
}

pub record HeapTimer : Type 0 where
  pub id : ℕ
  pub expire : ℕ
  pub live : Bool

abbrev pub Timers : Type 0
Timers = ℕ → HeapTimer

pub record TimeHeap : Type 0 where
  pub array : Timers
  pub capacity : ℕ
  pub cur_size : ℕ

abbrev pub parent : ℕ → ℕ
parent c = (c - 1) / 2

-- The child that `percolate_down` looks at; `hole * 2 + 1` is inside.
unfoldable pub smaller_child : Timers → ℕ → ℕ → ℕ
smaller_child a size hole =
    let child = hole * 2 + 1 in
    if ltb child (size - 1) && ltb (a (child + 1)).expire (a child).expire then child + 1 else child

-- The loop of `percolate_down` and the write that follows it. `cur_size` turns are enough.
unfoldable pub percolate_loop : ℕ → Timers → ℕ → ℕ → HeapTimer → Timers
percolate_loop zero a size hole temp = update a hole temp
percolate_loop (suc turns) a size hole temp =
    let child = smaller_child a size hole in
    let rest = percolate_loop turns (update a hole (a child)) size child temp in
    if leb (hole * 2 + 1) (size - 1) && ltb (a child).expire temp.expire
    then rest
    else update a hole temp

unfoldable pub percolate_down : Timers → ℕ → ℕ → Timers
percolate_down a size hole = percolate_loop size a size hole (a hole)

-- The loop of `add_timer` and the write that follows it.
unfoldable pub rise : ℕ → Timers → ℕ → HeapTimer → Timers
rise zero a hole timer = update a hole timer
rise (suc turns) a hole timer =
    let rest = rise turns (update a hole (a (parent hole))) (parent hole) timer in
    if ltb 0 hole && ltb timer.expire (a (parent hole)).expire then rest else update a hole timer

unfoldable pub resize : TimeHeap → TimeHeap
resize h = record h { capacity = 2 * h.capacity }

unfoldable pub place : HeapTimer → TimeHeap → TimeHeap
place timer h = record {
  array = rise h.cur_size h.array h.cur_size timer;
  capacity = h.capacity;
  cur_size = h.cur_size + 1;
}

unfoldable pub add_timer : Option HeapTimer → TimeHeap → TimeHeap
add_timer none h = h
add_timer (some timer) h = place timer (if leb h.capacity h.cur_size then resize h else h)

-- `timer->cb_func = NULL` in the object, wherever its pointer stands.
abbrev pub without_cb : ℕ → HeapTimer → HeapTimer
without_cb id t = if t.id == id then record t { live = false } else t

unfoldable pub del_timer : Option HeapTimer → TimeHeap → TimeHeap
del_timer none h = h
del_timer (some timer) h = record h { array = λ i. without_cb timer.id (h.array i) }

unfoldable pub top : TimeHeap → Option HeapTimer
top h = if h.cur_size == 0 then none else some (h.array 0)

unfoldable pub pop_timer : TimeHeap → TimeHeap
pop_timer h = if h.cur_size == 0 then h else record h {
  array = percolate_down (update h.array 0 (h.array (h.cur_size - 1))) (h.cur_size - 1) 0;
  cur_size = h.cur_size - 1;
}

-- `tick` at a time: what remains, and the timers that were taken off, in order.
pub record Ticked : Type 0 where
  pub heap : TimeHeap
  pub popped : List HeapTimer

unfoldable pub tick_loop : ℕ → ℕ → TimeHeap → Ticked
tick_loop zero cur h = record { heap = h; popped = [] }
tick_loop (suc turns) cur h =
    let rest = tick_loop turns cur (pop_timer h) in
    if h.cur_size == 0
    then record { heap = h; popped = [] }
    else if ltb cur (h.array 0).expire
    then record { heap = h; popped = [] }
    else record { heap = rest.heap; popped = h.array 0 ∷ rest.popped }

unfoldable pub tick : ℕ → TimeHeap → Ticked
tick cur h = tick_loop h.cur_size cur h

-- The timers whose callback `tick` calls.
unfoldable pub called : List HeapTimer → List ℕ
called [] = []
called (t ∷ ts) = if t.live then t.id ∷ called ts else called ts

-- `for ( int i = (cur_size-1)/2; i >=0; --i )` of the constructor, with the turns left.
unfoldable pub heapify : ℕ → Timers → ℕ → Timers
heapify zero a size = a
heapify (suc i) a size = heapify i (percolate_down a size i) size

-- The two constructors; none is the exception.
abbrev pub new_heap : ℕ → Timers → TimeHeap
new_heap cap nulls = record { array = nulls; capacity = cap; cur_size = 0 }

unfoldable pub heap_of : Timers → ℕ → ℕ → Option TimeHeap
heap_of init size capacity =
    if ltb capacity size
    then none
    else some (record {
      array = if size == 0 then init else heapify ((size - 1) / 2 + 1) init size;
      capacity = capacity;
      cur_size = size;
    })
