-- ===== src/Timers/Heap/Tick.antt =====
-- `pop_timer` takes the first timer off, and `tick` all that are due, in the order in which they
-- expire.
use unpvol.Common.{
  ℕ, zero, suc, ◌+◌, ◌-◌, ◌≤◌, ◌<◌, ◌≡◌, inl, inr, false, List, [], ◌∷◌, ltb, ◌==◌, if◌then◌else◌,
  arith, update, ap, ◌∙◌, sum_below, sum_below-update, sum_below-last, sum_below-zero, le-sum_below,
  sum_below_pos, Bool-cases,
}
use unpvol.Timers.Heap.{
  HeapTimer, Timers, TimeHeap, percolate_down, pop_timer, Ticked, tick_loop, tick,
}
use unpvol.Timers.Heap.Order.{IsHeap, total, root_least}
use unpvol.Timers.Heap.Down.{percolate_down-ordered, percolate_down-total}

abbrev last_first : TimeHeap → Timers
last_first h = update h.array 0 (h.array (h.cur_size - 1))

pop_timer-IsHeap : (h : TimeHeap) → IsHeap h → IsHeap (pop_timer h)
unfolding pop_timer
pop_timer-IsHeap h o = elim (Bool-cases (h.cur_size == 0)) [
  | inl t ↦ rw t o
  | inr f ↦ rw f (
      percolate_down-ordered 0 (last_first h) (h.cur_size - 1) 0 (record {
        edges = λ c p q r n m. ground (arith, o c);
        above = λ p q. absurd (omega arith);
        bridged = λ c p q r s t. absurd (omega arith);
      }))
]

last_first-total :
    (weight : HeapTimer → ℕ) (a : Timers) (n : ℕ)
    → weight (a 0) + sum_below weight (percolate_down (update a 0 (a n)) n 0) n
      ≡ sum_below weight a (n + 1)
last_first-total weight a zero = omega (
  arith,
  sum_below-last weight a 0,
  sum_below-zero weight a,
  sum_below-zero weight (percolate_down (update a 0 (a 0)) 0 0),
)
last_first-total weight a (suc n) = omega (
  arith,
  percolate_down-total weight (update a 0 (a (suc n))) (suc n) 0 (omega arith),
  sum_below-update weight a 0 (a (suc n)) (suc n) (omega arith),
  sum_below-last weight a (suc n),
)

pop_timer-total :
    (weight : HeapTimer → ℕ) (h : TimeHeap)
    → 0 < h.cur_size
    → weight (h.array 0) + total weight (pop_timer h) ≡ total weight h
unfolding pop_timer
pop_timer-total weight h pos =
    let f : (h.cur_size == 0) ≡ false = ground (arith, pos) in
    let e : h.cur_size - 1 + 1 ≡ h.cur_size = omega arith in
    rw f (last_first-total weight h.array (h.cur_size - 1) ∙ ap (sum_below weight h.array) e)

pop_timer-size : (h : TimeHeap) → (pop_timer h).cur_size ≡ h.cur_size - 1
unfolding pop_timer
pop_timer-size h = ground arith

-- All timers of a heap expire at `lo` or later.
abbrev AllFrom : ℕ → TimeHeap → Type 0
AllFrom lo h = (i : ℕ) → i < h.cur_size → lo ≤ (h.array i).expire

abbrev before : ℕ → HeapTimer → ℕ
before lo t = if ltb t.expire lo then 1 else 0

AllFrom-total : (lo : ℕ) (h : TimeHeap) → AllFrom lo h → total (before lo) h ≡ 0
AllFrom-total lo h a = elim (Bool-cases (ltb 0 (total (before lo) h))) [
  | inl t ↦
      let (i, p, q) = sum_below_pos (before lo) h.array h.cur_size (ground (arith, t)) in
      absurd (ground (arith, q, a i p))
  | inr f ↦ ground (arith, f)
]

total-AllFrom : (lo : ℕ) (h : TimeHeap) → total (before lo) h ≡ 0 → AllFrom lo h
total-AllFrom lo h e i p =
    let q = le-sum_below (before lo) h.array h.cur_size i p in ground (arith, q, e)

pop_timer-AllFrom :
    (h : TimeHeap) → IsHeap h → 0 < h.cur_size → AllFrom (h.array 0).expire (pop_timer h)
pop_timer-AllFrom h o pos =
    let lo = (h.array 0).expire in
    let e = AllFrom-total lo h (λ i p. root_least h.array h.cur_size i o p) in
    total-AllFrom lo (pop_timer h) (omega (arith, e, pop_timer-total (before lo) h pos))

-- The weights of some timers, together.
unfoldable pub weigh : (HeapTimer → ℕ) → List HeapTimer → ℕ
weigh weight [] = 0
weigh weight (t ∷ ts) = weight t + weigh weight ts

-- Timers that expire between `lo` and `hi`, each no earlier than the one before.
unfoldable pub IsAscending : ℕ → ℕ → List HeapTimer → Type 0
IsAscending lo hi [] = Unit
IsAscending lo hi (t ∷ ts) = (lo ≤ t.expire) × (t.expire ≤ hi) × IsAscending t.expire hi ts

-- What `tick` at the time `cur` makes of a heap whose timers expire at `lo` or later.
pub record IsTicked (lo cur : ℕ) (h : TimeHeap) (r : Ticked) : Type 0 where
  pub ordered : IsHeap r.heap
  pub conserved :
      (weight : HeapTimer → ℕ) → weigh weight r.popped + total weight r.heap ≡ total weight h
  pub ascending : IsAscending lo cur r.popped
  pub rest_later : AllFrom (cur + 1) r.heap

stops-IsTicked :
    (lo cur : ℕ) (h : TimeHeap)
    → IsHeap h
    → AllFrom (cur + 1) h
    → IsTicked lo cur h (record { heap = h; popped = [] })
unfolding weigh IsAscending
stops-IsTicked lo cur h o a = record {
  ordered = o;
  conserved = λ weight. omega arith;
  ascending = tt;
  rest_later = a;
}

pops-IsTicked :
    (lo cur : ℕ) (h : TimeHeap) (r : Ticked)
    → 0 < h.cur_size
    → lo ≤ (h.array 0).expire
    → (h.array 0).expire ≤ cur
    → IsTicked (h.array 0).expire cur (pop_timer h) r
    → IsTicked lo cur h (record { heap = r.heap; popped = h.array 0 ∷ r.popped })
unfolding weigh IsAscending
pops-IsTicked lo cur h r pos low now s = record {
  ordered = s.ordered;
  conserved = λ weight. omega (arith, s.conserved weight, pop_timer-total weight h pos);
  ascending = (low, now, s.ascending);
  rest_later = s.rest_later;
}

tick_loop-IsTicked :
    (turns lo cur : ℕ) (h : TimeHeap)
    → h.cur_size ≤ turns
    → IsHeap h
    → AllFrom lo h
    → IsTicked lo cur h (tick_loop turns cur h)
unfolding tick_loop
tick_loop-IsTicked zero lo cur h f o a =
    stops-IsTicked lo cur h o (λ i p. absurd (omega (arith, f, p)))
tick_loop-IsTicked (suc turns) lo cur h f o a = elim (Bool-cases (h.cur_size == 0)) [
  | inl t ↦ rw t (stops-IsTicked lo cur h o (λ i p. absurd (ground (arith, t, p))))
  | inr g ↦
      let pos : 0 < h.cur_size = ground (arith, g) in
      elim (Bool-cases (ltb cur (h.array 0).expire)) [
        | inl t ↦
            rw (g, t)
              (stops-IsTicked lo cur h o
                (λ i p. ground (arith, t, root_least h.array h.cur_size i o p)))
        | inr e ↦
            rw (g, e)
              (pops-IsTicked lo cur h _ pos (a 0 pos) (ground (arith, e)) (
                tick_loop-IsTicked turns (h.array 0).expire cur (pop_timer h)
                  (omega (arith, pop_timer-size h, f)) (pop_timer-IsHeap h o)
                  (pop_timer-AllFrom h o pos)))
      ]
]

-- `tick` at the time `cur` takes off the heap exactly the timers that expire at `cur` or earlier, in
-- the order in which they expire; those that remain expire later and are again a heap, and no timer
-- is lost or doubled.
pub tick-IsTicked : (cur : ℕ) (h : TimeHeap) → IsHeap h → IsTicked 0 cur h (tick cur h)
unfolding tick
tick-IsTicked cur h o = tick_loop-IsTicked h.cur_size 0 cur h (omega arith) o (λ i p. omega arith)
