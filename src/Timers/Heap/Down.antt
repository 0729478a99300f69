-- ===== src/Timers/Heap/Down.antt =====
-- `percolate_down` restores the order below its hole and keeps the timers.
use unpvol.Common.{
  ℕ, zero, suc, ◌+◌, ◌-◌, ◌*◌, ◌≤◌, ◌<◌, ◌≡◌, ◌≢◌, ◌⊎◌, refl, inl, inr, false, ◌&&◌, ltb, leb, ◌==◌,
  arith, update, update_ne, ap, ◌∙◌, ==_iff, fun_ext, sum_below, sum_below-update, Bool-cases,
}
use unpvol.Timers.Heap.{HeapTimer, Timers, parent, smaller_child, percolate_loop, percolate_down}
use unpvol.Timers.Heap.Order.{IsOrderedFrom}

-- With `temp` to be written at `hole`: the edges that do not touch the hole are in order, the edge
-- into the hole is in order with `temp`, and what stands below the hole fits what stands above it.
pub record IsSinking (lo : ℕ) (a : Timers) (size hole : ℕ) (temp : HeapTimer) : Type 0 where
  pub edges :
      (c : ℕ)
      → 0 < c
      → c < size
      → lo ≤ parent c
      → c ≢ hole
      → parent c ≢ hole
      → (a (parent c)).expire ≤ (a c).expire
  pub above : 0 < hole → lo ≤ parent hole → (a (parent hole)).expire ≤ temp.expire
  pub bridged :
      (c : ℕ)
      → 0 < c
      → c < size
      → parent c ≡ hole
      → 0 < hole
      → lo ≤ parent hole
      → (a (parent hole)).expire ≤ (a c).expire

-- What is known of the child that the loop looks at.
record IsLeast (a : Timers) (size hole m : ℕ) : Type 0 where
  inside : m < size
  child : (m ≡ hole * 2 + 1) ⊎ (m ≡ hole * 2 + 2)
  least : (c : ℕ) → 0 < c → c < size → parent c ≡ hole → (a m).expire ≤ (a c).expire

smaller_child-IsLeast :
    (a : Timers) (size hole : ℕ)
    → hole * 2 + 1 < size
    → IsLeast a size hole (smaller_child a size hole)
unfolding smaller_child
smaller_child-IsLeast a size hole h =
    elim (Bool-cases (
      ltb (hole * 2 + 1) (size - 1)
      && ltb (a (hole * 2 + 1 + 1)).expire (a (hole * 2 + 1)).expire)) [
        | inl t ↦ rw t record {
          inside = ground (arith, t);
          child = inr (omega arith);
          least = λ c p q e. ground (arith, t);
        }
        | inr f ↦ rw f record { inside = h; child = inl refl; least = λ c p q e. ground (arith, f) }
      ]

IsSinking-settled :
    (lo : ℕ) (a : Timers) (size hole : ℕ) (temp : HeapTimer)
    → IsSinking lo a size hole temp
    → ((c : ℕ) → 0 < c → c < size → parent c ≡ hole → temp.expire ≤ (a c).expire)
    → IsOrderedFrom lo (update a hole temp) size
IsSinking-settled lo a size hole temp s below c p q r = ground (arith, s.edges c, s.above, below c)

IsSinking-step :
    (lo : ℕ) (a : Timers) (size hole m : ℕ) (temp : HeapTimer)
    → IsSinking lo a size hole temp
    → IsLeast a size hole m
    → (a m).expire < temp.expire
    → IsSinking lo (update a hole (a m)) size m temp
IsSinking-step lo a size hole m temp s l less = record {
  edges = λ c p q r n o. ground (arith, s.edges c, s.bridged m, l.least c, l.child);
  above = λ p q. ground (arith, l.child);
  bridged = λ c p q e f g. ground (arith, s.edges c, l.child);
}

-- `percolate_loop` ends with the order restored, after as many turns as there are timers behind the
-- hole.
percolate_loop-ordered :
    (turns lo : ℕ) (a : Timers) (size hole : ℕ) (temp : HeapTimer)
    → size - hole ≤ turns
    → IsSinking lo a size hole temp
    → IsOrderedFrom lo (percolate_loop turns a size hole temp) size
unfolding percolate_loop
percolate_loop-ordered zero lo a size hole temp f s =
    IsSinking-settled lo a size hole temp s (λ c p q e. absurd (omega arith))
percolate_loop-ordered (suc turns) lo a size hole temp f s =
    let child = smaller_child a size hole in
    elim (Bool-cases (leb (hole * 2 + 1) (size - 1) && ltb (a child).expire temp.expire)) [
      | inl t ↦
          let l = smaller_child-IsLeast a size hole (ground (arith, t)) in
          rw t (
            percolate_loop-ordered turns lo (update a hole (a child)) size child temp
              (omega (arith, l.inside, l.child, f))
              (IsSinking-step lo a size hole child temp s l (ground (arith, t))))
      | inr e ↦ rw e (
          IsSinking-settled lo a size hole temp s (λ c p q r.
            ground
              (arith, e, (smaller_child-IsLeast a size hole (omega (arith, p, q, r))).least c)))
    ]

-- The timers that stand in the array once `temp` is written at the hole.
percolate_loop-total :
    (weight : HeapTimer → ℕ) (turns : ℕ) (a : Timers) (size hole : ℕ) (temp : HeapTimer)
    → hole < size
    → sum_below weight (percolate_loop turns a size hole temp) size
      ≡ sum_below weight (update a hole temp) size
unfolding percolate_loop
percolate_loop-total weight zero a size hole temp h = refl
percolate_loop-total weight (suc turns) a size hole temp h =
    let child = smaller_child a size hole in
    elim (Bool-cases (leb (hole * 2 + 1) (size - 1) && ltb (a child).expire temp.expire)) [
      | inl t ↦
          let l = smaller_child-IsLeast a size hole (ground (arith, t)) in
          let b = update a hole (a child) in
          let same : b child ≡ a child =
            update_ne a {i = hole} {j = child} (a child) (omega (arith, l.child)) in
          let same_weight : weight (b child) ≡ weight (a child) = ap weight same in
          rw t (
            omega (
              arith,
              percolate_loop-total weight turns b size child temp l.inside,
              sum_below-update weight b child temp size l.inside,
              sum_below-update weight a hole (a child) size h,
              sum_below-update weight a hole temp size h,
              same_weight,
            ))
      | inr e ↦ rw e refl
    ]

pub percolate_down-ordered :
    (lo : ℕ) (a : Timers) (size hole : ℕ)
    → IsSinking lo a size hole (a hole)
    → IsOrderedFrom lo (percolate_down a size hole) size
unfolding percolate_down
percolate_down-ordered lo a size hole s =
    percolate_loop-ordered size lo a size hole (a hole) (omega arith) s

update-same : (a : Timers) (i j : ℕ) → update a i (a i) j ≡ a j
update-same a i j = elim (Bool-cases (i == j)) [
  | inl t ↦ rw t (ap a ((==_iff i j).0 t))
  | inr f ↦ rw f refl
]

pub percolate_down-total :
    (weight : HeapTimer → ℕ) (a : Timers) (size hole : ℕ)
    → hole < size
    → sum_below weight (percolate_down a size hole) size ≡ sum_below weight a size
unfolding percolate_down
percolate_down-total weight a size hole h =
    percolate_loop-total weight size a size hole (a hole) h
    ∙ ap (λ b. sum_below weight b size) (fun_ext (update-same a hole))

-- The loop of `percolate_down` comes to its end: more turns than there are timers behind the hole
-- change nothing.
pub percolate_loop-ends :
    (turns more : ℕ) (a : Timers) (size hole : ℕ) (temp : HeapTimer)
    → size - hole ≤ turns
    → percolate_loop (turns + more) a size hole temp ≡ percolate_loop turns a size hole temp
unfolding percolate_loop
percolate_loop-ends zero zero a size hole temp h = refl
percolate_loop-ends zero (suc more) a size hole temp h =
    let e : 0 + suc more ≡ suc more = omega arith in
    let stop : leb (hole * 2 + 1) (size - 1) ≡ false = ground (arith, h) in rw (e, stop) refl
percolate_loop-ends (suc turns) more a size hole temp h =
    let child = smaller_child a size hole in
    let e : suc turns + more ≡ suc (turns + more) = omega arith in
    elim (Bool-cases (leb (hole * 2 + 1) (size - 1) && ltb (a child).expire temp.expire)) [
      | inl t ↦
          let l = smaller_child-IsLeast a size hole (ground (arith, t)) in
          rw (e, t)
            (percolate_loop-ends turns more (update a hole (a child)) size child temp
              (omega (arith, l.child, h)))
      | inr f ↦ rw (e, f) refl
    ]
