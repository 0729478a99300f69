-- ===== src/Timers/Sorted/Lookup.antt =====
-- The deadlines of the connections, as the list has them.
use unpvol.Common.{
  ℕ, ◌≡◌, ◌≢◌, refl, sym, ◌∙◌, inl, inr, true, false, Option, none, some, List, [], ◌∷◌, ltb, ◌==◌,
  if◌then◌else◌, arith, Bool-cases,
}
use unpvol.Timers.Sorted.{UtilTimer, add_behind, add_timer, settle, adjust_timer, del_timer}

-- When the timer of a connection expires, if it has one.
unfoldable pub expire_of : List UtilTimer → ℕ → Option ℕ
expire_of [] fd = none
expire_of (t ∷ rest) fd = if t.sockfd == fd then some t.expire else expire_of rest fd

-- Every connection has one timer at most.
unfoldable pub AreDistinct : List UtilTimer → Type 0
AreDistinct [] = Unit
AreDistinct (t ∷ rest) = (expire_of rest t.sockfd ≡ none) × AreDistinct rest

pub settle_lem : (t : UtilTimer) (list : List UtilTimer) → settle t list ≡ add_behind t list
unfolding settle add_behind
settle_lem t [] = refl
settle_lem t (u ∷ rest) = refl

pub add_timer_lem :
    (t : UtilTimer) (list : List UtilTimer) → add_timer (some t) list ≡ add_behind t list
unfolding add_timer add_behind
add_timer_lem t [] = refl
add_timer_lem t (u ∷ rest) = refl

-- A connection without a timer in a list has none at its head and none behind it.
pub not_first :
    (u : UtilTimer) (rest : List UtilTimer) (fd : ℕ)
    → expire_of (u ∷ rest) fd ≡ none
    → (u.sockfd == fd) ≡ false
unfolding expire_of
not_first u rest fd h = elim (Bool-cases (u.sockfd == fd)) [
  | inl t ↦ (let e : expire_of (u ∷ rest) fd ≡ some u.expire = rw t refl in cc)
  | inr f ↦ f
]

pub not_behind :
    (u : UtilTimer) (rest : List UtilTimer) (fd : ℕ)
    → expire_of (u ∷ rest) fd ≡ none
    → expire_of rest fd ≡ none
unfolding expire_of
not_behind u rest fd h =
    let f = not_first u rest fd h in
    let e : expire_of (u ∷ rest) fd ≡ expire_of rest fd = rw f refl in sym e ∙ h

-- A timer that is put in is found, and hides no other.
pub expire_of-add_behind :
    (t : UtilTimer) (list : List UtilTimer) (fd : ℕ)
    → expire_of list t.sockfd ≡ none
    → expire_of (add_behind t list) fd
      ≡ (if t.sockfd == fd then some t.expire else expire_of list fd)
unfolding expire_of add_behind
expire_of-add_behind t [] fd h = refl
expire_of-add_behind t (u ∷ rest) fd h = elim (Bool-cases (ltb t.expire u.expire)) [
  | inl e ↦ rw e refl
  | inr f ↦
      (let ne = not_first u rest t.sockfd h in
        let later = expire_of-add_behind t rest fd (not_behind u rest t.sockfd h) in
        elim (Bool-cases (u.sockfd == fd)) [
          | inl p ↦ (let q : (t.sockfd == fd) ≡ false = ground (arith, p, ne) in rw (f, p, q) refl)
          | inr g ↦ rw (f, g, later) refl
        ])
]

pub add_behind-AreDistinct :
    (t : UtilTimer) (list : List UtilTimer)
    → AreDistinct list
    → expire_of list t.sockfd ≡ none
    → AreDistinct (add_behind t list)
unfolding AreDistinct add_behind
add_behind-AreDistinct t [] d h = (h, tt)
add_behind-AreDistinct t (u ∷ rest) (n, d) h = elim (Bool-cases (ltb t.expire u.expire)) [
  | inl e ↦ rw e (h, (n, d))
  | inr f ↦
      (let ne = not_first u rest t.sockfd h in
        let behind = not_behind u rest t.sockfd h in
        let other : (t.sockfd == u.sockfd) ≡ false = ground (arith, ne) in
        let found = expire_of-add_behind t rest u.sockfd behind in
        rw f ((rw (found, other) n, add_behind-AreDistinct t rest d behind)))
]

-- The lookup after `adjust_timer`: the connection's timer has the new deadline.
pub expire_of-adjust_timer :
    (fd e : ℕ) (list : List UtilTimer) (g : ℕ)
    → AreDistinct list
    → expire_of list fd ≢ none
    → expire_of (adjust_timer fd e list) g ≡ (if fd == g then some e else expire_of list g)
unfolding expire_of adjust_timer AreDistinct
expire_of-adjust_timer fd e [] g d h = absurd (h refl)
expire_of-adjust_timer fd e (t ∷ rest) g (n, d) h = elim (Bool-cases (t.sockfd == fd)) [
  | inl p ↦
      (let u = record t { expire = e } in
        let found = expire_of-add_behind u rest g n in
        elim (Bool-cases (fd == g)) [
          | inl q ↦
              (let r : (t.sockfd == g) ≡ true = ground (arith, p, q) in
                rw (p, settle_lem u rest, found, q, r) refl)
          | inr q ↦
              (let r : (t.sockfd == g) ≡ false = ground (arith, p, q) in
                rw (p, settle_lem u rest, found, q, r) refl)
        ])
  | inr f ↦
      (let later = expire_of-adjust_timer fd e rest g d (λ z. h (rw f z)) in
        elim (Bool-cases (t.sockfd == g)) [
          | inl q ↦ (let r : (fd == g) ≡ false = ground (arith, f, q) in rw (f, q, r) refl)
          | inr q ↦ rw (f, q, later) refl
        ])
]

pub expire_of-del_timer :
    (fd : ℕ) (list : List UtilTimer) (g : ℕ)
    → AreDistinct list
    → expire_of (del_timer fd list) g ≡ (if fd == g then none else expire_of list g)
unfolding expire_of del_timer AreDistinct
expire_of-del_timer fd [] g d = elim (Bool-cases (fd == g)) [
  | inl q ↦ rw q refl
  | inr q ↦ rw q refl
]
expire_of-del_timer fd (t ∷ rest) g (n, d) = elim (Bool-cases (t.sockfd == fd)) [
  | inl p ↦ elim (Bool-cases (fd == g)) [
    | inl q ↦ (let same : t.sockfd ≡ g = ground (arith, p, q) in rw (p, q, sym same) n)
    | inr q ↦ (let r : (t.sockfd == g) ≡ false = ground (arith, p, q) in rw (p, q, r) refl)
  ]
  | inr f ↦
      (let later = expire_of-del_timer fd rest g d in
        elim (Bool-cases (t.sockfd == g)) [
          | inl q ↦ (let r : (fd == g) ≡ false = ground (arith, f, q) in rw (f, q, r) refl)
          | inr q ↦ rw (f, q, later) refl
        ])
]
