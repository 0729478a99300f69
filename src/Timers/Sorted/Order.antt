-- ===== src/Timers/Sorted/Order.antt =====
-- The order of the list, and that its operations keep it.
use unpvol.Common.{
  ℕ, ◌≤◌, ◌≡◌, ◌≢◌, inl, inr, false, none, List, [], ◌∷◌, ltb, ◌==◌, arith, Bool-cases,
}
use unpvol.Timers.Sorted.{UtilTimer, add_behind, adjust_timer, del_timer, tick}
use unpvol.Timers.Sorted.Lookup.{
  expire_of, AreDistinct, settle_lem, add_behind-AreDistinct, expire_of-adjust_timer,
  expire_of-del_timer,
}

unfoldable pub All : (UtilTimer → Type 0) → List UtilTimer → Type 0
All P [] = Unit
All P (t ∷ rest) = P t × All P rest

abbrev pub From : ℕ → UtilTimer → Type 0
From b t = b ≤ t.expire

abbrev pub UpTo : ℕ → UtilTimer → Type 0
UpTo b t = t.expire ≤ b

unfoldable pub IsSorted : List UtilTimer → Type 0
IsSorted [] = Unit
IsSorted (t ∷ rest) = All (From t.expire) rest × IsSorted rest

pub All-mono :
    (P Q : UtilTimer → Type 0) (list : List UtilTimer)
    → ((t : UtilTimer) → P t → Q t)
    → All P list
    → All Q list
unfolding All
All-mono P Q [] f h = tt
All-mono P Q (t ∷ rest) f (p, h) = (f t p, All-mono P Q rest f h)

pub add_behind-All :
    (P : UtilTimer → Type 0) (t : UtilTimer) (list : List UtilTimer)
    → P t
    → All P list
    → All P (add_behind t list)
unfolding All add_behind
add_behind-All P t [] p h = (p, tt)
add_behind-All P t (u ∷ rest) p (q, h) = elim (Bool-cases (ltb t.expire u.expire)) [
  | inl e ↦ rw e (p, (q, h))
  | inr f ↦ rw f (q, add_behind-All P t rest p h)
]

pub adjust_timer-All :
    (P : UtilTimer → Type 0) (fd e : ℕ) (list : List UtilTimer)
    → ((g : ℕ) → P (record { sockfd = g; expire = e }))
    → All P list
    → All P (adjust_timer fd e list)
unfolding All adjust_timer
adjust_timer-All P fd e [] f h = tt
adjust_timer-All P fd e (t ∷ rest) f (p, h) = elim (Bool-cases (t.sockfd == fd)) [
  | inl c ↦
      rw (c, settle_lem (record t { expire = e }) rest)
        (add_behind-All P (record t { expire = e }) rest (f t.sockfd) h)
  | inr c ↦ rw c (p, adjust_timer-All P fd e rest f h)
]

pub del_timer-All :
    (P : UtilTimer → Type 0) (fd : ℕ) (list : List UtilTimer)
    → All P list
    → All P (del_timer fd list)
unfolding All del_timer
del_timer-All P fd [] h = tt
del_timer-All P fd (t ∷ rest) (p, h) = elim (Bool-cases (t.sockfd == fd)) [
  | inl c ↦ rw c h
  | inr c ↦ rw c (p, del_timer-All P fd rest h)
]

pub tick-All :
    (P : UtilTimer → Type 0) (cur : ℕ) (list : List UtilTimer) → All P list → All P (tick cur list)
unfolding All tick
tick-All P cur [] h = tt
tick-All P cur (t ∷ rest) (p, h) = elim (Bool-cases (ltb cur t.expire)) [
  | inl c ↦ rw c (p, h)
  | inr c ↦ rw c (tick-All P cur rest h)
]

pub add_behind-IsSorted :
    (t : UtilTimer) (list : List UtilTimer) → IsSorted list → IsSorted (add_behind t list)
unfolding IsSorted All add_behind
add_behind-IsSorted t [] h = (tt, tt)
add_behind-IsSorted t (u ∷ rest) (a, h) = elim (Bool-cases (ltb t.expire u.expire)) [
  | inl e ↦
      (let less : t.expire ≤ u.expire = ground (arith, e) in
        rw e (
          (less, All-mono (From u.expire) (From t.expire) rest (λ v g. omega (arith, less, g)) a),
          (a, h),
        ))
  | inr f ↦
      rw f
        (add_behind-All (From u.expire) t rest (ground (arith, f)) a, add_behind-IsSorted t rest h)
]

-- A deadline that is not before any other is put in order.
pub adjust_timer-IsSorted :
    (fd e : ℕ) (list : List UtilTimer)
    → All (UpTo e) list
    → IsSorted list
    → IsSorted (adjust_timer fd e list)
unfolding IsSorted All adjust_timer
adjust_timer-IsSorted fd e [] b h = tt
adjust_timer-IsSorted fd e (t ∷ rest) (p, b) (a, h) = elim (Bool-cases (t.sockfd == fd)) [
  | inl c ↦
      rw (c, settle_lem (record t { expire = e }) rest)
        (add_behind-IsSorted (record t { expire = e }) rest h)
  | inr c ↦
      rw c
        (adjust_timer-All (From t.expire) fd e rest (λ g. p) a, adjust_timer-IsSorted fd e rest b h)
]

pub del_timer-IsSorted :
    (fd : ℕ) (list : List UtilTimer) → IsSorted list → IsSorted (del_timer fd list)
unfolding IsSorted del_timer
del_timer-IsSorted fd [] h = tt
del_timer-IsSorted fd (t ∷ rest) (a, h) = elim (Bool-cases (t.sockfd == fd)) [
  | inl c ↦ rw c h
  | inr c ↦ rw c (del_timer-All (From t.expire) fd rest a, del_timer-IsSorted fd rest h)
]

pub tick-IsSorted : (cur : ℕ) (list : List UtilTimer) → IsSorted list → IsSorted (tick cur list)
unfolding IsSorted tick
tick-IsSorted cur [] h = tt
tick-IsSorted cur (t ∷ rest) (a, h) = elim (Bool-cases (ltb cur t.expire)) [
  | inl c ↦ rw c (a, h)
  | inr c ↦ rw c (tick-IsSorted cur rest h)
]

pub adjust_timer-AreDistinct :
    (fd e : ℕ) (list : List UtilTimer)
    → AreDistinct list
    → expire_of list fd ≢ none
    → AreDistinct (adjust_timer fd e list)
unfolding AreDistinct adjust_timer expire_of
adjust_timer-AreDistinct fd e [] d h = tt
adjust_timer-AreDistinct fd e (t ∷ rest) (n, d) h = elim (Bool-cases (t.sockfd == fd)) [
  | inl c ↦
      rw (c, settle_lem (record t { expire = e }) rest)
        (add_behind-AreDistinct (record t { expire = e }) rest d n)
  | inr c ↦
      (let there : expire_of rest fd ≢ none = λ z. h (rw c z) in
        let other : (fd == t.sockfd) ≡ false = ground (arith, c) in
        let found = expire_of-adjust_timer fd e rest t.sockfd d there in
        rw c (rw (found, other) n, adjust_timer-AreDistinct fd e rest d there))
]

pub del_timer-AreDistinct :
    (fd : ℕ) (list : List UtilTimer) → AreDistinct list → AreDistinct (del_timer fd list)
unfolding AreDistinct del_timer
del_timer-AreDistinct fd [] d = tt
del_timer-AreDistinct fd (t ∷ rest) (n, d) = elim (Bool-cases (t.sockfd == fd)) [
  | inl c ↦ rw c d
  | inr c ↦
      (let other : (fd == t.sockfd) ≡ false = ground (arith, c) in
        let found = expire_of-del_timer fd rest t.sockfd d in
        rw c (rw (found, other) n, del_timer-AreDistinct fd rest d))
]
