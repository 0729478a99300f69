-- ===== src/Timers/Sorted/Refine.antt =====
-- The server against a map from its connections to their deadlines.
use unpvol.Common.{
  ℕ, ◌≤◌, ◌<◌, ◌≡◌, ◌≢◌, refl, sym, inl, inr, true, Option, none, some, List, [], ◌∷◌, ltb, ◌==◌,
  if◌then◌else◌, arith, Bool-cases,
}
use unpvol.Stream.Kernel.{eintr, eagain, other}
use unpvol.Timers.Sorted.{UtilTimer, add_timer, adjust_timer, del_timer, tick}
use unpvol.Timers.Sorted.Idle.{
  data_came, peer_closed, recv_failed, Event, accepts, hears, alarms, deadline,
}
use unpvol.Timers.Sorted.Lookup.{expire_of, AreDistinct, add_timer_lem, add_behind-AreDistinct}
use unpvol.Timers.Sorted.Order.{
  All, From, UpTo, IsSorted, All-mono, add_behind-All, adjust_timer-All, del_timer-All, tick-All,
  add_behind-IsSorted, adjust_timer-IsSorted, del_timer-IsSorted, tick-IsSorted,
  adjust_timer-AreDistinct, del_timer-AreDistinct,
}

abbrev pub Deadlines : Type 0
Deadlines = ℕ → Option ℕ

-- A deadline that is not over.
unfoldable pub alive : ℕ → Option ℕ → Option ℕ
alive cur none = none
alive cur (some e) = if ltb cur e then some e else none

abbrev pub with_deadline : ℕ → Option ℕ → Deadlines → Deadlines
with_deadline fd e m g = if fd == g then e else m g

-- What the loop means to do: each sign of life puts the deadline off, and the alarm drops the
-- connections whose deadline is over.
unfoldable pub spec : ℕ → Event → Deadlines → Deadlines
spec cur (accepts fd) m = with_deadline fd (some (deadline cur)) m
spec cur (hears fd data_came) m = with_deadline fd (some (deadline cur)) m
spec cur (hears fd peer_closed) m = with_deadline fd none m
spec cur (hears fd (recv_failed eagain)) m = m
spec cur (hears fd (recv_failed eintr)) m = with_deadline fd none m
spec cur (hears fd (recv_failed other)) m = with_deadline fd none m
spec cur alarms m = λ g. alive cur (m g)

-- `accept` gives a descriptor that is not in use, and epoll reports on connections that are open.
unfoldable pub Allows : Deadlines → Event → Type 0
Allows m (accepts fd) = m fd ≡ none
Allows m (hears fd h) = m fd ≢ none
Allows m alarms = Unit

pub record IsValid (cur : ℕ) (list : List UtilTimer) : Type 0 where
  pub sorted : IsSorted list
  pub distinct : AreDistinct list
  pub timely : All (UpTo (deadline cur)) list

alive-From :
    (cur : ℕ) (t : UtilTimer) (list : List UtilTimer) (g : ℕ)
    → cur < t.expire
    → All (From t.expire) list
    → alive cur (expire_of list g) ≡ expire_of list g
unfolding alive expire_of All
alive-From cur t [] g h a = refl
alive-From cur t (u ∷ rest) g h (p, a) = elim (Bool-cases (u.sockfd == g)) [
  | inl c ↦ (let less : ltb cur u.expire ≡ true = ground (arith, h, p) in rw (c, less) refl)
  | inr c ↦ rw c (alive-From cur t rest g h a)
]

pub expire_of-tick :
    (cur : ℕ) (list : List UtilTimer) (g : ℕ)
    → IsSorted list
    → AreDistinct list
    → expire_of (tick cur list) g ≡ alive cur (expire_of list g)
unfolding alive expire_of tick IsSorted AreDistinct
expire_of-tick cur [] g s d = refl
expire_of-tick cur (t ∷ rest) g (a, s) (n, d) = elim (Bool-cases (ltb cur t.expire)) [
  | inl c ↦ elim (Bool-cases (t.sockfd == g)) [
    | inl e ↦ rw (c, e, c) refl
    | inr e ↦ rw (c, e) (sym (alive-From cur t rest g (ground (arith, c)) a))
  ]
  | inr c ↦
      (let later = expire_of-tick cur rest g s d in
        elim (Bool-cases (t.sockfd == g)) [
          | inl e ↦
              (let same : t.sockfd ≡ g = ground (arith, e) in
                let gone : expire_of rest g ≡ none = rw (sym same) n in
                rw (c, e, c, later, gone) refl)
          | inr e ↦ rw (c, e) later
        ])
]

tick-AreDistinct :
    (cur : ℕ) (list : List UtilTimer) → AreDistinct list → AreDistinct (tick cur list)
unfolding AreDistinct tick
tick-AreDistinct cur [] d = tt
tick-AreDistinct cur (t ∷ rest) (n, d) = elim (Bool-cases (ltb cur t.expire)) [
  | inl c ↦ rw c (n, d)
  | inr c ↦ rw c (tick-AreDistinct cur rest d)
]

pub IsValid-later :
    (cur now : ℕ) (list : List UtilTimer) → cur ≤ now → IsValid cur list → IsValid now list
IsValid-later cur now list h v = record {
  sorted = v.sorted;
  distinct = v.distinct;
  timely =
      All-mono (UpTo (deadline cur)) (UpTo (deadline now)) list (λ t p. omega (arith, h, p))
        v.timely;
}

-- Each list operation of the loop, on a valid list.
pub IsValid-add :
    (now fd : ℕ) (list : List UtilTimer)
    → IsValid now list
    → expire_of list fd ≡ none
    → IsValid now (add_timer (some (record { sockfd = fd; expire = deadline now })) list)
IsValid-add now fd list v n =
    let t : UtilTimer = record { sockfd = fd; expire = deadline now } in
    rw (add_timer_lem t list) (record {
      sorted = add_behind-IsSorted t list v.sorted;
      distinct = add_behind-AreDistinct t list v.distinct n;
      timely = add_behind-All (UpTo (deadline now)) t list (omega arith) v.timely;
    })

pub IsValid-adjust :
    (now fd : ℕ) (list : List UtilTimer)
    → IsValid now list
    → expire_of list fd ≢ none
    → IsValid now (adjust_timer fd (deadline now) list)
IsValid-adjust now fd list v n = record {
  sorted = adjust_timer-IsSorted fd (deadline now) list v.timely v.sorted;
  distinct = adjust_timer-AreDistinct fd (deadline now) list v.distinct n;
  timely =
      adjust_timer-All (UpTo (deadline now)) fd (deadline now) list (λ g. omega arith) v.timely;
}

pub IsValid-del :
    (now fd : ℕ) (list : List UtilTimer) → IsValid now list → IsValid now (del_timer fd list)
IsValid-del now fd list v = record {
  sorted = del_timer-IsSorted fd list v.sorted;
  distinct = del_timer-AreDistinct fd list v.distinct;
  timely = del_timer-All (UpTo (deadline now)) fd list v.timely;
}

pub IsValid-tick :
    (now : ℕ) (list : List UtilTimer) → IsValid now list → IsValid now (tick now list)
IsValid-tick now list v = record {
  sorted = tick-IsSorted now list v.sorted;
  distinct = tick-AreDistinct now list v.distinct;
  timely = tick-All (UpTo (deadline now)) now list v.timely;
}
