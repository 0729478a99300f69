-- ===== src/SelectServer/Reach.antt =====
-- The tables of every state that the server reaches are valid.
use unpvol.Common.{
  ℕ, zero, suc, ◌+◌, ◌-◌, ◌≤◌, ◌<◌, ◌≡◌, refl, ap, sym, ◌∙◌, inl, inr, true, false, Option, none,
  some, leb, ◌==◌, arith, Bool-cases, ==_iff, update, drop, replicate,
}
use unpvol.SelectServer.Table.{
  Table, Saved, save, Answers, Turned, check_clients, greater, with_client, overruns, goes_on,
  after_save, turn, start, fd_setsize,
}
use unpvol.SelectServer.Watch.{
  weight, weight_le, times, IsValid, OnSaved, IsSaved, save-IsSaved, times-drop_le, sweep-IsSwept,
}

-- The states that the server goes through, by turns after which it goes on; `accept` never gives a
-- descriptor that is in use.
pub data Reach (listenfd : ℕ) : Table → Type 0 where
  begun : Reach listenfd (start listenfd)
  turned :
      {t : Table} (a : Answers) {r : Turned}
      → Reach listenfd t
      → t.allset a.connfd ≡ false
      → turn listenfd a t ≡ goes_on r
      → Reach listenfd r.table

check_clients-IsValid :
    (listenfd : ℕ) (a : Answers) (nready : ℕ) (t : Table)
    → IsValid listenfd t
    → IsValid listenfd (check_clients a nready t).table
unfolding check_clients
check_clients-IsValid listenfd a nready t v =
    let s =
      sweep-IsSwept a.rset a.reads t.used nready t.client t.allset
        (λ fd. omega (arith, v.watched fd)) in
    record {
      watched = λ fd. omega (arith, v.watched fd, s.balanced fd);
      bounded = λ fd e.
          v.bounded fd (omega (arith, rw e at (s.cleared_only fd), weight_le (t.allset fd)));
      checked = λ fd. ap (times fd) s.same_rest ∙ v.checked fd;
      inside = v.inside;
    }

le-greater : (a b : ℕ) → (a ≤ greater a b) × (b ≤ greater a b)
unfolding greater
le-greater a b = ground arith

added-watched :
    (listenfd c : ℕ) (t : Table) (r : Saved)
    → IsValid listenfd t
    → t.allset c ≡ false
    → IsSaved c t.client r
    → (fd : ℕ) → times fd r.slots + weight (listenfd == fd) ≡ weight (update t.allset c true fd)
added-watched listenfd c t r v fresh s fd = elim (Bool-cases (c == fd)) [
  | inl p ↦
      let e : weight (t.allset fd) ≡ 0 =
        ap (λ y. weight (t.allset y)) (sym ((==_iff c fd).0 p)) ∙ ap weight fresh in
      rw p (omega (arith, rw p at (s.added fd), v.watched fd, e))
  | inr p ↦ rw p (omega (arith, rw p at (s.added fd), v.watched fd))
]

added-bounded :
    (listenfd c : ℕ) (t : Table) (r : Saved)
    → IsValid listenfd t
    → (fd : ℕ) → weight (update t.allset c true fd) ≡ 1
    → fd ≤ greater c t.maxfd
added-bounded listenfd c t r v fd e = elim (Bool-cases (c == fd)) [
  | inl p ↦ omega (arith, (==_iff c fd).0 p, (le-greater c t.maxfd).0)
  | inr p ↦ omega (arith, v.bounded fd (rw p at e), (le-greater c t.maxfd).1)
]

added-checked :
    (listenfd c : ℕ) (t : Table) (r : Saved)
    → IsValid listenfd t
    → IsSaved c t.client r
    → (fd : ℕ) → times fd (drop (greater (r.at + 1) t.used) r.slots) ≡ 0
added-checked listenfd c t r v s fd =
    let n = greater (r.at + 1) t.used in
    let e : times fd (drop n r.slots) ≡ times fd (drop n t.client) =
      ap (times fd) (s.same_behind n (omega (arith, (le-greater (r.at + 1) t.used).0))) in
    omega (
      arith,
      e,
      v.checked fd,
      times-drop_le fd t.used n t.client ((le-greater (r.at + 1) t.used).1),
    )

with_client-IsValid :
    (listenfd c : ℕ) (t : Table) (r : Saved)
    → IsValid listenfd t
    → t.allset c ≡ false
    → c < fd_setsize
    → IsSaved c t.client r
    → IsValid listenfd (with_client c t r)
unfolding greater
with_client-IsValid listenfd c t r v fresh below s = record {
  watched = added-watched listenfd c t r v fresh s;
  bounded = added-bounded listenfd c t r v;
  checked = added-checked listenfd c t r v s;
  inside = ground (arith, v.inside, below);
}

times-replicate : (n fd : ℕ) → times fd (replicate n none) ≡ 0
unfolding times
times-replicate zero fd = refl
times-replicate (suc n) fd = times-replicate n fd

OnTurned-goes_on :
    (listenfd : ℕ) {q r : Turned}
    → goes_on q ≡ goes_on r
    → IsValid listenfd q.table
    → IsValid listenfd r.table
OnTurned-goes_on listenfd {q} {r} e v = let f : q ≡ r = cc in rw f at v

start-IsValid : (listenfd : ℕ) → listenfd < fd_setsize → IsValid listenfd (start listenfd)
unfolding start
start-IsValid listenfd below = record {
  watched = λ fd. omega (arith, times-replicate fd_setsize fd);
  bounded = λ fd e. ground (arith, e);
  checked = λ fd. times-replicate fd_setsize fd;
  inside = below;
}

after_save-IsValid :
    (listenfd : ℕ) (a : Answers) (t : Table) (o : Option Saved) (r : Turned)
    → IsValid listenfd t
    → t.allset a.connfd ≡ false
    → OnSaved (IsSaved a.connfd t.client) o
    → after_save a t o ≡ goes_on r
    → IsValid listenfd r.table
unfolding OnSaved after_save
after_save-IsValid listenfd a t none r v fresh s e = cc
after_save-IsValid listenfd a t (some q) r v fresh s e =
    elim (Bool-cases (leb fd_setsize a.connfd)) [
      | inl over ↦ (let f : overruns ≡ goes_on r = rw over at e in cc)
      | inr below ↦
          (let w = with_client-IsValid listenfd a.connfd t q v fresh (ground (arith, below)) s in
            elim (Bool-cases (leb (a.nready - 1) 0)) [
              | inl b ↦ OnTurned-goes_on listenfd (rw (below, b) at e) w
              | inr b ↦
                  OnTurned-goes_on listenfd (rw (below, b) at e)
                    (check_clients-IsValid listenfd a (a.nready - 1) (with_client a.connfd t q) w)
            ])
    ]

turn-IsValid :
    (listenfd : ℕ) (a : Answers) (t : Table) (r : Turned)
    → IsValid listenfd t
    → t.allset a.connfd ≡ false
    → turn listenfd a t ≡ goes_on r
    → IsValid listenfd r.table
unfolding turn
turn-IsValid listenfd a t r v fresh e = elim (Bool-cases (a.rset listenfd)) [
  | inl b ↦
      after_save-IsValid listenfd a t (save a.connfd t.client) r v fresh
        (save-IsSaved a.connfd t.client) (rw b at e)
  | inr b ↦ OnTurned-goes_on listenfd (rw b at e) (check_clients-IsValid listenfd a a.nready t v)
]

-- In every state that the server reaches from a listening socket below FD_SETSIZE, where `accept`
-- gives descriptors that are not in use, and as long as it has set none of FD_SETSIZE or more: the set
-- that `select` watches holds the listening socket and the clients in the table, and each of them
-- stands in the table once; none exceeds `maxfd`, which is below FD_SETSIZE; and no client stands
-- behind `maxi`, so the loop over the clients sees all of them.
pub Reach-IsValid :
    (listenfd : ℕ) (t : Table) → listenfd < fd_setsize → Reach listenfd t → IsValid listenfd t
Reach-IsValid listenfd _ below begun = start-IsValid listenfd below
Reach-IsValid listenfd _ below (turned {t} a {r} h fresh e) =
    turn-IsValid listenfd a t r (Reach-IsValid listenfd t below h) fresh e
