-- ===== src/SelectServer/Watch.antt =====
-- The set that `select` watches is the listening socket and the clients in the table, each of them
-- once.
use unpvol.Common.{
  ℕ, zero, suc, ◌+◌, ◌-◌, ◌≤◌, ◌<◌, ◌≡◌, refl, ap, sym, ◌∙◌, inl, inr, Bool, true, false, Option,
  none, some, List, [], ◌∷◌, ◌==◌, if◌then◌else◌, arith, Bool-cases, ==_iff, update, drop,
}
use unpvol.Stream.Kernel.{Arrival, chunk, broken}
use unpvol.SelectServer.Table.{
  fd_setsize, Slots, Table, Saved, behind, save, Swept, kept, cleared, action, Action, onto, sweep,
}

abbrev pub weight : Bool → ℕ
weight true = 1
weight false = 0

-- How often a descriptor stands in the table.
unfoldable pub times : ℕ → Slots → ℕ
times fd [] = 0
times fd (none ∷ slots) = times fd slots
times fd (some x ∷ slots) = weight (x == fd) + times fd slots

pub record IsValid (listenfd : ℕ) (t : Table) : Type 0 where
  pub watched : (fd : ℕ) → times fd t.client + weight (listenfd == fd) ≡ weight (t.allset fd)
  pub bounded : (fd : ℕ) → weight (t.allset fd) ≡ 1 → fd ≤ t.maxfd
  pub checked : (fd : ℕ) → times fd (drop t.used t.client) ≡ 0
  pub inside : t.maxfd < fd_setsize

-- A property of the entry that was found, if there is one.
unfoldable pub OnSaved : (Saved → Type 0) → Option Saved → Type 0
OnSaved P none = Unit
OnSaved P (some r) = P r

OnSaved-behind :
    (P Q : Saved → Type 0) (x : Option ℕ) (o : Option Saved)
    → OnSaved P o
    → ((r : Saved) → P r → Q (record { at = r.at + 1; slots = x ∷ r.slots }))
    → OnSaved Q (behind x o)
unfolding OnSaved behind
OnSaved-behind P Q x none h f = tt
OnSaved-behind P Q x (some r) h f = f r h

-- What saving a descriptor does to the table.
pub record IsSaved (c : ℕ) (slots : Slots) (r : Saved) : Type 0 where
  pub added : (fd : ℕ) → times fd r.slots ≡ weight (c == fd) + times fd slots
  pub same_behind : (n : ℕ) → r.at < n → drop n r.slots ≡ drop n slots

same_behind-zero :
    (c : ℕ) (slots : Slots) (n : ℕ) → 0 < n → drop n (some c ∷ slots) ≡ drop n (none ∷ slots)
same_behind-zero c slots zero h = absurd (omega arith)
same_behind-zero c slots (suc n) h = refl

same_behind-suc :
    (x : Option ℕ) (a : ℕ) (slots slots' : Slots)
    → ((n : ℕ) → a < n → drop n slots' ≡ drop n slots)
    → (n : ℕ) → a + 1 < n
    → drop n (x ∷ slots') ≡ drop n (x ∷ slots)
same_behind-suc x a slots slots' f zero h = absurd (omega arith)
same_behind-suc x a slots slots' f (suc n) h = f n (omega arith)

pub save-IsSaved : (c : ℕ) (slots : Slots) → OnSaved (IsSaved c slots) (save c slots)
unfolding OnSaved save times
save-IsSaved c [] = tt
save-IsSaved c (none ∷ slots) = record {
  added = λ fd. refl;
  same_behind = same_behind-zero c slots;
}
save-IsSaved c (some x ∷ slots) =
    OnSaved-behind (IsSaved c slots) (IsSaved c (some x ∷ slots)) (some x) (save c slots)
      (save-IsSaved c slots)
      (λ r s. record {
        added = λ fd. omega (arith, s.added fd);
        same_behind = same_behind-suc (some x) r.at slots r.slots s.same_behind;
      })

pub times-drop_le :
    (fd m n : ℕ) (slots : Slots) → m ≤ n → times fd (drop n slots) ≤ times fd (drop m slots)
unfolding times
times-drop_le fd zero zero slots h = omega arith
times-drop_le fd zero (suc n) [] h = omega arith
times-drop_le fd zero (suc n) (none ∷ slots) h = times-drop_le fd zero n slots (omega arith)
times-drop_le fd zero (suc n) (some x ∷ slots) h = omega (arith, times-drop_le fd zero n slots)
times-drop_le fd (suc m) zero slots h = absurd (omega arith)
times-drop_le fd (suc m) (suc n) [] h = omega arith
times-drop_le fd (suc m) (suc n) (x ∷ slots) h = times-drop_le fd m n slots (omega arith)

-- What the loop over the clients does to the set and to the entries it was given.
pub record IsSwept (slots : Slots) (set : ℕ → Bool) (k : ℕ) (r : Swept) : Type 0 where
  pub balanced : (fd : ℕ) → times fd r.slots + weight (set fd) ≡ times fd slots + weight (r.set fd)
  pub cleared_only : (fd : ℕ) → weight (r.set fd) ≤ weight (set fd)
  pub same_rest : drop k r.slots ≡ drop k slots

stays-IsSwept :
    (slots : Slots) (set : ℕ → Bool) (k : ℕ)
    → IsSwept slots set k (record { slots = slots; set = set; done = [] })
stays-IsSwept slots set k = record {
  balanced = λ fd. refl;
  cleared_only = λ fd. omega arith;
  same_rest = refl;
}

onto-IsSwept :
    (x : Option ℕ) (acts : List Action) (slots : Slots) (set : ℕ → Bool) (k : ℕ) (r : Swept)
    → IsSwept slots set k r
    → IsSwept (x ∷ slots) set (suc k) (onto x acts r)
unfolding times
onto-IsSwept none acts slots set k r s = record {
  balanced = s.balanced;
  cleared_only = s.cleared_only;
  same_rest = s.same_rest;
}
onto-IsSwept (some x) acts slots set k r s = record {
  balanced = λ fd. omega (arith, s.balanced fd);
  cleared_only = s.cleared_only;
  same_rest = s.same_rest;
}

pub weight_le : (b : Bool) → weight b ≤ 1
weight_le true = omega arith
weight_le false = omega arith

==_self : (x : ℕ) → (x == x) ≡ true
==_self x = ground arith

update-weight :
    (set : ℕ → Bool) (x fd : ℕ)
    → weight (set x) ≡ 1
    → weight (update set x false fd) + weight (x == fd) ≡ weight (set fd)
update-weight set x fd h = elim (Bool-cases (x == fd)) [
  | inl t ↦
      let e : weight (set fd) ≡ 1 = ap (λ y. weight (set y)) (sym ((==_iff x fd).0 t)) ∙ h in
      rw t (omega (arith, e))
  | inr f ↦ rw f (omega arith)
]

-- A client that is served is closed and taken out of both tables, or kept in both.
onto-served :
    (a : Arrival) (x : ℕ) (acts : List Action) (slots : Slots) (set : ℕ → Bool) (k : ℕ) (r : Swept)
    → weight (set x) ≡ 1
    → IsSwept slots (cleared a x set) k r
    → IsSwept (some x ∷ slots) set (suc k) (onto (kept a x) acts r)
unfolding times kept cleared
onto-served (chunk []) x acts slots set k r h s = record {
  balanced = λ fd. omega (arith, s.balanced fd, update-weight set x fd h);
  cleared_only = λ fd. omega (arith, s.cleared_only fd, update-weight set x fd h);
  same_rest = s.same_rest;
}
onto-served (chunk (y ∷ ys)) x acts slots set k r h s = onto-IsSwept (some x) acts slots set k r s
onto-served (broken e) x acts slots set k r h s = onto-IsSwept (some x) acts slots set k r s

cleared-enough :
    (a : Arrival) (x : ℕ) (slots : Slots) (set : ℕ → Bool)
    → ((fd : ℕ) → weight (x == fd) + times fd slots ≤ weight (set fd))
    → (fd : ℕ) → times fd slots ≤ weight (cleared a x set fd)
unfolding cleared
cleared-enough (chunk []) x slots set h fd = elim (Bool-cases (x == fd)) [
  | inl t ↦ rw t (omega (arith, rw t at (h fd), weight_le (set fd)))
  | inr f ↦ rw f (omega (arith, rw f at (h fd)))
]
cleared-enough (chunk (y ∷ ys)) x slots set h fd = omega (arith, h fd)
cleared-enough (broken e) x slots set h fd = omega (arith, h fd)

if-IsSwept :
    (b : Bool) (slots : Slots) (set : ℕ → Bool) (k : ℕ) (r : Swept)
    → IsSwept slots set k r
    → IsSwept slots set k (if b then record { slots = slots; set = set; done = [] } else r)
if-IsSwept true slots set k r s = stays-IsSwept slots set k
if-IsSwept false slots set k r s = s

pub sweep-IsSwept :
    (rset : ℕ → Bool) (reads : ℕ → Arrival) (k nready : ℕ) (slots : Slots) (set : ℕ → Bool)
    → ((fd : ℕ) → times fd slots ≤ weight (set fd))
    → IsSwept slots set k (sweep rset reads k nready slots set)
unfolding sweep times
sweep-IsSwept rset reads zero nready slots set h = stays-IsSwept slots set zero
sweep-IsSwept rset reads (suc k) nready [] set h = stays-IsSwept [] set (suc k)
sweep-IsSwept rset reads (suc k) nready (none ∷ slots) set h =
    onto-IsSwept none [] slots set k _ (sweep-IsSwept rset reads k nready slots set h)
sweep-IsSwept rset reads (suc k) nready (some x ∷ slots) set h = elim (Bool-cases (rset x)) [
  | inl e ↦
      let set' = cleared (reads x) x set in
      let held : weight (set x) ≡ 1 = omega (arith, rw (==_self x) at (h x), weight_le (set x)) in
      rw e (
        onto-served (reads x) x (action (reads x) x ∷ []) slots set k _ held (
          if-IsSwept _ slots set' k _ (
            sweep-IsSwept rset reads k (nready - 1) slots set'
              (cleared-enough (reads x) x slots set h))))
  | inr e ↦ rw e (
      onto-IsSwept (some x) [] slots set k _
        (sweep-IsSwept rset reads k nready slots set (λ fd. omega (arith, h fd))))
]
