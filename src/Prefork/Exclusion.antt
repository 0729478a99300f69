-- ===== src/Prefork/Exclusion.antt =====
-- One child at a time is in `accept`, and the lock is held by a child that is in it.
use unpvol.Common.{
  ℕ, ◌≡◌, ◌↔◌, refl, ap, sym, ◌∙◌, inl, inr, false, Option, none, some, ◌==◌, update, arith,
  Bool-cases, ==_iff,
}
use unpvol.Prefork.System.{
  Pc, waiting, accepting, accepted, serving, ended, System, Step, lock, lock_error, accept,
  accept_error, unlock, unlock_error, close, web_exit, Reach, begun, moved,
}

-- Between the return of `my_lock_wait` and that of `my_lock_release`.
abbrev pub IsInside : Pc → Type 0
IsInside waiting = ⊥
IsInside accepting = Unit
IsInside (accepted c) = Unit
IsInside (serving c) = ⊥
IsInside ended = ⊥

abbrev Excludes : System → Type 0
Excludes s = (i : ℕ) → IsInside (s.children i) → s.holder ≡ some i

moved-other :
    (s : System) (i j : ℕ) (pc : Pc) (h : Option ℕ)
    → Excludes s
    → (IsInside pc → h ≡ some i)
    → ((j : ℕ) → (i == j) ≡ false → IsInside (s.children j) → h ≡ some j)
    → IsInside (update s.children i pc j)
    → h ≡ some j
moved-other s i j pc h x here there p = elim (Bool-cases (i == j)) [
  | inl t ↦ rw⁻¹ ((==_iff i j).0 t) (here (rw t at p))
  | inr f ↦ there j f (rw f at p)
]

some-other : (i j : ℕ) (h : Option ℕ) → (i == j) ≡ false → h ≡ some i → h ≡ some j → ⊥
some-other i j h f e g = let same : i ≡ j = cc in absurd (ground (arith, f, same))

Step-Excludes : (s t : System) → Step s t → Excludes s → Excludes t
Step-Excludes s _ (lock i e h) x j =
    moved-other s i j accepting (some i) x (λ p. refl)
      (λ k f p. let g : s.holder ≡ some k = x k p in cc)
Step-Excludes s _ (lock_error i e) x j =
    moved-other s i j ended s.holder x (λ p. absurd p) (λ k f p. x k p)
Step-Excludes s _ (accept i c e) x j =
    moved-other s i j (accepted (some c)) s.holder x (λ p. x i (rw e tt)) (λ k f p. x k p)
Step-Excludes s _ (accept_error i e) x j =
    moved-other s i j (accepted none) s.holder x (λ p. x i (rw e tt)) (λ k f p. x k p)
Step-Excludes s _ (unlock i c e) x j =
    moved-other s i j (serving c) none x (λ p. absurd p)
      (λ k f p. absurd (some-other i k s.holder f (x i (rw e tt)) (x k p)))
Step-Excludes s _ (unlock_error i c e) x j =
    moved-other s i j ended none x (λ p. absurd p)
      (λ k f p. absurd (some-other i k s.holder f (x i (rw e tt)) (x k p)))
Step-Excludes s _ (close i c e) x j =
    moved-other s i j waiting s.holder x (λ p. absurd p) (λ k f p. x k p)
Step-Excludes s _ (web_exit i c e) x j =
    moved-other s i j ended s.holder x (λ p. absurd p) (λ k f p. x k p)

Reach-Excludes : (s : System) → Reach s → Excludes s
Reach-Excludes _ begun = λ j p. absurd p
Reach-Excludes _ (moved {s} {t} r m) = Step-Excludes s t m (Reach-Excludes s r)

-- In every state that the children reach, at most one of them is between the return of
-- `my_lock_wait` and that of `my_lock_release`, so at most one is in `accept`.
pub one_inside :
    (s : System) (i j : ℕ) → Reach s → IsInside (s.children i) → IsInside (s.children j) → i ≡ j
one_inside s i j r p q =
    let x = Reach-Excludes s r in
    let e : s.holder ≡ some i = x i p in let f : s.holder ≡ some j = x j q in cc

-- The lock is held by a child that will release it.
abbrev Held : System → Type 0
Held s = (i : ℕ) → s.holder ≡ some i → IsInside (s.children i)

-- A step of child `i`, in which `h` becomes the holder.
moved-Held :
    (s : System) (i j : ℕ) (pc : Pc) (h : Option ℕ)
    → Held s
    → (h ≡ some i → IsInside pc)
    → ((j : ℕ) → (i == j) ≡ false → h ≡ some j → s.holder ≡ some j)
    → h ≡ some j
    → IsInside (update s.children i pc j)
moved-Held s i j pc h x here there e = elim (Bool-cases (i == j)) [
  | inl t ↦ (let same : i ≡ j = (==_iff i j).0 t in rw t (here (e ∙ ap some (sym same))))
  | inr f ↦ rw f (x j (there j f e))
]

Step-Held : (s t : System) → Step s t → Held s → Held t
Step-Held s _ (lock i e h) y j =
    moved-Held s i j accepting (some i) y (λ p. tt)
      (λ k f p. let same : i ≡ k = cc in absurd (ground (arith, f, same)))
Step-Held s _ (lock_error i e) y j =
    moved-Held s i j ended s.holder y (λ p. rw e at (y i p)) (λ k f p. p)
Step-Held s _ (accept i c e) y j =
    moved-Held s i j (accepted (some c)) s.holder y (λ p. tt) (λ k f p. p)
Step-Held s _ (accept_error i e) y j =
    moved-Held s i j (accepted none) s.holder y (λ p. tt) (λ k f p. p)
Step-Held s _ (unlock i c e) y j = moved-Held s i j (serving c) none y (λ p. cc) (λ k f p. cc)
Step-Held s _ (unlock_error i c e) y j = moved-Held s i j ended none y (λ p. cc) (λ k f p. cc)
Step-Held s _ (close i c e) y j =
    moved-Held s i j waiting s.holder y (λ p. rw e at (y i p)) (λ k f p. p)
Step-Held s _ (web_exit i c e) y j =
    moved-Held s i j ended s.holder y (λ p. rw e at (y i p)) (λ k f p. p)

Reach-Held : (s : System) → Reach s → Held s
Reach-Held _ begun = λ i e. cc
Reach-Held _ (moved {s} {t} r m) = Step-Held s t m (Reach-Held s r)

-- In every state that the children reach, a child holds the lock exactly if it stands between the
-- return of `my_lock_wait` and that of `my_lock_release`: no child is in `accept` without the lock, and
-- none that serves a connection, waits or has ended keeps it, also after errors.
pub holder-IsInside : (s : System) (i : ℕ) → Reach s → (s.holder ≡ some i) ↔ IsInside (s.children i)
holder-IsInside s i r = (Reach-Held s r i, Reach-Excludes s r i)
