-- ===== src/Common/Family.antt =====
-- Arrays and tables as families `ℕ → A`: update at one index.
use Prim.Native.Nat.{ℕ, zero, suc, ◌+◌, ◌≤◌, ◌<◌}
use mathlib.Core.Path.{◌≡◌, refl}
use native.Mathlib.Decide.{dec_lt}
use mathlib.Core.Logic.{◌≢◌}
use native.Mathlib.Omega.{arith}
use unpvol.Common.Tests.{◌==◌, if◌then◌else◌}

abbrev pub update {ℓ} : {A : Type ℓ} → (ℕ → A) → ℕ → A → ℕ → A
update f i a j = if i == j then a else f j

pub update_self {ℓ} : {A : Type ℓ} (f : ℕ → A) (i : ℕ) (a : A) → update f i a i ≡ a
update_self f i a = ground arith

pub update_ne {ℓ} : {A : Type ℓ} (f : ℕ → A) {i j : ℕ} (a : A) → i ≢ j → update f i a j ≡ f j
update_ne f a h = ground arith

-- What the members `f 0`, …, `f (n - 1)` of a family weigh together.
module _ {ℓ} {A : Type ℓ} (weight : A → ℕ) (f : ℕ → A) where
  pub sum_below : ℕ → ℕ
  sum_below zero = 0
  sum_below (suc n) = weight (f n) + sum_below n

  pub le-sum_below : (n j : ℕ) → j < n → weight (f j) ≤ sum_below n
  unfolding sum_below
  le-sum_below zero j below = elim below [ ]
  le-sum_below (suc n) j below = ground (arith, le-sum_below n j)

  -- A sum that is not 0 has a member that counts.
  pub sum_below_pos : (n : ℕ) → 0 < sum_below n → (j : ℕ) × (j < n) × (0 < weight (f j))
  unfolding sum_below
  sum_below_pos zero some_weight = absurd (omega arith)
  sum_below_pos (suc n) some_weight = elim (dec_lt 0 (weight (f n))) [
    | yes p ↦ (n, omega arith, p)
    | no p ↦ let (j, below, q) = sum_below_pos n (omega arith) in (j, omega arith, q)
  ]

module _ {ℓ} {A : Type ℓ} (weight : A → ℕ) (f : ℕ → A) (j : ℕ) (new : A) where
  -- An update counts from the number of members on that reaches it.
  sum_below-update_cases :
      (n : ℕ)
      → (n ≤ j → sum_below weight (update f j new) n ≡ sum_below weight f n)
        × (j < n
            → sum_below weight (update f j new) n + weight (f j)
              ≡ weight new + sum_below weight f n)
  unfolding sum_below
  sum_below-update_cases zero = (λ above. refl, λ below. absurd (omega arith))
  sum_below-update_cases (suc n) =
      let (same, changed) = sum_below-update_cases n in
      (λ above. ground (arith, same), λ below. ground (arith, same, changed))

  -- An update takes the old member's weight off the sum and adds the new one's.
  pub sum_below-update :
      (n : ℕ)
      → j < n
      → sum_below weight (update f j new) n + weight (f j) ≡ weight new + sum_below weight f n
  sum_below-update n below = (sum_below-update_cases n).1 below

module _ {ℓ} {A : Type ℓ} (weight : A → ℕ) (f : ℕ → A) where
  -- An update behind the members changes nothing.
  pub sum_below-update_behind :
      (j : ℕ) (new : A) (n : ℕ) → n ≤ j → sum_below weight (update f j new) n ≡ sum_below weight f n
  sum_below-update_behind j new n behind = (sum_below-update_cases weight f j new n).0 behind

  pub sum_below-zero : sum_below weight f 0 ≡ 0
  unfolding sum_below
  sum_below-zero = refl

  pub sum_below_none : (n : ℕ) → ((i : ℕ) → i < n → weight (f i) ≡ 0) → sum_below weight f n ≡ 0
  unfolding sum_below
  sum_below_none zero h = refl
  sum_below_none (suc n) h =
      omega (arith, h n (omega arith), sum_below_none n (λ i p. h i (omega arith)))

  pub sum_below-last : (n : ℕ) → sum_below weight f (n + 1) ≡ weight (f n) + sum_below weight f n
  unfolding sum_below
  sum_below-last n = let e : n + 1 ≡ suc n = omega arith in rw e refl

pub sum_below-const {ℓ} :
    {A : Type ℓ} (weight : A → ℕ) (a : A) (n : ℕ) → weight a ≡ 0 → sum_below weight (λ _. a) n ≡ 0
unfolding sum_below
sum_below-const weight a zero free = refl
sum_below-const weight a (suc n) free = omega (arith, sum_below-const weight a n free)
