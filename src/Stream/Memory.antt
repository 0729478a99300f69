-- ===== src/Stream/Memory.antt =====
-- Bytes in memory, by address.
use unpvol.Common.{
  ℕ, zero, suc, ◌+◌, ◌≤◌, ◌<◌, ◌≡◌, refl, ◌⊎◌, List, [], ◌∷◌, ◌++◌, arith, length, update,
}

abbrev pub Memory : Type 0
Memory = ℕ → ℕ

-- The `n` bytes from address `p` on.
unfoldable pub slice : Memory → ℕ → ℕ → List ℕ
slice mem p zero = []
slice mem p (suc n) = mem p ∷ slice mem (p + 1) n

unfoldable pub store : Memory → ℕ → List ℕ → Memory
store mem p [] = mem
store mem p (x ∷ xs) = store (update mem p x) (p + 1) xs

pub slice-add :
    (mem : Memory) (p a b : ℕ) → slice mem p (a + b) ≡ slice mem p a ++ slice mem (p + a) b
unfolding slice
slice-add mem p zero b = ground arith
slice-add mem p (suc a) b =
    let sum : suc a + b ≡ suc (a + b) = omega arith in
    let start : p + suc a ≡ p + 1 + a = omega arith in rw (sum, start, slice-add mem (p + 1) a b)

pub store-append :
    (mem : Memory) (p : ℕ) (xs ys : List ℕ)
    → store mem p (xs ++ ys) ≡ store (store mem p xs) (p + length xs) ys
unfolding store
store-append mem p [] ys = let e : p + 0 ≡ p = omega arith in rw e
store-append mem p (x ∷ xs) ys =
    let e : p + suc (length xs) ≡ p + 1 + length xs = omega arith in
    rw e (store-append (update mem p x) (p + 1) xs ys)

-- A store leaves the bytes in front of it alone, and those behind it.
pub store_outside :
    (mem : Memory) (p : ℕ) (xs : List ℕ) (q : ℕ)
    → (q < p) ⊎ (p + length xs ≤ q)
    → store mem p xs q ≡ mem q
unfolding store
store_outside mem p [] q h = refl
store_outside mem p (x ∷ xs) q h = ground (arith, store_outside (update mem p x) (p + 1) xs q)

pub slice-store : (mem : Memory) (p : ℕ) (xs : List ℕ) → slice (store mem p xs) p (length xs) ≡ xs
unfolding slice store
slice-store mem p [] = refl
slice-store mem p (x ∷ xs) =
    ground
      (arith, slice-store (update mem p x) (p + 1) xs, store_outside (update mem p x) (p + 1) xs p)
