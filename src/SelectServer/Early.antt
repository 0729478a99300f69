-- ===== src/SelectServer/Early.antt =====
-- The loop over the clients stops early when it has served as many descriptors as were ready; that
-- leaves nobody out.
use unpvol.Common.{
  ℕ, zero, suc, ◌+◌, ◌-◌, ◌≤◌, ◌≡◌, refl, ap, sym, inl, inr, Bool, true, false, none, some, [], ◌∷◌,
  leb, if◌then◌else◌, arith, Bool-cases,
}
use unpvol.Stream.Kernel.{Arrival}
use unpvol.SelectServer.Table.{Slots, Swept, kept, cleared, action, onto, sweep}

module _ (rset : ℕ → Bool) (reads : ℕ → Arrival) where
  -- The loop without its `break`.
  unfoldable pub sweep_all : ℕ → Slots → (ℕ → Bool) → Swept
  sweep_all zero slots set = record { slots = slots; set = set; done = [] }
  sweep_all (suc k) [] set = record { slots = []; set = set; done = [] }
  sweep_all (suc k) (none ∷ slots) set = onto none [] (sweep_all k slots set)
  sweep_all (suc k) (some fd ∷ slots) set =
      let passed = sweep_all k slots set in
      let rest = sweep_all k slots (cleared (reads fd) fd set) in
      if rset fd
      then onto (kept (reads fd) fd) (action (reads fd) fd ∷ []) rest
      else onto (some fd) [] passed

  -- How many of the first `k` clients are ready.
  unfoldable pub ready : ℕ → Slots → ℕ
  ready zero slots = 0
  ready (suc k) [] = 0
  ready (suc k) (none ∷ slots) = ready k slots
  ready (suc k) (some fd ∷ slots) = (if rset fd then 1 else 0) + ready k slots

  sweep_all-none :
      (k : ℕ) (slots : Slots) (set : ℕ → Bool)
      → ready k slots ≡ 0
      → sweep_all k slots set ≡ record { slots = slots; set = set; done = [] }
  unfolding sweep_all ready
  sweep_all-none zero slots set h = refl
  sweep_all-none (suc k) [] set h = refl
  sweep_all-none (suc k) (none ∷ slots) set h = ap (onto none []) (sweep_all-none k slots set h)
  sweep_all-none (suc k) (some fd ∷ slots) set h = elim (Bool-cases (rset fd)) [
    | inl e ↦ absurd (omega (arith, rw e at h))
    | inr e ↦ rw e (ap (onto (some fd) []) (sweep_all-none k slots set (omega (arith, rw e at h))))
  ]

  break-full :
      (b : Bool) (k : ℕ) (slots : Slots) (set : ℕ → Bool) (rest : Swept)
      → rest ≡ sweep_all k slots set
      → (b ≡ true → ready k slots ≡ 0)
      → (if b then record { slots = slots; set = set; done = [] } else rest) ≡ sweep_all k slots set
  break-full true k slots set rest e h = sym (sweep_all-none k slots set (h refl))
  break-full false k slots set rest e h = e

  -- If at least as many descriptors are counted as clients are ready, the loop with its `break` does
  -- for the clients exactly what the loop without it does, and leaves the same tables.
  pub sweep-full :
      (k nready : ℕ) (slots : Slots) (set : ℕ → Bool)
      → ready k slots ≤ nready
      → sweep rset reads k nready slots set ≡ sweep_all k slots set
  unfolding sweep sweep_all ready
  sweep-full zero nready slots set h = refl
  sweep-full (suc k) nready [] set h = refl
  sweep-full (suc k) nready (none ∷ slots) set h =
      ap (onto none []) (sweep-full k nready slots set h)
  sweep-full (suc k) nready (some fd ∷ slots) set h = elim (Bool-cases (rset fd)) [
    | inr e ↦
        rw e (ap (onto (some fd) []) (sweep-full k nready slots set (omega (arith, rw e at h))))
    | inl e ↦
        let few : ready k slots ≤ nready - 1 = omega (arith, rw e at h) in
        let set' = cleared (reads fd) fd set in
        rw e (
          ap (onto (kept (reads fd) fd) (action (reads fd) fd ∷ [])) (
            break-full (leb (nready - 1) 0) k slots set' _
              (sweep-full k (nready - 1) slots set' few) (λ b. ground (arith, b, few))))
  ]
