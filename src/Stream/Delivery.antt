-- ===== src/Stream/Delivery.antt =====
-- What `writen` sends, and what it does with an error.
use unpvol.Common.{
  ℕ, zero, suc, ◌+◌, ◌-◌, ◌≤◌, ◌<◌, ◌≡◌, refl, ◌⊎◌, inl, inr, some, List, [], ◌∷◌, ◌++◌, arith,
}
use unpvol.Stream.Kernel.{eintr, Reply, wrote, failed, add_size, sub_size, size_mod, returned}
use unpvol.Stream.Memory.{Memory, slice, slice-add}
use unpvol.Stream.Writen.{Call, writen_loop, writen_signed_loop, writen, writen_signed}

-- The bytes that the kernel took from memory, in order.
abbrev pub taken : Memory → ℕ → Reply → List ℕ
taken mem p (wrote k) = slice mem p k
taken mem p (failed e) = []

unfoldable pub delivered : Memory → List Call → List ℕ
delivered mem [] = []
delivered mem (c ∷ cs) = taken mem c.addr c.reply ++ delivered mem cs

-- Of a nonempty offer `write` takes at least one byte and at most all, as on a blocking socket.
abbrev pub Takes : (ℕ → ℕ → Reply) → Type 0
Takes write = (i c : ℕ) → 0 < c → (k : ℕ) × (write i c ≡ wrote k) × (0 < k) × (k ≤ c)

module _ (mem : Memory) (write : ℕ → ℕ → Reply) (n : ℕ) (takes : Takes write) where
  writen_loop_delivers :
      (fuel i p nleft : ℕ)
      → nleft < fuel
      → p + nleft < size_mod
      → (delivered mem (writen_loop write n fuel i p nleft).calls ≡ slice mem p nleft)
        × ((writen_loop write n fuel i p nleft).result ≡ some (returned n))
  unfolding writen_loop delivered slice
  writen_loop_delivers zero i p nleft h r = elim h [ ]
  writen_loop_delivers (suc fuel) i p zero h r = (refl, refl)
  writen_loop_delivers (suc fuel) i p (suc m) h r =
      let (k, e, pos, le) = takes i (suc m) (omega arith) in
      ground (
        arith,
        slice-add mem p k (suc m - k),
        writen_loop_delivers fuel (i + 1) (add_size p k) (sub_size (suc m) k),
      )

-- With a kernel that takes at least one byte of each nonempty offer, `writen` of 30chp and 26chp
-- returns n, after the kernel took exactly the n bytes of the buffer, in order. A fuel above n is
-- enough.
pub writen_delivers :
    (mem : Memory) (write : ℕ → ℕ → Reply) (fuel buff n : ℕ)
    → Takes write
    → n < fuel
    → buff + n < size_mod
    → (delivered mem (writen write fuel buff n).calls ≡ slice mem buff n)
      × ((writen write fuel buff n).result ≡ some (returned n))
unfolding writen
writen_delivers mem write fuel buff n takes h r =
    writen_loop_delivers mem write n takes fuel 0 buff n h r

-- The same kernel, but of the calls numbered below `r` any may be interrupted by a signal.
abbrev pub Interrupted : ℕ → (ℕ → ℕ → Reply) → Type 0
Interrupted r write =
    (i c : ℕ)
    → 0 < c
    → (i < r) × (write i c ≡ failed eintr) ⊎ ((k : ℕ) × (write i c ≡ wrote k) × (0 < k) × (k ≤ c))

module _ (mem : Memory) (write : ℕ → ℕ → Reply) (n r : ℕ) (inter : Interrupted r write) where
  writen_signed_loop_delivers :
      (fuel i p nleft : ℕ)
      → nleft + (r - i) < fuel
      → p + nleft < size_mod
      → (delivered mem (writen_signed_loop write n fuel i p nleft).calls ≡ slice mem p nleft)
        × ((writen_signed_loop write n fuel i p nleft).result ≡ some (returned n))
  unfolding writen_signed_loop delivered slice
  writen_signed_loop_delivers zero i p nleft h b = elim h [ ]
  writen_signed_loop_delivers (suc fuel) i p zero h b = (refl, refl)
  writen_signed_loop_delivers (suc fuel) i p (suc m) h b = elim (inter i (suc m) (omega arith)) [
    | inl e ↦ ground (arith, writen_signed_loop_delivers fuel (i + 1) p (suc m))
    | inr (k, e, pos, le) ↦ ground (
      arith,
      slice-add mem p k (suc m - k),
      writen_signed_loop_delivers fuel (i + 1) (add_size p k) (sub_size (suc m) k),
    )
  ]

-- With a kernel that interrupts some of its first r calls and otherwise takes at least one byte of
-- each nonempty offer, `writen` of 15chp returns n, after the kernel took exactly the n bytes of
-- the buffer, in order. A fuel above n + r is enough.
pub writen_signed_delivers :
    (mem : Memory) (write : ℕ → ℕ → Reply) (r fuel buff n : ℕ)
    → Interrupted r write
    → n + r < fuel
    → buff + n < size_mod
    → (delivered mem (writen_signed write fuel buff n).calls ≡ slice mem buff n)
      × ((writen_signed write fuel buff n).result ≡ some (returned n))
unfolding writen_signed
writen_signed_delivers mem write r fuel buff n inter h b =
    writen_signed_loop_delivers mem write n r inter fuel 0 buff n (omega arith) b
