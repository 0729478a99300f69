-- ===== src/Stream/Errors.antt =====
-- What the two forms of `writen` make of an error of `write`.
use unpvol.Common.{
  ℕ, zero, suc, ◌+◌, ◌-◌, ◌≤◌, ◌<◌, ◌≡◌, ◌≢◌, refl, none, some, List, [], ◌∷◌, arith,
}
use unpvol.Stream.Kernel.{Errno, eintr, Reply, wrote, failed, size_mod, minus_one}
use unpvol.Stream.Writen.{Call, writen_loop, writen_signed_loop, writen, writen_signed}

-- The calls of a loop that steps one byte back, and offers one byte more, at each call.
unfoldable pub backwards : Errno → ℕ → ℕ → ℕ → List Call
backwards e p count zero = []
backwards e p count (suc f) =
    record { addr = p; count = count; reply = failed e } ∷ backwards e (p - 1) (count + 1) f

module _ (write : ℕ → ℕ → Reply) (e : Errno) (fails : (i c : ℕ) → write i c ≡ failed e) where
  writen_loop_runs_back :
      (n fuel i p nleft : ℕ)
      → 0 < nleft
      → fuel ≤ p
      → p + nleft < size_mod
      → writen_loop write n fuel i p nleft
        ≡ record { calls = backwards e p nleft fuel; result = none }
  unfolding writen_loop backwards
  writen_loop_runs_back n zero i p nleft pos le b = refl
  writen_loop_runs_back n (suc fuel) i p nleft pos le b =
      ground (arith, fails i nleft, writen_loop_runs_back n fuel (i + 1) (p - 1) (nleft + 1))

  -- If every call of `write` fails, with whatever error, `writen` of 30chp and 26chp does not
  -- return, however long it runs (here: up to the address of the buffer in calls): each call
  -- offers one byte more than the one before, from one byte further in front of the buffer.
  pub writen_runs_back :
      (fuel buff n : ℕ)
      → 0 < n
      → fuel ≤ buff
      → buff + n < size_mod
      → writen write fuel buff n ≡ record { calls = backwards e buff n fuel; result = none }
  unfolding writen
  writen_runs_back fuel buff n pos le b = writen_loop_runs_back n fuel 0 buff n pos le b

-- Where the offers of nonempty buffers fail with an error other than EINTR, `writen` of 15chp
-- returns -1 after one call; it does so too where `write` takes nothing.
pub writen_signed_reports :
    (write : ℕ → ℕ → Reply) (fuel buff n : ℕ) {answer : Reply}
    → write 0 (suc n) ≡ answer
    → answer ≢ failed eintr
    → ((k : ℕ) → 0 < k → answer ≢ wrote k)
    → writen_signed write (suc fuel) buff (suc n) ≡ record {
      calls = record { addr = buff; count = suc n; reply = answer } ∷ [];
      result = some minus_one;
    }
unfolding writen_signed writen_signed_loop
writen_signed_reports write fuel buff n {answer = failed e} w no_intr no_bytes = ground arith
writen_signed_reports write fuel buff n {answer = wrote k} w no_intr no_bytes =
    ground (arith, no_bytes k)
