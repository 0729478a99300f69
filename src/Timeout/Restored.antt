-- ===== src/Timeout/Restored.antt =====
-- What `connect_timeo` leaves behind.
use unpvol.Common.{ℕ, ◌≡◌, refl, true, some, ◌∷◌}
use unpvol.Stream.Kernel.{eintr}
use unpvol.Timeout.Connect.{
  Process, flag_for, signal, success, failure, attempt, restore, after_signal, connect_timeo,
  zero_returned, minus_one, etimedout,
}

-- The process after `connect_timeo`: the old handler is back, no alarm is set, whatever alarm was set
-- before, and the flag is that of this `signal`.
abbrev pub quiet : Process → Process
quiet p = record p { alarm = 0; flag = flag_for true }

-- If both `sigaction` succeed: after a `connect` that succeeds the socket is open, and after one that
-- is interrupted it is closed and the error is a timeout; the old handler is back and no alarm is
-- set, so an alarm that was set before is lost.
connect_timeo-restores :
    (sockfd nsec : ℕ) (p : Process)
    → (connect_timeo sockfd nsec true true success p
        ≡ some (record { process = quiet p; value = zero_returned }))
      × (connect_timeo sockfd nsec true true (failure eintr) p
          ≡ some (record {
            process = record (quiet p) { closed = sockfd ∷ p.closed };
            value = minus_one etimedout;
          }))
unfolding connect_timeo after_signal restore signal attempt
connect_timeo-restores sockfd nsec p = (refl, refl)
