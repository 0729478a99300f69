-- ===== src/Stream/Writen.antt =====
-- `writen` of 30chp/serv08.c (the same text stands in the other servers of 30chp and in 26chp),
-- which keeps the result of `write` in a `size_t`, and `writen` of 15chp/unixstrserv01.c, which
-- keeps it in a `ssize_t`.
use unpvol.Common.{
  ℕ, zero, suc, ◌+◌, Bool, true, false, ◌&&◌, Option, none, some, List, [], ◌∷◌, ltb, leb, ◌==◌,
}
use unpvol.Stream.Kernel.{
  eintr, Reply, wrote, failed, to_size, add_size, sub_size, Result, returned, minus_one,
}

-- A call of `write`: where the bytes stand, how many it offers, and the answer.
pub record Call : Type 0 where
  pub addr : ℕ
  pub count : ℕ
  pub reply : Reply

-- The calls made, and the result; `none` while the loop still runs when its fuel is used up.
pub record Run : Type 0 where
  pub calls : List Call
  pub result : Option Result

abbrev pub stop : Option Result → Run
stop r = record { calls = []; result = r }

abbrev pub after : Call → Run → Run
after c r = record { calls = c ∷ r.calls; result = r.result }

abbrev pub is_eintr : Reply → Bool
is_eintr (failed eintr) = true
is_eintr _ = false

-- The kernel's answer to the call of that number, with that count.
module _ (write : ℕ → ℕ → Reply) (n : ℕ) where
  -- `while (nleft)` with `size_t nwrite`, from call number `i` on.
  unfoldable pub writen_loop : ℕ → ℕ → ℕ → ℕ → Run
  writen_loop zero i p nleft = stop none
  writen_loop (suc fuel) i p nleft =
      let nwrite = to_size (write i nleft) in
      let call : Call = record { addr = p; count = nleft; reply = write i nleft } in
      elim (nleft == 0) [
        | true ↦ stop (some (returned n))
        | false ↦ elim (leb nwrite 0) [
          | true ↦ elim (ltb nwrite 0 && is_eintr (write i nleft)) [
            | true ↦ after call (writen_loop fuel (i + 1) p nleft)
            | false ↦ after call (stop (some minus_one))
          ]
          | false ↦
              after call (writen_loop fuel (i + 1) (add_size p nwrite) (sub_size nleft nwrite))
        ]
      ]

  -- `while (nleft > 0)` with `ssize_t nwritten`.
  unfoldable pub writen_signed_loop : ℕ → ℕ → ℕ → ℕ → Run
  writen_signed_loop zero i p nleft = stop none
  writen_signed_loop (suc fuel) i p nleft =
      let call : Call = record { addr = p; count = nleft; reply = write i nleft } in
      elim (ltb 0 nleft) [
        | false ↦ stop (some (returned n))
        | true ↦ elim (write i nleft) [
          | failed e ↦ elim e [
            | eintr ↦ after call (writen_signed_loop fuel (i + 1) p nleft)
            | _ ↦ after call (stop (some minus_one))
          ]
          | wrote k ↦ elim (k == 0) [
            | true ↦ after call (stop (some minus_one))
            | false ↦ after call (writen_signed_loop fuel (i + 1) (add_size p k) (sub_size nleft k))
          ]
        ]
      ]

-- `writen(fd, buff, n)`
unfoldable pub writen : (ℕ → ℕ → Reply) → ℕ → ℕ → ℕ → Run
writen write fuel buff n = writen_loop write n fuel 0 buff n

unfoldable pub writen_signed : (ℕ → ℕ → Reply) → ℕ → ℕ → ℕ → Run
writen_signed write fuel buff n = writen_signed_loop write n fuel 0 buff n
