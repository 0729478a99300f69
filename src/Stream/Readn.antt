-- ===== src/Stream/Readn.antt =====
-- `readn` of 30chp/client.c, which keeps the result of `read` in a `size_t`, and `readn` of
-- 16chp/readn.c, which keeps it in a `ssize_t`.
use unpvol.Common.{
  ℕ, zero, suc, ◌+◌, Bool, true, false, Option, none, some, List, [], ◌∷◌, ltb, ◌==◌, length,
}
use unpvol.Stream.Kernel.{
  eintr, Arrival, chunk, broken, arrival_size, add_size, sub_size, Result, returned, minus_one,
}
use unpvol.Stream.Memory.{Memory, store}

-- A call of `read`: where the bytes go, and what arrived.
pub record Call : Type 0 where
  pub addr : ℕ
  pub arrival : Arrival

-- The calls made, and the result; `none` while the loop still runs when its fuel is used up.
pub record Run : Type 0 where
  pub calls : List Call
  pub result : Option Result

abbrev pub stop : Option Result → Run
stop r = record { calls = []; result = r }

abbrev pub after : ℕ → Arrival → Run → Run
after p a r = record { calls = record { addr = p; arrival = a } ∷ r.calls; result = r.result }

abbrev pub received : Arrival → List ℕ
received (chunk xs) = xs
received (broken e) = []

abbrev pub is_eintr : Arrival → Bool
is_eintr (broken eintr) = true
is_eintr _ = false

-- The kernel's answer to the call of that number, with that count.
module _ (read : ℕ → ℕ → Arrival) (len : ℕ) where
  -- `while (nleft)` with `size_t nread`, from call number `i` on.
  unfoldable pub readn_loop : ℕ → ℕ → ℕ → ℕ → Run
  readn_loop zero i p nleft = stop none
  readn_loop (suc fuel) i p nleft =
      let a = read i nleft in
      let nread = arrival_size a in
      elim (nleft == 0) [
        | true ↦ stop (some (returned (sub_size len nleft)))
        | false ↦ elim (ltb nread 0) [
          | true ↦ elim (is_eintr a) [
            | true ↦ after p a (readn_loop fuel (i + 1) p nleft)
            | false ↦ after p a (stop (some minus_one))
          ]
          | false ↦ elim (nread == 0) [
            | true ↦ after p a (stop (some (returned (sub_size len nleft))))
            | false ↦ after p a (readn_loop fuel (i + 1) (add_size p nread) (sub_size nleft nread))
          ]
        ]
      ]

  -- `while (nleft > 0)` with `ssize_t nread`.
  unfoldable pub readn_signed_loop : ℕ → ℕ → ℕ → ℕ → Run
  readn_signed_loop zero i p nleft = stop none
  readn_signed_loop (suc fuel) i p nleft = elim (ltb 0 nleft) [
    | false ↦ stop (some (returned (sub_size len nleft)))
    | true ↦ elim (read i nleft) [
      | broken e ↦ elim e [
        | eintr ↦ after p (broken eintr) (readn_signed_loop fuel (i + 1) p nleft)
        | hard ↦ after p (broken hard) (stop (some minus_one))
      ]
      | chunk xs ↦ elim (length xs == 0) [
        | true ↦ after p (chunk xs) (stop (some (returned (sub_size len nleft))))
        | false ↦
            after p (chunk xs)
              (readn_signed_loop fuel (i + 1) (add_size p (length xs)) (sub_size nleft (length xs)))
      ]
    ]
  ]

-- `readn(fd, buff, len)`
unfoldable pub readn : (ℕ → ℕ → Arrival) → ℕ → ℕ → ℕ → Run
readn read fuel buff len = readn_loop read len fuel 0 buff len

unfoldable pub readn_signed : (ℕ → ℕ → Arrival) → ℕ → ℕ → ℕ → Run
readn_signed read fuel buff len = readn_signed_loop read len fuel 0 buff len

-- Memory after the calls.
unfoldable pub written : Memory → List Call → Memory
written mem [] = mem
written mem (c ∷ cs) = written (store mem c.addr (received c.arrival)) cs
