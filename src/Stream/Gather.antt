-- ===== src/Stream/Gather.antt =====
-- What `readn` stores and returns.
use unpvol.Common.{
  ℕ, zero, suc, ◌+◌, ◌-◌, ◌≤◌, ◌<◌, ◌≡◌, refl, ◌⊎◌, Bool, true, false, some, List, [], ◌∷◌, ◌++◌,
  arith, length, length-append,
}
use unpvol.Stream.Kernel.{Arrival, chunk, size_mod, returned}
use unpvol.Stream.Memory.{Memory, store, store-append}
use unpvol.Stream.Readn.{
  Call, Run, received, written, stop, after, readn_loop, readn_signed_loop, readn, readn_signed,
}

-- All the bytes that arrived, in order.
unfoldable pub gathered : List Call → List ℕ
gathered [] = []
gathered (c ∷ cs) = received c.arrival ++ gathered cs

-- The last call found the end of the stream.
unfoldable pub ended : List Call → Bool
ended [] = false
ended (c ∷ []) = elim (length (received c.arrival)) [ zero ↦ true | suc _ ↦ false ]
ended (c ∷ d ∷ cs) = ended (d ∷ cs)

-- Each call stores where the one before it stopped.
abbrev pub Follows : ℕ → List Call → Type 0
Follows p [] = Unit
Follows p (c ∷ cs) = (c.addr ≡ p) × Follows (p + length (received c.arrival)) cs

written-Follows :
    (mem : Memory) (p : ℕ) (cs : List Call)
    → Follows p cs
    → written mem cs ≡ store mem p (gathered cs)
unfolding written gathered store
written-Follows mem p [] h = refl
written-Follows mem p (c ∷ cs) (e, h) =
    rw (e, store-append mem p (received c.arrival) (gathered cs))
      (written-Follows (store mem p (received c.arrival)) (p + length (received c.arrival)) cs h)

-- `read` delivers at most as many bytes as it is asked for, and never fails.
abbrev pub Gives : (ℕ → ℕ → Arrival) → Type 0
Gives read = (i c : ℕ) → 0 < c → (xs : List ℕ) × (read i c ≡ chunk xs) × (length xs ≤ c)

-- What a run that starts with `nleft` of `len` bytes to come has done when it stops.
pub record Gathers (len p nleft : ℕ) (r : Run) : Type 0 where
  pub follows : Follows p r.calls
  pub value : r.result ≡ some (returned (len - nleft + length (gathered r.calls)))
  pub short :
      (length (gathered r.calls) ≡ nleft)
      ⊎ (length (gathered r.calls) < nleft) × (ended r.calls ≡ true)

ended-cons : (c : Call) (cs : List Call) → ended cs ≡ true → ended (c ∷ cs) ≡ true
unfolding ended
ended-cons c [] h = cc
ended-cons c (d ∷ cs) h = h

-- One more call, in front.
Gathers-after :
    (len p m x : ℕ) (xs : List ℕ) (r : Run)
    → length xs ≤ m
    → m < len
    → Gathers len (p + suc (length xs)) (m - length xs) r
    → Gathers len p (suc m) (after p (chunk (x ∷ xs)) r)
unfolding gathered
Gathers-after len p m x xs r le lt g = record {
  follows = (refl, g.follows);
  value = ground (arith, g.value, length-append xs (gathered r.calls));
  short = ground (
    arith,
    g.short,
    length-append xs (gathered r.calls),
    ended-cons (record { addr = p; arrival = chunk (x ∷ xs) }) r.calls,
  );
}

Gathers-eof :
    (len p m : ℕ)
    → m < len
    → Gathers len p (suc m) (after p (chunk []) (stop (some (returned (len - suc m)))))
unfolding gathered ended
Gathers-eof len p m lt = ground arith

-- What both forms of the loop do at one call that does not fail.
pub record Loop (read : ℕ → ℕ → Arrival) (len : ℕ) (loop : ℕ → ℕ → ℕ → ℕ → Run) : Type 0 where
  done : (fuel i p : ℕ) → loop (suc fuel) i p 0 ≡ stop (some (returned len))
  eof :
      (fuel i p m : ℕ)
      → m < len
      → read i (suc m) ≡ chunk []
      → loop (suc fuel) i p (suc m) ≡ after p (chunk []) (stop (some (returned (len - suc m))))
  more :
      (fuel i p m x : ℕ) (xs : List ℕ)
      → m < len
      → length xs ≤ m
      → p + suc m < size_mod
      → read i (suc m) ≡ chunk (x ∷ xs)
      → loop (suc fuel) i p (suc m)
        ≡ after p (chunk (x ∷ xs)) (loop fuel (i + 1) (p + suc (length xs)) (m - length xs))

readn_loop-Loop :
    (read : ℕ → ℕ → Arrival) (len : ℕ) → len < size_mod → Loop read len (readn_loop read len)
unfolding readn_loop
readn_loop-Loop read len small = record {
  done = λ fuel i p. ground arith;
  eof = λ fuel i p m lt e. ground arith;
  more = λ fuel i p m x xs lt le b e. ground arith;
}

readn_signed_loop-Loop :
    (read : ℕ → ℕ → Arrival) (len : ℕ) → len < size_mod → Loop read len (readn_signed_loop read len)
unfolding readn_signed_loop
readn_signed_loop-Loop read len small = record {
  done = λ fuel i p. ground arith;
  eof = λ fuel i p m lt e. ground arith;
  more = λ fuel i p m x xs lt le b e. ground arith;
}

module _ (read : ℕ → ℕ → Arrival) (len : ℕ) (gives : Gives read) (loop : ℕ → ℕ → ℕ → ℕ → Run)
    (steps : Loop read len loop) where
  Loop-Gathers_call :
      (fuel i p m : ℕ) (xs : List ℕ)
      → m < len
      → p + suc m < size_mod
      → read i (suc m) ≡ chunk xs
      → length xs ≤ suc m
      → ((q k : ℕ) → k ≤ m → q + k < size_mod → Gathers len q k (loop fuel (i + 1) q k))
      → Gathers len p (suc m) (loop (suc fuel) i p (suc m))
  Loop-Gathers_call fuel i p m [] lt b e le rest =
      rw (steps.eof fuel i p m lt e) (Gathers-eof len p m lt)
  Loop-Gathers_call fuel i p m (x ∷ xs) lt b e le rest =
      rw (steps.more fuel i p m x xs lt (omega arith) b e) (
        Gathers-after len p m x xs _ (omega arith) lt
          (rest (p + suc (length xs)) (m - length xs) (omega arith) (omega arith)))

  Loop-Gathers :
      (fuel i p nleft : ℕ)
      → nleft < fuel
      → nleft ≤ len
      → p + nleft < size_mod
      → Gathers len p nleft (loop fuel i p nleft)
  unfolding gathered
  Loop-Gathers zero i p nleft h le b = elim h [ ]
  Loop-Gathers (suc fuel) i p zero h le b = rw (steps.done fuel i p) (ground arith)
  Loop-Gathers (suc fuel) i p (suc m) h le b =
      let (xs, e, short) = gives i (suc m) (omega arith) in
      Loop-Gathers_call fuel i p m xs le b e short
        (λ q k s c. Loop-Gathers fuel (i + 1) q k (omega arith) (omega arith) c)

-- What a call of `readn` for `len` bytes has done when it returns.
pub record Reads (mem : Memory) (buff len : ℕ) (r : Run) : Type 0 where
  -- The bytes that arrived stand at the buffer, and no other byte has changed.
  pub stored : written mem r.calls ≡ store mem buff (gathered r.calls)
  pub value : r.result ≡ some (returned (length (gathered r.calls)))
  pub short :
      (length (gathered r.calls) ≡ len) ⊎ (length (gathered r.calls) < len) × (ended r.calls ≡ true)

Gathers-Reads :
    (mem : Memory) (buff len : ℕ) (r : Run) → Gathers len buff len r → Reads mem buff len r
Gathers-Reads mem buff len r g = record {
  stored = written-Follows mem buff r.calls g.follows;
  value = ground (arith, g.value);
  short = g.short;
}

-- With a `read` that never fails and delivers at most what is asked for, both forms of `readn`
-- return the number of bytes that arrived, which stand in order at the buffer while the rest of
-- memory is as before; the number is `len`, or less where the last call met the end of the
-- stream. A fuel above `len` is enough.
pub readn-Reads :
    (read : ℕ → ℕ → Arrival) (mem : Memory) (fuel buff len : ℕ)
    → Gives read
    → len < fuel
    → buff + len < size_mod
    → Reads mem buff len (readn read fuel buff len)
      × Reads mem buff len (readn_signed read fuel buff len)
unfolding readn readn_signed
readn-Reads read mem fuel buff len gives h b = (
  Gathers-Reads mem buff len _ (
      Loop-Gathers read len gives _ (readn_loop-Loop read len (omega arith)) fuel 0 buff len h
        (omega arith) b),
  Gathers-Reads mem buff len _ (
      Loop-Gathers read len gives _ (readn_signed_loop-Loop read len (omega arith)) fuel 0 buff len
        h (omega arith) b),
)
