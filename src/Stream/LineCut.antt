-- ===== src/Stream/LineCut.antt =====
-- `readline` cuts the byte stream into lines.
use unpvol.Common.{
  ℕ, zero, suc, ◌+◌, ◌-◌, ◌≤◌, ◌<◌, ◌≡◌, ◌≢◌, refl, ◌⊎◌, inl, inr, Bool, true, false, Option, none,
  some, List, [], ◌∷◌, ◌++◌, ◌==◌, if◌then◌else◌, arith, ap, length, Bool-cases,
}
use unpvol.Stream.Kernel.{Arrival, chunk, broken, returned}
use unpvol.Stream.Readline.{
  newline, ReadCnt, left, Reader, Got, my_read, Line, put_front, on_read, readline_loop, readline,
}
use unpvol.Stream.ByteStream.{until_eof, AtEof, stream, Ready, Serves, my_read-Serves}

-- No newline but at the end.
abbrev pub OneLine : List ℕ → Type 0
OneLine [] = Unit
OneLine (c ∷ []) = Unit
OneLine (c ∷ d ∷ r) = (c ≢ newline) × OneLine (d ∷ r)

abbrev pub terminated : List ℕ → Bool
terminated [] = false
terminated (c ∷ []) = c == newline
terminated (c ∷ d ∷ r) = terminated (d ∷ r)

-- What at most `rounds` rounds from the count `n` on make of a stream `s`: they cut a line off it,
-- which ends with a newline, with the rounds or with the stream. The result counts the bytes, and
-- one more where the rounds ran out.
pub record Cuts (k rounds n : ℕ) (s : List ℕ) (l : Line) : Type 0 where
  pub cut : l.stored ++ stream l.reader ≡ s
  pub one_line : OneLine l.stored
  pub fits : length l.stored ≤ rounds
  pub value :
      l.value
      ≡ returned (
          if terminated l.stored
          then n + length l.stored - 1
          else if length l.stored == rounds
          then n + length l.stored
          else n + length l.stored - 1)
  pub ends : (terminated l.stored ≡ true) ⊎ (length l.stored ≡ rounds) ⊎ (stream l.reader ≡ [])
  pub ready : Ready (suc k) l.reader ⊎ (stream l.reader ≡ []) × Ready k l.reader

abbrev pub CutsSome : ℕ → ℕ → ℕ → List ℕ → Option Line → Type 0
CutsSome k rounds n s none = ⊥
CutsSome k rounds n s (some l) = Cuts k rounds n s l

OneLine-cons : (c : ℕ) (xs : List ℕ) → c ≢ newline → OneLine xs → OneLine (c ∷ xs)
OneLine-cons c [] ne h = tt
OneLine-cons c (x ∷ xs) ne h = (ne, h)

terminated-cons : (c : ℕ) (xs : List ℕ) → c ≢ newline → terminated (c ∷ xs) ≡ terminated xs
terminated-cons c [] ne = ground arith
terminated-cons c (x ∷ xs) ne = refl

Cuts-cons :
    (k rounds n c : ℕ) (s : List ℕ) (o : Option Line)
    → c ≢ newline
    → CutsSome k rounds (n + 1) s o
    → CutsSome k (suc rounds) n (c ∷ s) (put_front c o)
Cuts-cons k rounds n c s none ne h = h
Cuts-cons k rounds n c s (some l) ne h = record {
  cut = ground (arith, h.cut);
  one_line = OneLine-cons c l.stored ne h.one_line;
  fits = omega (arith, h.fits);
  value = ground (arith, h.value, terminated-cons c l.stored);
  ends = ground (arith, h.ends, terminated-cons c l.stored);
  ready = h.ready;
}

AtEof-Ready :
    (k : ℕ) (cnt : ReadCnt) (ptr : ℕ) (buf : List ℕ) (coming : List Arrival)
    → AtEof (suc k) coming
    → cnt ≡ left 0
    → let rd : Reader = record {
      read_cnt = cnt;
      read_ptr = ptr;
      read_buf = buf;
      coming = coming;
    } in
      (stream rd ≡ []) × Ready k rd
unfolding until_eof
AtEof-Ready k cnt ptr buf [] a z = absurd a
AtEof-Ready k cnt ptr buf (broken e ∷ r) a z = absurd a
AtEof-Ready k cnt ptr buf (chunk (x ∷ xs) ∷ r) a z = absurd a
AtEof-Ready k cnt ptr buf (chunk [] ∷ r) a z = (rw z, record { in_buffer = rw z tt; closes = a })

CutsSome-read :
    (k rounds n : ℕ) (s : List ℕ) (next : Reader → Option Line) (o : Option (Got × Reader))
    → 0 < n
    → Serves (suc k) s o
    → ((rd : Reader) (r : List ℕ)
        → Ready (suc k) rd
        → stream rd ≡ r
        → CutsSome k rounds (n + 1) r (next rd))
    → CutsSome k (suc rounds) n s (on_read n next o)
CutsSome-read k rounds n s next none pos h step = h
CutsSome-read k rounds n [] next (some (g, rd)) pos (e, a, z) step = rw e record {
  cut = at_end.0;
  one_line = tt;
  fits = omega arith;
  value = ground arith;
  ends = inr (inr at_end.0);
  ready = inr at_end;
}
  where
    at_end : (stream rd ≡ []) × Ready k rd
    at_end = AtEof-Ready k rd.read_cnt rd.read_ptr rd.read_buf rd.coming a z
CutsSome-read k rounds n (c ∷ s) next (some (g, rd)) pos (e, ready, rest) step =
    rw e (elim (Bool-cases (c == newline)) [
      | inl nl ↦ rw nl record {
        cut = ap (λ r. c ∷ r) rest;
        one_line = tt;
        fits = omega arith;
        value = ground arith;
        ends = inl nl;
        ready = inl ready;
      }
      | inr ne ↦ rw ne (Cuts-cons k rounds n c s (next rd) (ground arith) (step rd s ready rest))
    ])

-- From any count on, `readline` finds its line.
readline_loop-CutsSome :
    (k rounds n : ℕ) (rd : Reader)
    → 0 < n
    → Ready (suc k) rd
    → CutsSome k rounds n (stream rd) (readline_loop rounds n rd)
unfolding readline_loop
readline_loop-CutsSome k zero n rd pos h = record {
  cut = refl;
  one_line = tt;
  fits = omega arith;
  value = ground arith;
  ends = inr (inl refl);
  ready = inl h;
}
readline_loop-CutsSome k (suc rounds) n rd pos h =
    CutsSome-read k rounds n (stream rd) _ (my_read rd) pos
      (my_read-Serves (suc k) rd.read_cnt rd.read_ptr rd.read_buf rd.coming h.in_buffer h.closes)
      (λ rd' r ready e. rw e at (readline_loop-CutsSome k rounds (n + 1) rd' (omega arith) ready))

-- On a reader that errors other than EINTR do not meet, and whose stream stays at its end when it
-- gets there, `readline` returns, and cuts a line off the front of the bytes to come, in whatever
-- pieces they arrive: the line ends with a newline, has maxlen - 1 bytes, or is all that was left.
-- The result is the number of its bytes, and one more if it has maxlen - 1 bytes and no newline.
pub readline-Cuts :
    (k maxlen : ℕ) (rd : Reader)
    → Ready (suc k) rd
    → (l : Line) × (readline rd maxlen ≡ some l) × Cuts k (maxlen - 1) 1 (stream rd) l
unfolding readline
readline-Cuts k maxlen rd h =
    found (readline rd maxlen) refl (readline_loop-CutsSome k (maxlen - 1) 1 rd (omega arith) h)
  where
    found :
        (o : Option Line)
        → readline rd maxlen ≡ o
        → CutsSome k (maxlen - 1) 1 (stream rd) o
        → (l : Line) × (readline rd maxlen ≡ some l) × Cuts k (maxlen - 1) 1 (stream rd) l
    found none e c = absurd c
    found (some l) e c = (l, e, c)
