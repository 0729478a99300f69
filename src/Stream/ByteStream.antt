-- ===== src/Stream/ByteStream.antt =====
-- The reader of `my_read` as a byte stream, however the bytes arrive.
use unpvol.Common.{
  ℕ, zero, suc, ◌+◌, ◌≤◌, ◌<◌, ◌≡◌, refl, Option, none, some, List, [], ◌∷◌, ◌++◌, arith, length,
  get_or, take, drop, length-append,
}
use unpvol.Stream.Kernel.{eintr, Arrival, chunk, broken}
use unpvol.Stream.Readline.{
  ReadCnt, minus_one_left, left, Reader, Got, char, eof, serve, again, my_read, my_read_cnt,
}

-- The bytes in front of the first end of the stream.
unfoldable pub until_eof : List Arrival → List ℕ
until_eof [] = []
until_eof (broken e ∷ r) = until_eof r
until_eof (chunk [] ∷ r) = []
until_eof (chunk (x ∷ xs) ∷ r) = (x ∷ xs) ++ until_eof r

-- The next `k` answers find the end of the stream.
abbrev pub AtEof : ℕ → List Arrival → Type 0
AtEof zero r = Unit
AtEof (suc k) (chunk [] ∷ r) = AtEof k r
AtEof (suc k) _ = ⊥

-- The stream is interrupted by signals only, and ends; from then on at least `k` further answers
-- find its end.
abbrev pub Closes : ℕ → List Arrival → Type 0
Closes k [] = ⊥
Closes k (broken eintr ∷ r) = Closes k r
Closes k (broken e ∷ r) = ⊥
Closes k (chunk [] ∷ r) = AtEof k r
Closes k (chunk (x ∷ xs) ∷ r) = Closes k r

abbrev pub buffered : ReadCnt → ℕ → List ℕ → List ℕ
buffered minus_one_left ptr buf = []
buffered (left k) ptr buf = take k (drop ptr buf)

-- What the reader has still to hand out.
abbrev pub stream : Reader → List ℕ
stream rd = buffered rd.read_cnt rd.read_ptr rd.read_buf ++ until_eof rd.coming

-- The bytes left in the buffer stand inside it.
abbrev pub InBuffer : ReadCnt → ℕ → List ℕ → Type 0
InBuffer minus_one_left ptr buf = Unit
InBuffer (left zero) ptr buf = Unit
InBuffer (left (suc k)) ptr buf = ptr + suc k ≤ length buf

InBuffer-of_le : (k ptr : ℕ) (buf : List ℕ) → ptr + k ≤ length buf → InBuffer (left k) ptr buf
InBuffer-of_le zero ptr buf h = tt
InBuffer-of_le (suc k) ptr buf h = h

pub record Ready (k : ℕ) (rd : Reader) : Type 0 where
  pub in_buffer : InBuffer rd.read_cnt rd.read_ptr rd.read_buf
  pub closes : Closes k rd.coming

take-drop :
    (k p : ℕ) (buf : List ℕ)
    → p < length buf
    → take (suc k) (drop p buf) ≡ get_or buf p 0 ∷ take k (drop (p + 1) buf)
take-drop k p [] h = elim h [ ]
take-drop k zero (x ∷ xs) h = refl
take-drop k (suc p) (x ∷ xs) h =
    let e : suc p + 1 ≡ suc (p + 1) = omega arith in rw e (take-drop k p xs (omega arith))

take-append : (xs ys : List ℕ) → take (length xs) (xs ++ ys) ≡ xs
take-append [] ys = refl
take-append (x ∷ xs) ys = rw (take-append xs ys)

-- What `my_read` does to a ready reader whose stream holds `s`.
abbrev pub Serves : ℕ → List ℕ → Option (Got × Reader) → Type 0
Serves k s none = ⊥
Serves k [] (some (g, rd)) = (g ≡ eof) × AtEof k rd.coming × (rd.read_cnt ≡ left 0)
Serves k (c ∷ s) (some (g, rd)) = (g ≡ char c) × Ready k rd × (stream rd ≡ s)

again-Serves :
    (k ptr : ℕ) (buf : List ℕ) (coming : List Arrival)
    → Closes k coming
    → Serves k (until_eof coming) (again ptr buf coming)
unfolding again until_eof serve
again-Serves k ptr buf [] h = h
again-Serves k ptr buf (broken eintr ∷ r) h = again-Serves k ptr buf r h
again-Serves k ptr buf (broken e ∷ r) h = absurd h
again-Serves k ptr buf (chunk [] ∷ r) h = (refl, h, refl)
again-Serves k ptr buf (chunk (x ∷ xs) ∷ r) h = (
  refl,
  record {
    in_buffer =
        InBuffer-of_le (length xs) 1 _
          (omega (arith, length-append xs (drop (suc (length xs)) buf)));
    closes = h;
  },
  rw (take-append xs (drop (suc (length xs)) buf)),
)

pub my_read-Serves :
    (k : ℕ) (cnt : ReadCnt) (ptr : ℕ) (buf : List ℕ) (coming : List Arrival)
    → InBuffer cnt ptr buf
    → Closes k coming
    → Serves k
        (buffered cnt ptr buf ++ until_eof coming)
        (my_read (record { read_cnt = cnt; read_ptr = ptr; read_buf = buf; coming = coming }))
unfolding my_read my_read_cnt serve
my_read-Serves k minus_one_left ptr buf coming b c = again-Serves k ptr buf coming c
my_read-Serves k (left zero) ptr buf coming b c = again-Serves k ptr buf coming c
my_read-Serves k (left (suc n)) ptr buf coming b c =
    rw (take-drop n ptr buf (omega arith))
      (refl, record { in_buffer = InBuffer-of_le n (ptr + 1) buf (omega arith); closes = c }, refl)
