-- ===== src/Http/Scan.antt =====
-- `parse_line` follows the automaton to the end of a line.
use unpvol.Common.{
  ℕ, zero, suc, ◌+◌, ◌-◌, ◌≤◌, ◌<◌, ◌≡◌, ◌≢◌, refl, ap, sym, ◌∙◌, inl, inr, true, false, ◌&&◌, List,
  [], ◌∷◌, ◌++◌, ltb, ◌==◌, arith, append_assoc, Bool-cases,
}
use unpvol.Stream.Memory.{Memory, slice, slice-add}
use unpvol.Stream.Readline.{c_string}
use unpvol.Http.Line.{
  line_ok, line_bad, line_open, Line, two_nuls, at_cr, at_lf, line_loop, parse_line, line_at,
}
use unpvol.Http.Request.{CheckState, bad_request}
use unpvol.Http.Content.{on_line}
use unpvol.Http.Feed.{
  Reading, in_line, behind_cr, done, close_line, feed_all, feed_all-done, feed-in_cr, feed-in_lf,
  feed-in_text, feed-cr_lf, feed-cr_other,
}

-- No carriage return stands in front of a byte, so the second test of `parse_line` fails.
abbrev pub NoCrBefore : Memory → ℕ → Type 0
NoCrBefore buffer i = 1 < i → buffer (i - 1) ≢ b'\r'

-- The bytes of a buffer from one index up to another.
abbrev pub between : Memory → ℕ → ℕ → List ℕ
between buffer i j = slice buffer i (j - i)

pub slice-same :
    (a b : Memory) (p n : ℕ) → ((i : ℕ) → p ≤ i → i < p + n → a i ≡ b i) → slice a p n ≡ slice b p n
unfolding slice
slice-same a b p zero h = refl
slice-same a b p (suc n) h =
    rw
      (
        h p (omega arith) (omega arith),
        slice-same a b (p + 1) n (λ i q r. h i (omega arith) (omega arith)),
      )
      refl

pub between-snoc :
    (buffer : Memory) (i j : ℕ)
    → i ≤ j
    → between buffer i (j + 1) ≡ between buffer i j ++ buffer j ∷ []
unfolding slice
between-snoc buffer i j h =
    let e : j + 1 - i ≡ j - i + 1 = omega arith in
    let f : i + (j - i) ≡ j = omega arith in rw (e, slice-add buffer i (j - i) 1, f) refl

pub c_string-nul : (xs ys : List ℕ) → c_string (xs ++ 0 ∷ ys) ≡ c_string xs
unfolding c_string
c_string-nul [] ys = refl
c_string-nul (x ∷ xs) ys = ground (arith, c_string-nul xs ys)

-- What `parse_line` returns, against what the automaton does with the bytes up to `read`.
pub data Follows (buffer : Memory) (start read : ℕ) (state : CheckState) (r : Reading)
    : Line → Type 0 where
  ends :
      {i : ℕ}
      → start ≤ i
      → i ≡ read
      → NoCrBefore buffer i
      → r ≡ in_line state (between buffer start i)
      → Follows buffer start read state r
          (record { status = line_open; buffer = buffer; checked = i })
  ends_cr :
      {i : ℕ}
      → start ≤ i
      → i + 1 ≡ read
      → buffer i ≡ b'\r'
      → NoCrBefore buffer i
      → r ≡ behind_cr state (between buffer start i)
      → Follows buffer start read state r
          (record { status = line_open; buffer = buffer; checked = i })
  fails :
      {b : Memory} {i : ℕ}
      → r ≡ done bad_request
      → Follows buffer start read state r (record { status = line_bad; buffer = b; checked = i })
  closes :
      {b : Memory} {i : ℕ}
      → start < i
      → i ≤ read
      → NoCrBefore b i
      → r ≡ feed_all (close_line (on_line state (line_at b start i))) (between b i read)
      → Follows buffer start read state r (record { status = line_ok; buffer = b; checked = i })

pub two_nuls-line :
    (buffer : Memory) (start i : ℕ)
    → start ≤ i
    → line_at (two_nuls buffer i) start (i + 2) ≡ c_string (between buffer start i)
unfolding line_at
two_nuls-line buffer start i h =
    let b = two_nuls buffer i in
    let e : i + 2 ≡ i + 1 + 1 = omega arith in
    let nul : b i ≡ 0 = ground arith in
    rw (e, between-snoc b start (i + 1) (omega arith), between-snoc b start i h, nul)
      (ap c_string (append_assoc (between b start i) (0 ∷ []) (b (i + 1) ∷ []))
        ∙ c_string-nul (between b start i) (b (i + 1) ∷ [])
        ∙ ap c_string (slice-same b buffer start (i - start) (λ j p q. ground arith)))

two_nuls-rest :
    (buffer : Memory) (i k read : ℕ)
    → i + 2 + k ≡ read
    → between (two_nuls buffer i) (i + 2) read ≡ slice buffer (i + 1 + 1) k
two_nuls-rest buffer i k read h =
    let e : read - (i + 2) ≡ k = omega (arith, h) in
    let f : i + 1 + 1 ≡ i + 2 = omega arith in
    rw (e, f) (slice-same (two_nuls buffer i) buffer (i + 2) k (λ j p q. ground arith))

Follows-cast :
    {buffer : Memory} {start read : ℕ} {state : CheckState} {r s : Reading} {l : Line}
    → r ≡ s
    → Follows buffer start read state s l
    → Follows buffer start read state r l
Follows-cast e f = rw e f

-- A carriage return and a newline close a line.
closes-crlf :
    (left : ℕ) (buffer : Memory) (start i read : ℕ) (state : CheckState)
    → start ≤ i
    → i + suc (suc left) ≡ read
    → Follows buffer start read state
        (feed_all
          (close_line (on_line state (c_string (between buffer start i))))
          (slice buffer (i + 1 + 1) left))
        (record { status = line_ok; buffer = two_nuls buffer i; checked = i + 2 })
closes-crlf left buffer start i read state h e =
    closes (omega (arith, h)) (omega (arith, e)) (λ p q. ground (arith, q))
      (rw (two_nuls-line buffer start i h, two_nuls-rest buffer i left read (omega (arith, e)))
        refl)

at_cr-Follows :
    (left : ℕ) (buffer : Memory) (start i read : ℕ) (state : CheckState)
    → start ≤ i
    → i + suc left ≡ read
    → buffer i ≡ b'\r'
    → NoCrBefore buffer i
    → Follows buffer start read state
        (feed_all (behind_cr state (between buffer start i)) (slice buffer (i + 1) left))
        (at_cr buffer i read)
unfolding at_cr slice feed_all
at_cr-Follows zero buffer start i read state h e c n =
    let stop : (i + 1 == read) ≡ true = ground (arith, e) in
    rw stop (ends_cr h (omega (arith, e)) c n refl)
at_cr-Follows (suc left) buffer start i read state h e c n =
    let line = between buffer start i in
    let rest = slice buffer (i + 1 + 1) left in
    let more : (i + 1 == read) ≡ false = ground (arith, e) in
    elim (Bool-cases (buffer (i + 1) == b'\n')) [
      | inl t ↦
          Follows-cast (ap (λ r. feed_all r rest) (feed-cr_lf state line (buffer (i + 1)) t))
            (rw (more, t) (closes-crlf left buffer start i read state h e))
      | inr f ↦
          Follows-cast (ap (λ r. feed_all r rest) (feed-cr_other state line (buffer (i + 1)) f))
            (rw (more, f) (fails (feed_all-done bad_request rest)))
    ]

at_lf-Follows :
    (buffer : Memory) (start i read : ℕ) (state : CheckState) (r : Reading)
    → NoCrBefore buffer i
    → r ≡ done bad_request
    → Follows buffer start read state r (at_lf buffer i)
unfolding at_lf
at_lf-Follows buffer start i read state r n e =
    let no : (ltb 1 i && buffer (i - 1) == b'\r') ≡ false = ground (arith, n) in rw no (fails e)

line_loop-Follows :
    (left : ℕ) (buffer : Memory) (start i read : ℕ) (state : CheckState)
    → start ≤ i
    → i + left ≡ read
    → NoCrBefore buffer i
    → Follows buffer start read state
        (feed_all (in_line state (between buffer start i)) (slice buffer i left))
        (line_loop left buffer i read)
unfolding line_loop slice feed_all
line_loop-Follows zero buffer start i read state h e n = ends h (omega (arith, e)) n refl
line_loop-Follows (suc left) buffer start i read state h e n =
    let line = between buffer start i in
    let rest = slice buffer (i + 1) left in
    elim (Bool-cases (buffer i == b'\r')) [
      | inl t ↦
          Follows-cast (ap (λ r. feed_all r rest) (feed-in_cr state line (buffer i) t))
            (rw t (at_cr-Follows left buffer start i read state h e (ground (arith, t)) n))
      | inr f ↦ elim (Bool-cases (buffer i == b'\n')) [
        | inl t ↦ Follows-cast (ap (λ r. feed_all r rest) (feed-in_lf state line (buffer i) f t)) (
            rw (f, t)
              (at_lf-Follows buffer start i read state _ n (feed_all-done bad_request rest)))
        | inr g ↦
            Follows-cast
              (ap (λ r. feed_all r rest)
                (feed-in_text state line (buffer i) f g
                  ∙ ap (in_line state) (sym (between-snoc buffer start i h))))
              (rw (f, g)
                (line_loop-Follows left buffer start (i + 1) read state (omega (arith, h))
                  (omega (arith, e)) (λ p q. ground (arith, f, q))))
      ]
    ]

-- `parse_line` against the automaton.
pub parse_line-Follows :
    (buffer : Memory) (start checked read : ℕ) (state : CheckState)
    → start ≤ checked
    → checked ≤ read
    → NoCrBefore buffer checked
    → Follows buffer start read state
        (feed_all (in_line state (between buffer start checked)) (between buffer checked read))
        (parse_line buffer checked read)
unfolding parse_line
parse_line-Follows buffer start checked read state h g n =
    line_loop-Follows (read - checked) buffer start checked read state h (omega (arith, g)) n
