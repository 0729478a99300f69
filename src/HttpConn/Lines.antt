-- ===== src/HttpConn/Lines.antt =====
-- `parse_line` on a buffer that holds whole lines.
use unpvol.Common.{
  ℕ, suc, ◌+◌, ◌-◌, ◌≤◌, ◌≡◌, refl, ap, ◌∙◌, inl, false, List, [], ◌∷◌, ◌++◌, ◌==◌, update, arith,
  length, length-append,
}
use unpvol.Stream.Memory.{Memory, slice, store, store_outside}
use unpvol.Stream.Readline.{c_string}
use unpvol.Http.Line.{LineStatus, line_ok, Line, two_nuls, at_cr, line_loop, line_at}
use unpvol.Http.Scan.{two_nuls-line}
use unpvol.Http.Printing.{AllText, print_line, c_string-text}
use unpvol.HttpConn.{Answers, Conn}
use unpvol.HttpConn.Read.{parse_line, on_text, turn, by_status, on_line, in_content, read_loop}

-- The bytes from an index on.
unfoldable pub Holds : Memory → ℕ → List ℕ → Type 0
Holds b i [] = Unit
Holds b i (x ∷ xs) = (b i ≡ x) × Holds b (i + 1) xs

pub store-Holds : (b : Memory) (i : ℕ) (xs : List ℕ) → Holds (store b i xs) i xs
unfolding Holds store
store-Holds b i [] = tt
store-Holds b i (x ∷ xs) = (
  (store_outside (update b i x) (i + 1) xs i (inl (omega arith)) ∙ ground arith),
  store-Holds (update b i x) (i + 1) xs,
)

Holds-same :
    (a b : Memory) (i : ℕ) (xs : List ℕ)
    → ((j : ℕ) → i ≤ j → a j ≡ b j)
    → Holds b i xs
    → Holds a i xs
unfolding Holds
Holds-same a b i [] f h = tt
Holds-same a b i (x ∷ xs) f (e, h) =
    ((f i (omega arith) ∙ e), Holds-same a b (i + 1) xs (λ j g. f j (omega (arith, g))) h)

Holds-right :
    (b : Memory) (i : ℕ) (xs ys : List ℕ) → Holds b i (xs ++ ys) → Holds b (i + length xs) ys
unfolding Holds
Holds-right b i [] ys h = let e : i + 0 ≡ i = omega arith in rw e h
Holds-right b i (x ∷ xs) ys (f, h) =
    let e : i + suc (length xs) ≡ i + 1 + length xs = omega arith in
    rw e (Holds-right b (i + 1) xs ys h)

Holds-slice :
    (b : Memory) (i : ℕ) (xs ys : List ℕ) → Holds b i (xs ++ ys) → slice b i (length xs) ≡ xs
unfolding Holds slice
Holds-slice b i [] ys h = refl
Holds-slice b i (x ∷ xs) ys (f, h) = rw (f, Holds-slice b (i + 1) xs ys h) refl

line_loop-closes :
    (line rest : List ℕ) (left : ℕ) (b : Memory) (i read : ℕ)
    → AllText line
    → Holds b i (print_line line rest)
    → i + (length line + suc (suc left)) ≡ read
    → line_loop (length line + suc (suc left)) b i read ≡ record {
      status = line_ok;
      buffer = two_nuls b (i + length line);
      checked = i + length line + 2;
    }
unfolding line_loop at_cr AllText Holds print_line
line_loop-closes [] rest left b i read h (e, (f, g)) r =
    let more : (i + 1 == read) ≡ false = ground (arith, r) in
    let start : i + 0 ≡ i = omega arith in
    let turns : 0 + suc (suc left) ≡ suc (suc left) = omega arith in
    rw (turns, e, more, f, start) refl
line_loop-closes (x ∷ xs) rest left b i read (h, hs) (e, g) r =
    let no_cr : (x == b'\r') ≡ false = ground (arith, h) in
    let no_lf : (x == b'\n') ≡ false = ground (arith, h) in
    let next : i + suc (length xs) ≡ i + 1 + length xs = omega arith in
    let turns : suc (length xs) + suc (suc left) ≡ suc (length xs + suc (suc left)) = omega arith in
    rw (turns, e, no_cr, no_lf, next)
      (line_loop-closes xs rest left b (i + 1) read hs g (omega (arith, r)))

-- A connection whose read buffer holds a text, at the start of a line.
pub record IsAt (text : List ℕ) (c : Conn) : Type 0 where
  pub starts : c.start_line ≡ c.checked_idx
  pub ends : c.read_idx ≡ c.checked_idx + length text
  pub holds : Holds c.read_buf c.checked_idx text

-- The connection once its first line has been cut off.
abbrev pub cut_line : List ℕ → Conn → Conn
cut_line line c = record c {
  read_buf = two_nuls c.read_buf (c.checked_idx + length line);
  checked_idx = c.checked_idx + length line + 2;
  start_line = c.checked_idx + length line + 2;
}

length-print_line :
    (line rest : List ℕ) → length (print_line line rest) ≡ length line + 2 + length rest
unfolding print_line
length-print_line line rest = omega (arith, length-append line (b'\r' ∷ b'\n' ∷ rest))

pub cut_line-IsAt :
    (line rest : List ℕ) (c : Conn) → IsAt (print_line line rest) c → IsAt rest (cut_line line c)
unfolding print_line
cut_line-IsAt line rest c h = record {
  starts = refl;
  ends = omega (arith, h.ends, length-print_line line rest);
  holds =
      Holds-same (two_nuls c.read_buf (c.checked_idx + length line)) c.read_buf
        (c.checked_idx + length line + 2) rest (λ j g. ground (arith, g))
        (Holds-right c.read_buf (c.checked_idx + length line) (b'\r' ∷ b'\n' ∷ []) rest
          (Holds-right c.read_buf c.checked_idx line (b'\r' ∷ b'\n' ∷ rest) h.holds));
}

parse_line-IsAt :
    (line rest : List ℕ) (c : Conn)
    → IsAt (print_line line rest) c
    → AllText line
    → parse_line c ≡ record {
      status = line_ok;
      buffer = two_nuls c.read_buf (c.checked_idx + length line);
      checked = c.checked_idx + length line + 2;
    }
unfolding parse_line unpvol.Http.Line.parse_line
parse_line-IsAt line rest c h t =
    let size = length-print_line line rest in
    let left : c.read_idx - c.checked_idx ≡ length line + suc (suc (length rest)) =
      omega (arith, h.ends, size) in
    rw left (
      line_loop-closes line rest (length rest) c.read_buf c.checked_idx c.read_idx t h.holds
        (omega (arith, h.ends, size)))

line_at-IsAt :
    (line rest : List ℕ) (c : Conn)
    → IsAt (print_line line rest) c
    → AllText line
    → line_at
        (two_nuls c.read_buf (c.checked_idx + length line))
        c.start_line
        (c.checked_idx + length line + 2)
      ≡ line
unfolding print_line
line_at-IsAt line rest c h t =
    let i = c.checked_idx in
    let size : i + length line - i ≡ length line = omega arith in
    rw h.starts (two_nuls-line c.read_buf i (i + length line) (omega arith))
    ∙ ap c_string (
        ap (slice c.read_buf i) size ∙ Holds-slice c.read_buf i line (b'\r' ∷ b'\n' ∷ rest) h.holds)
    ∙ c_string-text line t

-- One turn of the loop takes the line.
pub read_loop-line :
    (turns : ℕ) (a : Answers) (line rest : List ℕ) (c : Conn)
    → IsAt (print_line line rest) c
    → AllText line
    → in_content c.check_state line_ok ≡ false
    → read_loop (suc turns) a line_ok c
      ≡ on_text a c.check_state c.start_line line (cut_line line c) (read_loop turns a)
unfolding read_loop on_line by_status turn
read_loop-line turns a line rest c h t n = rw n (
    ap (λ l. on_line a l c (read_loop turns a)) (parse_line-IsAt line rest c h t)
    ∙ ap (λ text. on_text a c.check_state c.start_line text (cut_line line c) (read_loop turns a))
        (line_at-IsAt line rest c h t))
