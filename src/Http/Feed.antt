-- ===== src/Http/Feed.antt =====
-- The parser as an automaton that is fed one byte at a time: the specification of `parse_content`.
use unpvol.Common.{ℕ, ◌≡◌, refl, true, false, List, [], ◌∷◌, ◌++◌, ◌==◌, if◌then◌else◌}
use unpvol.Stream.Readline.{c_string}
use unpvol.Http.Request.{CheckState, HttpCode, bad_request}
use unpvol.Http.Content.{Stepped, goes, stops, on_line}

-- In the middle of a line, behind its carriage return, or at the end.
pub data Reading : Type 0 where
  in_line : CheckState → List ℕ → Reading
  behind_cr : CheckState → List ℕ → Reading
  done : HttpCode → Reading

unfoldable pub close_line : Stepped → Reading
close_line (goes state) = in_line state []
close_line (stops code) = done code

unfoldable pub feed : Reading → ℕ → Reading
feed (in_line state line) c =
    if c == b'\r'
    then behind_cr state line
    else if c == b'\n'
    then done bad_request
    else in_line state (line ++ c ∷ [])
feed (behind_cr state line) c =
    if c == b'\n' then close_line (on_line state (c_string line)) else done bad_request
feed (done code) c = done code

unfoldable pub feed_all : Reading → List ℕ → Reading
feed_all r [] = r
feed_all r (c ∷ cs) = feed_all (feed r c) cs

pub feed_all-append :
    (r : Reading) (xs ys : List ℕ) → feed_all r (xs ++ ys) ≡ feed_all (feed_all r xs) ys
unfolding feed_all
feed_all-append r [] ys = refl
feed_all-append r (x ∷ xs) ys = feed_all-append (feed r x) xs ys

pub feed_all-done : (code : HttpCode) (xs : List ℕ) → feed_all (done code) xs ≡ done code
unfolding feed_all feed
feed_all-done code [] = refl
feed_all-done code (x ∷ xs) = feed_all-done code xs

-- One byte, by its kind.
pub feed-in_cr :
    (state : CheckState) (line : List ℕ) (c : ℕ)
    → (c == b'\r') ≡ true
    → feed (in_line state line) c ≡ behind_cr state line
unfolding feed
feed-in_cr state line c e = rw e refl

pub feed-in_lf :
    (state : CheckState) (line : List ℕ) (c : ℕ)
    → (c == b'\r') ≡ false
    → (c == b'\n') ≡ true
    → feed (in_line state line) c ≡ done bad_request
unfolding feed
feed-in_lf state line c e f = rw (e, f) refl

pub feed-in_text :
    (state : CheckState) (line : List ℕ) (c : ℕ)
    → (c == b'\r') ≡ false
    → (c == b'\n') ≡ false
    → feed (in_line state line) c ≡ in_line state (line ++ c ∷ [])
unfolding feed
feed-in_text state line c e f = rw (e, f) refl

pub feed-cr_lf :
    (state : CheckState) (line : List ℕ) (c : ℕ)
    → (c == b'\n') ≡ true
    → feed (behind_cr state line) c ≡ close_line (on_line state (c_string line))
unfolding feed
feed-cr_lf state line c e = rw e refl

pub feed-cr_other :
    (state : CheckState) (line : List ℕ) (c : ℕ)
    → (c == b'\n') ≡ false
    → feed (behind_cr state line) c ≡ done bad_request
unfolding feed
feed-cr_other state line c e = rw e refl
