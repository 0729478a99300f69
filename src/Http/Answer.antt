-- ===== src/Http/Answer.antt =====
-- What the server answers, against the automaton over all the bytes that arrive.
use unpvol.Common.{
  ℕ, suc, ◌+◌, ◌-◌, ◌≤◌, ◌≡◌, refl, ap, sym, ◌∙◌, Option, none, some, List, [], ◌∷◌, ◌++◌, map,
  arith, length, length-append, take, take_all,
}
use unpvol.Stream.Memory.{slice}
use unpvol.Stream.Kernel.{chunk}
use unpvol.Http.Request.{
  requestline, HttpCode, no_request, get_request, bad_request, internal_error,
}
use unpvol.Http.Content.{
  Parser, Parsed, buffer_size, received, unless_closed, by_code, Ended, correct_result,
  something_wrong, remote_closed, reading_failed, still_reading, serve, start,
}
use unpvol.Http.Feed.{Reading, in_line, behind_cr, done, feed_all, feed_all-append, feed_all-done}
use unpvol.Http.Follow.{IsFinal, IsOpen, IsPlaced, reading, Tracks, answers, waits, received-Tracks}

-- The pieces in which the bytes of a request arrive, put together.
unfoldable pub joined : List (List ℕ) → List ℕ
joined [] = []
joined (xs ∷ rest) = xs ++ joined rest

-- No piece is empty: `recv` returns 0 at the end of the stream only.
unfoldable pub AreNonEmpty : List (List ℕ) → Type 0
AreNonEmpty [] = Unit
AreNonEmpty ([] ∷ rest) = ⊥
AreNonEmpty ((x ∷ xs) ∷ rest) = AreNonEmpty rest

-- The answer that is due once a result is known.
unfoldable pub answer_of : HttpCode → Option Ended
answer_of no_request = none
answer_of get_request = some correct_result
answer_of bad_request = some something_wrong
answer_of internal_error = some something_wrong

unfoldable pub due : Reading → Option Ended
due (in_line state line) = none
due (behind_cr state line) = none
due (done code) = answer_of code

-- How the loop of `main` has ended, if it has.
unfoldable pub settled : Ended → Option Ended
settled correct_result = some correct_result
settled something_wrong = some something_wrong
settled remote_closed = some remote_closed
settled reading_failed = some reading_failed
settled (still_reading n p) = none

settled-by_code :
    (code : HttpCode) (e : Ended) → IsFinal code → settled (by_code code e) ≡ answer_of code
unfolding settled by_code answer_of IsFinal
settled-by_code no_request e f = absurd f
settled-by_code get_request e f = refl
settled-by_code bad_request e f = refl
settled-by_code internal_error e f = refl

due-IsOpen : (r : Reading) → IsOpen r → due r ≡ none
unfolding due IsOpen
due-IsOpen (in_line state line) o = refl
due-IsOpen (behind_cr state line) o = refl
due-IsOpen (done code) o = absurd o

-- A step of the loop.
by_code-due :
    (read : ℕ) (r : Reading) (later : List ℕ) (next : Parsed) (after : Parser → Ended)
    → Tracks read r next
    → ((p : Parser)
        → IsPlaced read p
        → IsOpen (reading read p)
        → settled (after p) ≡ due (feed_all (reading read p) later))
    → settled (by_code next.code (after next.parser)) ≡ due (feed_all r later)
unfolding due by_code
by_code-due read r later _ after (answers {code} {p} f e) h =
    settled-by_code code (after p) f
    ∙ sym (ap due (ap (λ s. feed_all s later) e ∙ feed_all-done code later))
by_code-due read r later _ after (waits {p} i o e) h = rw e (h p i (rw (sym e) o))

serve-due :
    (pieces : List (List ℕ)) (read : ℕ) (p : Parser)
    → AreNonEmpty pieces
    → read + length (joined pieces) ≤ buffer_size
    → IsPlaced read p
    → IsOpen (reading read p)
    → settled (serve (map chunk pieces) read p) ≡ due (feed_all (reading read p) (joined pieces))
unfolding serve joined AreNonEmpty settled feed_all unless_closed
serve-due [] read p n b h o = sym (due-IsOpen (reading read p) o)
serve-due ([] ∷ rest) read p n b h o = absurd n
serve-due ((x ∷ xs) ∷ rest) read p n b h o =
    let total : length (joined ((x ∷ xs) ∷ rest)) ≡ suc (length xs) + length (joined rest) =
      length-append (x ∷ xs) (joined rest) in
    let fits : take (buffer_size - read) (x ∷ xs) ≡ x ∷ xs =
      take_all (buffer_size - read) (x ∷ xs) (omega (arith, b, total)) in
    rw (fits, feed_all-append (reading read p) (x ∷ xs) (joined rest))
      (by_code-due (read + length (x ∷ xs)) (feed_all (reading read p) (x ∷ xs)) (joined rest)
        (received read (x ∷ xs) p) (λ q. serve (map chunk rest) (read + length (x ∷ xs)) q)
        (received-Tracks read (x ∷ xs) p h)
        (λ q i f. serve-due rest (read + length (x ∷ xs)) q n (omega (arith, b, total)) i f))

start-IsPlaced : IsPlaced 0 start
start-IsPlaced = record {
  started = omega arith;
  inside = omega arith;
  no_cr = λ less. absurd (omega (arith, less));
}

-- If no piece is empty and the pieces have at most as many bytes as the buffer, the loop of `main`
-- answers what the automaton says of all the bytes together, or waits if it says nothing yet.
pub serve-refines :
    (pieces : List (List ℕ))
    → AreNonEmpty pieces
    → length (joined pieces) ≤ buffer_size
    → settled (serve (map chunk pieces) 0 start)
      ≡ due (feed_all (in_line requestline []) (joined pieces))
unfolding reading feed_all slice IsOpen
serve-refines pieces n b = serve-due pieces 0 start n (omega (arith, b)) start-IsPlaced tt
