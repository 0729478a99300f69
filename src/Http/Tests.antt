-- ===== src/Http/Tests.antt =====
-- Runs of the server that parses a request.
use unpvol.Common.{ℕ, ◌≡◌, refl, List, [], ◌∷◌, map, arith}
use unpvol.Stream.Kernel.{chunk}
use unpvol.Http.Request.{requestline}
use unpvol.Http.Content.{correct_result, serve, start}
use unpvol.Http.Feed.{in_line, feed_all}
use unpvol.Http.Answer.{joined, AreNonEmpty, settled, due, serve-refines}
use unpvol.Http.Printing.{
  AllText, AllVisible, AreHeaders, print_line, print_headers, print_request, serve-print_request,
}

abbrev path : List ℕ
path = b'a' ∷ b'b' ∷ []

abbrev headers : List (List ℕ)
headers = (b'H' ∷ b'o' ∷ b's' ∷ b't' ∷ b':' ∷ b' ' ∷ b'x' ∷ []) ∷ (b'A' ∷ b':' ∷ b'b' ∷ []) ∷ []

-- The request is cut behind a carriage return and inside a line.
abbrev pieces : List (List ℕ)
pieces =
    (b'G' ∷ b'E' ∷ b'T' ∷ b' ' ∷ b'/' ∷ b'a' ∷ b'b' ∷ b' ' ∷ b'H' ∷ b'T' ∷ b'T' ∷ b'P' ∷ b'/' ∷ b'1'
      ∷ b'.' ∷ b'1' ∷ b'\r' ∷ [])
    ∷ (b'\n' ∷ b'H' ∷ b'o' ∷ b's' ∷ b't' ∷ b':' ∷ [])
    ∷ (b' ' ∷ b'x' ∷ b'\r' ∷ b'\n' ∷ b'A' ∷ b':' ∷ b'b' ∷ b'\r' ∷ b'\n' ∷ b'\r' ∷ b'\n' ∷ [])
    ∷ []

-- A newline without a carriage return.
abbrev bad_pieces : List (List ℕ)
bad_pieces = (b'G' ∷ b'E' ∷ b'T' ∷ b' ' ∷ b'/' ∷ []) ∷ (b'a' ∷ b'\n' ∷ b'b' ∷ []) ∷ []

serve-refines_example :
    settled (serve (map chunk bad_pieces) 0 start)
    ≡ due (feed_all (in_line requestline []) (joined bad_pieces))
unfolding AreNonEmpty joined
serve-refines_example = serve-refines bad_pieces tt (omega arith)

serve-print_request_example : serve (map chunk pieces) 0 start ≡ correct_result
unfolding AllVisible AllText AreHeaders AreNonEmpty joined print_request print_line print_headers
serve-print_request_example =
    serve-print_request path headers pieces (refl, (refl, tt))
      ((refl, (refl, (refl, (refl, (refl, (refl, (refl, tt))))))), ((refl, (refl, (refl, tt))), tt))
      refl tt (omega arith)
