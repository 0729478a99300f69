-- ===== src/Http/Printing.antt =====
-- A request is printed, and the server reads it.
use unpvol.Common.{
  ℕ, zero, suc, ◌≤◌, ◌≡◌, refl, ap, ◌∙◌, inl, inr, Bool, true, false, not, ◌&&◌, ◌||◌, some, List,
  [], ◌∷◌, ◌++◌, map, ◌==◌, arith, length, append_assoc, append-nil, Bool-cases,
}
use unpvol.Stream.Kernel.{chunk}
use unpvol.Stream.Readline.{c_string}
use unpvol.Http.Text.{is_blank, split_blank, skip_blanks, lower, same_text, same_start}
use unpvol.Http.Request.{
  CheckState, requestline, header, no_request, get_request, get_word, version_word, host_word,
  path_of, is_path, with_url, with_method, parse_requestline, parse_headers,
}
use unpvol.Http.Content.{
  goes, after_requestline, after_headers, on_line, buffer_size, Ended, correct_result,
  something_wrong, remote_closed, reading_failed, still_reading, serve, start,
}
use unpvol.Http.Feed.{in_line, done, close_line, feed, feed_all, feed-in_text}
use unpvol.Http.Answer.{joined, AreNonEmpty, due, settled, answer_of, serve-refines}

-- A byte of a line: no NUL, carriage return or newline.
abbrev pub is_text : ℕ → Bool
is_text c = not (c == 0 || (c == b'\r' || c == b'\n'))

abbrev pub is_visible : ℕ → Bool
is_visible c = is_text c && not (is_blank c)

unfoldable pub AllText : List ℕ → Type 0
AllText [] = Unit
AllText (c ∷ cs) = (is_text c ≡ true) × AllText cs

unfoldable pub AllVisible : List ℕ → Type 0
AllVisible [] = Unit
AllVisible (c ∷ cs) = (is_visible c ≡ true) × AllVisible cs

-- Header lines: none is empty, and they have no NUL, carriage return or newline.
unfoldable pub AreHeaders : List (List ℕ) → Type 0
AreHeaders [] = Unit
AreHeaders ([] ∷ rest) = ⊥
AreHeaders ((c ∷ cs) ∷ rest) = AllText (c ∷ cs) × AreHeaders rest

unfoldable pub print_line : List ℕ → List ℕ → List ℕ
print_line line rest = line ++ b'\r' ∷ b'\n' ∷ rest

unfoldable pub print_headers : List (List ℕ) → List ℕ
print_headers [] = print_line [] []
print_headers (line ∷ rest) = print_line line (print_headers rest)

-- `GET`, the path, the version.
abbrev pub first_line : List ℕ → List ℕ
first_line path = get_word ++ b' ' ∷ ((b'/' ∷ path) ++ b' ' ∷ version_word)

unfoldable pub print_request : List ℕ → List (List ℕ) → List ℕ
print_request path headers = print_line (first_line path) (print_headers headers)

pub c_string-text : (xs : List ℕ) → AllText xs → c_string xs ≡ xs
unfolding c_string AllText
c_string-text [] h = refl
c_string-text (zero ∷ xs) (h, hs) = absurd (ground (arith, h))
c_string-text (suc x ∷ xs) (h, hs) = rw (c_string-text xs hs) refl

feed-text :
    (xs ys line : List ℕ) (state : CheckState)
    → AllText xs
    → feed_all (in_line state line) (xs ++ ys) ≡ feed_all (in_line state (line ++ xs)) ys
unfolding feed_all AllText
feed-text [] ys line state h = rw (append-nil line) refl
feed-text (x ∷ xs) ys line state (h, hs) =
    let no_cr : (x == b'\r') ≡ false = ground (arith, h) in
    let no_lf : (x == b'\n') ≡ false = ground (arith, h) in
    ap (λ r. feed_all r (xs ++ ys)) (feed-in_text state line x no_cr no_lf)
    ∙ (feed-text xs ys (line ++ x ∷ []) state hs
        ∙ ap (λ l. feed_all (in_line state l) ys) (append_assoc line (x ∷ []) xs))

-- A line without a NUL, carriage return or newline is read as it was printed.
feed-print_line :
    (line rest : List ℕ) (state : CheckState)
    → AllText line
    → feed_all (in_line state []) (print_line line rest)
      ≡ feed_all (close_line (on_line state line)) rest
unfolding print_line feed_all feed
feed-print_line line rest state h =
    feed-text line (b'\r' ∷ b'\n' ∷ rest) [] state h
    ∙ ap (λ l. feed_all (close_line (on_line state l)) rest) (c_string-text line h)

on_line-header : (c : ℕ) (cs : List ℕ) → on_line header (c ∷ cs) ≡ goes header
unfolding on_line after_headers parse_headers
on_line-header c cs = elim (Bool-cases (same_start (c ∷ cs) host_word 5)) [
  | inl t ↦ rw t refl
  | inr f ↦ rw f refl
]

feed-print_headers :
    (headers : List (List ℕ))
    → AreHeaders headers
    → feed_all (in_line header []) (print_headers headers) ≡ done get_request
unfolding print_headers AreHeaders AllText feed_all close_line on_line after_headers parse_headers
feed-print_headers [] h = feed-print_line [] [] header tt
feed-print_headers ([] ∷ rest) h = absurd h
feed-print_headers ((c ∷ cs) ∷ rest) (h, hs) =
    feed-print_line (c ∷ cs) (print_headers rest) header h
    ∙ (rw (on_line-header c cs) (feed-print_headers rest hs))

pub split_blank-visible :
    (xs ys : List ℕ)
    → AllVisible xs
    → split_blank (xs ++ b' ' ∷ ys) ≡ some (record { left = xs; right = ys })
unfolding split_blank AllVisible
split_blank-visible [] ys h = refl
split_blank-visible (x ∷ xs) ys (h, hs) =
    let no : is_blank x ≡ false = ground (arith, h) in rw (no, split_blank-visible xs ys hs) refl

parse_requestline-first_line :
    (path : List ℕ) → AllVisible path → parse_requestline (first_line path) ≡ no_request
unfolding parse_requestline with_method with_url split_blank skip_blanks same_text lower path_of
    is_path same_start AllVisible
parse_requestline-first_line path h =
    rw (split_blank-visible (b'/' ∷ path) version_word ((refl, h))) refl

AllText-append : (xs ys : List ℕ) → AllText xs → AllText ys → AllText (xs ++ ys)
unfolding AllText
AllText-append [] ys h g = g
AllText-append (x ∷ xs) ys (h, hs) g = (h, AllText-append xs ys hs g)

AllVisible-AllText : (xs : List ℕ) → AllVisible xs → AllText xs
unfolding AllText AllVisible
AllVisible-AllText [] h = tt
AllVisible-AllText (x ∷ xs) (h, hs) = (ground (arith, h), AllVisible-AllText xs hs)

pub first_line-AllText : (path : List ℕ) → AllVisible path → AllText (first_line path)
unfolding AllText
first_line-AllText path h =
    AllText-append (get_word ++ b' ' ∷ b'/' ∷ []) (path ++ b' ' ∷ version_word)
      (refl, (refl, (refl, (refl, (refl, tt)))))
      (AllText-append path (b' ' ∷ version_word) (AllVisible-AllText path h)
        (refl, (refl, (refl, (refl, (refl, (refl, (refl, (refl, (refl, tt))))))))))

-- The automaton accepts a printed request.
print_request-accepted :
    (path : List ℕ) (headers : List (List ℕ))
    → AllVisible path
    → AreHeaders headers
    → feed_all (in_line requestline []) (print_request path headers) ≡ done get_request
unfolding print_request on_line after_requestline close_line
print_request-accepted path headers h g =
    feed-print_line (first_line path) (print_headers headers) requestline
      (first_line-AllText path h)
    ∙ (rw (parse_requestline-first_line path h) (feed-print_headers headers g))

settled_correct : (e : Ended) → settled e ≡ some correct_result → e ≡ correct_result
unfolding settled
settled_correct correct_result h = refl
settled_correct something_wrong h = cc
settled_correct remote_closed h = cc
settled_correct reading_failed h = cc
settled_correct (still_reading n p) h = cc

-- Take `GET /path HTTP/1.1`, with no blank, NUL, carriage return or newline in the path, lines of
-- headers that are not empty and have no NUL, carriage return or newline, and the empty line. If they
-- are at most as long as the buffer, the server answers that the result is correct, in whatever
-- pieces, none of them empty, the bytes arrive.
pub serve-print_request :
    (path : List ℕ) (headers pieces : List (List ℕ))
    → AllVisible path
    → AreHeaders headers
    → joined pieces ≡ print_request path headers
    → AreNonEmpty pieces
    → length (print_request path headers) ≤ buffer_size
    → serve (map chunk pieces) 0 start ≡ correct_result
unfolding due answer_of
serve-print_request path headers pieces h g e n b =
    let fits : length (joined pieces) ≤ buffer_size = rw e b in
    settled_correct (serve (map chunk pieces) 0 start) (
      serve-refines pieces n fits
      ∙ ap (λ xs. due (feed_all (in_line requestline []) xs)) e
      ∙ ap due (print_request-accepted path headers h g))
