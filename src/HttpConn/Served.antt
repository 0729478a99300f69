-- ===== src/HttpConn/Served.antt =====
-- A whole request in the read buffer.
use unpvol.Common.{
  ℕ, zero, suc, ◌+◌, ◌-◌, ◌*◌, ◌≤◌, ◌<◌, ◌≡◌, refl, ap, ◌∙◌, inl, inr, Bool, true, false, Option,
  some, List, [], ◌∷◌, arith, length, length-append, Bool-cases, pos, take, take_all, leb,
}
use unpvol.Stream.Kernel.{chunk}
use unpvol.Http.Text.{split_blank, skip_blanks, same_text, same_start, lower}
use unpvol.Http.Line.{line_ok}
use unpvol.Http.Request.{requestline, header, version_word, host_word, path_of, is_path}
use unpvol.Http.Printing.{
  AllText, AllVisible, AreHeaders, print_line, print_headers, first_line, print_request,
  split_blank-visible, first_line-AllText,
}
use unpvol.HttpConn.{no_request, get, Answers, Conn, init, read_buffer_size}
use unpvol.HttpConn.Parse.{
  gives, with_version, with_url, with_method, parse_request_line, connection_word, keep_alive_word,
  content_length_word, value, end_of_headers, on_header, parse_headers,
}
use unpvol.HttpConn.Read.{
  file_name, resource, do_request, after_request_line, after_headers, on_text, in_content,
  read_loop, process_read,
}
use unpvol.HttpConn.Send.{unless_empty, stored, recv_loop, read}
use unpvol.HttpConn.Lines.{store-Holds, IsAt, cut_line, cut_line-IsAt, read_loop-line}

-- No header gives a length.
unfoldable pub AreLengthless : List (List ℕ) → Type 0
AreLengthless [] = Unit
AreLengthless (line ∷ rest) = (same_start line content_length_word 15 ≡ false) × AreLengthless rest

on_header-cases :
    (P : Conn → Type 0) (a : Answers) (text : List ℕ) (c : Conn)
    → same_start text content_length_word 15 ≡ false
    → ((l : Bool) (h : Option (List ℕ)) → P (record c { linger = l; host = h }))
    → P (on_header a text c)
unfolding on_header
on_header-cases P a text c n f = elim (Bool-cases (same_start text connection_word 11)) [
  | inl t ↦ elim (Bool-cases (same_text (value 11 text) keep_alive_word)) [
    | inl u ↦ rw (t, u) (f true c.host)
    | inr g ↦ rw (t, g) (f c.linger c.host)
  ]
  | inr g ↦ elim (Bool-cases (same_start text host_word 5)) [
    | inl u ↦ rw (g, n, u) (f c.linger (some (value 5 text)))
    | inr v ↦ rw (g, n, v) (f c.linger c.host)
  ]
]

-- In the headers of a request for a path, with no content to come.
record IsAsking (path : List ℕ) (c : Conn) : Type 0 where
  state : c.check_state ≡ header
  method : c.method ≡ get
  url : c.url ≡ some (b'/' ∷ path)
  no_length : c.content_length ≡ pos 0

read_loop-headers :
    (headers : List (List ℕ)) (turns : ℕ) (a : Answers) (path : List ℕ) (c : Conn)
    → AreHeaders headers
    → AreLengthless headers
    → IsAt (print_headers headers) c
    → IsAsking path c
    → length headers < turns
    → (read_loop turns a line_ok c).code ≡ resource (a.stat (file_name (some (b'/' ∷ path))))
unfolding print_headers AreHeaders AreLengthless on_text in_content parse_headers after_headers
    do_request end_of_headers AllText
read_loop-headers headers zero a path c h n i k t = absurd (omega (arith, t))
read_loop-headers [] (suc turns) a path c h n i k t =
    let out : in_content c.check_state line_ok ≡ false = rw k.state refl in
    ap (λ p. p.code) (read_loop-line turns a [] [] c i tt out)
    ∙ rw (k.state, k.method, k.url, k.no_length) refl
read_loop-headers ([] ∷ rest) (suc turns) a path c h n i k t = absurd h
read_loop-headers ((x ∷ xs) ∷ rest) (suc turns) a path c (h, hs) (n, ns) i k t =
    let out : in_content c.check_state line_ok ≡ false = rw k.state refl in
    let d = cut_line (x ∷ xs) c in
    let at = cut_line-IsAt (x ∷ xs) (print_headers rest) c i in
    ap (λ p. p.code) (read_loop-line turns a (x ∷ xs) (print_headers rest) c i h out)
    ∙ ap (λ s. (on_text a s c.start_line (x ∷ xs) d (read_loop turns a)).code) k.state
    ∙ on_header-cases
        (λ e.
          (read_loop turns a line_ok e).code ≡ resource (a.stat (file_name (some (b'/' ∷ path)))))
        a (x ∷ xs) d n
        (λ linger host.
          read_loop-headers rest turns a path (record d { linger = linger; host = host }) hs ns
            (record { starts = at.starts; ends = at.ends; holds = at.holds })
            (record { state = k.state; method = k.method; url = k.url; no_length = k.no_length })
            (omega (arith, t)))

parse_request_line-first_line :
    (path : List ℕ) (c : Conn)
    → AllVisible path
    → parse_request_line (first_line path) c
      ≡ gives no_request (record c {
        method = get;
        url = some (b'/' ∷ path);
        version = some version_word;
        check_state = header;
      })
unfolding parse_request_line with_method with_url with_version split_blank skip_blanks same_text
    lower path_of is_path same_start AllVisible
parse_request_line-first_line path c h =
    rw (split_blank-visible (b'/' ∷ path) version_word (refl, h)) refl

length-print_headers : (headers : List (List ℕ)) → length headers ≤ length (print_headers headers)
unfolding print_headers print_line
length-print_headers [] = omega arith
length-print_headers (line ∷ rest) =
    omega
      (arith, length-append line (b'\r' ∷ b'\n' ∷ print_headers rest), length-print_headers rest)

read_loop-request :
    (turns : ℕ) (a : Answers) (path : List ℕ) (headers : List (List ℕ)) (c : Conn)
    → AllVisible path
    → AreHeaders headers
    → AreLengthless headers
    → IsAt (print_request path headers) c
    → c.check_state ≡ requestline
    → c.content_length ≡ pos 0
    → length headers + 1 < turns
    → (read_loop turns a line_ok c).code ≡ resource (a.stat (file_name (some (b'/' ∷ path))))
unfolding print_request on_text after_request_line in_content
read_loop-request zero a path headers c v h n i s l t = absurd (omega (arith, t))
read_loop-request (suc turns) a path headers c v h n i s l t =
    let out : in_content c.check_state line_ok ≡ false = rw s refl in
    let line = first_line path in
    let at = cut_line-IsAt line (print_headers headers) c i in
    ap (λ p. p.code)
      (read_loop-line turns a line (print_headers headers) c i (first_line-AllText path v) out)
    ∙ ap (λ s. (on_text a s c.start_line line (cut_line line c) (read_loop turns a)).code) s
    ∙ ap (λ p. (after_request_line p.code p.conn (read_loop turns a line_ok)).code)
        (parse_request_line-first_line path (cut_line line c) v)
    ∙ read_loop-headers headers turns a path _ h n
        (record { starts = at.starts; ends = at.ends; holds = at.holds })
        (record { state = refl; method = refl; url = refl; no_length = l }) (omega (arith, t))

length-print_request :
    (path : List ℕ) (headers : List (List ℕ)) → length headers < length (print_request path headers)
unfolding print_request print_line
length-print_request path headers = omega (
  arith,
  length-append (first_line path) (b'\r' ∷ b'\n' ∷ print_headers headers),
  length-print_headers headers,
)

-- `read` takes a text for which there is room.
recv_loop-one :
    (xs : List ℕ) (c : Conn)
    → 0 < length xs
    → take (read_buffer_size - c.read_idx) xs ≡ xs
    → (recv_loop (chunk xs ∷ []) c).conn ≡ stored xs c
unfolding recv_loop unless_empty
recv_loop-one [] c full e = absurd (omega (arith, full))
recv_loop-one (x ∷ xs) c full e = ap (λ ys. (unless_empty ys c (recv_loop [] (stored ys c))).conn) e

read-one :
    (xs : List ℕ) (c : Conn)
    → 0 < length xs
    → c.read_idx + length xs ≤ read_buffer_size
    → (read (chunk xs ∷ []) c).conn ≡ stored xs c
unfolding read
read-one xs c full h =
    let room : leb read_buffer_size c.read_idx ≡ false = ground (arith, h, full) in
    rw room
      (recv_loop-one xs c full (take_all (read_buffer_size - c.read_idx) xs (omega (arith, h))))

-- A connection that has just been initialised receives `GET /path HTTP/1.1`, with no blank, NUL,
-- carriage return or newline in the path, then header lines that are not empty, have no NUL, carriage
-- return or newline and give no Content-Length, and the empty line. If they fit into the read buffer
-- and come at once, `process_read` returns what `stat` says of the file that `do_request` names
-- after the path.
pub process_read-serves :
    (a : Answers) (path : List ℕ) (headers : List (List ℕ)) (c : Conn)
    → AllVisible path
    → AreHeaders headers
    → AreLengthless headers
    → length (print_request path headers) ≤ read_buffer_size
    → (process_read a (read (chunk (print_request path headers) ∷ []) (init c)).conn).code
      ≡ resource (a.stat (file_name (some (b'/' ∷ path))))
unfolding process_read init
process_read-serves a path headers c v h n fits =
    let text = print_request path headers in
    let size : length headers < length text = length-print_request path headers in
    ap (λ d. (process_read a d).code)
      (read-one text (init c) (omega (arith, size)) (omega (arith, fits)))
    ∙ read_loop-request (2 * (0 + length text - 0) + 2) a path headers (stored text (init c)) v h n
        (record { starts = refl; ends = omega arith; holds = store-Holds (λ i. 0) 0 text }) refl
        refl (omega (arith, size))
