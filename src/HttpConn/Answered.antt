-- ===== src/HttpConn/Answered.antt =====
-- What `process_write` puts into an empty write buffer.
use unpvol.Common.{
  ℕ, zero, suc, ◌+◌, ◌-◌, ◌/◌, ◌%◌, ◌≤◌, ◌<◌, ◌≡◌, ◌≢◌, refl, ap, ◌∙◌, Bool, true, false, Option,
  none, some, List, [], ◌∷◌, ◌++◌, ◌==◌, ℤ, pos, negsuc, arith, length, length-append, append_assoc,
}
use mathlib.Core.Option.{some-injective}
use unpvol.HttpConn.{
  HttpCode, no_request, get_request, bad_request, no_resource, forbidden_request, file_request,
  internal_error, closed_connection, of_write_buf, of_file, Conn, write_buffer_size,
}
use unpvol.HttpConn.Format.{
  ok_title, bad_request_title, forbidden_title, not_found_title, internal_title, bad_request_form,
  forbidden_form, not_found_form, internal_form, crlf, digits, decimal, to_int, status_line,
  length_line, linger_line,
}
use unpvol.HttpConn.Respond.{
  Added, appended, add_response, add_status_line, add_content_length, add_linger, add_blank_line,
  add_content, add_headers, with_iv, if_added, write_form, with_file, write_file, process_write,
}
use unpvol.HttpConn.Fitting.{add_response-fits}

-- A status line, the headers for a length, and the empty line.
unfoldable pub head_text : ℕ → List ℕ → ℕ → Bool → List ℕ
head_text status title n linger =
    status_line status title ++ (length_line n ++ (linger_line linger ++ crlf))

-- The answers without a file, by the result of `process_read`.
unfoldable pub error_text : HttpCode → Bool → Option (List ℕ)
error_text internal_error linger =
    some (head_text 500 internal_title (length internal_form) linger ++ internal_form)
error_text bad_request linger =
    some (head_text 400 bad_request_title (length bad_request_form) linger ++ bad_request_form)
error_text no_resource linger =
    some (head_text 404 not_found_title (length not_found_form) linger ++ not_found_form)
error_text forbidden_request linger =
    some (head_text 403 forbidden_title (length forbidden_form) linger ++ forbidden_form)
error_text code linger = none

length-digits : (turns n : ℕ) (text : List ℕ) → length (digits turns n text) ≤ turns + length text
unfolding digits
length-digits zero n text = omega arith
length-digits (suc turns) n text =
    ground (arith, length-digits turns (n / 10) ((b'0' + n % 10) ∷ text))

length-decimal : (z : ℤ) → length (decimal z) ≤ 11
unfolding decimal
length-decimal (pos n) = omega (arith, length-digits 10 n [])
length-decimal (negsuc n) = omega (arith, length-digits 10 (suc n) [])

length-linger_line : (linger : Bool) → length (linger_line linger) ≤ 24
unfolding linger_line
length-linger_line true = omega arith
length-linger_line false = omega arith

length-length_line : (n : ℕ) → length (length_line n) ≤ 29
unfolding length_line
length-length_line n =
    omega (arith, length-append (decimal (to_int n)) crlf, length-decimal (to_int n))

add_headers-fits :
    (n : ℕ) (c : Conn)
    → length c.write_buf + 55 < write_buffer_size - 1
    → add_headers n c ≡ appended c (length_line n ++ (linger_line c.linger ++ crlf))
unfolding add_headers add_content_length add_linger add_blank_line
add_headers-fits n c h =
    let a = length_line n in
    let b = linger_line c.linger in
    let la : length a ≤ 29 = length-length_line n in
    let lb : length b ≤ 24 = length-linger_line c.linger in
    let wa = length-append c.write_buf a in
    let wb = length-append (c.write_buf ++ a) b in
    ap (λ r. (add_blank_line (add_linger r.conn).conn).conn)
      (add_response-fits a c (omega (arith, h, la)))
    ∙ ap (λ r. (add_blank_line r.conn).conn)
        (add_response-fits b (appended c a) (omega (arith, h, la, lb, wa)))
    ∙ ap (λ r. r.conn)
        (add_response-fits crlf (appended (appended c a) b) (omega (arith, h, la, lb, wa, wb)))
    ∙ ap (λ xs. record c { write_buf = xs })
        (append_assoc (c.write_buf ++ a) b crlf ∙ append_assoc c.write_buf a (b ++ crlf))

write_form-fits :
    (status : ℕ) (title form : List ℕ) (c : Conn)
    → c.write_buf ≡ []
    → length (status_line status title) + length form < 900
    → write_form status title form c ≡ record {
      ok = true;
      conn = with_iv (appended c (head_text status title (length form) c.linger ++ form));
    }
unfolding write_form add_content add_status_line if_added head_text
write_form-fits status title form c e h =
    let a = status_line status title in
    let b = length_line (length form) ++ (linger_line c.linger ++ crlf) in
    let empty : length c.write_buf ≡ 0 = rw e refl in
    let lb : length b ≤ 55 = omega (
      arith,
      length-append (length_line (length form)) (linger_line c.linger ++ crlf),
      length-append (linger_line c.linger) crlf,
      length-length_line (length form),
      length-linger_line c.linger,
    ) in
    let wa = length-append c.write_buf a in
    let wb = length-append (c.write_buf ++ a) b in
    ap (λ r. if_added (add_response form (add_headers (length form) r.conn)))
      (add_response-fits a c (omega (arith, h, empty)))
    ∙ ap (λ d. if_added (add_response form d))
        (add_headers-fits (length form) (appended c a) (omega (arith, h, empty, wa)))
    ∙ ap if_added
        (add_response-fits form (appended (appended c a) b) (omega (arith, h, empty, lb, wa, wb)))
    ∙ ap (λ xs. record { ok = true; conn = with_iv (record c { write_buf = xs }) })
        (ap (λ xs. xs ++ form) (append_assoc c.write_buf a b)
          ∙ append_assoc c.write_buf (a ++ b) form)

abbrev answered : Conn → List ℕ → Added
answered c text = record { ok = true; conn = with_iv (appended c text) }

with_text :
    {text other : List ℕ} (c : Conn) → some text ≡ some other → answered c text ≡ answered c other
with_text {text} {other} c h = ap (answered c) (some-injective text other h)

-- With nothing in the write buffer, every result of `process_read` that is an error is answered with
-- the whole text that belongs to it, whose Content-Length is the length of its last part, and `m_iv`
-- is the write buffer.
pub process_write-answers :
    (code : HttpCode) (text : List ℕ) (c : Conn)
    → c.write_buf ≡ []
    → error_text code c.linger ≡ some text
    → process_write code c ≡ record { ok = true; conn = with_iv (appended c text) }
unfolding process_write error_text status_line decimal digits
process_write-answers internal_error text c e h =
    write_form-fits 500 internal_title internal_form c e (omega arith) ∙ with_text c h
process_write-answers bad_request text c e h =
    write_form-fits 400 bad_request_title bad_request_form c e (omega arith) ∙ with_text c h
process_write-answers no_resource text c e h =
    write_form-fits 404 not_found_title not_found_form c e (omega arith) ∙ with_text c h
process_write-answers forbidden_request text c e h =
    write_form-fits 403 forbidden_title forbidden_form c e (omega arith) ∙ with_text c h
process_write-answers file_request text c e h = cc
process_write-answers no_request text c e h = cc
process_write-answers get_request text c e h = cc
process_write-answers closed_connection text c e h = cc

-- With nothing in the write buffer, a file that has bytes is answered with the status line and the
-- headers for its size, and `m_iv` is the write buffer and the file. An empty file is refused.
pub write_file-both :
    (c : Conn)
    → c.write_buf ≡ []
    → (c.file_size ≡ 0 → (process_write file_request c).ok ≡ false)
      × (c.file_size ≢ 0
          → process_write file_request c ≡ (
              let d = appended c (head_text 200 ok_title c.file_size c.linger) in
              record {
                ok = true;
                conn = record d {
                  iv = of_write_buf (length d.write_buf) ∷ of_file c.file_size ∷ [];
                };
              }))
unfolding process_write write_file with_file add_status_line head_text status_line decimal digits
write_file-both c e =
    let a = status_line 200 ok_title in
    let empty : length c.write_buf ≡ 0 = rw e refl in
    let first : add_response a c ≡ record { ok = true; conn = appended c a } =
      add_response-fits a c (omega (arith, empty)) in
    let wa = length-append c.write_buf a in
    let rest = length_line c.file_size ++ (linger_line c.linger ++ crlf) in
    let headed = ap (λ r. with_file r.conn) first in
    (
      λ z.
          let t : (c.file_size == 0) ≡ true = ground (arith, z) in
          ap (λ r. r.ok) headed ∙ rw t refl,
      λ z.
          let f : (c.file_size == 0) ≡ false = ground (arith, z) in
          headed
          ∙ rw f (
              ap
                (λ d. record {
                  ok = true;
                  conn = record d {
                    iv = of_write_buf (length d.write_buf) ∷ of_file d.file_size ∷ [];
                  };
                })
                (add_headers-fits c.file_size (appended c a) (omega (arith, empty, wa))
                  ∙ ap (λ xs. record c { write_buf = xs }) (append_assoc c.write_buf a rest))),
    )
