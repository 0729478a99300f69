-- ===== src/HttpConn/Fitting.antt =====
-- The write buffer: what fits, and its bound.
use unpvol.Common.{
  ℕ, ◌+◌, ◌-◌, ◌<◌, ◌≡◌, refl, inl, inr, true, false, List, leb, ◌==◌, arith, length, length-append,
  Bool-cases,
}
use unpvol.HttpConn.{
  HttpCode, no_request, get_request, bad_request, no_resource, forbidden_request, file_request,
  internal_error, closed_connection, Conn, write_buffer_size,
}
use unpvol.HttpConn.Format.{status_line, ok_title, empty_page}
use unpvol.HttpConn.Respond.{
  Added, appended, add_response, add_status_line, add_content_length, add_linger, add_blank_line,
  add_content, add_headers, if_added, write_form, with_file, write_file, process_write,
}

pub add_response-fits :
    (text : List ℕ) (c : Conn)
    → length c.write_buf + length text < write_buffer_size - 1
    → add_response text c ≡ record { ok = true; conn = appended c text }
unfolding add_response
add_response-fits text c h =
    let room : leb write_buffer_size (length c.write_buf) ≡ false = ground (arith, h) in
    let fits : leb (write_buffer_size - 1 - length c.write_buf) (length text) ≡ false =
      ground (arith, h) in
    rw (room, fits) refl

-- The write buffer is never full.
abbrev pub IsInside : Conn → Type 0
IsInside c = length c.write_buf < write_buffer_size

add_response-IsInside :
    (text : List ℕ) (c : Conn) → IsInside c → IsInside (add_response text c).conn
unfolding add_response
add_response-IsInside text c h =
    elim (Bool-cases (leb (write_buffer_size - 1 - length c.write_buf) (length text))) [
      | inl t ↦ ground (arith, h, t)
      | inr f ↦ ground (arith, h, f, length-append c.write_buf text)
    ]

add_headers-IsInside : (n : ℕ) (c : Conn) → IsInside c → IsInside (add_headers n c)
unfolding add_headers add_content_length add_linger add_blank_line
add_headers-IsInside n c h =
    add_response-IsInside _ _ (add_response-IsInside _ _ (add_response-IsInside _ c h))

if_added-IsInside : (r : Added) → IsInside r.conn → IsInside (if_added r).conn
unfolding if_added
if_added-IsInside r h = elim (Bool-cases r.ok) [ inl t ↦ rw t h | inr f ↦ rw f h ]

write_form-IsInside :
    (status : ℕ) (title form : List ℕ) (c : Conn)
    → IsInside c
    → IsInside (write_form status title form c).conn
unfolding write_form add_content add_status_line
write_form-IsInside status title form c h = if_added-IsInside _ (
    add_response-IsInside form _
      (add_headers-IsInside (length form) _ (add_response-IsInside (status_line status title) c h)))

write_file-IsInside : (c : Conn) → IsInside c → IsInside (write_file c).conn
unfolding write_file with_file add_content add_status_line
write_file-IsInside c h =
    let d = (add_response (status_line 200 ok_title) c).conn in
    let g : IsInside d = add_response-IsInside (status_line 200 ok_title) c h in
    elim (Bool-cases (d.file_size == 0)) [
      | inl t ↦
          rw t (add_response-IsInside empty_page _ (add_headers-IsInside (length empty_page) d g))
      | inr f ↦ rw f (add_headers-IsInside d.file_size d g)
    ]

-- Whatever `process_write` is asked for, `m_write_idx` stays below the size of the write buffer.
pub process_write-IsInside :
    (code : HttpCode) (c : Conn) → IsInside c → IsInside (process_write code c).conn
unfolding process_write
process_write-IsInside internal_error c h = write_form-IsInside _ _ _ c h
process_write-IsInside bad_request c h = write_form-IsInside _ _ _ c h
process_write-IsInside no_resource c h = write_form-IsInside _ _ _ c h
process_write-IsInside forbidden_request c h = write_form-IsInside _ _ _ c h
process_write-IsInside file_request c h = write_file-IsInside c h
process_write-IsInside no_request c h = h
process_write-IsInside get_request c h = h
process_write-IsInside closed_connection c h = h
