-- ===== src/HttpConn/Respond.antt =====
-- `add_response`, the routines over it, and `process_write`.
use unpvol.Common.{ℕ, ◌-◌, Bool, true, false, List, [], ◌∷◌, ◌++◌, leb, ◌==◌, if◌then◌else◌, length}
use unpvol.HttpConn.{
  HttpCode, no_request, get_request, bad_request, no_resource, forbidden_request, file_request,
  internal_error, closed_connection, of_write_buf, of_file, Conn, write_buffer_size,
}
use unpvol.HttpConn.Format.{
  ok_title, bad_request_title, forbidden_title, not_found_title, internal_title, bad_request_form,
  forbidden_form, not_found_form, internal_form, empty_page, crlf, status_line, length_line,
  linger_line,
}

-- What is returned, with the connection.
pub record Added : Type 0 where
  pub ok : Bool
  pub conn : Conn

abbrev pub appended : Conn → List ℕ → Conn
appended c text = record c { write_buf = c.write_buf ++ text }

-- `add_response` of a text that `vsnprintf` makes. What it leaves behind `m_write_idx` when the text
-- does not fit is not read.
unfoldable pub add_response : List ℕ → Conn → Added
add_response text c =
    if leb write_buffer_size (length c.write_buf)
    then record { ok = false; conn = c }
    else if leb (write_buffer_size - 1 - length c.write_buf) (length text)
    then record { ok = false; conn = c }
    else record { ok = true; conn = appended c text }

unfoldable pub add_status_line : ℕ → List ℕ → Conn → Added
add_status_line status title c = add_response (status_line status title) c

unfoldable pub add_content_length : ℕ → Conn → Added
add_content_length n c = add_response (length_line n) c

unfoldable pub add_linger : Conn → Added
add_linger c = add_response (linger_line c.linger) c

unfoldable pub add_blank_line : Conn → Added
add_blank_line c = add_response crlf c

unfoldable pub add_content : List ℕ → Conn → Added
add_content text c = add_response text c

-- Nothing is returned, and the three results are not looked at.
unfoldable pub add_headers : ℕ → Conn → Conn
add_headers n c = (add_blank_line (add_linger (add_content_length n c).conn).conn).conn

-- `m_iv[0]` is the write buffer and `m_iv_count` is 1.
abbrev pub with_iv : Conn → Conn
with_iv c = record c { iv = of_write_buf (length c.write_buf) ∷ [] }

unfoldable pub if_added : Added → Added
if_added r = if r.ok then record { ok = true; conn = with_iv r.conn } else r

-- An answer without a file.
unfoldable pub write_form : ℕ → List ℕ → List ℕ → Conn → Added
write_form status title form c =
    if_added (add_content form (add_headers (length form) (add_status_line status title c).conn))

-- Behind the status line. For an empty file the case falls through to `default`.
unfoldable pub with_file : Conn → Added
with_file d =
    let e = add_headers d.file_size d in
    if d.file_size == 0
    then record {
      ok = false;
      conn = (add_content empty_page (add_headers (length empty_page) d)).conn;
    }
    else record {
      ok = true;
      conn = record e { iv = of_write_buf (length e.write_buf) ∷ of_file e.file_size ∷ [] };
    }

unfoldable pub write_file : Conn → Added
write_file c = with_file (add_status_line 200 ok_title c).conn

unfoldable pub process_write : HttpCode → Conn → Added
process_write internal_error c = write_form 500 internal_title internal_form c
process_write bad_request c = write_form 400 bad_request_title bad_request_form c
process_write no_resource c = write_form 404 not_found_title not_found_form c
process_write forbidden_request c = write_form 403 forbidden_title forbidden_form c
process_write file_request c = write_file c
process_write no_request c = record { ok = false; conn = c }
process_write get_request c = record { ok = false; conn = c }
process_write closed_connection c = record { ok = false; conn = c }
