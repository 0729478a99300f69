-- ===== src/HttpConn/Read.antt =====
-- `do_request` and `process_read`.
use unpvol.Common.{
  ℕ, zero, suc, ◌+◌, ◌-◌, ◌*◌, Bool, true, false, not, ◌&&◌, Option, none, some, List, [], ◌∷◌,
  ◌++◌, if◌then◌else◌, take, length,
}
use unpvol.Http.Line.{LineStatus, line_ok, line_bad, line_open, Line, line_at}
use unpvol.Http.Request.{CheckState, requestline, header, content}
use unpvol.HttpConn.{
  HttpCode, no_request, get_request, bad_request, no_resource, forbidden_request, file_request,
  closed_connection, FileStat, Answers, Conn, filename_len,
}
use unpvol.HttpConn.Parse.{Parsed, gives, parse_request_line, parse_headers, parse_content}

abbrev pub doc_root : List ℕ
doc_root =
    b'/' ∷ b'v' ∷ b'a' ∷ b'r' ∷ b'/' ∷ b'w' ∷ b'w' ∷ b'w' ∷ b'/' ∷ b'h' ∷ b't' ∷ b'm' ∷ b'l' ∷ []

-- `strcpy`, then `strncpy` of what fits of `m_url`, which is never null here.
unfoldable pub file_name : Option (List ℕ) → List ℕ
file_name none = doc_root
file_name (some url) = doc_root ++ take (filename_len - length doc_root - 1) url

unfoldable pub resource : Option FileStat → HttpCode
resource none = no_resource
resource (some s) =
    if not s.readable then forbidden_request else if s.directory then bad_request else file_request

abbrev pub with_stat : Option FileStat → Conn → Conn
with_stat none c = c
with_stat (some s) c =
    if s.readable && not s.directory
    then record c { mapped = true; file_size = s.size }
    else record c { file_size = s.size }

unfoldable pub do_request : Answers → Conn → Parsed
do_request a c =
    let file = file_name c.url in
    gives (resource (a.stat file)) (with_stat (a.stat file) (record c { real_file = file }))

-- `parse_line` on the members of the connection.
unfoldable pub parse_line : Conn → Line
parse_line c = unpvol.Http.Line.parse_line c.read_buf c.checked_idx c.read_idx

abbrev pub scanned : Line → Conn → Conn
scanned l c = record c { read_buf = l.buffer; checked_idx = l.checked }

-- The switch on the result of a handler, in each of the three states; `again` is the next turn.
unfoldable pub after_request_line : HttpCode → Conn → (Conn → Parsed) → Parsed
after_request_line bad_request c again = gives bad_request c
after_request_line code c again = again c

unfoldable pub after_headers : Answers → HttpCode → Conn → (Conn → Parsed) → Parsed
after_headers a bad_request c again = gives bad_request c
after_headers a get_request c again = do_request a c
after_headers a code c again = again c

unfoldable pub after_content : Answers → HttpCode → Conn → (Conn → Parsed) → Parsed
after_content a get_request c again = do_request a c
after_content a code c again = again c

-- The switch on `m_check_state`, for the text that starts at an index.
unfoldable pub on_text :
    Answers → CheckState → ℕ → List ℕ → Conn → (LineStatus → Conn → Parsed) → Parsed
on_text a requestline start text c again =
    let p = parse_request_line text c in after_request_line p.code p.conn (again line_ok)
on_text a header start text c again =
    let p = parse_headers a text c in after_headers a p.code p.conn (again line_ok)
on_text a content start text c again =
    let p = parse_content start c in after_content a p.code p.conn (again line_open)

-- `text = get_line(); m_start_line = m_checked_idx;` and the switch.
unfoldable pub turn : Answers → Conn → (LineStatus → Conn → Parsed) → Parsed
turn a c again =
    on_text a c.check_state c.start_line (line_at c.read_buf c.start_line c.checked_idx)
      (record c { start_line = c.checked_idx }) again

-- The loop ends at a line that is not complete, and at one that is wrong.
unfoldable pub by_status : LineStatus → Conn → Parsed → Parsed
by_status line_ok c p = p
by_status line_bad c p = gives no_request c
by_status line_open c p = gives no_request c

unfoldable pub on_line : Answers → Line → Conn → (LineStatus → Conn → Parsed) → Parsed
on_line a l c again = by_status l.status (scanned l c) (turn a (scanned l c) again)

-- `( m_check_state == CHECK_STATE_CONTENT ) && ( line_status == LINE_OK )`
unfoldable pub in_content : CheckState → LineStatus → Bool
in_content content line_ok = true
in_content state status = false

-- The loop. Without fuel it gives CLOSED_CONNECTION, which the code does not; each turn moves
-- `m_checked_idx` or is the first in the content, so the turns below are enough.
unfoldable pub read_loop : ℕ → Answers → LineStatus → Conn → Parsed
read_loop zero a status c = gives closed_connection c
read_loop (suc turns) a status c =
    let again = read_loop turns a in
    if in_content c.check_state status then turn a c again else on_line a (parse_line c) c again

unfoldable pub process_read : Answers → Conn → Parsed
process_read a c = read_loop (2 * (c.read_idx - c.checked_idx) + 2) a line_ok c
