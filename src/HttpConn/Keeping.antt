-- ===== src/HttpConn/Keeping.antt =====
-- `process_read` and `process_write` leave `m_sockfd` alone.
use unpvol.Common.{
  ℕ, zero, suc, ◌-◌, ◌≡◌, refl, ◌∙◌, inl, inr, Bool-cases, Option, none, some, List, leb, ◌==◌,
  ◌&&◌, not, length,
}
use unpvol.Http.Line.{LineStatus, line_ok, line_bad, line_open}
use unpvol.Http.Request.{CheckState, requestline, header, content}
use unpvol.HttpConn.{
  HttpCode, no_request, get_request, bad_request, no_resource, forbidden_request, file_request,
  internal_error, closed_connection, FileStat, Answers, Conn, write_buffer_size,
}
use unpvol.HttpConn.Parse.{Parsed}
use unpvol.HttpConn.Read.{
  file_name, with_stat, do_request, parse_line, after_request_line, after_headers, after_content,
  on_text, turn, by_status, on_line, in_content, read_loop, process_read,
}
use unpvol.HttpConn.Respond.{
  Added, add_response, add_status_line, add_content_length, add_linger, add_blank_line, add_content,
  add_headers, if_added, write_form, with_file, write_file, process_write,
}
use unpvol.HttpConn.Turns.{parse_request_line-IsSame, parse_headers-IsSame, parse_content-IsSame}

with_stat-sockfd : (s : Option FileStat) (c : Conn) → (with_stat s c).sockfd ≡ c.sockfd
with_stat-sockfd none c = refl
with_stat-sockfd (some s) c = elim (Bool-cases (s.readable && not s.directory)) [
  | inl t ↦ rw t refl
  | inr f ↦ rw f refl
]

do_request-sockfd : (a : Answers) (c : Conn) → (do_request a c).conn.sockfd ≡ c.sockfd
unfolding do_request
do_request-sockfd a c =
    with_stat-sockfd (a.stat (file_name c.url)) (record c { real_file = file_name c.url })

-- The next turn leaves the socket alone.
abbrev Stays : (Conn → Parsed) → Type 0
Stays again = (d : Conn) → (again d).conn.sockfd ≡ d.sockfd

after_request_line-sockfd :
    (code : HttpCode) (c : Conn) (again : Conn → Parsed)
    → Stays again
    → (after_request_line code c again).conn.sockfd ≡ c.sockfd
unfolding after_request_line
after_request_line-sockfd bad_request c again h = refl
after_request_line-sockfd no_request c again h = h c
after_request_line-sockfd get_request c again h = h c
after_request_line-sockfd no_resource c again h = h c
after_request_line-sockfd forbidden_request c again h = h c
after_request_line-sockfd file_request c again h = h c
after_request_line-sockfd internal_error c again h = h c
after_request_line-sockfd closed_connection c again h = h c

after_headers-sockfd :
    (a : Answers) (code : HttpCode) (c : Conn) (again : Conn → Parsed)
    → Stays again
    → (after_headers a code c again).conn.sockfd ≡ c.sockfd
unfolding after_headers
after_headers-sockfd a bad_request c again h = refl
after_headers-sockfd a get_request c again h = do_request-sockfd a c
after_headers-sockfd a no_request c again h = h c
after_headers-sockfd a no_resource c again h = h c
after_headers-sockfd a forbidden_request c again h = h c
after_headers-sockfd a file_request c again h = h c
after_headers-sockfd a internal_error c again h = h c
after_headers-sockfd a closed_connection c again h = h c

after_content-sockfd :
    (a : Answers) (code : HttpCode) (c : Conn) (again : Conn → Parsed)
    → Stays again
    → (after_content a code c again).conn.sockfd ≡ c.sockfd
unfolding after_content
after_content-sockfd a get_request c again h = do_request-sockfd a c
after_content-sockfd a no_request c again h = h c
after_content-sockfd a bad_request c again h = h c
after_content-sockfd a no_resource c again h = h c
after_content-sockfd a forbidden_request c again h = h c
after_content-sockfd a file_request c again h = h c
after_content-sockfd a internal_error c again h = h c
after_content-sockfd a closed_connection c again h = h c

on_text-sockfd :
    (a : Answers) (state : CheckState) (start : ℕ) (text : List ℕ) (c : Conn)
    (again : LineStatus → Conn → Parsed)
    → ((status : LineStatus) → Stays (again status))
    → (on_text a state start text c again).conn.sockfd ≡ c.sockfd
unfolding on_text
on_text-sockfd a requestline start text c again h =
    after_request_line-sockfd _ _ (again line_ok) (h line_ok)
    ∙ (parse_request_line-IsSame text c).sock
on_text-sockfd a header start text c again h =
    after_headers-sockfd a _ _ (again line_ok) (h line_ok) ∙ (parse_headers-IsSame a text c).sock
on_text-sockfd a content start text c again h =
    after_content-sockfd a _ _ (again line_open) (h line_open) ∙ (parse_content-IsSame start c).sock

by_status-sockfd :
    (status : LineStatus) (c : Conn) (p : Parsed)
    → p.conn.sockfd ≡ c.sockfd
    → (by_status status c p).conn.sockfd ≡ c.sockfd
unfolding by_status
by_status-sockfd line_ok c p h = h
by_status-sockfd line_bad c p h = refl
by_status-sockfd line_open c p h = refl

read_loop-sockfd :
    (turns : ℕ) (a : Answers) (status : LineStatus) (c : Conn)
    → (read_loop turns a status c).conn.sockfd ≡ c.sockfd
unfolding read_loop on_line turn
read_loop-sockfd zero a status c = refl
read_loop-sockfd (suc turns) a status c = elim (Bool-cases (in_content c.check_state status)) [
  | inl t ↦ rw t (on_text-sockfd a _ _ _ _ (read_loop turns a) (read_loop-sockfd turns a))
  | inr f ↦ rw f (
      by_status-sockfd (parse_line c).status _ _
        (on_text-sockfd a _ _ _ _ (read_loop turns a) (read_loop-sockfd turns a)))
]

pub process_read-sockfd : (a : Answers) (c : Conn) → (process_read a c).conn.sockfd ≡ c.sockfd
unfolding process_read
process_read-sockfd a c = read_loop-sockfd _ a line_ok c

add_response-sockfd : (text : List ℕ) (c : Conn) → (add_response text c).conn.sockfd ≡ c.sockfd
unfolding add_response
add_response-sockfd text c = elim (Bool-cases (leb write_buffer_size (length c.write_buf))) [
  | inl t ↦ rw t refl
  | inr f ↦ elim (Bool-cases (leb (write_buffer_size - 1 - length c.write_buf) (length text))) [
    | inl u ↦ rw (f, u) refl
    | inr g ↦ rw (f, g) refl
  ]
]

add_headers-sockfd : (n : ℕ) (c : Conn) → (add_headers n c).sockfd ≡ c.sockfd
unfolding add_headers add_blank_line add_linger add_content_length
add_headers-sockfd n c = add_response-sockfd _ _ ∙ add_response-sockfd _ _ ∙ add_response-sockfd _ c

if_added-sockfd : (r : Added) → (if_added r).conn.sockfd ≡ r.conn.sockfd
unfolding if_added
if_added-sockfd r = elim (Bool-cases r.ok) [ inl t ↦ rw t refl | inr f ↦ rw f refl ]

write_form-sockfd :
    (status : ℕ) (title form : List ℕ) (c : Conn)
    → (write_form status title form c).conn.sockfd ≡ c.sockfd
unfolding write_form add_content add_status_line
write_form-sockfd status title form c =
    if_added-sockfd _
    ∙ add_response-sockfd form _
    ∙ add_headers-sockfd (length form) _
    ∙ add_response-sockfd _ c

with_file-sockfd : (d : Conn) → (with_file d).conn.sockfd ≡ d.sockfd
unfolding with_file add_content
with_file-sockfd d = elim (Bool-cases (d.file_size == 0)) [
  | inl t ↦ rw t (add_response-sockfd _ _ ∙ add_headers-sockfd _ d)
  | inr f ↦ rw f (add_headers-sockfd d.file_size d)
]

pub process_write-sockfd :
    (code : HttpCode) (c : Conn) → (process_write code c).conn.sockfd ≡ c.sockfd
unfolding process_write write_file add_status_line
process_write-sockfd internal_error c = write_form-sockfd _ _ _ c
process_write-sockfd bad_request c = write_form-sockfd _ _ _ c
process_write-sockfd no_resource c = write_form-sockfd _ _ _ c
process_write-sockfd forbidden_request c = write_form-sockfd _ _ _ c
process_write-sockfd file_request c = with_file-sockfd _ ∙ add_response-sockfd _ c
process_write-sockfd no_request c = refl
process_write-sockfd get_request c = refl
process_write-sockfd closed_connection c = refl
