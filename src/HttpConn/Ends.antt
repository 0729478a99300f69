-- ===== src/HttpConn/Ends.antt =====
-- `process_read` ends.
use unpvol.Common.{
  ℕ, zero, suc, ◌+◌, ◌-◌, ◌*◌, ◌≤◌, ◌<◌, ◌≡◌, ◌≢◌, refl, inl, inr, true, false, Option, none, some,
  List, if◌then◌else◌, arith, Bool-cases,
}
use unpvol.Http.Line.{LineStatus, line_ok, line_bad, line_open, Line, line_at, line_loop}
use unpvol.Http.Request.{CheckState, requestline, header, content}
use unpvol.HttpConn.{
  HttpCode, no_request, get_request, bad_request, no_resource, forbidden_request, file_request,
  internal_error, closed_connection, FileStat, Answers, Conn,
}
use unpvol.HttpConn.Parse.{Parsed}
use unpvol.HttpConn.Read.{
  file_name, resource, do_request, parse_line, scanned, after_request_line, after_headers,
  after_content, on_text, turn, by_status, on_line, in_content, read_loop, process_read,
}
use unpvol.HttpConn.Turns.{
  IsMoved, line_loop-Moves, IsSame, parse_request_line-IsSame, parse_headers-IsSame,
  parse_content-IsSame,
}

unfoldable IsEnded : HttpCode → Type 0
IsEnded closed_connection = ⊥
IsEnded no_request = Unit
IsEnded get_request = Unit
IsEnded bad_request = Unit
IsEnded no_resource = Unit
IsEnded forbidden_request = Unit
IsEnded file_request = Unit
IsEnded internal_error = Unit

resource-IsEnded : (s : Option FileStat) → IsEnded (resource s)
unfolding resource IsEnded
resource-IsEnded none = tt
resource-IsEnded (some s) = elim (Bool-cases s.readable) [
  | inr f ↦ rw f tt
  | inl t ↦ elim (Bool-cases s.directory) [ inl u ↦ rw (t, u) tt | inr g ↦ rw (t, g) tt ]
]

do_request-IsEnded : (a : Answers) (c : Conn) → IsEnded (do_request a c).code
unfolding do_request
do_request-IsEnded a c = resource-IsEnded (a.stat (file_name c.url))

-- What a turn does once the handler has been run.
after_request_line-IsEnded :
    (code : HttpCode) (c : Conn) (again : Conn → Parsed)
    → IsEnded (again c).code
    → IsEnded (after_request_line code c again).code
unfolding after_request_line IsEnded
after_request_line-IsEnded bad_request c again h = tt
after_request_line-IsEnded no_request c again h = h
after_request_line-IsEnded get_request c again h = h
after_request_line-IsEnded no_resource c again h = h
after_request_line-IsEnded forbidden_request c again h = h
after_request_line-IsEnded file_request c again h = h
after_request_line-IsEnded internal_error c again h = h
after_request_line-IsEnded closed_connection c again h = h

after_headers-IsEnded :
    (a : Answers) (code : HttpCode) (c : Conn) (again : Conn → Parsed)
    → IsEnded (again c).code
    → IsEnded (after_headers a code c again).code
unfolding after_headers IsEnded
after_headers-IsEnded a bad_request c again h = tt
after_headers-IsEnded a get_request c again h = do_request-IsEnded a c
after_headers-IsEnded a no_request c again h = h
after_headers-IsEnded a no_resource c again h = h
after_headers-IsEnded a forbidden_request c again h = h
after_headers-IsEnded a file_request c again h = h
after_headers-IsEnded a internal_error c again h = h
after_headers-IsEnded a closed_connection c again h = h

after_content-IsEnded :
    (a : Answers) (code : HttpCode) (c : Conn) (again : Conn → Parsed)
    → IsEnded (again c).code
    → IsEnded (after_content a code c again).code
unfolding after_content
after_content-IsEnded a get_request c again h = do_request-IsEnded a c
after_content-IsEnded a no_request c again h = h
after_content-IsEnded a bad_request c again h = h
after_content-IsEnded a no_resource c again h = h
after_content-IsEnded a forbidden_request c again h = h
after_content-IsEnded a file_request c again h = h
after_content-IsEnded a internal_error c again h = h
after_content-IsEnded a closed_connection c again h = h

-- The status with which the loop goes on behind a state.
unfoldable next_status : CheckState → LineStatus
next_status requestline = line_ok
next_status header = line_ok
next_status content = line_open

on_text-IsEnded :
    (a : Answers) (state : CheckState) (start : ℕ) (text : List ℕ) (c : Conn)
    (again : LineStatus → Conn → Parsed)
    → ((d : Conn) → IsSame c d → IsEnded (again (next_status state) d).code)
    → IsEnded (on_text a state start text c again).code
unfolding on_text next_status
on_text-IsEnded a requestline start text c again h =
    after_request_line-IsEnded _ _ (again line_ok) (h _ (parse_request_line-IsSame text c))
on_text-IsEnded a header start text c again h =
    after_headers-IsEnded a _ _ (again line_ok) (h _ (parse_headers-IsSame a text c))
on_text-IsEnded a content start text c again h =
    after_content-IsEnded a _ _ (again line_open) (h _ (parse_content-IsSame start c))

turn-IsEnded :
    (a : Answers) (c : Conn) (again : LineStatus → Conn → Parsed)
    → ((d : Conn)
        → d.checked_idx ≡ c.checked_idx
        → d.read_idx ≡ c.read_idx
        → IsEnded (again (next_status c.check_state) d).code)
    → IsEnded (turn a c again).code
unfolding turn
turn-IsEnded a c again h =
    on_text-IsEnded a c.check_state c.start_line _ (record c { start_line = c.checked_idx }) again
      (λ d s. h d s.checked s.read)

-- The turns that are needed: two for each byte, and one for the first look at the content.
unfoldable needed : Conn → LineStatus → ℕ
needed c status =
    2 * (c.read_idx - c.checked_idx) + (if in_content c.check_state status then 1 else 0)

in_content-next :
    (s t : CheckState) (status : LineStatus)
    → in_content s status ≡ true
    → in_content t (next_status s) ≡ false
unfolding in_content next_status
in_content-next content requestline status h = refl
in_content-next content header status h = refl
in_content-next content content status h = refl
in_content-next requestline t status h = cc
in_content-next header t status h = cc

by_status-IsEnded :
    (status : LineStatus) (c : Conn) (p : Parsed)
    → (status ≡ line_ok → IsEnded p.code)
    → IsEnded (by_status status c p).code
unfolding by_status IsEnded
by_status-IsEnded line_ok c p h = h refl
by_status-IsEnded line_bad c p h = tt
by_status-IsEnded line_open c p h = tt

-- A complete line has moved the index.
parse_line-IsMoved :
    (c : Conn)
    → c.checked_idx ≤ c.read_idx
    → (parse_line c).status ≡ line_ok
    → IsMoved c.checked_idx c.read_idx (parse_line c)
unfolding parse_line unpvol.Http.Line.parse_line
parse_line-IsMoved c h =
    line_loop-Moves (c.read_idx - c.checked_idx) c.read_buf c.checked_idx c.read_idx
      (omega (arith, h))

needed_bound :
    (c : Conn) (status : LineStatus) → needed c status ≤ 2 * (c.read_idx - c.checked_idx) + 1
unfolding needed
needed_bound c status = ground arith

read_loop-IsEnded :
    (turns : ℕ) (a : Answers) (status : LineStatus) (c : Conn)
    → c.checked_idx ≤ c.read_idx
    → needed c status < turns
    → IsEnded (read_loop turns a status c).code
unfolding read_loop on_line needed
read_loop-IsEnded zero a status c h f = absurd (omega arith)
read_loop-IsEnded (suc turns) a status c h f = elim (Bool-cases (in_content c.check_state status)) [
  | inl t ↦ rw t (
      turn-IsEnded a c (read_loop turns a) (λ d e g.
        let now : needed c status ≡ 2 * (c.read_idx - c.checked_idx) + 1 = rw t refl in
        let once = in_content-next c.check_state d.check_state status t in
        read_loop-IsEnded turns a (next_status c.check_state) d (omega (arith, h, e, g))
          (rw (once, e, g) (omega (arith, f, now)))))
  | inr n ↦ rw n (
      by_status-IsEnded (parse_line c).status _ _ (λ ok.
        let moved = parse_line-IsMoved c h ok in
        turn-IsEnded a (scanned (parse_line c) c) (read_loop turns a) (λ d e g.
          read_loop-IsEnded turns a (next_status c.check_state) d
            (omega (arith, e, g, moved.bounded))
            (omega (
              arith,
              f,
              e,
              g,
              moved.more,
              moved.bounded,
              needed_bound d (next_status c.check_state),
            )))))
]

IsEnded-not : (code : HttpCode) → IsEnded code → code ≢ closed_connection
unfolding IsEnded
IsEnded-not no_request h = λ e. cc
IsEnded-not get_request h = λ e. cc
IsEnded-not bad_request h = λ e. cc
IsEnded-not no_resource h = λ e. cc
IsEnded-not forbidden_request h = λ e. cc
IsEnded-not file_request h = λ e. cc
IsEnded-not internal_error h = λ e. cc
IsEnded-not closed_connection h = absurd h

-- `process_read` needs no more turns than it has here: it does not come to their end, where the
-- model gives CLOSED_CONNECTION.
pub process_read-ends :
    (a : Answers) (c : Conn)
    → c.checked_idx ≤ c.read_idx
    → (process_read a c).code ≢ closed_connection
unfolding process_read
process_read-ends a c h =
    IsEnded-not (process_read a c).code
      (read_loop-IsEnded _ a line_ok c h (omega (arith, needed_bound c line_ok)))
