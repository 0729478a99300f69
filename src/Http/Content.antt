-- ===== src/Http/Content.antt =====
-- `parse_content` and the loop of `main`.
use unpvol.Common.{ℕ, zero, suc, ◌+◌, ◌-◌, List, [], ◌∷◌, take, length}
use unpvol.Stream.Memory.{Memory, store}
use unpvol.Stream.Kernel.{Arrival, chunk, broken}
use unpvol.Http.Line.{LineStatus, line_ok, line_bad, line_open, Line, parse_line, line_at}
use unpvol.Http.Request.{
  CheckState, requestline, header, content, HttpCode, no_request, get_request, bad_request,
  internal_error, parse_requestline, parse_headers,
}

-- `buffer`, `checked_index`, `start_line` and `checkstate`.
pub record Parser : Type 0 where
  pub buffer : Memory
  pub checked : ℕ
  pub start_line : ℕ
  pub checkstate : CheckState

-- The switch on `checkstate`: the loop goes on in a state, or `parse_content` returns.
pub data Stepped : Type 0 where
  goes : CheckState → Stepped
  stops : HttpCode → Stepped

unfoldable pub after_requestline : HttpCode → Stepped
after_requestline no_request = goes header
after_requestline bad_request = stops bad_request
after_requestline get_request = goes requestline
after_requestline internal_error = goes requestline

unfoldable pub after_headers : HttpCode → Stepped
after_headers no_request = goes header
after_headers bad_request = stops bad_request
after_headers get_request = stops get_request
after_headers internal_error = goes header

unfoldable pub on_line : CheckState → List ℕ → Stepped
on_line requestline line = after_requestline (parse_requestline line)
on_line header line = after_headers (parse_headers line).code
on_line content line = stops internal_error

pub record Parsed : Type 0 where
  pub code : HttpCode
  pub parser : Parser

abbrev pub passed : Line → Parser → Parser
passed l p = record p { buffer = l.buffer; checked = l.checked }

-- A line has been found, and the switch has been run on it.
unfoldable pub on_step : Stepped → Line → Parser → (Parser → Parsed) → Parsed
on_step (stops code) l p again = record {
  code = code;
  parser = record (passed l p) { start_line = l.checked };
}
on_step (goes state) l p again =
    again (record (passed l p) { start_line = l.checked; checkstate = state })

unfoldable pub on_status : LineStatus → Line → Parser → (Parser → Parsed) → Parsed
on_status line_open l p again = record { code = no_request; parser = passed l p }
on_status line_bad l p again = record { code = bad_request; parser = passed l p }
on_status line_ok l p again =
    on_step (on_line p.checkstate (line_at l.buffer p.start_line l.checked)) l p again

-- `while( ( linestatus = parse_line(…) ) == LINE_OK )`, with what follows it. Each turn
-- moves `start_line`, so `read_index - start_line` turns and one more are enough.
unfoldable pub content_loop : ℕ → ℕ → Parser → Parsed
content_loop zero read p = record { code = internal_error; parser = p }
content_loop (suc turns) read p =
    let l = parse_line p.buffer p.checked read in on_status l.status l p (content_loop turns read)

unfoldable pub parse_content : ℕ → Parser → Parsed
parse_content read p = content_loop (read - p.start_line + 1) read p

-- BUFFER_SIZE
abbrev pub buffer_size : ℕ
buffer_size = 4096

-- How the loop of `main` ends: with one of the two answers, because the client closed the connection
-- or `recv` failed, or not yet.
pub data Ended : Type 0 where
  correct_result : Ended
  something_wrong : Ended
  remote_closed : Ended
  reading_failed : Ended
  still_reading : ℕ → Parser → Ended

-- `recv` takes of the bytes that have arrived those that fit.
unfoldable pub received : ℕ → List ℕ → Parser → Parsed
received read xs p = parse_content (read + length xs) (record p { buffer = store p.buffer read xs })

-- The branches on `data_read` and on the result of `parse_content`.
unfoldable pub unless_closed : List ℕ → Ended → Ended
unless_closed [] e = remote_closed
unless_closed (y ∷ ys) e = e

unfoldable pub by_code : HttpCode → Ended → Ended
by_code no_request e = e
by_code get_request e = correct_result
by_code bad_request e = something_wrong
by_code internal_error e = something_wrong

unfoldable pub serve : List Arrival → ℕ → Parser → Ended
serve [] read p = still_reading read p
serve (broken e ∷ rest) read p = reading_failed
serve (chunk xs ∷ rest) read p =
    let ys = take (buffer_size - read) xs in
    let next = received read ys p in
    unless_closed ys (by_code next.code (serve rest (read + length ys) next.parser))

abbrev pub start : Parser
start = record { buffer = λ i. 0; checked = 0; start_line = 0; checkstate = requestline }
