-- ===== src/HttpConn/Tests.antt =====
-- Runs of the connection.
use unpvol.Common.{
  ℕ, ◌<◌, ◌≡◌, ◌≢◌, refl, true, false, none, some, List, [], ◌∷◌, ◌++◌, map, pos, arith, length,
}
use unpvol.Stream.Kernel.{chunk, wrote}
use unpvol.Http.Text.{same_start, same_text, lower}
use unpvol.Http.Request.{requestline, content}
use unpvol.Http.Printing.{AllText, AllVisible, AreHeaders, print_line, print_headers, print_request}
use unpvol.HttpConn.{
  no_resource, file_request, closed_connection, get, Answers, Conn, init, write_buffer_size,
}
use unpvol.HttpConn.Read.{file_name, resource, process_read}
use unpvol.HttpConn.Format.{not_found_title, not_found_form}
use unpvol.HttpConn.Respond.{appended, with_iv, process_write}
use unpvol.HttpConn.Send.{stored, counted, all_sent, read, write}
use unpvol.HttpConn.Main.{Event, accepts, hangs_up, can_read, works, Server}
use unpvol.HttpConn.Fitting.{process_write-IsInside}
use unpvol.HttpConn.Answered.{head_text, error_text, process_write-answers}
use unpvol.HttpConn.Halfway.{total, counted_all, write-half}
use unpvol.HttpConn.Ends.{process_read-ends}
use unpvol.HttpConn.Served.{AreLengthless, process_read-serves}

-- Every file can be read and has seven bytes, and every number is 4.
abbrev answers : Answers
answers = record {
  stat = λ name. some (record { readable = true; directory = false; size = 7 });
  atol = λ text. pos 4;
}

abbrev blank : Conn
blank = record {
  sockfd = some 5;
  read_buf = λ i. 0;
  read_idx = 0;
  checked_idx = 0;
  start_line = 0;
  write_buf = [];
  check_state = requestline;
  method = get;
  url = none;
  version = none;
  host = none;
  content_length = pos 0;
  linger = false;
  real_file = [];
  mapped = false;
  file_size = 0;
  iv = [];
}

abbrev path : List ℕ
path = b'a' ∷ b'b' ∷ []

abbrev headers : List (List ℕ)
headers = (b'H' ∷ b'o' ∷ b's' ∷ b't' ∷ b':' ∷ b'x' ∷ []) ∷ []

process_read-serves_example :
    (process_read answers (read (chunk (print_request path headers) ∷ []) (init blank)).conn).code
    ≡ file_request
unfolding AllVisible AreHeaders AllText AreLengthless same_start same_text lower file_name resource
    print_request print_line print_headers
process_read-serves_example =
    process_read-serves answers path headers blank (refl, (refl, tt))
      ((refl, (refl, (refl, (refl, (refl, (refl, tt)))))), tt) (refl, tt) (omega arith)

-- The first of four bytes of content has come, then the other three.
abbrev in_body : Conn
in_body = record (stored (b'a' ∷ []) blank) { check_state = content; content_length = pos 4 }

abbrev later : List ℕ
later = b'b' ∷ b'c' ∷ b'd' ∷ []

process_read-ends_example : (process_read answers in_body).code ≢ closed_connection
process_read-ends_example = process_read-ends answers in_body (omega arith)

process_write-answers_example : process_write no_resource blank ≡ record {
  ok = true;
  conn = with_iv (appended blank (head_text 404 not_found_title 49 false ++ not_found_form));
}
unfolding error_text
process_write-answers_example =
    process_write-answers no_resource (head_text 404 not_found_title 49 false ++ not_found_form)
      blank refl refl

process_write-IsInside_example :
    length (process_write no_resource blank).conn.write_buf < write_buffer_size
process_write-IsInside_example = process_write-IsInside no_resource blank (omega arith)

-- Ten bytes of headers, and `writev` takes three and then two.
abbrev answered : Conn
answered = appended blank (b'0' ∷ b'1' ∷ b'2' ∷ b'3' ∷ b'4' ∷ b'5' ∷ b'6' ∷ b'7' ∷ b'8' ∷ b'9' ∷ [])

write-half_example :
    write (map wrote (3 ∷ []) ++ wrote 2 ∷ []) answered
    ≡ counted_all (3 ∷ []) (counted 2 (all_sent answered))
unfolding total
write-half_example = write-half (3 ∷ []) 2 [] answered (omega arith) (omega arith)

-- The entries hold what the memory held, here a socket that is not -1.
abbrev idle : Server
idle = record {
  users = λ fd. record { conn = blank; set_up = false };
  user_count = 0;
  requests = [];
}

-- A connection comes, its request arrives, a worker answers it, and the client hangs up, while another
-- client is there.
abbrev events : List Event
events =
    accepts 5
    ∷ accepts 6
    ∷ can_read 5 (chunk (print_request path headers) ∷ [])
    ∷ works 5 answers
    ∷ hangs_up 5
    ∷ []
