-- ===== src/HttpConn/Format.antt =====
-- The texts of the answers, and `%d`.
use unpvol.Common.{
  ℕ, zero, suc, ◌+◌, ◌-◌, ◌/◌, ◌%◌, ◌^◌, Bool, List, [], ◌∷◌, ◌++◌, ltb, if◌then◌else◌, ℤ, pos,
  negsuc,
}

abbrev pub ok_title : List ℕ
ok_title = b'O' ∷ b'K' ∷ []

abbrev pub bad_request_title : List ℕ
bad_request_title = b'B' ∷ b'a' ∷ b'd' ∷ b' ' ∷ b'R' ∷ b'e' ∷ b'q' ∷ b'u' ∷ b'e' ∷ b's' ∷ b't' ∷ []

abbrev pub forbidden_title : List ℕ
forbidden_title = b'F' ∷ b'o' ∷ b'r' ∷ b'b' ∷ b'i' ∷ b'd' ∷ b'd' ∷ b'e' ∷ b'n' ∷ []

abbrev pub not_found_title : List ℕ
not_found_title = b'N' ∷ b'o' ∷ b't' ∷ b' ' ∷ b'F' ∷ b'o' ∷ b'u' ∷ b'n' ∷ b'd' ∷ []

abbrev pub internal_title : List ℕ
internal_title =
    b'I' ∷ b'n' ∷ b't' ∷ b'e' ∷ b'r' ∷ b'n' ∷ b'a' ∷ b'l' ∷ b' ' ∷ b'E' ∷ b'r' ∷ b'r' ∷ b'o' ∷ b'r'
    ∷ []

abbrev pub bad_request_form : List ℕ
bad_request_form =
    b'Y' ∷ b'o' ∷ b'u' ∷ b'r' ∷ b' ' ∷ b'r' ∷ b'e' ∷ b'q' ∷ b'u' ∷ b'e' ∷ b's' ∷ b't' ∷ b' ' ∷ b'h'
    ∷ b'a' ∷ b's' ∷ b' ' ∷ b'b' ∷ b'a' ∷ b'd' ∷ b' ' ∷ b's' ∷ b'y' ∷ b'n' ∷ b't' ∷ b'a' ∷ b'x'
    ∷ b' ' ∷ b'o' ∷ b'r' ∷ b' ' ∷ b'i' ∷ b's' ∷ b' ' ∷ b'i' ∷ b'n' ∷ b'h' ∷ b'e' ∷ b'r' ∷ b'e'
    ∷ b'n' ∷ b't' ∷ b'l' ∷ b'y' ∷ b' ' ∷ b'i' ∷ b'm' ∷ b'p' ∷ b'o' ∷ b's' ∷ b's' ∷ b'i' ∷ b'b'
    ∷ b'l' ∷ b'e' ∷ b' ' ∷ b't' ∷ b'o' ∷ b' ' ∷ b's' ∷ b'a' ∷ b't' ∷ b'i' ∷ b's' ∷ b'f' ∷ b'y'
    ∷ b'.' ∷ b'\n' ∷ []

abbrev pub forbidden_form : List ℕ
forbidden_form =
    b'Y' ∷ b'o' ∷ b'u' ∷ b' ' ∷ b'd' ∷ b'o' ∷ b' ' ∷ b'n' ∷ b'o' ∷ b't' ∷ b' ' ∷ b'h' ∷ b'a' ∷ b'v'
    ∷ b'e' ∷ b' ' ∷ b'p' ∷ b'e' ∷ b'r' ∷ b'm' ∷ b'i' ∷ b's' ∷ b's' ∷ b'i' ∷ b'o' ∷ b'n' ∷ b' '
    ∷ b't' ∷ b'o' ∷ b' ' ∷ b'g' ∷ b'e' ∷ b't' ∷ b' ' ∷ b'f' ∷ b'i' ∷ b'l' ∷ b'e' ∷ b' ' ∷ b'f'
    ∷ b'r' ∷ b'o' ∷ b'm' ∷ b' ' ∷ b't' ∷ b'h' ∷ b'i' ∷ b's' ∷ b' ' ∷ b's' ∷ b'e' ∷ b'r' ∷ b'v'
    ∷ b'e' ∷ b'r' ∷ b'.' ∷ b'\n' ∷ []

abbrev pub not_found_form : List ℕ
not_found_form =
    b'T' ∷ b'h' ∷ b'e' ∷ b' ' ∷ b'r' ∷ b'e' ∷ b'q' ∷ b'u' ∷ b'e' ∷ b's' ∷ b't' ∷ b'e' ∷ b'd' ∷ b' '
    ∷ b'f' ∷ b'i' ∷ b'l' ∷ b'e' ∷ b' ' ∷ b'w' ∷ b'a' ∷ b's' ∷ b' ' ∷ b'n' ∷ b'o' ∷ b't' ∷ b' '
    ∷ b'f' ∷ b'o' ∷ b'u' ∷ b'n' ∷ b'd' ∷ b' ' ∷ b'o' ∷ b'n' ∷ b' ' ∷ b't' ∷ b'h' ∷ b'i' ∷ b's'
    ∷ b' ' ∷ b's' ∷ b'e' ∷ b'r' ∷ b'v' ∷ b'e' ∷ b'r' ∷ b'.' ∷ b'\n' ∷ []

abbrev pub internal_form : List ℕ
internal_form =
    b'T' ∷ b'h' ∷ b'e' ∷ b'r' ∷ b'e' ∷ b' ' ∷ b'w' ∷ b'a' ∷ b's' ∷ b' ' ∷ b'a' ∷ b'n' ∷ b' ' ∷ b'u'
    ∷ b'n' ∷ b'u' ∷ b's' ∷ b'u' ∷ b'a' ∷ b'l' ∷ b' ' ∷ b'p' ∷ b'r' ∷ b'o' ∷ b'b' ∷ b'l' ∷ b'e'
    ∷ b'm' ∷ b' ' ∷ b's' ∷ b'e' ∷ b'r' ∷ b'v' ∷ b'i' ∷ b'n' ∷ b'g' ∷ b' ' ∷ b't' ∷ b'h' ∷ b'e'
    ∷ b' ' ∷ b'r' ∷ b'e' ∷ b'q' ∷ b'u' ∷ b'e' ∷ b's' ∷ b't' ∷ b'e' ∷ b'd' ∷ b' ' ∷ b'f' ∷ b'i'
    ∷ b'l' ∷ b'e' ∷ b'.' ∷ b'\n' ∷ []

abbrev pub empty_page : List ℕ
empty_page =
    b'<' ∷ b'h' ∷ b't' ∷ b'm' ∷ b'l' ∷ b'>' ∷ b'<' ∷ b'b' ∷ b'o' ∷ b'd' ∷ b'y' ∷ b'>' ∷ b'<' ∷ b'/'
    ∷ b'b' ∷ b'o' ∷ b'd' ∷ b'y' ∷ b'>' ∷ b'<' ∷ b'/' ∷ b'h' ∷ b't' ∷ b'm' ∷ b'l' ∷ b'>' ∷ []

abbrev pub http_version : List ℕ
http_version = b'H' ∷ b'T' ∷ b'T' ∷ b'P' ∷ b'/' ∷ b'1' ∷ b'.' ∷ b'1' ∷ []

abbrev pub length_name : List ℕ
length_name =
    b'C' ∷ b'o' ∷ b'n' ∷ b't' ∷ b'e' ∷ b'n' ∷ b't' ∷ b'-' ∷ b'L' ∷ b'e' ∷ b'n' ∷ b'g' ∷ b't' ∷ b'h'
    ∷ b':' ∷ b' ' ∷ []

abbrev pub linger_name : List ℕ
linger_name = b'C' ∷ b'o' ∷ b'n' ∷ b'n' ∷ b'e' ∷ b'c' ∷ b't' ∷ b'i' ∷ b'o' ∷ b'n' ∷ b':' ∷ b' ' ∷ []

abbrev pub keep_alive : List ℕ
keep_alive = b'k' ∷ b'e' ∷ b'e' ∷ b'p' ∷ b'-' ∷ b'a' ∷ b'l' ∷ b'i' ∷ b'v' ∷ b'e' ∷ []

abbrev pub close_word : List ℕ
close_word = b'c' ∷ b'l' ∷ b'o' ∷ b's' ∷ b'e' ∷ []

abbrev pub crlf : List ℕ
crlf = b'\r' ∷ b'\n' ∷ []

-- The decimal digits of a number in front of a text; an `int` has at most ten.
unfoldable pub digits : ℕ → ℕ → List ℕ → List ℕ
digits zero n text = text
digits (suc turns) n text =
    let rest = digits turns (n / 10) ((b'0' + n % 10) ∷ text) in
    if ltb n 10 then (b'0' + n) ∷ text else rest

-- A number that is passed as an `int`.
unfoldable pub to_int : ℕ → ℤ
to_int n = if ltb (n % 2 ^ 32) (2 ^ 31) then pos (n % 2 ^ 32) else negsuc (2 ^ 32 - 1 - n % 2 ^ 32)

-- `%d`
unfoldable pub decimal : ℤ → List ℕ
decimal (pos n) = digits 10 n []
decimal (negsuc n) = b'-' ∷ digits 10 (suc n) []

-- `"%s %d %s\r\n"`
unfoldable pub status_line : ℕ → List ℕ → List ℕ
status_line status title = http_version ++ b' ' ∷ (decimal (pos status) ++ b' ' ∷ (title ++ crlf))

-- `"Content-Length: %d\r\n"`
unfoldable pub length_line : ℕ → List ℕ
length_line n = length_name ++ (decimal (to_int n) ++ crlf)

-- `"Connection: %s\r\n"`
unfoldable pub linger_line : Bool → List ℕ
linger_line linger = linger_name ++ ((if linger then keep_alive else close_word) ++ crlf)
