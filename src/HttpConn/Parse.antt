-- ===== src/HttpConn/Parse.antt =====
-- The handlers of a line: `parse_request_line`, `parse_headers` and `parse_content`.
use unpvol.Common.{
  ℕ, suc, ◌+◌, ◌-◌, ◌%◌, ◌^◌, Bool, true, false, not, Option, none, some, List, [], ◌∷◌, leb, ◌==◌,
  if◌then◌else◌, drop, ℤ, pos, negsuc, update,
}
use unpvol.Http.Text.{Split, split_blank, skip_blanks, same_text, same_start}
use unpvol.Http.Request.{header, content, get_word, version_word, host_word, path_of, is_path}
use unpvol.HttpConn.Format.{to_int}
use unpvol.HttpConn.{
  HttpCode, no_request, get_request, bad_request, Method, get, head, Answers, Conn,
}

pub record Parsed : Type 0 where
  pub code : HttpCode
  pub conn : Conn

abbrev pub gives : HttpCode → Conn → Parsed
gives code c = record { code = code; conn = c }

-- Behind the version.
unfoldable pub with_version : List ℕ → List ℕ → Conn → Parsed
with_version url version c =
    let d = record c { url = path_of url; version = some version } in
    if not (same_text version version_word)
    then gives bad_request (record c { url = some url; version = some version })
    else if is_path (path_of url)
    then gives no_request (record d { check_state = header })
    else gives bad_request d

unfoldable pub with_url : List ℕ → Option Split → Conn → Parsed
with_url url none c = gives bad_request (record c { url = some url; version = none })
with_url url (some s) c = with_version s.left (skip_blanks s.right) c

unfoldable pub with_method : Option Split → Conn → Parsed
with_method none c = gives bad_request (record c { url = none })
with_method (some s) c =
    if same_text s.left get_word
    then with_url (skip_blanks s.right) (split_blank (skip_blanks s.right))
        (record c { method = get })
    else gives bad_request (record c { url = some s.right })

unfoldable pub parse_request_line : List ℕ → Conn → Parsed
parse_request_line text c = with_method (split_blank text) c

abbrev pub connection_word : List ℕ
connection_word = b'C' ∷ b'o' ∷ b'n' ∷ b'n' ∷ b'e' ∷ b'c' ∷ b't' ∷ b'i' ∷ b'o' ∷ b'n' ∷ b':' ∷ []

abbrev pub keep_alive_word : List ℕ
keep_alive_word = b'k' ∷ b'e' ∷ b'e' ∷ b'p' ∷ b'-' ∷ b'a' ∷ b'l' ∷ b'i' ∷ b'v' ∷ b'e' ∷ []

abbrev pub content_length_word : List ℕ
content_length_word =
    b'C' ∷ b'o' ∷ b'n' ∷ b't' ∷ b'e' ∷ b'n' ∷ b't' ∷ b'-' ∷ b'L' ∷ b'e' ∷ b'n' ∷ b'g' ∷ b't' ∷ b'h'
    ∷ b':' ∷ []

abbrev pub is_head : Method → Bool
is_head head = true
is_head m = false

abbrev pub is_zero : ℤ → Bool
is_zero (pos n) = n == 0
is_zero (negsuc n) = false

-- The empty line.
unfoldable pub end_of_headers : Conn → Parsed
end_of_headers c =
    if is_head c.method
    then gives get_request c
    else if is_zero c.content_length
    then gives get_request c
    else gives no_request (record c { check_state = content })

-- The value of a header, `n` bytes behind its start.
abbrev pub value : ℕ → List ℕ → List ℕ
value n text = skip_blanks (drop n text)

-- The `long` that `atol` gives, cut to the `int` of `m_content_length`.
unfoldable pub as_int : ℤ → ℤ
as_int (pos n) = to_int n
as_int (negsuc n) = to_int (2 ^ 32 - 1 - n % 2 ^ 32)

unfoldable pub on_header : Answers → List ℕ → Conn → Conn
on_header a text c =
    if same_start text connection_word 11
    then (if same_text (value 11 text) keep_alive_word then record c { linger = true } else c)
    else if same_start text content_length_word 15
    then record c { content_length = as_int (a.atol (value 15 text)) }
    else if same_start text host_word 5
    then record c { host = some (value 5 text) }
    else c

unfoldable pub parse_headers : Answers → List ℕ → Conn → Parsed
parse_headers a [] c = end_of_headers c
parse_headers a (x ∷ xs) c = gives no_request (on_header a (x ∷ xs) c)

-- `m_read_idx >= m_content_length + m_checked_idx`
unfoldable pub has_content : Conn → ℤ → Bool
has_content c (pos n) = leb (n + c.checked_idx) c.read_idx
has_content c (negsuc n) = leb c.checked_idx (c.read_idx + suc n)

-- `text[m_content_length] = '\0'` at the index of `text`. A negative offset that leaves the buffer
-- stops at its start.
unfoldable pub cut_content : ℕ → ℤ → Conn → Conn
cut_content text (pos n) c = record c { read_buf = update c.read_buf (text + n) 0 }
cut_content text (negsuc n) c = record c { read_buf = update c.read_buf (text - suc n) 0 }

unfoldable pub parse_content : ℕ → Conn → Parsed
parse_content text c =
    if has_content c c.content_length
    then gives get_request (cut_content text c.content_length c)
    else gives no_request c
