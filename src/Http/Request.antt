-- ===== src/Http/Request.antt =====
-- `parse_requestline` and `parse_headers`. They write into their own line only, which is not read
-- again; the model works on the string.
use unpvol.Common.{
  ℕ, Bool, false, not, Option, none, some, List, [], ◌∷◌, ◌==◌, if◌then◌else◌, drop,
}
use unpvol.Http.Text.{Split, split_blank, skip_blanks, same_text, same_start, from_slash}

pub data CheckState : Type 0 where
  requestline header content : CheckState

pub data HttpCode : Type 0 where
  no_request get_request bad_request internal_error : HttpCode

abbrev pub get_word : List ℕ
get_word = b'G' ∷ b'E' ∷ b'T' ∷ []

abbrev pub version_word : List ℕ
version_word = b'H' ∷ b'T' ∷ b'T' ∷ b'P' ∷ b'/' ∷ b'1' ∷ b'.' ∷ b'1' ∷ []

abbrev pub scheme_word : List ℕ
scheme_word = b'h' ∷ b't' ∷ b't' ∷ b'p' ∷ b':' ∷ b'/' ∷ b'/' ∷ []

abbrev pub host_word : List ℕ
host_word = b'H' ∷ b'o' ∷ b's' ∷ b't' ∷ b':' ∷ []

-- The URL behind a scheme and host, if it has them.
unfoldable pub path_of : List ℕ → Option (List ℕ)
path_of url = if same_start url scheme_word 7 then from_slash (drop 7 url) else some url

-- `! szURL || szURL[ 0 ] != '/'`
unfoldable pub is_path : Option (List ℕ) → Bool
is_path none = false
is_path (some []) = false
is_path (some (c ∷ cs)) = c == b'/'

unfoldable pub with_url : Option Split → HttpCode
with_url none = bad_request
with_url (some s) =
    if not (same_text (skip_blanks s.right) version_word)
    then bad_request
    else if is_path (path_of s.left)
    then no_request
    else bad_request

unfoldable pub with_method : Option Split → HttpCode
with_method none = bad_request
with_method (some s) =
    if same_text s.left get_word then with_url (split_blank (skip_blanks s.right)) else bad_request

-- `checkstate` becomes CHECK_STATE_HEADER if the result is NO_REQUEST.
unfoldable pub parse_requestline : List ℕ → HttpCode
parse_requestline line = with_method (split_blank line)

-- What is printed of a header: the host, or that it is not known.
pub data Printed : Type 0 where
  nothing : Printed
  host : List ℕ → Printed
  unknown : Printed

pub record Header : Type 0 where
  pub code : HttpCode
  pub printed : Printed

unfoldable pub parse_headers : List ℕ → Header
parse_headers [] = record { code = get_request; printed = nothing }
parse_headers (c ∷ cs) =
    if same_start (c ∷ cs) host_word 5
    then record { code = no_request; printed = host (skip_blanks (drop 5 (c ∷ cs))) }
    else record { code = no_request; printed = unknown }
