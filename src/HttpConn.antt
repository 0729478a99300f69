-- ===== src/HttpConn.antt =====
-- `http_conn` of highperformenceserver/examples/15/15-4http_conn.h and 15-5http_conn.cpp: one
-- connection of a server that sends files. Its reading of lines and its string functions are those
-- of Http. `stat` and `atol` are parameters.
pub mod Format
pub mod Parse
pub mod Read
pub mod Respond
pub mod Send
pub mod Fitting
pub mod Answered
pub mod Halfway
pub mod Turns
pub mod Ends
pub mod Stalls
pub mod Lines
pub mod Served
pub mod Main
pub mod Transfer
pub mod Keeping
pub mod Counting
mod Tests
use unpvol.Common.{ℕ, Bool, true, false, Option, none, some, List, [], ℤ, pos}
use unpvol.Stream.Memory.{Memory}
use unpvol.Http.Request.{CheckState, requestline}

pub data Method : Type 0 where
  get post head put delete trace options connect patch : Method

pub data HttpCode : Type 0 where
  no_request get_request bad_request no_resource : HttpCode
  forbidden_request file_request internal_error closed_connection : HttpCode

-- What `stat` says of a file: S_IROTH, S_ISDIR and st_size.
pub record FileStat : Type 0 where
  pub readable : Bool
  pub directory : Bool
  pub size : ℕ

-- The answers of `stat`, none for a failure, and of `atol`.
pub record Answers : Type 0 where
  pub stat : List ℕ → Option FileStat
  pub atol : List ℕ → ℤ

-- An entry of `m_iv`: so many bytes of `m_write_buf` or of the mapped file.
pub data Iov : Type 0 where
  of_write_buf of_file : ℕ → Iov

-- The members of `http_conn`. A string is what its pointer shows up to the NUL, none for a null
-- pointer; `write_buf` has the first `m_write_idx` bytes; `mapped` says whether `m_file_address` is
-- set; a socket of none is -1.
pub record Conn : Type 0 where
  pub sockfd : Option ℕ
  pub read_buf : Memory
  pub read_idx : ℕ
  pub checked_idx : ℕ
  pub start_line : ℕ
  pub write_buf : List ℕ
  pub check_state : CheckState
  pub method : Method
  pub url : Option (List ℕ)
  pub version : Option (List ℕ)
  pub host : Option (List ℕ)
  pub content_length : ℤ
  pub linger : Bool
  pub real_file : List ℕ
  pub mapped : Bool
  pub file_size : ℕ
  pub iv : List Iov

-- READ_BUFFER_SIZE, WRITE_BUFFER_SIZE and FILENAME_LEN
abbrev pub read_buffer_size : ℕ
read_buffer_size = 2048

abbrev pub write_buffer_size : ℕ
write_buffer_size = 1024

abbrev pub filename_len : ℕ
filename_len = 200

-- `init()`
unfoldable pub init : Conn → Conn
init c = record c {
  read_buf = λ i. 0;
  read_idx = 0;
  checked_idx = 0;
  start_line = 0;
  write_buf = [];
  check_state = requestline;
  method = get;
  url = none;
  version = none;
  host = none;
  content_length = pos 0;
  linger = false;
  real_file = [];
}
