-- ===== src/Http/Line.antt =====
-- `parse_line`
use unpvol.Common.{ℕ, zero, suc, ◌+◌, ◌-◌, ◌&&◌, List, ltb, ◌==◌, if◌then◌else◌, update}
use unpvol.Stream.Memory.{Memory, slice}
use unpvol.Stream.Readline.{c_string}

pub data LineStatus : Type 0 where
  line_ok line_bad line_open : LineStatus

-- What is returned, with `buffer` and `checked_index` as they are left.
pub record Line : Type 0 where
  pub status : LineStatus
  pub buffer : Memory
  pub checked : ℕ

abbrev pub two_nuls : Memory → ℕ → Memory
two_nuls buffer i = update (update buffer i 0) (i + 1) 0

-- At a carriage return.
unfoldable pub at_cr : Memory → ℕ → ℕ → Line
at_cr buffer checked read =
    if checked + 1 == read
    then record { status = line_open; buffer = buffer; checked = checked }
    else if buffer (checked + 1) == b'\n'
    then record { status = line_ok; buffer = two_nuls buffer checked; checked = checked + 2 }
    else record { status = line_bad; buffer = buffer; checked = checked }

-- At a newline.
unfoldable pub at_lf : Memory → ℕ → Line
at_lf buffer checked =
    if ltb 1 checked && buffer (checked - 1) == b'\r'
    then record { status = line_ok; buffer = two_nuls buffer (checked - 1); checked = checked + 1 }
    else record { status = line_bad; buffer = buffer; checked = checked }

-- The loop, with the bytes left up to `read_index`.
unfoldable pub line_loop : ℕ → Memory → ℕ → ℕ → Line
line_loop zero buffer checked read = record {
  status = line_open;
  buffer = buffer;
  checked = checked;
}
line_loop (suc left) buffer checked read =
    let rest = line_loop left buffer (checked + 1) read in
    if buffer checked == b'\r'
    then at_cr buffer checked read
    else if buffer checked == b'\n'
    then at_lf buffer checked
    else rest

unfoldable pub parse_line : Memory → ℕ → ℕ → Line
parse_line buffer checked read = line_loop (read - checked) buffer checked read

-- `buffer + start_line` as a string, once `parse_line` has put a NUL behind it.
unfoldable pub line_at : Memory → ℕ → ℕ → List ℕ
line_at buffer start checked = c_string (slice buffer start (checked - start))
