-- ===== src/HttpConn/Stalls.antt =====
-- A body that arrives in two pieces.
use unpvol.Common.{ℕ, ◌-◌, ◌≡◌, false, List, [], ◌∷◌, ◌==◌}
use unpvol.Stream.Memory.{Memory, slice}
use unpvol.Http.Line.{LineStatus, line_ok, line_bad, Line}
use unpvol.HttpConn.{Conn}

-- No byte is a carriage return or a newline.
unfoldable pub AllPlain : List ℕ → Type 0
AllPlain [] = Unit
AllPlain (x ∷ xs) = ((x == b'\r') ≡ false) × (((x == b'\n') ≡ false) × AllPlain xs)

-- The bytes that have been read and not been looked at.
abbrev pub unread : Conn → List ℕ
unread c = slice c.read_buf c.checked_idx (c.read_idx - c.checked_idx)

-- The connection as `process_read` leaves it when the content is not complete.
abbrev pub waiting : Conn → Conn
waiting c = record c { start_line = c.checked_idx; checked_idx = c.read_idx }
