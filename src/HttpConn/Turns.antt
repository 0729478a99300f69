-- ===== src/HttpConn/Turns.antt =====
-- The indices over one turn of `process_read`.
use unpvol.Common.{
  ℕ, zero, suc, ◌+◌, ◌-◌, ◌≤◌, ◌<◌, ◌≡◌, refl, inl, inr, ◌&&◌, Option, none, some, List, [], ◌∷◌,
  ltb, ◌==◌, arith, Bool-cases, ℤ, pos, negsuc,
}
use unpvol.Stream.Memory.{Memory}
use unpvol.Http.Text.{Split, split_blank, skip_blanks, same_text, same_start}
use unpvol.Http.Line.{line_ok, Line, at_cr, at_lf, line_loop}
use unpvol.Http.Request.{get_word, version_word, host_word, path_of, is_path}
use unpvol.HttpConn.{get, Answers, Conn}
use unpvol.HttpConn.Parse.{
  with_version, with_url, with_method, parse_request_line, connection_word, keep_alive_word,
  content_length_word, is_head, is_zero, end_of_headers, value, on_header, parse_headers,
  has_content, cut_content, parse_content,
}

-- A closed line lies between the index it was looked for at and the end of what has been read.
pub record IsMoved (i read : ℕ) (l : Line) : Type 0 where
  pub more : i < l.checked
  pub bounded : l.checked ≤ read

abbrev pub Moves : ℕ → ℕ → Line → Type 0
Moves i read l = l.status ≡ line_ok → IsMoved i read l

at_cr-Moves : (buffer : Memory) (i read : ℕ) → i < read → Moves i read (at_cr buffer i read)
unfolding at_cr
at_cr-Moves buffer i read h = elim (Bool-cases (i + 1 == read)) [
  | inl t ↦ rw t (λ e. cc)
  | inr f ↦ elim (Bool-cases (buffer (i + 1) == b'\n')) [
    | inl t ↦ rw (f, t) (λ e. record { more = omega arith; bounded = ground (arith, f, h) })
    | inr g ↦ rw (f, g) (λ e. cc)
  ]
]

at_lf-Moves : (buffer : Memory) (i read : ℕ) → i < read → Moves i read (at_lf buffer i)
unfolding at_lf
at_lf-Moves buffer i read h = elim (Bool-cases (ltb 1 i && buffer (i - 1) == b'\r')) [
  | inl t ↦ rw t (λ e. record { more = omega arith; bounded = omega (arith, h) })
  | inr f ↦ rw f (λ e. cc)
]

pub line_loop-Moves :
    (left : ℕ) (buffer : Memory) (i read : ℕ)
    → i + left ≡ read
    → Moves i read (line_loop left buffer i read)
unfolding line_loop
line_loop-Moves zero buffer i read h = λ e. cc
line_loop-Moves (suc left) buffer i read h =
    let less : i < read = omega (arith, h) in
    let later = line_loop-Moves left buffer (i + 1) read (omega (arith, h)) in
    elim (Bool-cases (buffer i == b'\r')) [
      | inl t ↦ rw t (at_cr-Moves buffer i read less)
      | inr f ↦ elim (Bool-cases (buffer i == b'\n')) [
        | inl t ↦ rw (f, t) (at_lf-Moves buffer i read less)
        | inr g ↦
            rw (f, g)
              (λ e. record { more = omega (arith, (later e).more); bounded = (later e).bounded })
      ]
    ]

-- The handlers leave the indices of the read buffer alone, and the socket.
pub record IsSame (c d : Conn) : Type 0 where
  pub checked : d.checked_idx ≡ c.checked_idx
  pub read : d.read_idx ≡ c.read_idx
  pub sock : d.sockfd ≡ c.sockfd

with_version-IsSame : (url version : List ℕ) (c : Conn) → IsSame c (with_version url version c).conn
unfolding with_version
with_version-IsSame url version c = elim (Bool-cases (same_text version version_word)) [
  | inr f ↦ rw f (record { checked = refl; read = refl; sock = refl })
  | inl t ↦ elim (Bool-cases (is_path (path_of url))) [
    | inl u ↦ rw (t, u) (record { checked = refl; read = refl; sock = refl })
    | inr g ↦ rw (t, g) (record { checked = refl; read = refl; sock = refl })
  ]
]

with_url-IsSame : (url : List ℕ) (s : Option Split) (c : Conn) → IsSame c (with_url url s c).conn
unfolding with_url
with_url-IsSame url none c = record { checked = refl; read = refl; sock = refl }
with_url-IsSame url (some s) c =
    let same = with_version-IsSame s.left (skip_blanks s.right) c in same

with_method-IsSame : (s : Option Split) (c : Conn) → IsSame c (with_method s c).conn
unfolding with_method
with_method-IsSame none c = record { checked = refl; read = refl; sock = refl }
with_method-IsSame (some s) c = elim (Bool-cases (same_text s.left get_word)) [
  | inr f ↦ rw f (record { checked = refl; read = refl; sock = refl })
  | inl t ↦
      (let same =
          with_url-IsSame (skip_blanks s.right) (split_blank (skip_blanks s.right))
            (record c { method = get }) in
        rw t (record { checked = same.checked; read = same.read; sock = same.sock }))
]

pub parse_request_line-IsSame :
    (text : List ℕ) (c : Conn) → IsSame c (parse_request_line text c).conn
unfolding parse_request_line
parse_request_line-IsSame text c = with_method-IsSame (split_blank text) c

on_header-IsSame : (a : Answers) (text : List ℕ) (c : Conn) → IsSame c (on_header a text c)
unfolding on_header
on_header-IsSame a text c = elim (Bool-cases (same_start text connection_word 11)) [
  | inl t ↦ elim (Bool-cases (same_text (value 11 text) keep_alive_word)) [
    | inl u ↦ rw (t, u) (record { checked = refl; read = refl; sock = refl })
    | inr g ↦ rw (t, g) (record { checked = refl; read = refl; sock = refl })
  ]
  | inr f ↦ elim (Bool-cases (same_start text content_length_word 15)) [
    | inl u ↦ rw (f, u) (record { checked = refl; read = refl; sock = refl })
    | inr g ↦ elim (Bool-cases (same_start text host_word 5)) [
      | inl v ↦ rw (f, g, v) (record { checked = refl; read = refl; sock = refl })
      | inr k ↦ rw (f, g, k) (record { checked = refl; read = refl; sock = refl })
    ]
  ]
]

end_of_headers-IsSame : (c : Conn) → IsSame c (end_of_headers c).conn
unfolding end_of_headers
end_of_headers-IsSame c = elim (Bool-cases (is_head c.method)) [
  | inl t ↦ rw t (record { checked = refl; read = refl; sock = refl })
  | inr f ↦ elim (Bool-cases (is_zero c.content_length)) [
    | inl u ↦ rw (f, u) (record { checked = refl; read = refl; sock = refl })
    | inr g ↦ rw (f, g) (record { checked = refl; read = refl; sock = refl })
  ]
]

pub parse_headers-IsSame :
    (a : Answers) (text : List ℕ) (c : Conn) → IsSame c (parse_headers a text c).conn
unfolding parse_headers
parse_headers-IsSame a [] c = end_of_headers-IsSame c
parse_headers-IsSame a (x ∷ xs) c = on_header-IsSame a (x ∷ xs) c

cut_content-IsSame : (text : ℕ) (z : ℤ) (c : Conn) → IsSame c (cut_content text z c)
unfolding cut_content
cut_content-IsSame text (pos n) c = record { checked = refl; read = refl; sock = refl }
cut_content-IsSame text (negsuc n) c = record { checked = refl; read = refl; sock = refl }

pub parse_content-IsSame : (text : ℕ) (c : Conn) → IsSame c (parse_content text c).conn
unfolding parse_content
parse_content-IsSame text c = elim (Bool-cases (has_content c c.content_length)) [
  | inl t ↦ rw t (cut_content-IsSame text c.content_length c)
  | inr f ↦ rw f (record { checked = refl; read = refl; sock = refl })
]
