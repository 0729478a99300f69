-- ===== src/Http/Text.antt =====
-- The functions of the C library that the parser applies to its lines. A string is the list of its
-- bytes in front of the NUL.
use unpvol.Common.{
  ℕ, ◌+◌, Bool, true, false, ◌&&◌, ◌||◌, Option, none, some, List, [], ◌∷◌, leb, ◌==◌,
  if◌then◌else◌, take,
}

abbrev pub is_blank : ℕ → Bool
is_blank c = c == b' ' || c == b'\t'

pub record Split : Type 0 where
  pub left : List ℕ
  pub right : List ℕ

abbrev pub in_left : ℕ → Option Split → Option Split
in_left c none = none
in_left c (some s) = some (record s { left = c ∷ s.left })

-- `strpbrk(s, " \t")`, and the NUL that is put there: what stands before the first blank and what
-- stands behind it.
unfoldable pub split_blank : List ℕ → Option Split
split_blank [] = none
split_blank (c ∷ cs) =
    let rest = split_blank cs in
    if is_blank c then some (record { left = []; right = cs }) else in_left c rest

-- `s += strspn(s, " \t")`
unfoldable pub skip_blanks : List ℕ → List ℕ
skip_blanks [] = []
skip_blanks (c ∷ cs) = let rest = skip_blanks cs in if is_blank c then rest else c ∷ cs

unfoldable pub lower : ℕ → ℕ
lower c = if leb b'A' c && leb c b'Z' then c + 32 else c

-- `strcasecmp(s, t) == 0`
unfoldable pub same_text : List ℕ → List ℕ → Bool
same_text [] [] = true
same_text [] (d ∷ ds) = false
same_text (c ∷ cs) [] = false
same_text (c ∷ cs) (d ∷ ds) = (lower c == lower d) && same_text cs ds

-- `strncasecmp(s, t, n) == 0`
unfoldable pub same_start : List ℕ → List ℕ → ℕ → Bool
same_start s t n = same_text (take n s) (take n t)

-- `strchr(s, '/')`
unfoldable pub from_slash : List ℕ → Option (List ℕ)
from_slash [] = none
from_slash (c ∷ cs) = let rest = from_slash cs in if c == b'/' then some (c ∷ cs) else rest
