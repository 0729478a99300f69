-- ===== src/Stream/Copy.antt =====
-- `str_cli` prints all that the server sends.
use unpvol.Common.{
  ℕ, zero, suc, ◌-◌, ◌<◌, ◌≡◌, ◌≢◌, refl, inl, inr, Option, none, some, List, [], ◌∷◌, ◌++◌, ◌==◌,
  if◌then◌else◌, arith, ap, sym, ◌∙◌, length, length-append,
}
use unpvol.Stream.Kernel.{returned}
use unpvol.Stream.Readline.{
  maxline, Reader, Got, my_read, Line, on_read, readline_loop, readline, c_string, str_cli,
}
use unpvol.Stream.ByteStream.{stream, Ready, Serves, my_read-Serves}
use unpvol.Stream.LineCut.{Cuts, readline-Cuts, terminated}

abbrev pub NoZero : List ℕ → Type 0
NoZero [] = Unit
NoZero (c ∷ s) = (c ≢ 0) × NoZero s

pub c_string_lem : (xs ys s : List ℕ) → xs ++ ys ≡ s → NoZero s → c_string xs ≡ xs
unfolding c_string
c_string_lem [] ys s e h = refl
c_string_lem (x ∷ xs) ys [] e h = cc
c_string_lem (zero ∷ xs) ys (c ∷ s) e h = ground (arith, h.0)
c_string_lem (suc x ∷ xs) ys (c ∷ s) e h = ground (arith, c_string_lem xs ys s)

NoZero-rest : (xs ys s : List ℕ) → xs ++ ys ≡ s → NoZero s → NoZero ys
NoZero-rest [] ys s e h = rw e h
NoZero-rest (x ∷ xs) ys [] e h = cc
NoZero-rest (x ∷ xs) ys (c ∷ s) e h = NoZero-rest xs ys s (ground arith) h.1

str_cli-last :
    (fuel : ℕ) (rd : Reader) (l : Line)
    → readline rd maxline ≡ some l
    → l.value ≡ returned 0
    → str_cli (suc fuel) rd ≡ some []
unfolding str_cli
str_cli-last fuel rd l e v = ground arith

-- At the end of the stream the loop stops.
readline-end :
    (rd : Reader) (o : Option (Got × Reader))
    → my_read rd ≡ o
    → (k : ℕ) → Serves k [] o
    → (l : Line) × (readline rd maxline ≡ some l) × (l.value ≡ returned 0)
unfolding readline readline_loop
readline-end rd none q k h = absurd h
readline-end rd (some (g, rd')) q k (e, _, _) = (
  record { stored = []; value = returned 0; reader = rd' },
  ap (on_read 1 (readline_loop 1022 2)) (q ∙ ap (λ g'. some (g', rd')) e),
  refl,
)

str_cli-end :
    (k fuel : ℕ) (rd : Reader) → Ready k rd → stream rd ≡ [] → str_cli (suc fuel) rd ≡ some []
str_cli-end k fuel rd h e =
    let (l, q, v) = readline-end rd (my_read rd) refl k (
      rw e at
        (my_read-Serves k rd.read_cnt rd.read_ptr rd.read_buf rd.coming h.in_buffer h.closes)) in
    str_cli-last fuel rd l q v

str_cli-end_pos :
    (k fuel : ℕ) (rd : Reader)
    → 0 < fuel
    → Ready k rd
    → stream rd ≡ []
    → str_cli fuel rd ≡ some (stream rd)
str_cli-end_pos k zero rd pos h e = elim pos [ ]
str_cli-end_pos k (suc fuel) rd pos h e = str_cli-end k fuel rd h e ∙ ap some (sym e)

str_cli-line :
    (fuel n : ℕ) (rd : Reader) (l : Line) (out : List ℕ)
    → readline rd maxline ≡ some l
    → l.value ≡ returned (suc n)
    → str_cli fuel l.reader ≡ some out
    → str_cli (suc fuel) rd ≡ some (c_string l.stored ++ out)
unfolding str_cli
str_cli-line fuel n rd l out e v r = ground arith

-- The loop after a line, given what the rest of it prints.
str_cli-step :
    (fuel : ℕ) (rd : Reader) (l : Line) (xs : List ℕ)
    → readline rd maxline ≡ some l
    → Cuts 0 (maxline - 1) 1 (stream rd) l
    → l.stored ≡ xs
    → NoZero (stream rd)
    → length (stream rd) < suc fuel
    → ((r : Reader)
        → length (stream r) < fuel
        → Ready 1 r
        → NoZero (stream r)
        → str_cli fuel r ≡ some (stream r))
    → str_cli (suc fuel) rd ≡ some (stream rd)
str_cli-step fuel rd l [] q c e nz h rest =
    str_cli-last fuel rd l q (ground (arith, c.value)) ∙ ground (arith, c.cut, c.ends)
str_cli-step fuel rd l (x ∷ xs) q c e nz h rest =
    str_cli-line fuel
      (if terminated l.stored
        then length xs
        else if length l.stored == 1023
        then suc (length xs)
        else length xs)
      rd l (stream l.reader) q (ground (arith, c.value)) tail_printed
    ∙ ap some (
        ap (λ ys. ys ++ stream l.reader)
          (c_string_lem l.stored (stream l.reader) (stream rd) c.cut nz)
        ∙ c.cut)
  where
    shorter : length (stream l.reader) < fuel
    shorter = omega (arith, ap length c.cut, ap length e, length-append l.stored (stream l.reader))

    tail_printed : str_cli fuel l.reader ≡ some (stream l.reader)
    tail_printed = elim c.ready [
      | inl ready ↦
          rest l.reader shorter ready (NoZero-rest l.stored (stream l.reader) (stream rd) c.cut nz)
      | inr (at_end, ready) ↦ str_cli-end_pos 0 fuel l.reader (omega (arith, shorter)) ready at_end
    ]

-- If the server sends bytes other than null, and closes, `str_cli` prints exactly these bytes and
-- returns, in whatever pieces they arrive. A fuel above their number is enough.
pub str_cli-copies :
    (fuel : ℕ) (rd : Reader)
    → length (stream rd) < fuel
    → Ready 1 rd
    → NoZero (stream rd)
    → str_cli fuel rd ≡ some (stream rd)
str_cli-copies zero rd h ready nz = elim h [ ]
str_cli-copies (suc fuel) rd h ready nz =
    let (l, q, c) = readline-Cuts 0 maxline rd ready in
    str_cli-step fuel rd l l.stored q c refl nz h (str_cli-copies fuel)
