-- ===== src/Http/Follow.antt =====
-- `parse_content` follows the automaton over all that has been read, and picks up where it stopped.
use unpvol.Common.{
  ℕ, zero, suc, ◌+◌, ◌-◌, ◌≤◌, ◌<◌, ◌≡◌, refl, sym, ◌∙◌, inl, List, [], ◌∷◌, arith, length,
}
use unpvol.Stream.Memory.{Memory, slice, store, slice-add, slice-store, store_outside}
use unpvol.Http.Line.{line_ok, Line, parse_line, line_at}
use unpvol.Http.Request.{
  CheckState, requestline, header, content, HttpCode, no_request, get_request, bad_request,
  internal_error, parse_requestline, parse_headers,
}
use unpvol.Http.Content.{
  Parser, Stepped, goes, stops, after_requestline, after_headers, on_line, Parsed, passed, on_step,
  on_status, content_loop, parse_content, received,
}
use unpvol.Http.Feed.{
  Reading, in_line, behind_cr, done, close_line, feed, feed_all, feed_all-append, feed_all-done,
}
use unpvol.Http.Scan.{
  NoCrBefore, between, slice-same, Follows, ends, ends_cr, fails, closes, parse_line-Follows,
}

unfoldable pub IsFinal : HttpCode → Type 0
IsFinal no_request = ⊥
IsFinal get_request = Unit
IsFinal bad_request = Unit
IsFinal internal_error = Unit

unfoldable pub IsOpen : Reading → Type 0
IsOpen (in_line state line) = Unit
IsOpen (behind_cr state line) = Unit
IsOpen (done code) = ⊥

-- The indices of a parser are in order.
pub record IsPlaced (read : ℕ) (p : Parser) : Type 0 where
  pub started : p.start_line ≤ p.checked
  pub inside : p.checked ≤ read
  pub no_cr : NoCrBefore p.buffer p.checked

-- The automaton after the bytes up to `read`, as the parser has them.
unfoldable pub reading : ℕ → Parser → Reading
reading read p =
    feed_all (in_line p.checkstate (between p.buffer p.start_line p.checked))
      (between p.buffer p.checked read)

-- A result of `parse_content` against the automaton.
pub data Tracks (read : ℕ) (r : Reading) : Parsed → Type 0 where
  answers :
      {code : HttpCode} {p : Parser}
      → IsFinal code
      → r ≡ done code
      → Tracks read r (record { code = code; parser = p })
  waits :
      {p : Parser}
      → IsPlaced read p
      → IsOpen r
      → r ≡ reading read p
      → Tracks read r (record { code = no_request; parser = p })

after_requestline-IsFinal : (c code : HttpCode) → after_requestline c ≡ stops code → IsFinal code
unfolding after_requestline IsFinal
after_requestline-IsFinal no_request code e = cc
after_requestline-IsFinal bad_request code e = ground (arith, e)
after_requestline-IsFinal get_request code e = cc
after_requestline-IsFinal internal_error code e = cc

after_headers-IsFinal : (c code : HttpCode) → after_headers c ≡ stops code → IsFinal code
unfolding after_headers IsFinal
after_headers-IsFinal no_request code e = cc
after_headers-IsFinal bad_request code e = ground (arith, e)
after_headers-IsFinal get_request code e = ground (arith, e)
after_headers-IsFinal internal_error code e = cc

on_line-IsFinal :
    (state : CheckState) (line : List ℕ) (code : HttpCode)
    → on_line state line ≡ stops code
    → IsFinal code
unfolding on_line IsFinal
on_line-IsFinal requestline line code e = after_requestline-IsFinal (parse_requestline line) code e
on_line-IsFinal header line code e = after_headers-IsFinal (parse_headers line).code code e
on_line-IsFinal content line code e = ground (arith, e)

between_self : (b : Memory) (i : ℕ) → between b i i ≡ []
unfolding slice
between_self b i = let e : i - i ≡ 0 = omega arith in rw e refl

between-one : (b : Memory) (i j : ℕ) → i + 1 ≡ j → between b i j ≡ b i ∷ []
unfolding slice
between-one b i j h = let e : j - i ≡ suc 0 = omega (arith, h) in rw e refl

on_step-Tracks :
    (read : ℕ) (r : Reading) (s : Stepped) (l : Line) (p : Parser) (again : Parser → Parsed)
    → ((code : HttpCode) → s ≡ stops code → IsFinal code)
    → r ≡ feed_all (close_line s) (between l.buffer l.checked read)
    → ((state : CheckState)
        → Tracks read
            (feed_all (in_line state []) (between l.buffer l.checked read))
            (again (record (passed l p) { start_line = l.checked; checkstate = state })))
    → Tracks read r (on_step s l p again)
unfolding on_step close_line
on_step-Tracks read r (stops code) l p again f e h =
    answers (f code refl) (e ∙ feed_all-done code (between l.buffer l.checked read))
on_step-Tracks read r (goes state) l p again f e h = rw e (h state)

-- What is read of a line that is not complete, as `reading` has it.
reading-at_end :
    (read : ℕ) (p : Parser)
    → p.checked ≡ read
    → in_line p.checkstate (between p.buffer p.start_line p.checked) ≡ reading read p
unfolding reading feed_all
reading-at_end read p e = rw (sym e, between_self p.buffer p.checked) refl

reading-at_cr :
    (read : ℕ) (p : Parser)
    → p.checked + 1 ≡ read
    → p.buffer p.checked ≡ b'\r'
    → behind_cr p.checkstate (between p.buffer p.start_line p.checked) ≡ reading read p
unfolding reading feed_all feed
reading-at_cr read p e c = rw (between-one p.buffer p.checked read e, c) refl

reading-at_start :
    (read i : ℕ) (b : Memory) (state : CheckState)
    → feed_all (in_line state []) (between b i read)
      ≡ reading read (record { buffer = b; checked = i; start_line = i; checkstate = state })
unfolding reading
reading-at_start read i b state = rw (between_self b i) refl

on_status-Tracks :
    (read : ℕ) (r : Reading) (l : Line) (p : Parser) (again : Parser → Parsed)
    → Follows p.buffer p.start_line read p.checkstate r l
    → ((q : Parser)
        → IsPlaced read q
        → p.start_line < q.start_line
        → Tracks read (reading read q) (again q))
    → Tracks read r (on_status l.status l p again)
unfolding on_status IsFinal IsOpen
on_status-Tracks read r _ p again (ends {i} h e n f) rec =
    waits (record { started = h; inside = omega (arith, e); no_cr = n }) (rw f tt)
      (f ∙ reading-at_end read (record p { checked = i }) e)
on_status-Tracks read r _ p again (ends_cr {i} h e c n f) rec =
    waits (record { started = h; inside = omega (arith, e); no_cr = n }) (rw f tt)
      (f ∙ reading-at_cr read (record p { checked = i }) e c)
on_status-Tracks read r _ p again (fails f) rec = answers tt f
on_status-Tracks read r _ p again (closes {b} {i} h g n f) rec =
    on_step-Tracks read r (on_line p.checkstate (line_at b p.start_line i))
      (record { status = line_ok; buffer = b; checked = i }) p again
      (on_line-IsFinal p.checkstate (line_at b p.start_line i)) f
      (λ state. rw (reading-at_start read i b state) (
        rec (record { buffer = b; checked = i; start_line = i; checkstate = state })
          (record { started = omega arith; inside = g; no_cr = n }) h))

content_loop-Tracks :
    (turns read : ℕ) (p : Parser)
    → IsPlaced read p
    → read - p.start_line < turns
    → Tracks read (reading read p) (content_loop turns read p)
unfolding content_loop reading
content_loop-Tracks zero read p h f = absurd (omega arith)
content_loop-Tracks (suc turns) read p h f =
    on_status-Tracks read _ (parse_line p.buffer p.checked read) p (content_loop turns read)
      (parse_line-Follows p.buffer p.start_line p.checked read p.checkstate h.started h.inside
        h.no_cr)
      (λ q g less. content_loop-Tracks turns read q g (omega (arith, less, f, g.started, g.inside)))

-- `parse_content` over what has been read.
pub parse_content-Tracks :
    (read : ℕ) (p : Parser) → IsPlaced read p → Tracks read (reading read p) (parse_content read p)
unfolding parse_content
parse_content-Tracks read p h = content_loop-Tracks (read - p.start_line + 1) read p h (omega arith)

-- Bytes that arrive are stored behind what has been read, where no index of the parser points yet.
reading-store :
    (read : ℕ) (xs : List ℕ) (p : Parser)
    → IsPlaced read p
    → reading (read + length xs) (record p { buffer = store p.buffer read xs })
      ≡ feed_all (reading read p) xs
unfolding reading
reading-store read xs p h =
    let b = store p.buffer read xs in
    let old : (i j : ℕ) → i ≤ j → j ≤ read → between b i j ≡ between p.buffer i j = λ i j f g.
      slice-same b p.buffer i (j - i)
        (λ k e u. store_outside p.buffer read xs k (inl (omega (arith, e, u, f, g)))) in
    let n : read + length xs - p.checked ≡ read - p.checked + length xs = omega (arith, h.inside) in
    let at : p.checked + (read - p.checked) ≡ read = omega (arith, h.inside) in
    rw
      (
        old p.start_line p.checked h.started h.inside,
        n,
        slice-add b p.checked (read - p.checked) (length xs),
        at,
        slice-store p.buffer read xs,
        old p.checked read h.inside (omega arith),
      )
      (feed_all-append _ (between p.buffer p.checked read) xs)

IsPlaced-store :
    (read : ℕ) (xs : List ℕ) (p : Parser)
    → IsPlaced read p
    → IsPlaced (read + length xs) (record p { buffer = store p.buffer read xs })
IsPlaced-store read xs p h = record {
  started = h.started;
  inside = omega (arith, h.inside);
  no_cr = λ less.
      rw (store_outside p.buffer read xs (p.checked - 1) (inl (omega (arith, less, h.inside))))
        (h.no_cr less);
}

pub received-Tracks :
    (read : ℕ) (xs : List ℕ) (p : Parser)
    → IsPlaced read p
    → Tracks (read + length xs) (feed_all (reading read p) xs) (received read xs p)
unfolding received
received-Tracks read xs p h =
    rw (sym (reading-store read xs p h)) (parse_content-Tracks _ _ (IsPlaced-store read xs p h))
