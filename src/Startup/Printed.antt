-- ===== src/Startup/Printed.antt =====
-- The poll server prints what arrives, in order, until the client closes the connection.
use unpvol.Common.{ℕ, ◌≡◌, refl, ap, true, false, List, [], ◌∷◌, ◌++◌, drop, length}
use unpvol.Stream.Kernel.{Errno, Arrival, chunk, broken}
use unpvol.Stream.Readline.{c_string}
use unpvol.Startup.Poll.{
  Polled, Printed, normal, urgent, returns, Run, and_then, on_pollin, on_pollpri, serve_loop,
}

-- What one `poll` announces, where nothing fails and nobody closes: bytes, urgent bytes, or both.
pub data Talk : Type 0 where
  says : ℕ → List ℕ → Talk
  urges : List ℕ → Talk
  both : ℕ → List ℕ → List ℕ → Talk

unfoldable pub polled : Talk → Polled
polled (says x xs) = record {
  pollin = true;
  pollpri = false;
  read = chunk (x ∷ xs);
  recv = chunk [];
}
polled (urges u) = record { pollin = false; pollpri = true; read = chunk []; recv = chunk u }
polled (both x xs u) = record {
  pollin = true;
  pollpri = true;
  read = chunk (x ∷ xs);
  recv = chunk u;
}

-- The urgent bytes are printed with those bytes of the same turn that they do not overwrite.
unfoldable pub prints : Talk → List Printed
prints (says x xs) = normal (c_string (x ∷ xs)) ∷ []
prints (urges u) = urgent (c_string (u ++ drop (length u) [])) ∷ []
prints (both x xs u) =
    normal (c_string (x ∷ xs)) ∷ urgent (c_string (u ++ drop (length u) (x ∷ xs))) ∷ []

unfoldable pub all_polled : List Talk → List Polled → List Polled
all_polled [] end = end
all_polled (t ∷ ts) end = polled t ∷ all_polled ts end

unfoldable pub all_prints : List Talk → List Printed
all_prints [] = []
all_prints (t ∷ ts) = prints t ++ all_prints ts

abbrev pub ending : Arrival → Polled
ending a = record { pollin = true; pollpri = false; read = a; recv = chunk [] }

-- However the client talks, before it closes the connection or `read` fails, what arrives is printed
-- in order, each time up to a NUL, and then the program returns 0 or -4. Urgent bytes that come in
-- one turn with others are printed with the rest of those others behind them.
pub serve_loop-prints :
    (ts : List Talk) (rest : List Polled) (e : Errno)
    → (serve_loop (all_polled ts (ending (chunk []) ∷ rest))
        ≡ record { printed = all_prints ts; ended = returns 0 })
      × (serve_loop (all_polled ts (ending (broken e) ∷ rest))
          ≡ record { printed = all_prints ts; ended = returns 4 })
unfolding serve_loop on_pollin on_pollpri all_polled all_prints polled prints
serve_loop-prints [] rest e = (refl, refl)
serve_loop-prints (says x xs ∷ ts) rest e =
    let (f, g) = serve_loop-prints ts rest e in
    let add : Run → Run = and_then (normal (c_string (x ∷ xs))) in (ap add f, ap add g)
serve_loop-prints (urges u ∷ ts) rest e =
    let (f, g) = serve_loop-prints ts rest e in
    let add : Run → Run = and_then (urgent (c_string (u ++ drop (length u) []))) in
    (ap add f, ap add g)
serve_loop-prints (both x xs u ∷ ts) rest e =
    let (f, g) = serve_loop-prints ts rest e in
    let add : Run → Run = λ r.
      and_then (normal (c_string (x ∷ xs)))
        (and_then (urgent (c_string (u ++ drop (length u) (x ∷ xs)))) r) in
    (ap add f, ap add g)
