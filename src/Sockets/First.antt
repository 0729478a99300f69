-- ===== src/Sockets/First.antt =====
-- Which socket is returned, and when the list of addresses is freed.
use unpvol.Common.{
  ℕ, suc, ◌+◌, ◌≡◌, refl, ap, sym, ◌∙◌, Bool, true, false, Option, none, some, List, [], ◌∷◌, ◌++◌,
  if◌then◌else◌, arith,
}
use unpvol.Sockets.Open.{
  Attempt, Call, sockets, reuses, binds, connects, closes, listens, frees, Search, Result, returned,
  minus_one, exits, try_one, search, finish, open_with, tcp_listen, tcp_connect, create_and_bind,
  create_and_bind_reuse,
}

-- The first address on which everything succeeds.
unfoldable pub works_for : Option ℕ → Bool → Option ℕ
works_for none works = none
works_for (some fd) works = if works then some fd else none

unfoldable pub first_working : List Attempt → Option ℕ
first_working [] = none
first_working (a ∷ rest) = elim (works_for a.sock a.works) [
  | some fd ↦ some fd
  | none ↦ first_working rest
]

unfoldable pub result_or : Result → Option ℕ → Result
result_or failure none = failure
result_or failure (some fd) = returned fd

-- How often the list of addresses is freed.
unfoldable pub releases : List Call → ℕ
releases [] = 0
releases (frees ∷ cs) = suc (releases cs)
releases (closes x ∷ cs) = releases cs
releases (sockets x ∷ cs) = releases cs
releases (reuses x ∷ cs) = releases cs
releases (binds x ∷ cs) = releases cs
releases (connects x ∷ cs) = releases cs
releases (listens x ∷ cs) = releases cs

abbrev pub one_if_returned : Result → ℕ
one_if_returned (returned fd) = 1
one_if_returned minus_one = 0
one_if_returned exits = 0

releases-append : (xs ys : List Call) → releases (xs ++ ys) ≡ releases xs + releases ys
unfolding releases
releases-append [] ys = omega arith
releases-append (frees ∷ cs) ys = omega (arith, releases-append cs ys)
releases-append (sockets x ∷ cs) ys = releases-append cs ys
releases-append (reuses x ∷ cs) ys = releases-append cs ys
releases-append (binds x ∷ cs) ys = releases-append cs ys
releases-append (connects x ∷ cs) ys = releases-append cs ys
releases-append (closes x ∷ cs) ys = releases-append cs ys
releases-append (listens x ∷ cs) ys = releases-append cs ys

try_one-found :
    (sock : Option ℕ) (works : Bool) (rest : Search) (each : ℕ → List Call) (o : Option ℕ)
    → rest.found ≡ o
    → (try_one sock works rest each).found
      ≡ (elim (works_for sock works) [ some fd ↦ some fd | none ↦ o ])
unfolding try_one works_for
try_one-found none works rest each o e = e
try_one-found (some fd) true rest each o e = refl
try_one-found (some fd) false rest each o e = e

search-found :
    (each : ℕ → List Call) (addresses : List Attempt)
    → (search each addresses).found ≡ first_working addresses
unfolding search first_working
search-found each [] = refl
search-found each (a ∷ rest) =
    try_one-found a.sock a.works (search each rest) each _ (search-found each rest)

try_one-releases :
    (sock : Option ℕ) (works : Bool) (rest : Search) (each : ℕ → List Call)
    → ((fd : ℕ) → releases (each fd) ≡ 0)
    → releases rest.calls ≡ 0
    → releases (try_one sock works rest each).calls ≡ 0
unfolding try_one releases
try_one-releases none works rest each h e = e
try_one-releases (some fd) true rest each h e = h fd
try_one-releases (some fd) false rest each h e =
    omega (arith, h fd, e, releases-append (each fd) (closes fd ∷ rest.calls))

search-releases :
    (each : ℕ → List Call) (addresses : List Attempt)
    → ((fd : ℕ) → releases (each fd) ≡ 0)
    → releases (search each addresses).calls ≡ 0
unfolding search releases
search-releases each [] h = refl
search-releases each (a ∷ rest) h =
    try_one-releases a.sock a.works (search each rest) each h (search-releases each rest h)

finish-result :
    (last : ℕ → List Call) (failure : Result) (calls : List Call) (found : Option ℕ)
    → (finish last failure calls found).result ≡ result_or failure found
unfolding finish result_or
finish-result last failure calls none = refl
finish-result last failure calls (some fd) = refl

finish-releases :
    (last : ℕ → List Call) (failure : Result) (calls : List Call) (found : Option ℕ)
    → one_if_returned failure ≡ 0
    → releases calls ≡ 0
    → ((fd : ℕ) → releases (last fd) ≡ 1)
    → releases (finish last failure calls found).calls
      ≡ one_if_returned (finish last failure calls found).result
unfolding finish
finish-releases last failure calls none e h k = h ∙ sym e
finish-releases last failure calls (some fd) e h k =
    omega (arith, h, k fd, releases-append calls (last fd))

-- Of the addresses that `getaddrinfo` found, each routine returns the socket of the first on which
-- `socket` and then `bind` or `connect` succeed; if there is none, `tcp_listen` and `tcp_connect`
-- end the program and `create_and_bind` returns -1.
pub open-first :
    (addresses : List Attempt)
    → ((tcp_listen (some addresses)).result ≡ result_or exits (first_working addresses))
      × ((tcp_connect (some addresses)).result ≡ result_or exits (first_working addresses))
      × ((create_and_bind (some addresses)).result ≡ result_or minus_one (first_working addresses))
      × ((create_and_bind_reuse (some addresses)).result
          ≡ result_or minus_one (first_working addresses))
unfolding tcp_listen tcp_connect create_and_bind create_and_bind_reuse open_with
open-first addresses = (
  finish-result _ _ _ _ ∙ ap (result_or exits) (search-found _ addresses),
  finish-result _ _ _ _ ∙ ap (result_or exits) (search-found _ addresses),
  finish-result _ _ _ _ ∙ ap (result_or minus_one) (search-found _ addresses),
  finish-result _ _ _ _ ∙ ap (result_or minus_one) (search-found _ addresses),
)

-- Both forms of `create_and_bind` free the list that `getaddrinfo` allocated once if they return a
-- socket, and not at all if they return -1.
pub create_and_bind-releases :
    (addresses : List Attempt)
    → (releases (create_and_bind (some addresses)).calls
        ≡ one_if_returned (create_and_bind (some addresses)).result)
      × (releases (create_and_bind_reuse (some addresses)).calls
          ≡ one_if_returned (create_and_bind_reuse (some addresses)).result)
unfolding create_and_bind create_and_bind_reuse open_with releases
create_and_bind-releases addresses = (
  finish-releases _ _ _ _ refl (search-releases _ addresses (λ fd. refl)) (λ fd. refl),
  finish-releases _ _ _ _ refl (search-releases _ addresses (λ fd. refl)) (λ fd. refl),
)
