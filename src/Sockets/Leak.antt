-- ===== src/Sockets/Leak.antt =====
-- No routine leaves a socket open but the one it returns, which is the first that worked.
use unpvol.Common.{
  ℕ, ◌+◌, ◌≡◌, refl, Bool, true, false, Option, none, some, List, [], ◌∷◌, ◌++◌, ◌==◌, arith,
}
use unpvol.Sockets.Open.{
  Attempt, Call, sockets, reuses, binds, connects, closes, listens, frees, Search, Result, returned,
  minus_one, exits, Opened, try_one, search, finish, open_with, tcp_listen, tcp_connect,
  create_and_bind, create_and_bind_reuse,
}

abbrev pub one_if : Bool → ℕ
one_if true = 1
one_if false = 0

-- How often a descriptor is opened, and how often it is closed.
unfoldable pub opens : ℕ → List Call → ℕ
opens fd [] = 0
opens fd (sockets x ∷ cs) = one_if (x == fd) + opens fd cs
opens fd (reuses x ∷ cs) = opens fd cs
opens fd (binds x ∷ cs) = opens fd cs
opens fd (connects x ∷ cs) = opens fd cs
opens fd (closes x ∷ cs) = opens fd cs
opens fd (listens x ∷ cs) = opens fd cs
opens fd (frees ∷ cs) = opens fd cs

unfoldable pub shuts : ℕ → List Call → ℕ
shuts fd [] = 0
shuts fd (closes x ∷ cs) = one_if (x == fd) + shuts fd cs
shuts fd (sockets x ∷ cs) = shuts fd cs
shuts fd (reuses x ∷ cs) = shuts fd cs
shuts fd (binds x ∷ cs) = shuts fd cs
shuts fd (connects x ∷ cs) = shuts fd cs
shuts fd (listens x ∷ cs) = shuts fd cs
shuts fd (frees ∷ cs) = shuts fd cs

abbrev pub given : ℕ → Result → ℕ
given fd (returned x) = one_if (x == fd)
given fd minus_one = 0
given fd exits = 0

-- A routine closes every socket that it opens, except the one it returns.
pub Keeps : Opened → Type 0
Keeps o = (fd : ℕ) → opens fd o.calls ≡ shuts fd o.calls + given fd o.result

opens-append : (fd : ℕ) (xs ys : List Call) → opens fd (xs ++ ys) ≡ opens fd xs + opens fd ys
unfolding opens
opens-append fd [] ys = omega arith
opens-append fd (sockets x ∷ cs) ys = omega (arith, opens-append fd cs ys)
opens-append fd (reuses x ∷ cs) ys = opens-append fd cs ys
opens-append fd (binds x ∷ cs) ys = opens-append fd cs ys
opens-append fd (connects x ∷ cs) ys = opens-append fd cs ys
opens-append fd (closes x ∷ cs) ys = opens-append fd cs ys
opens-append fd (listens x ∷ cs) ys = opens-append fd cs ys
opens-append fd (frees ∷ cs) ys = opens-append fd cs ys

shuts-append : (fd : ℕ) (xs ys : List Call) → shuts fd (xs ++ ys) ≡ shuts fd xs + shuts fd ys
unfolding shuts
shuts-append fd [] ys = omega arith
shuts-append fd (closes x ∷ cs) ys = omega (arith, shuts-append fd cs ys)
shuts-append fd (reuses x ∷ cs) ys = shuts-append fd cs ys
shuts-append fd (binds x ∷ cs) ys = shuts-append fd cs ys
shuts-append fd (connects x ∷ cs) ys = shuts-append fd cs ys
shuts-append fd (sockets x ∷ cs) ys = shuts-append fd cs ys
shuts-append fd (listens x ∷ cs) ys = shuts-append fd cs ys
shuts-append fd (frees ∷ cs) ys = shuts-append fd cs ys

-- The calls for one socket open it and close nothing; those that follow the loop do neither.
record IsTrying (each last : ℕ → List Call) : Type 0 where
  opens_it : (x fd : ℕ) → opens fd (each x) ≡ one_if (x == fd)
  shuts_none : (x fd : ℕ) → shuts fd (each x) ≡ 0
  last_opens : (x fd : ℕ) → opens fd (last x) ≡ 0
  last_shuts : (x fd : ℕ) → shuts fd (last x) ≡ 0

abbrev held : ℕ → Option ℕ → ℕ
held fd none = 0
held fd (some x) = one_if (x == fd)

module _ (each last : ℕ → List Call) (p : IsTrying each last) where
  try_one-balanced :
      (fd : ℕ) (sock : Option ℕ) (works : Bool) (rest : Search)
      → opens fd rest.calls ≡ shuts fd rest.calls + held fd rest.found
      → opens fd (try_one sock works rest each).calls
        ≡ shuts fd (try_one sock works rest each).calls
          + held fd (try_one sock works rest each).found
  unfolding try_one opens shuts
  try_one-balanced fd none works rest h = h
  try_one-balanced fd (some x) true rest h = omega (arith, p.opens_it x fd, p.shuts_none x fd)
  try_one-balanced fd (some x) false rest h = omega (
    arith,
    h,
    p.opens_it x fd,
    p.shuts_none x fd,
    opens-append fd (each x) (closes x ∷ rest.calls),
    shuts-append fd (each x) (closes x ∷ rest.calls),
  )

  search-balanced :
      (fd : ℕ) (addresses : List Attempt)
      → opens fd (search each addresses).calls
        ≡ shuts fd (search each addresses).calls + held fd (search each addresses).found
  unfolding search opens shuts
  search-balanced fd [] = omega arith
  search-balanced fd (a ∷ rest) =
      try_one-balanced fd a.sock a.works (search each rest) (search-balanced fd rest)

  finish-balanced :
      (failure : Result) (fd : ℕ) (calls : List Call) (found : Option ℕ)
      → given fd failure ≡ 0
      → opens fd calls ≡ shuts fd calls + held fd found
      → opens fd (finish last failure calls found).calls
        ≡ shuts fd (finish last failure calls found).calls
          + given fd (finish last failure calls found).result
  unfolding finish
  finish-balanced failure fd calls none e h = omega (arith, h, e)
  finish-balanced failure fd calls (some x) e h = omega (
    arith,
    h,
    p.last_opens x fd,
    p.last_shuts x fd,
    opens-append fd calls (last x),
    shuts-append fd calls (last x),
  )

  open_with-Keeps :
      (failure : Result) (found : Option (List Attempt))
      → ((fd : ℕ) → given fd failure ≡ 0)
      → Keeps (open_with each last failure found)
  unfolding open_with opens shuts Keeps
  open_with-Keeps failure none e fd = omega (arith, e fd)
  open_with-Keeps failure (some addresses) e fd =
      finish-balanced failure fd _ _ (e fd) (search-balanced fd addresses)

-- Whatever the kernel answers, `tcp_listen`, `tcp_connect` and both forms of `create_and_bind` close
-- every socket that they open as often as they open it, except that the one they return is opened
-- once more than it is closed.
pub open-Keeps :
    (found : Option (List Attempt))
    → Keeps (tcp_listen found)
      × Keeps (tcp_connect found)
      × Keeps (create_and_bind found)
      × Keeps (create_and_bind_reuse found)
unfolding tcp_listen tcp_connect create_and_bind create_and_bind_reuse opens shuts
open-Keeps found = (
  open_with-Keeps _ _
      (record {
        opens_it = λ x fd. omega arith;
        shuts_none = λ x fd. refl;
        last_opens = λ x fd. refl;
        last_shuts = λ x fd. refl;
      })
      exits found (λ fd. refl),
  open_with-Keeps _ _
      (record {
        opens_it = λ x fd. omega arith;
        shuts_none = λ x fd. refl;
        last_opens = λ x fd. refl;
        last_shuts = λ x fd. refl;
      })
      exits found (λ fd. refl),
  open_with-Keeps _ _
      (record {
        opens_it = λ x fd. omega arith;
        shuts_none = λ x fd. refl;
        last_opens = λ x fd. refl;
        last_shuts = λ x fd. refl;
      })
      minus_one found (λ fd. refl),
  open_with-Keeps _ _
      (record {
        opens_it = λ x fd. omega arith;
        shuts_none = λ x fd. refl;
        last_opens = λ x fd. refl;
        last_shuts = λ x fd. refl;
      })
      minus_one found (λ fd. refl),
)
