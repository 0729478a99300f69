-- ===== src/Prefork/Shutdown.antt =====
-- `sig_int` and `web_child` of 30chp/serv03.c.
use unpvol.Common.{
  ℕ, ◌≤◌, ◌<◌, ◌≡◌, refl, false, ◌||◌, Option, none, some, List, [], ◌∷◌, ◌++◌, map, leb, ltb,
  if◌then◌else◌, arith,
}

-- What `wait` returns: a pid, or -1 with ECHILD or another error.
pub data Wait : Type 0 where
  reaped : ℕ → Wait
  echild : Wait
  wait_failed : Wait

-- `while (wait(NULL) > 0)` and the exit code that follows.
unfoldable pub wait_all : List Wait → Option ℕ
wait_all [] = none
wait_all (reaped p ∷ rest) = wait_all rest
wait_all (echild ∷ rest) = some 0
wait_all (wait_failed ∷ rest) = some 1

-- The processes that get SIGTERM, and the exit code.
pub record Shut : Type 0 where
  pub killed : List ℕ
  pub code : Option ℕ

unfoldable pub sig_int : List ℕ → List Wait → Shut
sig_int pids waits = record { killed = pids; code = wait_all waits }

-- After SIGINT every child gets SIGTERM, and the server exits with 0 when all have been reaped.
pub sig_int-reaps :
    (pids dead : List ℕ) (rest : List Wait)
    → sig_int pids (map reaped dead ++ echild ∷ rest) ≡ record { killed = pids; code = some 0 }
unfolding sig_int wait_all
sig_int-reaps pids [] rest = refl
sig_int-reaps pids (p ∷ dead) rest = sig_int-reaps pids dead rest

-- The bytes that a client may ask for at once.
abbrev pub maxn : ℕ
maxn = 16384

-- A `read` that finds the end of the stream, or a line with a number, where 0 stands for every
-- number that is not positive. `read` is taken not to fail, which the code does too.
pub data Request : Type 0 where
  closed : Request
  asks : ℕ → Request

-- `web_child` returns, or ends the process.
pub data Outcome : Type 0 where
  returns : Outcome
  exits : Outcome
  runs : Outcome

pub record Served : Type 0 where
  pub wrote : List ℕ
  pub outcome : Outcome

unfoldable pub answer : ℕ → Served → Served
answer ntowrite rest =
    if leb ntowrite 0 || ltb maxn ntowrite
    then record { wrote = []; outcome = exits }
    else record { wrote = ntowrite ∷ rest.wrote; outcome = rest.outcome }

unfoldable pub web_child : List Request → Served
web_child [] = record { wrote = []; outcome = runs }
web_child (closed ∷ rest) = record { wrote = []; outcome = returns }
web_child (asks n ∷ rest) = answer n (web_child rest)

unfoldable pub AllInRange : List ℕ → Type 0
AllInRange [] = Unit
AllInRange (n ∷ ns) = (0 < n) × (n ≤ maxn) × AllInRange ns

-- A client that asks for between 1 and MAXN bytes each time gets as many as it asked for, each
-- time, until it closes the connection.
pub web_child-serves :
    (ns : List ℕ) (rest : List Request)
    → AllInRange ns
    → web_child (map asks ns ++ closed ∷ rest) ≡ record { wrote = ns; outcome = returns }
unfolding web_child answer AllInRange
web_child-serves [] rest h = refl
web_child-serves (n ∷ ns) rest (low, high, h) =
    let inside : (leb n 0 || ltb maxn n) ≡ false = ground (arith, low, high) in
    rw (inside, web_child-serves ns rest h) refl
