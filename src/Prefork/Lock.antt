-- ===== src/Prefork/Lock.antt =====
-- `my_lock_wait` of 30chp/serv03.c; each `fcntl` answers by one element of a list.
use unpvol.Common.{ℕ, zero, suc, ◌≡◌, ◌≢◌, refl, List, [], ◌∷◌, ◌++◌, replicate}
use unpvol.Stream.Kernel.{Errno, eintr, eagain, other}

pub data Answer : Type 0 where
  granted : Answer
  refused : Errno → Answer

-- `my_lock_wait` returns, ends the program, or still waits when the answers are used up.
pub data Waited : Type 0 where
  holds : List Answer → Waited
  exits : Waited
  waits : Waited

unfoldable pub my_lock_wait : List Answer → Waited
my_lock_wait [] = waits
my_lock_wait (granted ∷ rest) = holds rest
my_lock_wait (refused eintr ∷ rest) = my_lock_wait rest
my_lock_wait (refused eagain ∷ rest) = exits
my_lock_wait (refused other ∷ rest) = exits

-- However often it is interrupted, `my_lock_wait` returns with the lock as soon as `fcntl` grants it,
-- and ends the program if `fcntl` fails in another way first.
pub my_lock_wait-interrupted :
    (n : ℕ) (rest : List Answer) (e : Errno)
    → e ≢ eintr
    → (my_lock_wait (replicate n (refused eintr) ++ granted ∷ rest) ≡ holds rest)
      × (my_lock_wait (replicate n (refused eintr) ++ refused e ∷ rest) ≡ exits)
unfolding my_lock_wait
my_lock_wait-interrupted zero rest eintr h = absurd (h refl)
my_lock_wait-interrupted zero rest eagain h = (refl, refl)
my_lock_wait-interrupted zero rest other h = (refl, refl)
my_lock_wait-interrupted (suc n) rest e h = my_lock_wait-interrupted n rest e h
