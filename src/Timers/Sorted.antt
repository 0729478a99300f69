-- ===== src/Timers/Sorted.antt =====
-- The sorted list of timers of highperformenceserver/examples/11/11-2lst_timer.h: its timers from
-- `head` along `next`; `tail` and the `prev` pointers follow from that. A timer stands for the
-- connection in its `user_data`, which has one timer at most.
pub mod Idle
pub mod Lookup
pub mod Order
pub mod Refine
pub mod Runs
mod Tests
use unpvol.Common.{
  ℕ, Bool, true, false, Option, none, some, List, [], ◌∷◌, ltb, ◌==◌, if◌then◌else◌,
}

pub record UtilTimer : Type 0 where
  pub sockfd : ℕ
  pub expire : ℕ

-- The second `add_timer`: the loop behind `lst_head`.
unfoldable pub add_behind : UtilTimer → List UtilTimer → List UtilTimer
add_behind timer [] = timer ∷ []
add_behind timer (tmp ∷ rest) =
    let later = tmp ∷ add_behind timer rest in
    if ltb timer.expire tmp.expire then timer ∷ tmp ∷ rest else later

unfoldable pub add_timer : Option UtilTimer → List UtilTimer → List UtilTimer
add_timer none list = list
add_timer (some timer) [] = timer ∷ []
add_timer (some timer) (head ∷ rest) =
    if ltb timer.expire head.expire then timer ∷ head ∷ rest else head ∷ add_behind timer rest

-- `adjust_timer` for a timer with what stands behind it. It goes in again behind its successor, which
-- is the head if the timer was the head.
unfoldable pub settle : UtilTimer → List UtilTimer → List UtilTimer
settle timer [] = timer ∷ []
settle timer (tmp ∷ rest) =
    if ltb timer.expire tmp.expire then timer ∷ tmp ∷ rest else tmp ∷ add_behind timer rest

-- `timer->expire = …` and `adjust_timer( timer )`.
unfoldable pub adjust_timer : ℕ → ℕ → List UtilTimer → List UtilTimer
adjust_timer fd expire [] = []
adjust_timer fd expire (t ∷ rest) =
    let later = t ∷ adjust_timer fd expire rest in
    if t.sockfd == fd then settle (record t { expire = expire }) rest else later

-- `del_timer`: at the head, at the tail, or between two timers.
unfoldable pub del_timer : ℕ → List UtilTimer → List UtilTimer
del_timer fd [] = []
del_timer fd (t ∷ rest) =
    let later = t ∷ del_timer fd rest in if t.sockfd == fd then rest else later

-- `tick` at a time: the timers that stay, and the connections that `cb_func` is called for.
unfoldable pub tick : ℕ → List UtilTimer → List UtilTimer
tick cur [] = []
tick cur (tmp ∷ rest) =
    let later = tick cur rest in if ltb cur tmp.expire then tmp ∷ rest else later

unfoldable pub called : ℕ → List UtilTimer → List ℕ
called cur [] = []
called cur (tmp ∷ rest) =
    let later = called cur rest in if ltb cur tmp.expire then [] else tmp.sockfd ∷ later
