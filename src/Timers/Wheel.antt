-- ===== src/Timers/Wheel.antt =====
-- The time wheel of highperformenceserver/examples/11/11-5tw_timer.h. A slot is the list of its
-- timers from `slots[i]` along `next`; what `prev` says follows from that. A timer's address is its
-- `id`. The callbacks leave the wheel alone.
pub mod Due
pub mod Fire
mod Tests
use unpvol.Common.{
  ℕ, zero, suc, ◌+◌, ◌-◌, ◌/◌, ◌%◌, Option, none, some, List, [], ◌∷◌, ltb, ◌==◌, if◌then◌else◌, ℤ,
  pos, negsuc, update,
}

-- N and TI.
abbrev pub slot_count : ℕ
slot_count = 60

abbrev pub interval : ℕ
interval = 1

pub record TwTimer : Type 0 where
  pub id : ℕ
  pub rotation : ℕ
  pub time_slot : ℕ

pub record TimeWheel : Type 0 where
  pub slots : ℕ → List TwTimer
  pub cur_slot : ℕ

abbrev pub empty_wheel : TimeWheel
empty_wheel = record { slots = λ i. []; cur_slot = 0 }

unfoldable pub ticks_of : ℕ → ℕ
ticks_of timeout = if ltb timeout interval then 1 else timeout / interval

-- `add_timer` with the address that `new` gives; none is NULL.
pub record Added : Type 0 where
  pub wheel : TimeWheel
  pub timer : Option TwTimer

abbrev pub new_timer : ℕ → ℕ → TimeWheel → TwTimer
new_timer id ticks w = record {
  id = id;
  rotation = ticks / slot_count;
  time_slot = (w.cur_slot + ticks % slot_count) % slot_count;
}

abbrev pub push : TwTimer → TimeWheel → TimeWheel
push t w = record w { slots = update w.slots t.time_slot (t ∷ w.slots t.time_slot) }

unfoldable pub add_timer : ℕ → ℤ → TimeWheel → Added
add_timer id (negsuc n) w = record { wheel = w; timer = none }
add_timer id (pos timeout) w =
    let t = new_timer id (ticks_of timeout) w in record { wheel = push t w; timer = some t }

-- Unlinking a timer from the list of its slot.
unfoldable pub unlink : ℕ → List TwTimer → List TwTimer
unlink id [] = []
unlink id (t ∷ ts) = if t.id == id then ts else t ∷ unlink id ts

unfoldable pub del_timer : Option TwTimer → TimeWheel → TimeWheel
del_timer none w = w
del_timer (some t) w = record w {
  slots = update w.slots t.time_slot (unlink t.id (w.slots t.time_slot));
}

-- The loop of `tick` over a slot: the timers that stay, and those whose callback is called.
unfoldable pub stay : List TwTimer → List TwTimer
stay [] = []
stay (t ∷ ts) =
    if ltb 0 t.rotation then record t { rotation = t.rotation - 1 } ∷ stay ts else stay ts

unfoldable pub due : List TwTimer → List ℕ
due [] = []
due (t ∷ ts) = if ltb 0 t.rotation then due ts else t.id ∷ due ts

unfoldable pub tick : TimeWheel → TimeWheel
tick w = record {
  slots = update w.slots w.cur_slot (stay (w.slots w.cur_slot));
  cur_slot = (w.cur_slot + 1) % slot_count;
}

unfoldable pub fired : TimeWheel → List ℕ
fired w = due (w.slots w.cur_slot)

unfoldable pub after : ℕ → TimeWheel → TimeWheel
after zero w = w
after (suc n) w = after n (tick w)
