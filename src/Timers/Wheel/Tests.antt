-- ===== src/Timers/Wheel/Tests.antt =====
-- A timer in an empty wheel.
use unpvol.Common.{◌≡◌, refl, pos, arith}
use unpvol.Timers.Wheel.{empty_wheel, add_timer, fired, after}
use unpvol.Timers.Wheel.Due.{IsAbsent, times, rotations}
use unpvol.Timers.Wheel.Fire.{add_timer-fires}

empty-IsAbsent : IsAbsent 7 empty_wheel
unfolding rotations
empty-IsAbsent = record { inside = omega arith; nowhere = λ s. refl }

add_timer-fires_example : times 7 (fired (after 61 (add_timer 7 (pos 61) empty_wheel).wheel)) ≡ 1
add_timer-fires_example = add_timer-fires 7 61 61 empty_wheel empty-IsAbsent
