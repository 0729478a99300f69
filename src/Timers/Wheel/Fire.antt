-- ===== src/Timers/Wheel/Fire.antt =====
-- When a timer of the wheel fires.
use unpvol.Common.{
  ℕ, zero, suc, ◌-◌, ◌/◌, ◌≤◌, ◌≡◌, refl, ap, sym, ◌∙◌, true, false, some, List, [], ◌∷◌, ltb, ◌==◌,
  if◌then◌else◌, pos, arith, ℕ_discrete,
}
use unpvol.Timers.Wheel.{
  TwTimer, TimeWheel, slot_count, ticks_of, new_timer, push, add_timer, unlink, del_timer, tick,
  fired, after,
}
use unpvol.Timers.Wheel.Due.{times, rotations, IsAbsent, IsDue, tick-waits, due_once, absent_never}

ticks_of_lem : (timeout : ℕ) → ticks_of timeout ≡ (if ltb timeout 1 then 1 else timeout)
unfolding ticks_of
ticks_of_lem timeout = ground arith

rotations_self :
    (id : ℕ) (t : TwTimer) (ts : List TwTimer)
    → t.id ≡ id
    → rotations id (t ∷ ts) ≡ t.rotation ∷ rotations id ts
unfolding rotations
rotations_self id t ts e = ground arith

push-IsDue :
    (id ticks : ℕ) (w : TimeWheel)
    → IsAbsent id w
    → IsDue id (new_timer id ticks w).time_slot ticks (push (new_timer id ticks w) w)
push-IsDue id ticks w a =
    let t = new_timer id ticks w in
    record {
      inside = a.inside;
      slot_inside = omega arith;
      rotation = ticks / slot_count;
      here =
          let same : (t.time_slot == t.time_slot) ≡ true = ground arith in
          rw same (
            rotations_self id t (w.slots t.time_slot) refl
            ∙ ap (λ rs. ticks / slot_count ∷ rs) (a.nowhere t.time_slot));
      elsewhere = λ s n.
          let other : (t.time_slot == s) ≡ false = ground (arith, n) in rw other (a.nowhere s);
      distance = omega (arith, a.inside);
    }

-- A timer that is added to a wheel with a timeout of 0 or more fires exactly once: not during the
-- first max(1, timeout) calls of `tick`, and in the one after them.
pub add_timer-fires :
    (id timeout n : ℕ) (w : TimeWheel)
    → IsAbsent id w
    → times id (fired (after n (add_timer id (pos timeout) w).wheel))
      ≡ (if n == (if ltb timeout 1 then 1 else timeout) then 1 else 0)
unfolding add_timer
add_timer-fires id timeout n w a =
    due_once id _ (ticks_of timeout) n _ (push-IsDue id (ticks_of timeout) w a)
    ∙ ap (λ k. if n == k then 1 else 0) (ticks_of_lem timeout)

after-IsDue :
    (id slot d n : ℕ) (w : TimeWheel)
    → IsDue id slot d w
    → n ≤ d
    → IsDue id slot (d - n) (after n w)
unfolding after
after-IsDue id slot d zero w h le = let e : d - 0 ≡ d = omega arith in rw e h
after-IsDue id slot zero (suc n) w h le = absurd (omega arith)
after-IsDue id slot (suc d) (suc n) w h le =
    let e : suc d - suc n ≡ d - n = omega arith in
    rw e (after-IsDue id slot d n (tick w) (tick-waits id slot d w h).0 (omega arith))

rotations-unlink :
    (id r : ℕ) (ts : List TwTimer) → rotations id ts ≡ r ∷ [] → rotations id (unlink id ts) ≡ []
unfolding rotations unlink
rotations-unlink id r [] e = cc
rotations-unlink id r (t ∷ ts) e = ground (arith, rotations-unlink id r ts, e)

del_timer-IsAbsent :
    (id slot d : ℕ) (t : TwTimer) (w : TimeWheel)
    → t.id ≡ id
    → t.time_slot ≡ slot
    → IsDue id slot d w
    → IsAbsent id (del_timer (some t) w)
unfolding del_timer
del_timer-IsAbsent id slot d t w i e h = record {
  inside = h.inside;
  nowhere = λ s. elim (ℕ_discrete t.time_slot s) [
    | yes f ↦
        let same : (t.time_slot == s) ≡ true = ground (arith, f) in
        rw (same, i, e) (rotations-unlink id h.rotation (w.slots slot) h.here)
    | no n ↦
        let other : (t.time_slot == s) ≡ false = ground (arith, n) in
        rw other (h.elsewhere s (λ f. n (e ∙ sym f)))
  ];
}

-- A timer that is added and then, before it has fired, deleted, does not fire afterwards.
pub del_timer-stops :
    (id timeout n m : ℕ) (w : TimeWheel)
    → IsAbsent id w
    → n ≤ timeout
    → times id (
        fired (
          after m (
            del_timer
              (add_timer id (pos timeout) w).timer
              (after n (add_timer id (pos timeout) w).wheel))))
      ≡ 0
unfolding add_timer
del_timer-stops id timeout n m w a le =
    let t = new_timer id (ticks_of timeout) w in
    let h =
      after-IsDue id t.time_slot (ticks_of timeout) n (push t w)
        (push-IsDue id (ticks_of timeout) w a) (ground (arith, ticks_of_lem timeout)) in
    absent_never id m _ (del_timer-IsAbsent id t.time_slot _ t _ refl refl h)
