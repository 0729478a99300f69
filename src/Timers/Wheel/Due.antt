-- ===== src/Timers/Wheel/Due.antt =====
-- How far a timer of the wheel is from its last tick.
use unpvol.Common.{
  ℕ, zero, suc, ◌+◌, ◌-◌, ◌*◌, ◌%◌, ◌<◌, ◌≡◌, ◌≢◌, refl, ap, sym, ◌∙◌, true, false, List, [], ◌∷◌,
  ◌==◌, if◌then◌else◌, arith, ℕ_discrete,
}
use unpvol.Timers.Wheel.{TwTimer, TimeWheel, slot_count, stay, due, tick, fired, after}

unfoldable pub times : ℕ → List ℕ → ℕ
times id [] = 0
times id (x ∷ xs) = (if x == id then 1 else 0) + times id xs

-- The rotations of the timers with an id, in a slot.
unfoldable pub rotations : ℕ → List TwTimer → List ℕ
rotations id [] = []
rotations id (t ∷ ts) = let rest = rotations id ts in if t.id == id then t.rotation ∷ rest else rest

unfoldable stayed : List ℕ → List ℕ
stayed [] = []
stayed (zero ∷ rs) = stayed rs
stayed (suc r ∷ rs) = r ∷ stayed rs

unfoldable zeros : List ℕ → ℕ
zeros [] = 0
zeros (zero ∷ rs) = suc (zeros rs)
zeros (suc r ∷ rs) = zeros rs

rotations-stay : (id : ℕ) (ts : List TwTimer) → rotations id (stay ts) ≡ stayed (rotations id ts)
unfolding rotations stay stayed
rotations-stay id [] = refl
rotations-stay id (t ∷ ts) = ground (arith, rotations-stay id ts)

times-due : (id : ℕ) (ts : List TwTimer) → times id (due ts) ≡ zeros (rotations id ts)
unfolding rotations due zeros times
times-due id [] = refl
times-due id (t ∷ ts) = ground (arith, times-due id ts)

-- No timer has the id.
pub record IsAbsent (id : ℕ) (w : TimeWheel) : Type 0 where
  pub inside : w.cur_slot < slot_count
  pub nowhere : (s : ℕ) → rotations id (w.slots s) ≡ []

-- One timer has the id, and fires after `d` ticks, in the one that follows.
pub record IsDue (id slot d : ℕ) (w : TimeWheel) : Type 0 where
  pub inside : w.cur_slot < slot_count
  pub slot_inside : slot < slot_count
  pub rotation : ℕ
  pub here : rotations id (w.slots slot) ≡ rotation ∷ []
  pub elsewhere : (s : ℕ) → s ≢ slot → rotations id (w.slots s) ≡ []
  pub distance : slot_count * rotation + (slot + slot_count - w.cur_slot) % slot_count ≡ d

tick-here :
    (id s : ℕ) (w : TimeWheel)
    → w.cur_slot ≡ s
    → rotations id ((tick w).slots s) ≡ stayed (rotations id (w.slots s))
unfolding tick
tick-here id s w e =
    let same : (w.cur_slot == s) ≡ true = ground arith in
    rw same (rotations-stay id (w.slots w.cur_slot) ∙ ap (λ i. stayed (rotations id (w.slots i))) e)

tick-elsewhere :
    (id s : ℕ) (w : TimeWheel)
    → w.cur_slot ≢ s
    → rotations id ((tick w).slots s) ≡ rotations id (w.slots s)
unfolding tick
tick-elsewhere id s w n = let other : (w.cur_slot == s) ≡ false = ground arith in rw other refl

times-fired :
    (id s : ℕ) (w : TimeWheel)
    → w.cur_slot ≡ s
    → times id (fired w) ≡ zeros (rotations id (w.slots s))
unfolding fired
times-fired id s w e =
    times-due id (w.slots w.cur_slot) ∙ ap (λ i. zeros (rotations id (w.slots i))) e

tick-inside : (w : TimeWheel) → (tick w).cur_slot < slot_count
unfolding tick
tick-inside w = omega arith

pub tick-IsAbsent :
    (id : ℕ) (w : TimeWheel) → IsAbsent id w → IsAbsent id (tick w) × (times id (fired w) ≡ 0)
unfolding zeros stayed
tick-IsAbsent id w a = (
  record {
    inside = tick-inside w;
    nowhere = λ s. elim (ℕ_discrete w.cur_slot s) [
      | yes e ↦ tick-here id s w e ∙ ap stayed (a.nowhere s)
      | no n ↦ tick-elsewhere id s w n ∙ a.nowhere s
    ];
  },
  times-fired id w.cur_slot w refl ∙ ap zeros (a.nowhere w.cur_slot),
)

tick-fires :
    (id slot : ℕ) (w : TimeWheel)
    → IsDue id slot 0 w
    → IsAbsent id (tick w) × (times id (fired w) ≡ 1)
unfolding zeros stayed
tick-fires id slot w h =
    let now : w.cur_slot ≡ slot = omega (arith, h.distance, h.inside, h.slot_inside) in
    let last : h.rotation ≡ 0 = omega (arith, h.distance) in
    let here : rotations id (w.slots slot) ≡ 0 ∷ [] = h.here ∙ ap (λ r. r ∷ []) last in
    (
      record {
        inside = tick-inside w;
        nowhere = λ s. elim (ℕ_discrete w.cur_slot s) [
          | yes e ↦ tick-here id s w e ∙ ap stayed (rw (sym now ∙ e) at here)
          | no n ↦ tick-elsewhere id s w n ∙ h.elsewhere s (λ e. n (now ∙ sym e))
        ];
      },
      times-fired id slot w now ∙ ap zeros here,
    )

pub tick-waits :
    (id slot d : ℕ) (w : TimeWheel)
    → IsDue id slot (suc d) w
    → IsDue id slot d (tick w) × (times id (fired w) ≡ 0)
unfolding zeros stayed tick
tick-waits id slot d w h = elim (ℕ_discrete w.cur_slot slot) [
  | yes now ↦
      let more : h.rotation ≡ suc (h.rotation - 1) =
        omega (arith, h.distance, h.inside, h.slot_inside, now) in
      let here : rotations id (w.slots slot) ≡ suc (h.rotation - 1) ∷ [] =
        h.here ∙ ap (λ r. r ∷ []) more in
      (
        record {
          inside = tick-inside w;
          slot_inside = h.slot_inside;
          rotation = h.rotation - 1;
          here = tick-here id slot w now ∙ ap stayed here;
          elsewhere = λ s n. tick-elsewhere id s w (λ e. n (sym e ∙ now)) ∙ h.elsewhere s n;
          distance = omega (arith, h.distance, h.inside, h.slot_inside, now);
        },
        times-fired id slot w now ∙ ap zeros here,
      )
  | no later ↦ (
    record {
      inside = tick-inside w;
      slot_inside = h.slot_inside;
      rotation = h.rotation;
      here = tick-elsewhere id slot w later ∙ h.here;
      elsewhere = λ s n. elim (ℕ_discrete w.cur_slot s) [
        | yes e ↦ tick-here id s w e ∙ ap stayed (h.elsewhere s n)
        | no m ↦ tick-elsewhere id s w m ∙ h.elsewhere s n
      ];
      distance = omega (arith, h.distance, h.inside, h.slot_inside, later);
    },
    times-fired id w.cur_slot w refl ∙ ap zeros (h.elsewhere w.cur_slot later),
  )
]

pub absent_never : (id n : ℕ) (w : TimeWheel) → IsAbsent id w → times id (fired (after n w)) ≡ 0
unfolding after
absent_never id zero w a = (tick-IsAbsent id w a).1
absent_never id (suc n) w a = absent_never id n (tick w) (tick-IsAbsent id w a).0

pub due_once :
    (id slot d n : ℕ) (w : TimeWheel)
    → IsDue id slot d w
    → times id (fired (after n w)) ≡ (if n == d then 1 else 0)
unfolding after
due_once id slot zero zero w h = (tick-fires id slot w h).1
due_once id slot zero (suc n) w h =
    absent_never id n (tick w) (tick-fires id slot w h).0 ∙ ground arith
due_once id slot (suc d) zero w h = (tick-waits id slot d w h).1 ∙ ground arith
due_once id slot (suc d) (suc n) w h =
    due_once id slot d n (tick w) (tick-waits id slot d w h).0 ∙ ground arith
