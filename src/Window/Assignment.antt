-- ===== src/Window/Assignment.antt =====
-- The windows of an element are those whose span of time holds its timestamp.
use arcon.Common.{
  ℕ, ◌+◌, ◌-◌, ◌*◌, ◌/◌, ◌%◌, ◌≤◌, ◌<◌, ◌↔◌, inl, inr, Bool, arith, leb, if◌then◌else◌, u64_mod,
  Bool-cases,
}
use arcon.Common.{ℕ_discrete, some, none, panic, ok, Res, ◌≡◌, refl}
use arcon.Common.Assoc.{get}
use arcon.Window.{
  EventTimeWindowAssigner, new, ceil_of, floor_of, new_window_trigger, Window, Timer, State,
}
use native.Mathlib.Nat.{div-lt_iff_lt-mul, le-div_iff_mul-le, div-add-mod', lt-div-mul-add}

-- What `new` has checked.
pub record IsAssigner (a : EventTimeWindowAssigner) : Type 0 where
  pub some_slide : 0 < a.window_slide
  pub long : a.window_slide ≤ a.window_length
  pub whole : a.window_length % a.window_slide ≡ 0

-- What `new` returns has a slide that is not 0 and divides the length.
pub new-IsAssigner :
    (length slide late : ℕ) (keyed : Bool) (a : EventTimeWindowAssigner)
    → new length slide late keyed ≡ ok a
    → IsAssigner a
unfolding new
new-IsAssigner length slide late keyed a e = ground arith

span-difference :
    (start ts : ℕ) → start ≤ ts → ts < u64_mod → (ts + u64_mod - start) % u64_mod ≡ ts - start
span-difference start ts h k = omega arith

floor_iff : (n c i : ℕ) → 0 < n → (if leb n c then c - n + 1 else 0) ≤ i ↔ c < i + n
floor_iff n c i h = elim (Bool-cases (leb n c)) [
  | inl up ↦
      let le : n ≤ c = ground arith in
      rw up ((λ p. omega (arith, p, le)), (λ p. omega (arith, p, le)))
  | inr flat ↦
      let lt : c < n = ground arith in rw flat ((λ p. omega (arith, lt)), (λ p. omega arith))
]

-- An element goes into exactly the windows, from the start of its key on, whose span of the window's
-- length holds its timestamp: the `i`-th one begins `i` slides after the start. The timestamp is not
-- before the start, and the assigner is one that `new` accepts.
pub floor_of-ceil_of :
    (a : EventTimeWindowAssigner) (start ts i : ℕ)
    → IsAssigner a
    → start ≤ ts
    → ts < u64_mod
    → (floor_of a (ceil_of a start ts) ≤ i) × (i ≤ ceil_of a start ts)
      ↔ (start + i * a.window_slide ≤ ts) × (ts < start + i * a.window_slide + a.window_length)
unfolding floor_of ceil_of
floor_of-ceil_of a start ts i v h k =
    let n = a.window_length / a.window_slide in
    let c = (ts - start) / a.window_slide in
    let d : (ts + u64_mod - start) % u64_mod ≡ ts - start = span-difference start ts h k in
    let whole : n * a.window_slide ≡ a.window_length =
      omega (arith, div-add-mod' a.window_length a.window_slide, v.whole) in
    let high = le-div_iff_mul-le {x = i} {y = ts - start} v.some_slide in
    let low = div-lt_iff_lt-mul {x = ts - start} {y = i + n} v.some_slide in
    let sum : (i + n) * a.window_slide ≡ i * a.window_slide + a.window_length =
      omega (arith, whole) in
    let some_window : 0 < n = (le-div_iff_mul-le v.some_slide).1 (omega (arith, v.long)) in
    let about_floor = floor_iff n c i some_window in
    rw d (
      (λ p. (omega (arith, high.0 p.1), omega (arith, low.0 (about_floor.0 p.0), sum))),
      (λ p. (about_floor.1 (low.1 (omega (arith, sum, p.1))), high.1 (omega (arith, p.0)))),
    )

-- The trigger of the highest window of an element is scheduled for an end that lies after the element,
-- by no more than the length of a window, and the late arrival time is added to it. That holds also for an
-- element from before the start of its key, where the index of the window wraps. The assigner is one
-- that `new` accepts, the key has a start, and the times do not reach the end of their range.
pub new_window_trigger-ceil_of :
    {IN OUT S T : Type 0} (window : Window IN OUT S) (timer : Timer T) (get_key : IN → ℕ)
    (a : EventTimeWindowAssigner) (key start ts : ℕ) (s : State OUT S T)
    → IsAssigner a
    → get ℕ_discrete key s.window_start ≡ some start
    → start < u64_mod
    → ts + a.window_length < u64_mod
    → (end : ℕ) × (new_window_trigger window timer get_key a key (ceil_of a start ts) s
        ≡ elim (timer.schedule_at
              ((end + a.late_arrival_time) % u64_mod)
              (record { key = key; index = ceil_of a start ts; timestamp = end })
              s.timer)
            as (λ _. Res (State OUT S T)) [ none ↦ panic | some t ↦ ok (record s { timer = t }) ])
      × (ts < end)
      × (end ≤ ts + a.window_length)
unfolding new_window_trigger ceil_of
new_window_trigger-ceil_of window timer get_key a key start ts s v e k l =
    let x = (ts + u64_mod - start) % u64_mod in
    let m = (x / a.window_slide) * a.window_slide in
    let d = div-add-mod' x a.window_slide in
    let over : x < m + a.window_slide = omega (arith, lt-div-mul-add {a = x} v.some_slide) in
    let under : m ≤ x = omega (arith, d) in
    (
      (start + m + a.window_length) % u64_mod,
      rw (e, new_window_trigger) refl,
      omega (arith, over, under, v.long),
      omega (arith, over, under, v.long),
    )
