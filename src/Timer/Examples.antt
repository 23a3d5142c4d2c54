-- ===== src/Timer/Examples.antt =====
-- A wheel for one timeout, and instances of the theorems on the timer.
use arcon.Common.{
  ℕ, ◌-◌, ◌<◌, ◌≡◌, refl, Option, none, some, [], ◌∷◌, ok, arith, ltb, ◌==◌, if◌then◌else◌,
  ℕ_discrete,
}
use arcon.Common.Assoc.{get, remove}
use arcon.Timer.{
  Skip, Inserted, Wheel, EventTimer, advance_to, advance_by, tick_and_collect, skip_by, add_time,
  set_time, collect, take_entry,
}
use arcon.Timer.Advance.{EndsAt, advance_to-EndsAt}

-- What is left until the timeout.
abbrev OneTimeout : Type 0
OneTimeout = Option (ℕ × ℕ)

abbrev one_wheel : Wheel OneTimeout
one_wheel = record {
  insert_with_delay =
      λ id delay w. if delay == 0 then Inserted.expired else Inserted.inserted (some (id, delay));
  can_skip = λ w. elim w [
    | none ↦ Skip.empty
    | some e ↦ if ltb 1 e.1 then Skip.millis (e.1 - 1) else Skip.no_skip
  ];
  skip = λ n w. elim w [ none ↦ none | some e ↦ some (e.0, e.1 - n) ];
  tick = λ w. elim w [ none ↦ ([], none) | some e ↦ (e.0 ∷ [], none) ];
}

one_wheel_skips : (w : OneTimeout) (k : ℕ) → one_wheel.can_skip w ≡ Skip.millis k → 0 < k
one_wheel_skips none k e = absurd (ground arith)
one_wheel_skips (some (id, left)) k e = ground arith

-- A timeout that is due at 130.
abbrev at_100 : EventTimer ℕ OneTimeout
at_100 = record {
  timer = some (3, 30);
  current_time = some 100;
  timeouts = (3, record { time_when_scheduled = 100; timeout_millis = 30; payload = 42 }) ∷ [];
}

advance_run :
    advance_to one_wheel 150 at_100
    ≡ ok (record { timer = none; current_time = some 150; timeouts = [] }, 42 ∷ [])
unfolding advance_to advance_by tick_and_collect skip_by add_time set_time collect take_entry get
    remove ℕ_discrete
advance_run = refl

advance_to-EndsAt_example :
    EndsAt one_wheel one_wheel_skips
      (if ltb 150 100 then 100 else 150)
      (advance_to one_wheel 150 at_100)
advance_to-EndsAt_example =
    advance_to-EndsAt one_wheel one_wheel_skips 150 100 at_100 refl (omega arith)
