-- ===== src/Timer.antt =====
-- execution-plane/arcon/src/timer/event_timer.rs: timeouts in event time. The hash wheel is the crate
-- hierarchical_hash_wheel_timer, a parameter, as is the id that a new timeout gets from the crate
-- uuid. The calls of the state backend are taken to succeed; `u64` sums wrap.
pub mod Advance
mod Examples
use arcon.Common.{
  ℕ, zero, suc, ◌+◌, ◌-◌, ◌%◌, Bool, true, false, Option, none, some, List, [], ◌∷◌, ◌++◌, Res, ok,
  panic, out_of_fuel, ◌>>=◌, or_panic, ltb, leb, ◌==◌, if◌then◌else◌, u32_mod, u64_mod, ℕ_discrete,
}
use arcon.Common.Assoc.{get, insert, remove}

-- `Skip`, of the wheel's crate.
pub data Skip : Type 0 where
  empty : Skip
  millis : ℕ → Skip
  no_skip : Skip

-- The result of an insertion: the delay may have expired, or another error may occur.
pub data Inserted (W : Type 0) : Type 0 where
  inserted : W → Inserted W
  expired : Inserted W
  failed : Inserted W

-- The calls of `QuadWheelWithOverflow` that the timer makes.
pub record Wheel (W : Type 0) : Type 0 where
  pub insert_with_delay : ℕ → ℕ → W → Inserted W
  pub can_skip : W → Skip
  pub skip : ℕ → W → W
  pub tick : W → List ℕ × W

pub record EventTimerEvent (E : Type 0) : Type 0 where
  pub time_when_scheduled : ℕ
  pub timeout_millis : ℕ
  pub payload : E

-- The wheel and the persistent state.
pub record EventTimer (E W : Type 0) : Type 0 where
  pub timer : W
  pub current_time : Option ℕ
  pub timeouts : List (ℕ × EventTimerEvent E)

-- A timeout is scheduled, or given back.
pub data Scheduled (E W : Type 0) : Type 0 where
  done : EventTimer E W → Scheduled E W
  refused : E → EventTimer E W → Scheduled E W

abbrev pub u32_max : ℕ
u32_max = 4294967295

module _ {E W : Type 0} where
  unfoldable pub set_time : ℕ → EventTimer E W → EventTimer E W
  set_time ts t = record t { current_time = some ts }

  unfoldable pub add_time : ℕ → EventTimer E W → Res (EventTimer E W)
  unfolding set_time
  add_time by t = or_panic t.current_time >>= λ cur. ok (set_time ((cur + by) % u64_mod) t)

  unfoldable pub take_entry : ℕ → EventTimer E W → Option E × EventTimer E W
  take_entry id t = (
    elim (get ℕ_discrete id t.timeouts) [ none ↦ none | some e ↦ some e.payload ],
    record t { timeouts = remove ℕ_discrete id t.timeouts },
  )

  unfoldable pub put_entry : ℕ → EventTimerEvent E → EventTimer E W → EventTimer E W
  put_entry id e t = record t { timeouts = insert ℕ_discrete id e t.timeouts }

  -- The loop over what a tick has returned.
  unfoldable pub collect : List ℕ → EventTimer E W → List E → EventTimer E W × List E
  unfolding take_entry
  collect [] t res = (t, res)
  collect (id ∷ ids) t res =
      let r = take_entry id t in collect ids r.1 (elim r.0 [ none ↦ res | some e ↦ res ++ e ∷ [] ])

  module _ (wheel : Wheel W) where
    unfoldable pub skip_by : ℕ → EventTimer E W → Res (EventTimer E W)
    unfolding add_time
    skip_by ms t = add_time ms (record t { timer = wheel.skip ms t.timer })

    -- `tick_and_collect`, each round of which takes at least a millisecond off.
    unfoldable pub tick_and_collect :
        ℕ → ℕ → EventTimer E W → List E → Res (EventTimer E W × List E)
    unfolding skip_by add_time collect
    tick_and_collect zero time_left t res = out_of_fuel
    tick_and_collect (suc fuel) time_left t res =
        let again : ℕ → EventTimer E W → List E → Res (EventTimer E W × List E) =
          tick_and_collect fuel in
        if time_left == 0 then ok (t, res) else elim (wheel.can_skip t.timer) [
          | Skip.empty ↦ add_time time_left t >>= λ t'. ok (t', res)
          | Skip.millis skip_ms ↦
              if leb time_left skip_ms
              then (skip_by time_left t >>= λ t'. ok (t', res))
              else skip_by skip_ms t >>= λ t'. again (time_left - skip_ms) t' res
          | Skip.no_skip ↦
              let due = wheel.tick t.timer in
              let r = collect due.0 (record t { timer = due.1 }) res in
              add_time 1 r.0 >>= λ t'. again (time_left - 1) t' r.1
        ]

    -- The loop of `advance_to` over spans of the wheel's width, and the last call.
    unfoldable pub advance_by : ℕ → ℕ → EventTimer E W → List E → Res (EventTimer E W × List E)
    unfolding tick_and_collect
    advance_by zero time_left t res = out_of_fuel
    advance_by (suc fuel) time_left t res =
        let again : ℕ → EventTimer E W → List E → Res (EventTimer E W × List E) = advance_by fuel in
        if ltb u32_max time_left
        then (tick_and_collect (suc u32_max) u32_max t res >>= λ r.
            again (time_left - u32_max) r.0 r.1)
        else tick_and_collect (suc time_left) time_left t res

    unfoldable pub advance_to : ℕ → EventTimer E W → Res (EventTimer E W × List E)
    unfolding advance_by
    advance_to ts t = or_panic t.current_time >>= λ cur.
        if ltb ts cur then ok (t, []) else advance_by (suc (ts - cur)) (ts - cur) t []

    unfoldable pub schedule_after : ℕ → ℕ → E → EventTimer E W → Res (Scheduled E W)
    unfolding put_entry
    schedule_after id delay entry t = elim (wheel.insert_with_delay id delay t.timer) [
      | Inserted.inserted w ↦ or_panic t.current_time >>= λ cur. ok (
          Scheduled.done (
            put_entry id
              (record { time_when_scheduled = cur; timeout_millis = delay; payload = entry })
              (record t { timer = w })))
      | Inserted.expired ↦ ok (Scheduled.refused entry t)
      | Inserted.failed ↦ panic
    ]

    unfoldable pub schedule_at : ℕ → ℕ → E → EventTimer E W → Res (Scheduled E W)
    unfolding schedule_after
    schedule_at id time entry t = or_panic t.current_time >>= λ cur.
        if leb time cur
        then ok (Scheduled.refused entry t)
        else schedule_after id (time - cur) entry t
