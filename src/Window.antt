-- ===== src/Window.antt =====
-- execution-plane/arcon/src/stream/operator/window/event_time.rs: the operator that puts elements
-- into windows of event time. What a window does with its elements, the user's state and the timer
-- are parameters. Sums, products and differences of `u64` wrap.
pub mod Assignment
pub mod Effects
pub mod Appender
pub mod Incremental
pub mod Merging
mod Examples
use arcon.Common.{
  ℕ, zero, suc, ◌+◌, ◌-◌, ◌*◌, ◌/◌, ◌%◌, Bool, true, false, Option, none, some, List, [], ◌∷◌, ◌++◌,
  Res, ok, panic, ◌>>=◌, not, ltb, leb, ◌==◌, if◌then◌else◌, u64_mod, ℕ_discrete,
}
use arcon.Common.Assoc.{get, insert, remove, is_some}
use arcon.Data.{ArconElement, ArconEvent, with_timestamp}

abbrev pub KeyAndIndex : Type 0
KeyAndIndex = ℕ × ℕ

unfoldable pub pair_discrete : Discrete KeyAndIndex
unfolding ℕ_discrete
pair_discrete = hlevel ℕ_discrete

pub record WindowEvent : Type 0 where
  pub key : ℕ
  pub index : ℕ
  pub timestamp : ℕ

pub record EventTimeWindowAssigner : Type 0 where
  pub window_length : ℕ
  pub window_slide : ℕ
  pub late_arrival_time : ℕ
  pub keyed : Bool

-- The checks of `new`; a slide of 0 panics in the remainder.
unfoldable pub new : ℕ → ℕ → ℕ → Bool → Res EventTimeWindowAssigner
new length slide late keyed =
    if ltb length slide
    then panic
    else if slide == 0
    then panic
    else if not (length % slide == 0)
    then panic
    else ok (record {
      window_length = length;
      window_slide = slide;
      late_arrival_time = late;
      keyed = keyed;
    })

-- The trait `Window`, by key and index.
pub record Window (IN OUT S : Type 0) : Type 0 where
  pub on_element : IN → ℕ → ℕ → S → Res S
  pub result : ℕ → ℕ → S → Res OUT
  pub clear : ℕ → ℕ → S → Res S

-- The calls of the timer: scheduling fails for a time that has passed.
pub record Timer (T : Type 0) : Type 0 where
  pub current_time : T → ℕ
  pub schedule_at : ℕ → WindowEvent → T → Option T

-- The persistent state of the assigner, the state of the windows, the timer, and what is put out.
pub record State (OUT S T : Type 0) : Type 0 where
  pub window_start : List (ℕ × ℕ)
  pub active_windows : List (KeyAndIndex × Unit {0})
  pub session : S
  pub timer : T
  pub sent : List (ArconEvent OUT)

abbrev pub timestamp_or_one : Option ℕ → ℕ
timestamp_or_one none = 1
timestamp_or_one (some ts) = ts

-- The highest window of an element, and the lowest.
unfoldable pub ceil_of : EventTimeWindowAssigner → ℕ → ℕ → ℕ
ceil_of a start ts = (ts + u64_mod - start) % u64_mod / a.window_slide

unfoldable pub floor_of : EventTimeWindowAssigner → ℕ → ℕ
floor_of a ceil = let n = a.window_length / a.window_slide in if leb n ceil then ceil - n + 1 else 0

module _ {IN OUT S T : Type 0} (window : Window IN OUT S) (timer : Timer T) (get_key : IN → ℕ)
    (a : EventTimeWindowAssigner) where
  unfoldable pub new_window_trigger : ℕ → ℕ → State OUT S T → Res (State OUT S T)
  new_window_trigger key index s = elim (get ℕ_discrete key s.window_start) [
    | none ↦ panic
    | some w_start ↦
        let ts = (w_start + index * a.window_slide + a.window_length) % u64_mod in
        elim (timer.schedule_at ((ts + a.late_arrival_time) % u64_mod)
          (record { key = key; index = index; timestamp = ts }) s.timer) [
            | none ↦ panic
            | some t ↦ ok (record s { timer = t })
          ]
  ]

  abbrev pub key_of : ArconElement IN → ℕ
  key_of e = if a.keyed then get_key e.payload else 0

  -- The body of the loop over the windows of an element.
  unfoldable pub insert_into : IN → ℕ → ℕ → State OUT S T → Res (State OUT S T)
  unfolding new_window_trigger
  insert_into v key index s = window.on_element v key index s.session >>= λ session.
      let s' = record s { session = session } in
      if is_some (get pair_discrete (key, index) s.active_windows)
      then ok s'
      else new_window_trigger key index
          (record s' { active_windows = insert pair_discrete (key, index) tt s.active_windows })

  -- The loop, from an index on, over so many windows.
  unfoldable pub insert_all : IN → ℕ → ℕ → ℕ → State OUT S T → Res (State OUT S T)
  unfolding insert_into
  insert_all v key index zero s = ok s
  insert_all v key index (suc count) s =
      insert_into v key index s >>= insert_all v key (index + 1) count

  unfoldable pub handle_element : ArconElement IN → State OUT S T → Res (State OUT S T)
  unfolding insert_all ceil_of floor_of
  handle_element e s =
      let ts = timestamp_or_one e.timestamp in
      let key = key_of e in
      if ltb ts (timer.current_time s.timer - a.late_arrival_time)
      then ok s
      else elim (get ℕ_discrete key s.window_start) [
        | some start ↦
            let ceil = ceil_of a start ts in
            let floor = floor_of a ceil in insert_all e.payload key floor (ceil + 1 - floor) s
        | none ↦
            insert_all e.payload key 0 1
              (record s { window_start = insert ℕ_discrete key ts s.window_start })
      ]

  unfoldable pub handle_timeout : WindowEvent → State OUT S T → Res (State OUT S T)
  handle_timeout e s = window.result e.key e.index s.session >>= λ out.
      window.clear e.key e.index s.session >>= λ session. ok (record s {
        session = session;
        active_windows = remove pair_discrete (e.key, e.index) s.active_windows;
        sent = s.sent ++ ArconEvent.element (with_timestamp out e.timestamp) ∷ [];
      })
