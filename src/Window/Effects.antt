-- ===== src/Window/Effects.antt =====
-- What becomes of the windows that an element goes into, and of those whose time has come.
use arcon.Common.{
  ℕ, zero, suc, ◌+◌, ◌-◌, ◌*◌, ◌≤◌, ◌<◌, ◌≡◌, refl, sym, ap, ◌∙◌, subst, true, false, some, List,
  Res, ok, panic, ◌>>=◌, arith, ltb, u64_mod, ℕ_discrete, Bool-cases, dec_le, ◌⊎◌, inl, inr,
}
use arcon.Common.Assoc.{get, insert, is_some, get-insert_self, get-insert}
use arcon.Data.{ArconElement}
use arcon.Window.Assignment.{IsAssigner, floor_of-ceil_of}
use arcon.Window.{
  ceil_of, floor_of, key_of, EventTimeWindowAssigner, KeyAndIndex, pair_discrete, Window, Timer,
  State, new_window_trigger, insert_into, insert_all, handle_element, timestamp_or_one,
}

-- The windows that a list of active windows holds.
abbrev pub IsActive : {OUT S T : Type 0} → KeyAndIndex → State OUT S T → Type 0
IsActive p s = is_some (get pair_discrete p s.active_windows) ≡ true

-- A chain that gives a value: its first call has given one.
bind-ok :
    {A B : Type 0} (m : Res A) (f : A → Res B) (b : B)
    → (m >>= f) ≡ ok b
    → (x : A) × (m ≡ ok x) × (f x ≡ ok b)
bind-ok (ok x) f b e = (x, refl, e)
bind-ok (Res.err x) f b e = absurd (ground (arith, e))
bind-ok panic f b e = absurd (ground (arith, e))
bind-ok Res.out_of_fuel f b e = absurd (ground (arith, e))

ok-injective : {A : Type 0} {x y : A} → ok x ≡ ok y → x ≡ y
ok-injective e = ground (arith, e)

insert-active :
    (q p : KeyAndIndex) (m : List (KeyAndIndex × Unit {0}))
    → (p ≡ q) ⊎ (is_some (get pair_discrete p m) ≡ true)
    → is_some (get pair_discrete p (insert pair_discrete q tt m)) ≡ true
insert-active q p m (inl e) = rw e (rw (get-insert_self pair_discrete q tt m) refl)
insert-active q p m (inr h) = ground (arith, get-insert pair_discrete q p tt m)

module _ {IN OUT S T : Type 0} (window : Window IN OUT S) (timer : Timer T) (get_key : IN → ℕ)
    (a : EventTimeWindowAssigner) where
  trigger-same :
      (key index : ℕ) (s s' : State OUT S T)
      → new_window_trigger window timer get_key a key index s ≡ ok s'
      → (s'.active_windows ≡ s.active_windows) × (s'.session ≡ s.session)
  unfolding new_window_trigger
  trigger-same key index s s' e = ground arith

  abbrev activated : KeyAndIndex → S → State OUT S T → State OUT S T
  activated p session s = record s {
    session = session;
    active_windows = insert pair_discrete p tt s.active_windows;
  }

  -- Whichever branch is taken, the window has been given the element, and is active.
  insert_into-facts :
      (v : IN) (key index : ℕ) (s s' : State OUT S T)
      → insert_into window timer get_key a v key index s ≡ ok s'
      → (window.on_element v key index s.session ≡ ok s'.session)
        × ((p : KeyAndIndex) → (p ≡ (key, index)) ⊎ IsActive p s → IsActive p s')
  unfolding insert_into
  insert_into-facts v key index s s' e =
      let (session, called, rest) = bind-ok (window.on_element v key index s.session) _ s' e in
      elim (Bool-cases (is_some (get pair_discrete (key, index) s.active_windows))) [
        | inl known ↦
            let same : record s { session = session } ≡ s' = ok-injective (rw known at rest) in
            (
              called ∙ ap (λ (t : State OUT S T). ok t.session) same,
              λ p h.
                  subst (IsActive p) same
                    (elim h [ inl at_key ↦ rw at_key known | inr before ↦ before ]),
            )
        | inr fresh ↦
            let t =
              trigger-same key index (activated (key, index) session s) s' (rw fresh at rest) in
            (
              called ∙ ap ok (sym t.1),
              λ p h. rw t.0 (insert-active (key, index) p s.active_windows h),
            )
      ]

  -- The state of the windows after the element has been given to so many of them, from an index on.
  abbrev pub on_all : IN → ℕ → ℕ → ℕ → S → Res S
  on_all v key index zero session = ok session
  on_all v key index (suc count) session =
      window.on_element v key index session >>= on_all v key (index + 1) count

  -- When the loop over the windows of an element comes to its end, each window from the first to the
  -- last has been given the element once, in order, and each of them is active; no window has become
  -- inactive.
  pub insert_all-IsActive :
      (v : IN) (key index count : ℕ) (s s' : State OUT S T)
      → insert_all window timer get_key a v key index count s ≡ ok s'
      → (on_all v key index count s.session ≡ ok s'.session)
        × ((i : ℕ) → index ≤ i → i < index + count → IsActive (key, i) s')
        × ((p : KeyAndIndex) → IsActive p s → IsActive p s')
  unfolding insert_all
  insert_all-IsActive v key index zero s s' e =
      let same = ok-injective e in
      (
        ap (λ (t : State OUT S T). ok t.session) same,
        λ i h k. absurd (omega arith),
        λ p h. subst (IsActive p) same h,
      )
  insert_all-IsActive v key index (suc count) s s' e =
      let (s1, first, rest) = bind-ok (insert_into window timer get_key a v key index s) _ s' e in
      let f = insert_into-facts v key index s s1 first in
      let r = insert_all-IsActive v key (index + 1) count s1 s' rest in
      (
        rw f.0 r.0,
        λ i h k. elim (dec_le (index + 1) i) [
          | yes later ↦ r.1 i later (omega arith)
          | no here ↦ r.2 (key, i) (f.1 (key, i) (inl (ap (λ j. (key, j)) (omega arith))))
        ],
        λ p h. r.2 p (f.1 p (inr h)),
      )

  -- An element that is not late leaves active every window of its key whose span of time holds its
  -- timestamp. The key has started, and not after the timestamp, the assigner is one that `new`
  -- accepts, and no call of the window or the timer has failed.
  pub handle_element-IsActive :
      (e : ArconElement IN) (s s' : State OUT S T) (start i : ℕ)
      → IsAssigner a
      → get ℕ_discrete (key_of window timer get_key a e) s.window_start ≡ some start
      → timer.current_time s.timer - a.late_arrival_time ≤ timestamp_or_one e.timestamp
      → start ≤ timestamp_or_one e.timestamp
      → timestamp_or_one e.timestamp < u64_mod
      → handle_element window timer get_key a e s ≡ ok s'
      → start + i * a.window_slide ≤ timestamp_or_one e.timestamp
      → timestamp_or_one e.timestamp < start + i * a.window_slide + a.window_length
      → IsActive (key_of window timer get_key a e, i) s'
  unfolding handle_element
  handle_element-IsActive e s s' start i v h fits le small done lo hi =
      let ts = timestamp_or_one e.timestamp in
      let timely : ltb ts (timer.current_time s.timer - a.late_arrival_time) ≡ false =
        ground arith in
      let (above, below) = (floor_of-ceil_of a start ts i v le small).1 (lo, hi) in
      let c = ceil_of a start ts in
      let past_guard = rw timely at done in
      let looped = rw h at past_guard in
      (insert_all-IsActive e.payload (key_of window timer get_key a e) (floor_of a c)
          (c + 1 - floor_of a c) s s' looped).1
        i above (omega arith)
