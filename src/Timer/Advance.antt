-- ===== src/Timer/Advance.antt =====
-- `advance_to` comes to its end, and the timer then stands at the given time.
use arcon.Common.{
  ℕ, zero, suc, ◌+◌, ◌-◌, ◌%◌, ◌<◌, ◌≡◌, refl, sym, ap, subst, ◌∙◌, ◌⊎◌, inl, inr, Option, some,
  List, [], ◌∷◌, Res, ok, ◌>>=◌, or_panic, arith, ltb, leb, ◌==◌, if◌then◌else◌, u64_mod,
  Bool-cases,
}
use arcon.Timer.{
  Skip, Wheel, EventTimer, set_time, add_time, take_entry, collect, skip_by, tick_and_collect,
  u32_max, advance_by, advance_to,
}

skip_cases : (s : Skip) → (s ≡ Skip.empty) ⊎ ((k : ℕ) × (s ≡ Skip.millis k)) ⊎ (s ≡ Skip.no_skip)
skip_cases Skip.empty = inl refl
skip_cases (Skip.millis k) = inr (inl (k, refl))
skip_cases Skip.no_skip = inr (inr refl)

module _ {E W : Type 0} (wheel : Wheel W)
    (skips : (w : W) (k : ℕ) → wheel.can_skip w ≡ Skip.millis k → 0 < k) where
  -- A call that ends with the timer at this time.
  abbrev pub EndsAt : ℕ → Res (EventTimer E W × List E) → Type 0
  EndsAt ts r =
      (t : EventTimer E W) × (res : List E) × (r ≡ ok (t, res)) × (t.current_time ≡ some ts)

  add_time_lem :
      (by cur : ℕ) (t : EventTimer E W)
      → t.current_time ≡ some cur
      → cur + by < u64_mod
      → (t' : EventTimer E W) × (add_time by t ≡ ok t') × (t'.current_time ≡ some (cur + by))
  unfolding add_time set_time
  add_time_lem by cur t e h =
      let small : (cur + by) % u64_mod ≡ cur + by = omega arith in
      subst
        (λ (r : Option ℕ).
          (t' : EventTimer E W) × ((or_panic r >>= λ cur'. ok (set_time ((cur' + by) % u64_mod) t))
            ≡ ok t')
          × (t'.current_time ≡ some (cur + by)))
        (sym e) (_, refl, ap some small)

  later : (a b : ℕ) (r : Res (EventTimer E W × List E)) → a ≡ b → EndsAt a r → EndsAt b r
  later a b r h e = subst (λ c. EndsAt c r) h e

  collect-same :
      (ids : List ℕ) (t : EventTimer E W) (res : List E)
      → (collect ids t res).0.current_time ≡ t.current_time
  unfolding collect take_entry
  collect-same [] t res = refl
  collect-same (id ∷ ids) t res = collect-same ids _ _

  tick_and_collect-EndsAt :
      (fuel time_left cur : ℕ) (t : EventTimer E W) (res : List E)
      → time_left < fuel
      → t.current_time ≡ some cur
      → cur + time_left < u64_mod
      → EndsAt (cur + time_left) (tick_and_collect wheel fuel time_left t res)
  unfolding tick_and_collect skip_by
  tick_and_collect-EndsAt zero time_left cur t res f e h = absurd (omega arith)
  tick_and_collect-EndsAt (suc fuel) time_left cur t res f e h =
      elim (Bool-cases (time_left == 0)) [
        | inl done ↦ rw done (t, res, refl, e ∙ ap some (ground arith))
        | inr more ↦ elim (skip_cases (wheel.can_skip t.timer)) [
          | inl is_empty ↦
              let (t', r, s) = add_time_lem time_left cur t e h in
              rw more (rw is_empty (rw r (t', res, refl, s)))
          | inr (inl (k, can)) ↦ elim (Bool-cases (leb time_left k)) [
            | inl far ↦
                let (t', r, s) =
                  add_time_lem time_left cur (record t { timer = wheel.skip time_left t.timer }) e
                    h in
                rw more (rw can (rw far (rw r (t', res, refl, s))))
            | inr near ↦
                let below : k < time_left = ground arith in
                let (t', r, s) =
                  add_time_lem k cur (record t { timer = wheel.skip k t.timer }) e (omega arith) in
                rw more (
                  rw can (
                    rw near (
                      rw r (
                        later (cur + k + (time_left - k)) (cur + time_left) _ (omega arith) (
                          tick_and_collect-EndsAt fuel (time_left - k) (cur + k) t' res
                            (omega (arith, skips t.timer k can)) s (omega arith))))))
          ]
          | inr (inr ticks) ↦
              let due = wheel.tick t.timer in
              let c = collect due.0 (record t { timer = due.1 }) res in
              let some_left : 0 < time_left = ground arith in
              let (t', r, s) =
                add_time_lem 1 cur c.0 (collect-same due.0 (record t { timer = due.1 }) res ∙ e)
                  (omega arith) in
              rw more (
                rw ticks (
                  rw r (
                    later (cur + 1 + (time_left - 1)) (cur + time_left) _ (omega arith) (
                      tick_and_collect-EndsAt fuel (time_left - 1) (cur + 1) t' c.1 (omega arith) s
                        (omega arith)))))
        ]
      ]

  advance_by-EndsAt :
      (fuel time_left cur : ℕ) (t : EventTimer E W) (res : List E)
      → time_left < fuel
      → t.current_time ≡ some cur
      → cur + time_left < u64_mod
      → EndsAt (cur + time_left) (advance_by wheel fuel time_left t res)
  unfolding advance_by
  advance_by-EndsAt zero time_left cur t res f e h = absurd (omega arith)
  advance_by-EndsAt (suc fuel) time_left cur t res f e h =
      elim (Bool-cases (ltb u32_max time_left)) [
        | inl long ↦
            let above : u32_max < time_left = ground arith in
            let (t', res', r, s) =
              tick_and_collect-EndsAt (suc u32_max) u32_max cur t res (omega arith) e
                (omega arith) in
            rw long (
              rw r (
                later (cur + u32_max + (time_left - u32_max)) (cur + time_left) _ (omega arith) (
                  advance_by-EndsAt fuel (time_left - u32_max) (cur + u32_max) t' res' (omega arith)
                    s (omega arith))))
        | inr short ↦
            rw short (tick_and_collect-EndsAt (suc time_left) time_left cur t res (omega arith) e h)
      ]

  -- `advance_to` comes to its end, whatever the wheel holds: its loops do not run out of fuel. The
  -- timer then stands at the given time, or where it stood if that is later. The wheel never offers to
  -- skip no time at all, and the timer has a time.
  pub advance_to-EndsAt :
      (ts cur : ℕ) (t : EventTimer E W)
      → t.current_time ≡ some cur
      → ts < u64_mod
      → EndsAt (if ltb ts cur then cur else ts) (advance_to wheel ts t)
  unfolding advance_to
  advance_to-EndsAt ts cur t e h = elim (Bool-cases (ltb ts cur)) [
    | inl early ↦ rw early (
        subst
          (λ (r : Option ℕ). EndsAt cur (
            or_panic r >>= λ cur'.
            if ltb ts cur'
            then ok (t, [])
            else advance_by wheel (suc (ts - cur')) (ts - cur') t []))
          (sym e) (rw early (t, [], refl, e)))
    | inr due ↦ rw due (
        subst
          (λ (r : Option ℕ). EndsAt ts (
            or_panic r >>= λ cur'.
            if ltb ts cur'
            then ok (t, [])
            else advance_by wheel (suc (ts - cur')) (ts - cur') t []))
          (sym e)
          (rw due (
            later (cur + (ts - cur)) ts _ (ground arith) (
              advance_by-EndsAt (suc (ts - cur)) (ts - cur) cur t [] (omega arith) e
                (ground arith)))))
  ]
