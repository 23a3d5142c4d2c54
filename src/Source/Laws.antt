-- ===== src/Source/Laws.antt =====
-- The source over a collection: it sends everything, however it is cut into rounds, and closes with a
-- watermark that no element is beyond.
use arcon.Common.{
  ℕ, zero, suc, ◌+◌, ◌-◌, ◌≤◌, ◌<◌, ◌≡◌, refl, sym, ap, subst, ◌∙◌, ◌⊎◌, inl, inr, true, none, some,
  List, [], ◌∷◌, ◌++◌, append-nil, arith, min, Res, ok, length, take, drop, All, ltb, ◌==◌,
  if◌then◌else◌, Bool-cases,
}
use arcon.Common.Assoc.{is_some}
use mathlib.Core.Path.{ap₂}
use arcon.Data.{ArconElement, ArconEvent, new_element, with_timestamp}
use arcon.Node.Defs.{Operator}
use arcon.Source.{
  SourceContext, watermark_update, extract_element, process, generate_watermark, add_event,
}
use arcon.Source.Collection.{
  reschedule_every, CollectionSource, new_source, on_start, trigger, send_record, send_records,
  process_collection, run,
}

take-drop : {A : Type 0} (n : ℕ) (xs : List A) → take n xs ++ drop n xs ≡ xs
take-drop zero xs = refl
take-drop (suc n) [] = refl
take-drop (suc n) (x ∷ xs) = ap (◌∷◌ x) (take-drop n xs)

length-drop : {A : Type 0} (n : ℕ) (xs : List A) → length (drop n xs) ≡ length xs - n
length-drop zero xs = omega arith
length-drop (suc n) [] = omega arith
length-drop (suc n) (x ∷ xs) = omega (arith, length-drop n xs)

nil_of_length : {A : Type 0} (xs : List A) → length xs ≡ 0 → xs ≡ []
nil_of_length [] h = refl
nil_of_length (x ∷ xs) h = absurd (omega arith)

module _ {IN OUT TS S T : Type 0} (op : Operator IN OUT TS S T) (clock : ℕ → ℕ) where
  abbrev pub Sending : Type 0
  Sending = SourceContext IN OUT S T × ℕ

  send_records-append :
      (xs ys : List IN) (s : Sending)
      → send_records op clock (xs ++ ys) s ≡ send_records op clock ys (send_records op clock xs s)
  unfolding send_records
  send_records-append [] ys s = refl
  send_records-append (x ∷ xs) ys s = send_records-append xs ys (send_record op clock x s)

  abbrev closed : Sending → CollectionSource IN OUT S T
  closed r = record {
    source_ctx = generate_watermark clock r.0;
    collection = [];
    counter = r.1;
    pending = 0;
  }

  -- All of a collection in one go, and the closing watermark.
  abbrev pub finished : List IN → Sending → CollectionSource IN OUT S T
  finished xs s = closed (send_records op clock xs s)

  abbrev waiting : List IN → Sending → CollectionSource IN OUT S T
  waiting xs s = record { source_ctx = s.0; collection = xs; counter = s.1; pending = 0 }

  -- One round: it was the last one, or the rest waits for the next.
  Round : ℕ → List IN → Sending → Type 0
  Round n xs s =
      ((drop n xs ≡ []) × (process_collection op clock (waiting xs s) ≡ finished xs s))
      ⊎ ((0 < n)
          × (process_collection op clock (waiting xs s)
              ≡ trigger (waiting (drop n xs) (send_records op clock (take n xs) s))))

  round : (xs : List IN) (s : Sending) → Round (min reschedule_every (length xs)) xs s
  unfolding process_collection Round
  round xs s =
      let n : ℕ = min reschedule_every (length xs) in
      elim (Bool-cases (length (drop n xs) == 0)) [
        | inl e ↦
            let d : drop n xs ≡ [] = nil_of_length (drop n xs) (ground arith) in
            let t : take n xs ≡ xs =
              sym (append-nil (take n xs)) ∙ (ap (λ l. take n xs ++ l) (sym d) ∙ take-drop n xs) in
            inl (d, rw e (ap₂ (λ l m. record (finished l s) { collection = m }) t d))
        | inr e ↦ inr (ground (arith, length-drop n xs), rw e refl)
      ]

  run_done :
      (fuel : ℕ) (s : CollectionSource IN OUT S T)
      → 0 < fuel
      → s.pending ≡ 0
      → run op clock fuel s ≡ ok s
  unfolding run
  run_done zero s h e = absurd (omega arith)
  run_done (suc fuel) s h e = let z : (s.pending == 0) ≡ true = ground arith in rw (z, run) refl

  run_waiting :
      (fuel : ℕ) (xs : List IN) (s : Sending)
      → suc (length xs) < fuel
      → run op clock fuel (trigger (waiting xs s)) ≡ ok (finished xs s)
  unfolding run Round
  run_waiting zero xs s h = absurd (omega arith)
  run_waiting (suc fuel) xs s h =
      let n : ℕ = min reschedule_every (length xs) in
      elim (round xs s) [
        | inl (d, e) ↦ rw e (run_done fuel (finished xs s) (omega arith) refl)
        | inr (pos, e) ↦ rw e (
            run_waiting fuel (drop n xs) (send_records op clock (take n xs) s)
              (omega (arith, length-drop n xs))
            ∙ ap (λ r. ok (closed r))
                (sym (send_records-append (take n xs) (drop n xs) s)
                  ∙ ap (λ l. send_records op clock l s) (take-drop n xs)))
      ]

  -- A source that is started works through its whole collection and comes to rest: it has done what one
  -- pass over all the records does, and sent a closing watermark, however the records were cut into
  -- rounds. A round for each record and two more are enough.
  pub run-finished :
      (fuel : ℕ) (xs : List IN) (c : SourceContext IN OUT S T)
      → suc (length xs) < fuel
      → run op clock fuel (on_start (new_source xs c)) ≡ ok (finished xs (c, 0))
  unfolding on_start new_source
  run-finished fuel xs c h = run_waiting fuel xs (c, 0) h

  -- The highest timestamp, above `w`.
  abbrev pub newest : (IN → ℕ) → ℕ → List IN → ℕ
  newest f w [] = w
  newest f w (x ∷ xs) = newest f (if ltb w (f x) then f x else w) xs

  le-newest : (f : IN → ℕ) (xs : List IN) (w : ℕ) → w ≤ newest f w xs
  le-newest f [] w = omega arith
  le-newest f (x ∷ xs) w = ground (arith, le-newest f xs (if ltb w (f x) then f x else w))

  All-newest : (f : IN → ℕ) (xs : List IN) (w : ℕ) → All (λ x. f x ≤ newest f w xs) xs
  All-newest f [] w = tt
  All-newest f (x ∷ xs) w =
      (ground (arith, le-newest f xs (if ltb w (f x) then f x else w)), All-newest f xs _)

  -- A source with an extractor does not look at the clock.
  generate_watermark_lem :
      (f : IN → ℕ) (c : SourceContext IN OUT S T)
      → c.ts_extractor ≡ some f
      → generate_watermark clock c ≡ add_event (ArconEvent.watermark c.current_watermark) c
  unfolding generate_watermark
  generate_watermark_lem f c e = let k : is_some c.ts_extractor ≡ true = rw e refl in rw k refl

  watermark_update_lem :
      (ts : ℕ) (c : SourceContext IN OUT S T)
      → ((watermark_update ts c).ts_extractor ≡ c.ts_extractor)
        × ((watermark_update ts c).current_watermark
            ≡ (if ltb c.current_watermark ts then ts else c.current_watermark))
  unfolding watermark_update
  watermark_update_lem ts c = elim (Bool-cases (ltb c.current_watermark ts)) [
    | inl e ↦ rw e (refl, refl)
    | inr e ↦ rw e (refl, refl)
  ]

  extract_element_lem :
      (f : IN → ℕ) (x : IN) (c : SourceContext IN OUT S T)
      → c.ts_extractor ≡ some f
      → (extract_element x c).1 ≡ watermark_update (f x) c
  unfolding extract_element
  extract_element_lem f x c e =
      subst
        (λ o.
          (elim o as (λ _. ArconElement IN × SourceContext IN OUT S T) [
            | none ↦ (new_element x, c)
            | some g ↦ (with_timestamp x (g x), watermark_update (g x) c)
          ]).1
          ≡ watermark_update (f x) c)
        (sym e) refl

  send_record_mark :
      (f : IN → ℕ) (x : IN) (s : Sending)
      → s.0.ts_extractor ≡ some f
      → ((send_record op clock x s).0.ts_extractor ≡ some f)
        × ((send_record op clock x s).0.current_watermark
            ≡ (if ltb s.0.current_watermark (f x) then f x else s.0.current_watermark))
  unfolding send_record process
  send_record_mark f x s e =
      let u = watermark_update_lem (f x) s.0 in
      let r = extract_element x s.0 in
      let q : r.1 ≡ watermark_update (f x) s.0 = extract_element_lem f x s.0 e in
      let k : r.1.ts_extractor ≡ some f = ap (λ c. c.ts_extractor) q ∙ (u.0 ∙ e) in
      let m : r.1.current_watermark
          ≡ (if ltb s.0.current_watermark (f x) then f x else s.0.current_watermark) =
        ap (λ c. c.current_watermark) q ∙ u.1 in
      elim (Bool-cases (s.1 + 1 == r.1.watermark_interval)) [
        | inl now ↦
            let g = generate_watermark_lem f (process op r.0 r.1) k in
            rw (now, send_record)
              (ap (λ c. c.ts_extractor) g ∙ k, ap (λ c. c.current_watermark) g ∙ m)
        | inr later ↦ rw (later, send_record) (k, m)
      ]

  send_records_mark :
      (f : IN → ℕ) (xs : List IN) (s : Sending)
      → s.0.ts_extractor ≡ some f
      → ((send_records op clock xs s).0.ts_extractor ≡ some f)
        × ((send_records op clock xs s).0.current_watermark ≡ newest f s.0.current_watermark xs)
  unfolding send_records
  send_records_mark f [] s e = (e, refl)
  send_records_mark f (x ∷ xs) s e =
      let r = send_record_mark f x s e in
      let ih = send_records_mark f xs (send_record op clock x s) r.0 in
      (ih.0, ih.1 ∙ ap (λ w. newest f w xs) r.1)

  -- What a source has sent at the end: the last event is a watermark, which no timestamp is beyond.
  abbrev pub Closing :
      (IN → ℕ) → List IN → SourceContext IN OUT S T → Res (CollectionSource IN OUT S T) → Type 0
  Closing f xs c r =
      (s : CollectionSource IN OUT S T) × (before : List (ArconEvent OUT)) × (w : ℕ) × (r ≡ ok s)
      × (s.source_ctx.world.sent ≡ before ++ ArconEvent.watermark w ∷ [])
      × (w ≡ newest f c.current_watermark xs)
      × All (λ x. f x ≤ w) xs

  -- The last event that a source with a timestamp extractor sends is a watermark: the highest timestamp
  -- of its records, or the watermark before them if that is higher. The rounds are enough for the records.
  pub run-Closing :
      (f : IN → ℕ) (fuel : ℕ) (xs : List IN) (c : SourceContext IN OUT S T)
      → c.ts_extractor ≡ some f
      → suc (length xs) < fuel
      → Closing f xs c (run op clock fuel (on_start (new_source xs c)))
  run-Closing f fuel xs c e h =
      let r = (send_records op clock xs (c, 0)).0 in
      let (k, m) = send_records_mark f xs (c, 0) e in
      (
        finished xs (c, 0),
        r.world.sent,
        r.current_watermark,
        run-finished fuel xs c h,
        ap (λ c. c.world.sent) (generate_watermark_lem f r k),
        m,
        subst (λ w. All (λ x. f x ≤ w) xs) (sym m) (All-newest f xs c.current_watermark),
      )
