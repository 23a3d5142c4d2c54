-- ===== src/Channel/KeyedArrivals.antt =====
-- KeyBy: what arrives on which channel.
use arcon.Common.{
  ℕ, ◌*◌, ◌≤◌, ◌<◌, ◌≡◌, refl, sym, ap, ◌∙◌, inl, inr, Bool, true, false, List, [], ◌∷◌, ◌++◌,
  append-nil, append_assoc, Res, ok, ◌>>=◌, arith, ◌==◌, if◌then◌else◌, Bool-cases, Option-cases,
  ℕ_discrete, u64_mod,
}
use arcon.Common.Assoc.{get, insert, IsMap, is_some, get-insert, insert-IsMap}
use arcon.Data.{NodeId, ArconElement, ArconEvent, ArconEventWrapper, wrap}
use arcon.Channel.{BufferWriter}
use arcon.Channel.KeyBy.{
  KeyBy, key_index, flush_buffer, push_or_flush, each, key_by_flush, key_by_marker, key_by_element,
  key_by_add,
}
use arcon.Channel.Ranges.{key_index-lt}
use arcon.Channel.KeyedSteps.{
  Sent, push_or_flush-Stepped, flush_buffer-Stepped, Sized, waiting, seen, each-Swept, each-empty,
}
use arcon.Channel.KeyedStores.{Sized-insert, Sized-get, stored-grows}

module _ {A : Type 0} (sender_id : NodeId) (buffer_size : ℕ) (room : 0 < buffer_size)
    (get_key : A → ℕ) (max_key key_ranges : ℕ) (some_key : 0 < max_key)
    (some_range : 0 < key_ranges) (fits : max_key * key_ranges ≤ u64_mod) where
  -- Each key range has a buffer of the size of the pool's.
  pub record IsKeyBy (s : KeyBy A) : Type 0 where
    pub distinct : IsMap ℕ_discrete s.buffer_map
    pub sized : Sized sender_id buffer_size room s.buffer_map
    pub known : (c : ℕ) → c < key_ranges → is_some (get ℕ_discrete c s.buffer_map) ≡ true

  -- An element goes to the channel of its key range, a marker to all.
  abbrev pub goes_to : ℕ → ArconEvent A → Bool
  goes_to c (ArconEvent.element e) = c == key_index max_key key_ranges (get_key e.payload)
  goes_to c (ArconEvent.watermark w) = true
  goes_to c (ArconEvent.epoch e) = true
  goes_to c (ArconEvent.death msg) = true

  abbrev pub routed : ℕ → List (ArconEvent A) → List (ArconEventWrapper A)
  routed c [] = []
  routed c (e ∷ es) = let rest = routed c es in if goes_to c e then wrap e ∷ rest else rest

  abbrev pub view : ℕ → KeyBy A → List (ArconEventWrapper A)
  view c s = seen sender_id buffer_size room c s.buffer_map s.sent

  -- A marker reaches every channel, and nothing waits after it.
  record Marked (e : ArconEvent A) (s s' : KeyBy A) : Type 0 where
    pub stays : IsKeyBy s'
    pub grows : (c : ℕ) → c < key_ranges → view c s' ≡ view c s ++ wrap e ∷ []
    pub empty : (c : ℕ) → waiting sender_id buffer_size room (get ℕ_discrete c s'.buffer_map) ≡ []

  key_by_marker-Marked :
      (e : ArconEvent A) (s : KeyBy A)
      → IsKeyBy s
      → Marked e s (key_by_marker sender_id buffer_size e s)
  unfolding key_by_marker key_by_flush
  key_by_marker-Marked e s v =
      let push_step : ℕ → BufferWriter A → Sent A → BufferWriter A × Sent A =
        λ c w sent. push_or_flush sender_id buffer_size c (wrap e) w sent in
      let p =
        each-Swept sender_id buffer_size room (wrap e ∷ []) push_step
          (λ c w sent h. push_or_flush-Stepped sender_id buffer_size room c (wrap e) w sent h)
          s.buffer_map s.sent v.distinct v.sized in
      let m = (each sender_id buffer_size push_step s.buffer_map s.sent).0 in
      let sent = (each sender_id buffer_size push_step s.buffer_map s.sent).1 in
      let f =
        each-Swept sender_id buffer_size room [] (flush_buffer sender_id buffer_size)
          (λ c w sent h. flush_buffer-Stepped sender_id buffer_size room c w sent) m sent p.distinct
          p.sized in
      record {
        stays = record {
          distinct = f.distinct;
          sized = f.sized;
          known = λ c h. f.same_keys c ∙ (p.same_keys c ∙ v.known c h);
        };
        grows = λ c h.
            f.grows c (p.same_keys c ∙ v.known c h) ∙ (append-nil _ ∙ p.grows c (v.known c h));
        empty = λ c. each-empty sender_id buffer_size room m sent c;
      }

  record AddedTo (e : ArconEvent A) (s : KeyBy A) (r : Res (KeyBy A)) : Type 0 where
    pub after : KeyBy A
    pub returns : r ≡ ok after
    pub stays : IsKeyBy after
    pub grows :
        (c : ℕ)
        → c < key_ranges
        → view c after ≡ view c s ++ (if goes_to c e then wrap e ∷ [] else [])

  marker-AddedTo :
      (e : ArconEvent A) (s : KeyBy A)
      → IsKeyBy s
      → ((c : ℕ) → goes_to c e ≡ true)
      → AddedTo e s (ok (key_by_marker sender_id buffer_size e s))
  marker-AddedTo e s v k =
      let m = key_by_marker-Marked e s v in
      record {
        after = key_by_marker sender_id buffer_size e s;
        returns = refl;
        stays = m.stays;
        grows = λ c h. rw (k c) (m.grows c h);
      }

  element-AddedTo :
      (e : ArconElement A) (s : KeyBy A)
      → IsKeyBy s
      → AddedTo
          (ArconEvent.element e)
          s
          (key_by_element sender_id buffer_size get_key max_key key_ranges e s)
  unfolding key_by_element
  element-AddedTo e s v =
      let k = key_index max_key key_ranges (get_key e.payload) in
      let nonzero : (max_key == 0) ≡ false = ground arith in
      let in_range = key_index-lt max_key key_ranges (get_key e.payload) some_key some_range fits in
      elim (Option-cases (get ℕ_discrete k s.buffer_map)) [
        | inl missing ↦ absurd (ground (arith, v.known k in_range))
        | inr (w, found) ↦
            let f =
              push_or_flush-Stepped sender_id buffer_size room k (wrap (ArconEvent.element e)) w
                s.sent (Sized-get sender_id buffer_size room k w s.buffer_map v.sized found) in
            let r = push_or_flush sender_id buffer_size k (wrap (ArconEvent.element e)) w s.sent in
            rw nonzero (
              rw found (record {
                after = record { buffer_map = insert ℕ_discrete k r.0 s.buffer_map; sent = r.1 };
                returns = refl;
                stays = record {
                  distinct = insert-IsMap ℕ_discrete k r.0 s.buffer_map v.distinct;
                  sized =
                      Sized-insert sender_id buffer_size room k r.0 s.buffer_map f.sized v.sized;
                  known = λ c h.
                      ground (arith, get-insert ℕ_discrete k c r.0 s.buffer_map, v.known c h);
                };
                grows = λ c h.
                    stored-grows sender_id buffer_size room c k w (wrap (ArconEvent.element e) ∷ [])
                      s.buffer_map s.sent r found f;
              }))
      ]

  added_to :
      (e : ArconEvent A) (s : KeyBy A)
      → IsKeyBy s
      → AddedTo e s (key_by_add sender_id buffer_size get_key max_key key_ranges e s)
  unfolding key_by_add
  added_to (ArconEvent.element e) s v = element-AddedTo e s v
  added_to (ArconEvent.watermark w) s v = marker-AddedTo (ArconEvent.watermark w) s v (λ c. refl)
  added_to (ArconEvent.epoch e) s v = marker-AddedTo (ArconEvent.epoch e) s v (λ c. refl)
  added_to (ArconEvent.death msg) s v = marker-AddedTo (ArconEvent.death msg) s v (λ c. refl)

  abbrev pub key_by_all : List (ArconEvent A) → KeyBy A → Res (KeyBy A)
  key_by_all [] s = ok s
  key_by_all (e ∷ es) s =
      key_by_add sender_id buffer_size get_key max_key key_ranges e s >>= key_by_all es

  routed_snoc :
      (c : ℕ) (e : ArconEvent A) (es : List (ArconEvent A)) (xs : List (ArconEventWrapper A))
      → (xs ++ (if goes_to c e then wrap e ∷ [] else [])) ++ routed c es ≡ xs ++ routed c (e ∷ es)
  routed_snoc c e es xs = elim (Bool-cases (goes_to c e)) [
    | inl here ↦ rw here (append_assoc xs (wrap e ∷ []) (routed c es))
    | inr there ↦ rw there (ap (λ t. t ++ routed c es) (append-nil xs))
  ]

  -- No event makes `KeyBy` panic, and what has been sent on a channel or waits for it grows by just
  -- the events that belong there, in order: the elements whose key falls into its range, and every
  -- marker. Each range has a buffer, buffers hold an event or more, and the product of the numbers of
  -- keys and ranges, neither of which is 0, fits into a `u64`.
  pub key_by_add-routed :
      (es : List (ArconEvent A)) (s : KeyBy A)
      → IsKeyBy s
      → (s' : KeyBy A) × (key_by_all es s ≡ ok s')
        × ((c : ℕ) → c < key_ranges → view c s' ≡ view c s ++ routed c es)
  key_by_add-routed [] s v = (s, refl, λ c h. sym (append-nil (view c s)))
  key_by_add-routed (e ∷ es) s v =
      let a = added_to e s v in
      let (s', returns, grows) = key_by_add-routed es a.after a.stays in
      (
        s',
        rw a.returns returns,
        λ c h.
            grows c h ∙ (ap (λ t. t ++ routed c es) (a.grows c h) ∙ routed_snoc c e es (view c s)),
      )
