-- ===== src/Channel/KeyedSteps.antt =====
-- KeyBy: what one pass over its buffers does to what is seen of a channel.
use arcon.Common.{
  ℕ, ◌≤◌, ◌<◌, ◌≡◌, ◌≢◌, refl, sym, ap, ◌∙◌, subst, true, false, Option, none, some, List, [], ◌∷◌,
  ◌++◌, append-nil, append_assoc, arith, length, ltb, ◌==◌, ℕ_discrete, dec_lt,
}
use arcon.Common.Assoc.{get, IsMap, is_some}
use arcon.Data.{NodeId, ArconEventWrapper, RawArconMessage}
use arcon.Channel.{BufferWriter, push}
use arcon.Channel.Strategies.{get_buffer, message_of}
use arcon.Channel.KeyBy.{flush_buffer, push_or_flush, each}
use arcon.Channel.Delivery.{events_on, events_on-append}

abbrev pub Sent : Type 0 → Type 0
Sent A = List (ℕ × RawArconMessage A)

abbrev pub Buffers : Type 0 → Type 0
Buffers A = List (ℕ × BufferWriter A)

module _ {A : Type 0} (sender_id : NodeId) (buffer_size : ℕ) (room : 0 < buffer_size) where
  -- One buffer `w` of channel `c` is worked on: what is seen of its channel grows by `new`.
  pub record Stepped (new : List (ArconEventWrapper A)) (c : ℕ) (w : BufferWriter A) (sent : Sent A)
      (r : BufferWriter A × Sent A) : Type 0 where
    pub sized : r.0.capacity ≡ buffer_size
    pub grows : events_on c r.1 ++ r.0.events ≡ (events_on c sent ++ w.events) ++ new
    pub others : (d : ℕ) → d ≢ c → events_on d r.1 ≡ events_on d sent

  -- A message on a channel is seen on it, and on no other.
  sent_here :
      (c : ℕ) (w : BufferWriter A) (sent : Sent A)
      → events_on c (sent ++ (c, message_of sender_id buffer_size w) ∷ [])
        ≡ events_on c sent ++ w.events
  unfolding events_on
  sent_here c w sent =
      let here : (c == c) ≡ true = ground arith in
      events_on-append c sent _ ∙ rw here (ap (λ t. events_on c sent ++ t) (append-nil w.events))

  sent_elsewhere :
      (c d : ℕ) (w : BufferWriter A) (sent : Sent A)
      → d ≢ c
      → events_on d (sent ++ (c, message_of sender_id buffer_size w) ∷ []) ≡ events_on d sent
  unfolding events_on
  sent_elsewhere c d w sent n =
      let there : (d == c) ≡ false = ground arith in
      events_on-append d sent _ ∙ rw there (append-nil (events_on d sent))

  pub flush_buffer-Stepped :
      (c : ℕ) (w : BufferWriter A) (sent : Sent A)
      → Stepped [] c w sent (flush_buffer sender_id buffer_size c w sent)
  unfolding flush_buffer
  flush_buffer-Stepped c w sent = record {
    sized = refl;
    grows = ap (λ t. t ++ []) (sent_here c w sent);
    others = λ d n. sent_elsewhere c d w sent n;
  }

  push_fits :
      (e : ArconEventWrapper A) (w : BufferWriter A)
      → length w.events < w.capacity
      → push e w ≡ (none, record w { events = w.events ++ e ∷ [] })
  unfolding push
  push_fits e w h =
      let fits : ltb (length w.events) w.capacity ≡ true = ground arith in rw fits refl

  push_full :
      (e : ArconEventWrapper A) (w : BufferWriter A)
      → w.capacity ≤ length w.events
      → push e w ≡ (some e, w)
  unfolding push
  push_full e w h =
      let full : ltb (length w.events) w.capacity ≡ false = ground arith in rw full refl

  pub push_or_flush-Stepped :
      (c : ℕ) (e : ArconEventWrapper A) (w : BufferWriter A) (sent : Sent A)
      → w.capacity ≡ buffer_size
      → Stepped (e ∷ []) c w sent (push_or_flush sender_id buffer_size c e w sent)
  unfolding push_or_flush flush_buffer
  push_or_flush-Stepped c e w sent s = elim (dec_lt (length w.events) w.capacity) [
    | yes fits ↦
        rw (push_fits e w fits, push_or_flush)
          (rw (push_fits e w fits) (record {
            sized = s;
            grows = sym (append_assoc (events_on c sent) w.events (e ∷ []));
            others = λ d n. refl;
          }))
    | no full ↦
        let refused = push_full e w (omega arith) in
        rw (refused, push_or_flush)
          (rw (push_fits e (get_buffer sender_id buffer_size) room) (
            rw (refused, flush_buffer)
              (record {
                sized = refl;
                grows = ap (λ t. t ++ e ∷ []) (sent_here c w sent);
                others = λ d n. sent_elsewhere c d w sent n;
              })))
  ]

  abbrev pub Sized : Buffers A → Type 0
  Sized [] = Unit {0}
  Sized ((c, w) ∷ m) = (w.capacity ≡ buffer_size) × Sized m

  -- What is seen of a channel: what has been sent, and what waits in its buffer.
  abbrev pub waiting : Option (BufferWriter A) → List (ArconEventWrapper A)
  waiting none = []
  waiting (some w) = w.events

  abbrev pub seen : ℕ → Buffers A → Sent A → List (ArconEventWrapper A)
  seen c m sent = events_on c sent ++ waiting (get ℕ_discrete c m)

  -- Every buffer has been worked on once.
  pub record Swept (new : List (ArconEventWrapper A)) (m : Buffers A) (sent : Sent A)
      (r : Buffers A × Sent A) : Type 0 where
    pub sized : Sized r.0
    pub same_keys : (c : ℕ) → is_some (get ℕ_discrete c r.0) ≡ is_some (get ℕ_discrete c m)
    pub distinct : IsMap ℕ_discrete r.0
    pub grows :
        (c : ℕ) → is_some (get ℕ_discrete c m) ≡ true → seen c r.0 r.1 ≡ seen c m sent ++ new
    pub others : (c : ℕ) → get ℕ_discrete c m ≡ none → events_on c r.1 ≡ events_on c sent

  seen_head :
      (k : ℕ) (w : BufferWriter A) (m : Buffers A) (sent : Sent A)
      → seen k ((k, w) ∷ m) sent ≡ events_on k sent ++ w.events
  unfolding get
  seen_head k w m sent =
      let found : get ℕ_discrete k ((k, w) ∷ m) ≡ some w = ground arith in
      ap (λ t. events_on k sent ++ waiting t) found

  seen_tail :
      (c k : ℕ) (w : BufferWriter A) (m : Buffers A) (sent : Sent A)
      → c ≢ k
      → seen c ((k, w) ∷ m) sent ≡ seen c m sent
  unfolding get
  seen_tail c k w m sent n =
      let beyond : get ℕ_discrete c ((k, w) ∷ m) ≡ get ℕ_discrete c m = ground arith in
      ap (λ t. events_on c sent ++ waiting t) beyond

  absent_of_keys : (x y : Option (BufferWriter A)) → is_some x ≡ is_some y → y ≡ none → x ≡ none
  absent_of_keys none y e h = refl
  absent_of_keys (some w) y e h = absurd (ground arith)

  module _ (new : List (ArconEventWrapper A))
      (step : ℕ → BufferWriter A → Sent A → BufferWriter A × Sent A)
      (stepped : (c : ℕ) (w : BufferWriter A) (sent : Sent A)
        → w.capacity ≡ buffer_size
        → Stepped new c w sent (step c w sent)) where
    pub each-Swept :
        (m : Buffers A) (sent : Sent A)
        → IsMap ℕ_discrete m
        → Sized m
        → Swept new m sent (each sender_id buffer_size step m sent)
    unfolding each get
    each-Swept [] sent d s = record {
      sized = tt;
      same_keys = λ c. refl;
      distinct = tt;
      grows = λ c h. absurd (ground arith);
      others = λ c h. refl;
    }
    each-Swept ((k, w) ∷ m) sent d s =
        let f = stepped k w sent s.0 in
        let r = each-Swept m (step k w sent).1 d.1 s.1 in
        record {
          sized = (f.sized, r.sized);
          same_keys = λ c. ground (arith, r.same_keys c);
          distinct = (absent_of_keys _ _ (r.same_keys k) d.0, r.distinct);
          grows = λ c h. elim (ℕ_discrete c k) [
            | yes here ↦
                subst
                  (λ j.
                    seen j
                      ((k, (step k w sent).0)
                        ∷ (each sender_id buffer_size step m (step k w sent).1).0)
                      (each sender_id buffer_size step m (step k w sent).1).1
                    ≡ seen j ((k, w) ∷ m) sent ++ new)
                  (sym here)
                  (seen_head k (step k w sent).0 _ _
                    ∙ (ap (λ t. t ++ (step k w sent).0.events) (r.others k d.0)
                        ∙ (f.grows ∙ ap (λ t. t ++ new) (sym (seen_head k w m sent)))))
            | no there ↦
                seen_tail c k (step k w sent).0 _ _ there
                ∙ (r.grows c (ground arith)
                    ∙ (ap (λ t. (t ++ waiting (get ℕ_discrete c m)) ++ new) (f.others c there)
                        ∙ ap (λ t. t ++ new) (sym (seen_tail c k w m sent there))))
          ];
          others = λ c h.
              let gone : get ℕ_discrete c m ≡ none = ground arith in
              r.others c gone ∙ f.others c (ground arith);
        }

  -- After the flush nothing waits.
  pub each-empty :
      (m : Buffers A) (sent : Sent A) (c : ℕ)
      → waiting (
          get ℕ_discrete c
            (each sender_id buffer_size (flush_buffer sender_id buffer_size) m sent).0)
        ≡ []
  unfolding each get flush_buffer
  each-empty [] sent c = refl
  each-empty ((k, w) ∷ m) sent c = elim (ℕ_discrete c k) [
    | yes here ↦
        let found : get ℕ_discrete c (
              (k, get_buffer sender_id buffer_size)
              ∷ (each sender_id buffer_size (flush_buffer sender_id buffer_size) m
                  (flush_buffer sender_id buffer_size k w sent).1).0)
            ≡ some (get_buffer sender_id buffer_size) =
          ground arith in
        ap waiting found
    | no there ↦
        let beyond : get ℕ_discrete c (
              (k, get_buffer sender_id buffer_size)
              ∷ (each sender_id buffer_size (flush_buffer sender_id buffer_size) m
                  (flush_buffer sender_id buffer_size k w sent).1).0)
            ≡ get ℕ_discrete c
                (each sender_id buffer_size (flush_buffer sender_id buffer_size) m
                  (flush_buffer sender_id buffer_size k w sent).1).0 =
          ground arith in
        ap waiting beyond ∙ each-empty m _ c
  ]
