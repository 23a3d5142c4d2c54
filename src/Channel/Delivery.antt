-- ===== src/Channel/Delivery.antt =====
-- What arrives on the channels: every event once and in order, and a marker at once.
use arcon.Common.{
  ℕ, ◌<◌, ◌≡◌, refl, sym, ap, ◌∙◌, subst, ◌⊎◌, inl, inr, Bool, true, false, none, some, List, [],
  ◌∷◌, ◌++◌, append-nil, append_assoc, map, Res, ok, arith, length, ltb, ◌==◌, if◌then◌else◌,
  Bool-cases,
}
use arcon.Data.{ArconEvent, ArconEventWrapper, RawArconMessage, wrap}
use arcon.Channel.{push, Batch, is_element, set_buffer, push_again, settle, add, add_all}

-- All the events that have been sent.
abbrev pub all_events : {A : Type 0} → List (ℕ × RawArconMessage A) → List (ArconEventWrapper A)
all_events [] = []
all_events ((c, m) ∷ ms) = m.events ++ all_events ms

-- The events that have been sent on one channel.
unfoldable pub events_on :
    {A : Type 0} → ℕ → List (ℕ × RawArconMessage A) → List (ArconEventWrapper A)
events_on c [] = []
events_on c ((d, m) ∷ ms) = let rest = events_on c ms in if c == d then m.events ++ rest else rest

pub all_events-append :
    {A : Type 0} (ms ns : List (ℕ × RawArconMessage A))
    → all_events (ms ++ ns) ≡ all_events ms ++ all_events ns
all_events-append [] ns = refl
all_events-append ((c, m) ∷ ms) ns =
    ap (λ t. m.events ++ t) (all_events-append ms ns)
    ∙ sym (append_assoc m.events (all_events ms) (all_events ns))

pub events_on-append :
    {A : Type 0} (c : ℕ) (ms ns : List (ℕ × RawArconMessage A))
    → events_on c (ms ++ ns) ≡ events_on c ms ++ events_on c ns
unfolding events_on
events_on-append c [] ns = refl
events_on-append c ((d, m) ∷ ms) ns = elim (Bool-cases (c == d)) [
  | inl e ↦ rw e (
      ap (λ t. m.events ++ t) (events_on-append c ms ns)
      ∙ sym (append_assoc m.events (events_on c ms) (events_on c ns)))
  | inr e ↦ rw e (events_on-append c ms ns)
]

module _ {A : Type 0} (buffer_size : ℕ) (room : 0 < buffer_size)
    (past : List (ℕ × RawArconMessage A) → List (ArconEventWrapper A)) (Fits : ℕ → Type 0) where
  -- The buffer has the size of the pool's, and the index is in range.
  pub record IsBatch (b : Batch A) : Type 0 where
    pub sized : b.curr_buffer.capacity ≡ buffer_size
    pub fits : Fits b.curr_index

  -- What has been sent and what waits in the buffer.
  abbrev pub seen : Batch A → List (ArconEventWrapper A)
  seen b = past b.sent ++ b.curr_buffer.events

  -- The buffer goes out, and the new one is empty.
  pub record Flushed (b : Batch A) (r : Res (Batch A)) : Type 0 where
    pub after : Batch A
    pub returns : r ≡ ok after
    pub sends : past after.sent ≡ seen b
    pub empties : after.curr_buffer.events ≡ []
    pub stays : IsBatch after

  -- After `add` of `e`: it follows all that has been seen before, and a marker does not wait.
  pub record Added (b : Batch A) (e : ArconEvent A) (r : Res (Batch A)) : Type 0 where
    pub after : Batch A
    pub returns : r ≡ ok after
    pub follows : seen after ≡ seen b ++ wrap e ∷ []
    pub prompt : (is_element e ≡ true) ⊎ (after.curr_buffer.events ≡ [])
    pub stays : IsBatch after

  module _ (flush : Batch A → Res (Batch A))
      (flush_lem : (b : Batch A) → IsBatch b → Flushed b (flush b)) where
    -- A push into an empty buffer.
    fresh_push :
        (e : ArconEventWrapper A) (b : Batch A)
        → IsBatch b
        → b.curr_buffer.events ≡ []
        → push_again (some e) b
          ≡ set_buffer (record { events = e ∷ []; capacity = b.curr_buffer.capacity }) b
    unfolding push
    fresh_push e b v h =
        let space : ltb (length b.curr_buffer.events) b.curr_buffer.capacity ≡ true =
          ground (arith, ap length h, v.sized) in
        rw space (
          ap
            (λ t. set_buffer (record { events = t ++ e ∷ []; capacity = b.curr_buffer.capacity }) b)
            h)

    refilled :
        (e : ArconEventWrapper A) (b : Batch A)
        → IsBatch b
        → b.curr_buffer.events ≡ []
        → IsBatch (push_again (some e) b) × (seen (push_again (some e) b) ≡ past b.sent ++ e ∷ [])
    refilled e b v h =
        subst (λ (m : Batch A). IsBatch m × (seen m ≡ past b.sent ++ e ∷ []))
          (sym (fresh_push e b v h)) (record { sized = v.sized; fits = v.fits }, refl)

    seen_empty : (b : Batch A) → b.curr_buffer.events ≡ [] → seen b ≡ past b.sent
    seen_empty b h = ap (λ t. past b.sent ++ t) h ∙ append-nil (past b.sent)

    -- The event fitted into the buffer.
    abbrev with_event : ArconEvent A → Batch A → Batch A
    with_event e b =
        set_buffer (record b.curr_buffer { events = b.curr_buffer.events ++ wrap e ∷ [] }) b

    pushed-Added :
        (k : Bool) (e : ArconEvent A) (b : Batch A)
        → IsBatch b
        → is_element e ≡ k
        → Added b e (settle flush k none (with_event e b))
    pushed-Added true e b v h = record {
      after = with_event e b;
      returns = refl;
      follows = sym (append_assoc (past b.sent) b.curr_buffer.events (wrap e ∷ []));
      prompt = inl h;
      stays = record { sized = v.sized; fits = v.fits };
    }
    pushed-Added false e b v h =
        let f = flush_lem (with_event e b) (record { sized = v.sized; fits = v.fits }) in
        record {
          after = f.after;
          returns = f.returns;
          follows =
              seen_empty f.after f.empties
              ∙ (f.sends ∙ sym (append_assoc (past b.sent) b.curr_buffer.events (wrap e ∷ [])));
          prompt = inr f.empties;
          stays = f.stays;
        }

    refused-Added :
        (k : Bool) (e : ArconEvent A) (b : Batch A)
        → IsBatch b
        → is_element e ≡ k
        → Added b e (settle flush k (some (wrap e)) b)
    refused-Added true e b v h =
        let f = flush_lem b v in
        let g = refilled (wrap e) f.after f.stays f.empties in
        record {
          after = push_again (some (wrap e)) f.after;
          returns = rw f.returns refl;
          follows = g.1 ∙ ap (λ t. t ++ wrap e ∷ []) f.sends;
          prompt = inl h;
          stays = g.0;
        }
    refused-Added false e b v h =
        let f = flush_lem b v in
        let g = refilled (wrap e) f.after f.stays f.empties in
        let f' = flush_lem (push_again (some (wrap e)) f.after) g.0 in
        record {
          after = f'.after;
          returns = rw f.returns f'.returns;
          follows =
              seen_empty f'.after f'.empties
              ∙ (f'.sends ∙ (g.1 ∙ ap (λ t. t ++ wrap e ∷ []) f.sends));
          prompt = inr f'.empties;
          stays = f'.stays;
        }

    pub add-Added : (e : ArconEvent A) (b : Batch A) → IsBatch b → Added b e (add flush e b)
    unfolding add push
    add-Added e b v = elim (Bool-cases (ltb (length b.curr_buffer.events) b.curr_buffer.capacity)) [
      | inl space ↦ rw space (pushed-Added (is_element e) e b v refl)
      | inr full ↦ rw full (refused-Added (is_element e) e b v refl)
    ]

    -- After a sequence of events they have been seen once each, in order.
    pub record AllAdded (b : Batch A) (es : List (ArconEvent A)) (r : Res (Batch A)) : Type 0 where
      pub after : Batch A
      pub returns : r ≡ ok after
      pub follow : seen after ≡ seen b ++ map wrap es
      pub stays : IsBatch after

    pub add_all-AllAdded :
        (es : List (ArconEvent A)) (b : Batch A) → IsBatch b → AllAdded b es (add_all flush es b)
    unfolding add_all
    add_all-AllAdded [] b v = record {
      after = b;
      returns = refl;
      follow = sym (append-nil (seen b));
      stays = v;
    }
    add_all-AllAdded (e ∷ es) b v =
        let a = add-Added e b v in
        let r = add_all-AllAdded es a.after a.stays in
        record {
          after = r.after;
          returns = rw a.returns r.returns;
          follow =
              r.follow
              ∙ (ap (λ t. t ++ map wrap es) a.follows
                  ∙ append_assoc (seen b) (wrap e ∷ []) (map wrap es));
          stays = r.stays;
        }
