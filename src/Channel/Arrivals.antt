-- ===== src/Channel/Arrivals.antt =====
-- Forward, Broadcast and RoundRobin: what arrives on which channel.
use arcon.Common.{
  ℕ, zero, suc, ◌+◌, ◌≤◌, ◌<◌, ◌≡◌, refl, sym, ap, ◌∙◌, inl, inr, true, false, List, [], ◌∷◌, ◌++◌,
  append-nil, append_assoc, map, Res, ok, ◌>>=◌, arith, length, ltb, leb, ◌==◌, if◌then◌else◌,
  Bool-cases,
}
use arcon.Data.{NodeId, ArconEvent, ArconEventWrapper, RawArconMessage, wrap}
use arcon.Channel.{BufferWriter, push, Batch, is_element, add, add_all}
use arcon.Channel.Strategies.{
  new, forward_flush, broadcast, broadcast_flush, round_robin_flush, message_of,
}
use arcon.Channel.Delivery.{
  all_events, events_on, all_events-append, events_on-append, IsBatch, Flushed, add-Added,
  add_all-AllAdded,
}

abbrev Anything : ℕ → Type 0
Anything i = Unit {0}

-- A sequence of events with a marker at its end.
abbrev pub add_marker :
    {A : Type 0}
    → (Batch A → Res (Batch A))
    → List (ArconEvent A)
    → ArconEvent A
    → Batch A
    → Res (Batch A)
add_marker flush es m b = add_all flush es b >>= add flush m

marker-arrives :
    {A : Type 0} (buffer_size : ℕ) (room : 0 < buffer_size)
    (past : List (ℕ × RawArconMessage A) → List (ArconEventWrapper A)) (Fits : ℕ → Type 0)
    (flush : Batch A → Res (Batch A))
    → ((b : Batch A)
        → IsBatch buffer_size room past Fits b
        → Flushed buffer_size room past Fits b (flush b))
    → (es : List (ArconEvent A)) (m : ArconEvent A) (b : Batch A)
    → IsBatch buffer_size room past Fits b
    → is_element m ≡ false
    → (b' : Batch A) × (add_marker flush es m b ≡ ok b')
      × (past b'.sent ≡ (past b.sent ++ b.curr_buffer.events) ++ (map wrap es ++ wrap m ∷ []))
marker-arrives buffer_size room past Fits flush lem es m b v k =
    let r = add_all-AllAdded buffer_size room past Fits flush lem es b v in
    let a = add-Added buffer_size room past Fits flush lem m r.after r.stays in
    let empty : a.after.curr_buffer.events ≡ [] = elim a.prompt [
      | inl e ↦ absurd (ground (arith, e, k))
      | inr e ↦ e
    ] in
    (
      a.after,
      rw r.returns a.returns,
      sym (ap (λ t. past a.after.sent ++ t) empty ∙ append-nil (past a.after.sent))
          ∙ (a.follows
              ∙ (ap (λ t. t ++ wrap m ∷ []) r.follow
                  ∙ append_assoc (past b.sent ++ b.curr_buffer.events) (map wrap es)
                      (wrap m ∷ []))),
    )

module _ {A : Type 0} (sender_id : NodeId) (buffer_size : ℕ) (room : 0 < buffer_size) where
  forward_flush-Flushed :
      (b : Batch A)
      → IsBatch buffer_size room all_events Anything b
      → Flushed buffer_size room all_events Anything b (forward_flush sender_id buffer_size b)
  unfolding forward_flush
  forward_flush-Flushed b v = record {
    after = _;
    returns = refl;
    sends =
        all_events-append b.sent ((0, message_of sender_id buffer_size b.curr_buffer) ∷ [])
        ∙ ap (λ t. all_events b.sent ++ t) (append-nil b.curr_buffer.events);
    empties = refl;
    stays = record { sized = refl; fits = tt };
  }

  -- Channels before the `i`-th are sent nothing by the rest of the loop.
  events_on-broadcast_later :
      (left i c : ℕ) (w : BufferWriter A)
      → c < i
      → events_on c (broadcast sender_id buffer_size left i w) ≡ []
  unfolding broadcast events_on
  events_on-broadcast_later zero i c w h = refl
  events_on-broadcast_later (suc left) i c w h =
      let other : (c == i) ≡ false = ground arith in
      let rest = events_on-broadcast_later left (i + 1) c w (omega arith) in
      elim (Bool-cases (left == 0)) [
        | inl last ↦ rw last (rw other rest)
        | inr more ↦ rw more (rw other rest)
      ]

  events_on-broadcast :
      (left i c : ℕ) (w : BufferWriter A)
      → i ≤ c
      → c < i + left
      → events_on c (broadcast sender_id buffer_size left i w) ≡ w.events
  unfolding broadcast events_on
  events_on-broadcast zero i c w h k = absurd (omega arith)
  events_on-broadcast (suc left) i c w h k = elim (Bool-cases (c == i)) [
    | inl here ↦
        let rest : events_on c (broadcast sender_id buffer_size left (i + 1) w) ≡ [] =
          events_on-broadcast_later left (i + 1) c w (ground arith) in
        let whole = ap (λ t. w.events ++ t) rest ∙ append-nil w.events in
        elim (Bool-cases (left == 0)) [
          | inl last ↦ rw last (rw here whole)
          | inr more ↦ rw more (rw here whole)
        ]
    | inr there ↦
        let rest = events_on-broadcast left (i + 1) c w (ground arith) (omega arith) in
        elim (Bool-cases (left == 0)) [
          | inl last ↦ rw last (rw there rest)
          | inr more ↦ rw more (rw there rest)
        ]
  ]

  broadcast_flush-Flushed :
      (num_channels c : ℕ) (b : Batch A)
      → c < num_channels
      → IsBatch buffer_size room (events_on c) Anything b
      → Flushed buffer_size room
          (events_on c)
          Anything
          b
          (broadcast_flush sender_id buffer_size num_channels b)
  unfolding broadcast_flush
  broadcast_flush-Flushed num_channels c b h v = record {
    after = _;
    returns = refl;
    sends =
        events_on-append c b.sent (broadcast sender_id buffer_size num_channels 0 b.curr_buffer)
        ∙ ap (λ t. events_on c b.sent ++ t)
            (events_on-broadcast num_channels 0 c b.curr_buffer (omega arith) (omega arith));
    empties = refl;
    stays = record { sized = refl; fits = tt };
  }

  round_robin_flush-Flushed :
      (num_channels : ℕ) (b : Batch A)
      → IsBatch buffer_size room all_events (λ i. i < num_channels) b
      → Flushed buffer_size room all_events
          (λ i. i < num_channels)
          b
          (round_robin_flush sender_id buffer_size num_channels b)
  unfolding round_robin_flush
  round_robin_flush-Flushed num_channels b v =
      let in_range : ltb b.curr_index num_channels ≡ true = ground (arith, v.fits) in
      rw in_range (record {
        after = _;
        returns = refl;
        sends =
            all_events-append b.sent
              ((b.curr_index, message_of sender_id buffer_size b.curr_buffer) ∷ [])
            ∙ ap (λ t. all_events b.sent ++ t) (append-nil b.curr_buffer.events);
        empties = refl;
        stays = record { sized = refl; fits = ground (arith, v.fits) };
      })

  -- When a marker has been added to a new `Forward`, after any events, everything up to it has been
  -- sent, in order. The buffers hold an event or more.
  pub forward_flush-arrives :
      (es : List (ArconEvent A)) (m : ArconEvent A)
      → is_element m ≡ false
      → (b : Batch A) × (add_marker
            (forward_flush sender_id buffer_size)
            es
            m
            (new sender_id buffer_size)
          ≡ ok b)
        × (all_events b.sent ≡ map wrap es ++ wrap m ∷ [])
  unfolding new
  forward_flush-arrives es m k =
      marker-arrives buffer_size room all_events Anything (forward_flush sender_id buffer_size)
        forward_flush-Flushed es m (new sender_id buffer_size) (record { sized = refl; fits = tt })
        k

  -- When a marker has been added to a new `Broadcast`, after any events, everything up to it has been
  -- sent on every channel, in order. The buffers hold an event or more.
  pub broadcast_flush-arrives :
      (num_channels c : ℕ) (es : List (ArconEvent A)) (m : ArconEvent A)
      → c < num_channels
      → is_element m ≡ false
      → (b : Batch A) × (add_marker
            (broadcast_flush sender_id buffer_size num_channels)
            es
            m
            (new sender_id buffer_size)
          ≡ ok b)
        × (events_on c b.sent ≡ map wrap es ++ wrap m ∷ [])
  unfolding new events_on
  broadcast_flush-arrives num_channels c es m h k =
      marker-arrives buffer_size room (events_on c) Anything
        (broadcast_flush sender_id buffer_size num_channels)
        (λ b v. broadcast_flush-Flushed num_channels c b h v) es m (new sender_id buffer_size)
        (record { sized = refl; fits = tt }) k

  -- A new `RoundRobin` never panics on its index: after any events and a marker, everything up to the
  -- marker has been sent, in order over all the channels together. The buffers hold an event or more,
  -- and there is a channel.
  pub round_robin_flush-arrives :
      (num_channels : ℕ) (es : List (ArconEvent A)) (m : ArconEvent A)
      → 0 < num_channels
      → is_element m ≡ false
      → (b : Batch A) × (add_marker
            (round_robin_flush sender_id buffer_size num_channels)
            es
            m
            (new sender_id buffer_size)
          ≡ ok b)
        × (all_events b.sent ≡ map wrap es ++ wrap m ∷ [])
  unfolding new
  round_robin_flush-arrives num_channels es m h k =
      marker-arrives buffer_size room all_events (λ i. i < num_channels)
        (round_robin_flush sender_id buffer_size num_channels)
        (round_robin_flush-Flushed num_channels) es m (new sender_id buffer_size)
        (record { sized = refl; fits = h }) k

-- The channel after this one.
abbrev pub next_channel : ℕ → ℕ → ℕ
next_channel num_channels i = if leb num_channels (i + 1) then 0 else i + 1

-- What is sent on the channel `d`, as the channel `c` sees it.
abbrev pub on : {A : Type 0} → ℕ → ℕ → List (ArconEventWrapper A) → List (ArconEventWrapper A)
on c d events = if c == d then events else []

events_on-snoc :
    {A : Type 0} (c d : ℕ) (m : RawArconMessage A) (ms : List (ℕ × RawArconMessage A))
    → events_on c (ms ++ (d, m) ∷ []) ≡ events_on c ms ++ on c d m.events
unfolding events_on
events_on-snoc c d m ms = events_on-append c ms ((d, m) ∷ []) ∙ elim (Bool-cases (c == d)) [
  | inl e ↦ rw e (ap (λ t. events_on c ms ++ t) (append-nil m.events))
  | inr e ↦ rw e refl
]

-- `RoundRobin` sends a marker on one channel. Where it fits into the buffer, the current channel is sent
-- the events of the buffer and the marker behind them; where it does not, the current channel is sent
-- the events, and the next one the marker alone. No other channel is sent anything, and nothing is
-- left in the buffer. The current channel exists, and buffers hold an event or more.
pub add-round_robin_flush :
    {A : Type 0} (sender_id : NodeId) (buffer_size num_channels c : ℕ) (m : ArconEvent A)
    (b : Batch A)
    → is_element m ≡ false
    → b.curr_index < num_channels
    → 0 < buffer_size
    → (b' : Batch A) × (add (round_robin_flush sender_id buffer_size num_channels) m b ≡ ok b')
      × (b'.curr_buffer.events ≡ [])
      × (events_on c b'.sent
          ≡ events_on c b.sent
            ++ (if ltb (length b.curr_buffer.events) b.curr_buffer.capacity
                then on c b.curr_index (b.curr_buffer.events ++ wrap m ∷ [])
                else on c b.curr_index b.curr_buffer.events
                  ++ on c (next_channel num_channels b.curr_index) (wrap m ∷ [])))
unfolding add push round_robin_flush
add-round_robin_flush sender_id buffer_size num_channels c m b k h room =
    let in_range : ltb b.curr_index num_channels ≡ true = ground arith in
    elim (Bool-cases (ltb (length b.curr_buffer.events) b.curr_buffer.capacity)) [
      | inl fits ↦
          rw fits (rw k (rw in_range (_, refl, refl, events_on-snoc c b.curr_index _ b.sent)))
      | inr full ↦
          let next_in_range : ltb (next_channel num_channels b.curr_index) num_channels ≡ true =
            ground arith in
          let some_room : ltb 0 buffer_size ≡ true = ground arith in
          rw full (
            rw k (
              rw in_range (
                rw some_room (
                  rw next_in_range (
                    _,
                    refl,
                    refl,
                    events_on-snoc c (next_channel num_channels b.curr_index) _ _
                        ∙ (ap
                              (λ t.
                                t ++ on c (next_channel num_channels b.curr_index) (wrap m ∷ []))
                              (events_on-snoc c b.curr_index _ b.sent)
                            ∙ append_assoc (events_on c b.sent)
                                (on c b.curr_index b.curr_buffer.events) _),
                  )))))
    ]
