-- ===== src/Channel/Examples.antt =====
-- Runs of the channel strategies and instances of their theorems.
use arcon.Common.{ℕ, ◌<◌, ◌≡◌, refl, List, [], ◌∷◌, ◌++◌, map, ok, arith}
use arcon.Data.{ArconEvent, wrap, with_timestamp}
use arcon.Channel.{Batch, add}
use arcon.Channel.Strategies.{new, forward_flush, broadcast_flush, round_robin_flush}
use arcon.Channel.KeyBy.{KeyBy}
use arcon.Common.Assoc.{get}
use arcon.Channel.KeyedArrivals.{IsKeyBy, key_by_all, view, routed, key_by_add-routed}
use arcon.Channel.Delivery.{events_on}
use arcon.Channel.Arrivals.{add_marker, broadcast_flush-arrives, add-round_robin_flush}

abbrev three_elements : List (ArconEvent ℕ)
three_elements =
    ArconEvent.element (with_timestamp 5 1)
    ∷ ArconEvent.element (with_timestamp 6 2)
    ∷ ArconEvent.element (with_timestamp 7 3)
    ∷ []

-- With buffers of two events the third element flushes the first two.
forward_run :
    (forward_flush 4 2 (new {A = ℕ} 4 2))
    ≡ ok (record {
      curr_buffer = record { events = []; capacity = 2 };
      curr_index = 0;
      sent = (0, record { events = []; sender = 4 }) ∷ [];
    })
unfolding forward_flush new
forward_run = refl

broadcast_flush-arrives_example :
    (b : Batch ℕ) × (add_marker
        (broadcast_flush 4 2 3)
        three_elements
        (ArconEvent.epoch 1)
        (new 4 2)
      ≡ ok b)
    × (events_on 1 b.sent ≡ map wrap three_elements ++ wrap (ArconEvent.epoch 1) ∷ [])
broadcast_flush-arrives_example =
    broadcast_flush-arrives 4 2 (omega arith) 3 1 three_elements (ArconEvent.epoch 1) (omega arith)
      refl

-- A buffer that is full, on the last of three channels.
abbrev at_last : Batch ℕ
at_last = record {
  curr_buffer = record {
    events = wrap (ArconEvent.element (with_timestamp 5 1)) ∷ [];
    capacity = 1;
  };
  curr_index = 2;
  sent = [];
}

add-round_robin_flush_example :
    (b : Batch ℕ) × (add (round_robin_flush 4 1 3) (ArconEvent.epoch 1) at_last ≡ ok b)
    × (b.curr_buffer.events ≡ [])
    × (events_on 0 b.sent ≡ events_on {A = ℕ} 0 [] ++ wrap (ArconEvent.epoch 1) ∷ [])
add-round_robin_flush_example =
    add-round_robin_flush 4 1 3 0 (ArconEvent.epoch 1) at_last refl (omega arith) (omega arith)

-- Two ranges of 50 keys each.
abbrev two_ranges : KeyBy ℕ
two_ranges = record {
  buffer_map =
      (0, record { events = []; capacity = 2 }) ∷ (1, record { events = []; capacity = 2 }) ∷ [];
  sent = [];
}

two_ranges-IsKeyBy :
    IsKeyBy 4 2 (omega arith) (λ n. n) 100 2 (omega arith) (omega arith) (omega arith) two_ranges
unfolding get
two_ranges-IsKeyBy = record {
  distinct = (ground arith, (refl, tt));
  sized = (refl, (refl, tt));
  known = λ c h. ground arith;
}

key_by_add-routed_example :
    (s : KeyBy ℕ) × (key_by_all 4 2
        (omega arith)
        (λ n. n)
        100
        2
        (omega arith)
        (omega arith)
        (omega arith)
        three_elements
        two_ranges
      ≡ ok s)
    × ((c : ℕ)
        → c < 2
        → view 4 2 (omega arith) (λ n. n) 100 2 (omega arith) (omega arith) (omega arith) c s
          ≡ view 4 2
              (omega arith)
              (λ n. n)
              100
              2
              (omega arith)
              (omega arith)
              (omega arith)
              c
              two_ranges
            ++ routed 4 2
                (omega arith)
                (λ n. n)
                100
                2
                (omega arith)
                (omega arith)
                (omega arith)
                c
                three_elements)
key_by_add-routed_example =
    key_by_add-routed 4 2 (omega arith) (λ n. n) 100 2 (omega arith) (omega arith) (omega arith)
      three_elements two_ranges two_ranges-IsKeyBy
