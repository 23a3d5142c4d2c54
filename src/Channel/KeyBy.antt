-- ===== src/Channel/KeyBy.antt =====
-- execution-plane/arcon/src/stream/channel/strategy/key_by.rs. The map from a key range to its
-- channel and buffer is an association list, so `iter_mut` goes through it in some fixed order.
use arcon.Common.{
  ℕ, ◌*◌, ◌/◌, ◌%◌, none, some, List, [], ◌∷◌, ◌++◌, Res, ok, panic, ◌==◌, if◌then◌else◌, u64_mod,
  ℕ_discrete,
}
use arcon.Common.Assoc.{get, insert}
use arcon.Data.{NodeId, ArconElement, ArconEvent, ArconEventWrapper, RawArconMessage, wrap}
use arcon.Channel.{BufferWriter, push}
use arcon.Channel.Strategies.{get_buffer, message_of}

pub record KeyBy (A : Type 0) : Type 0 where
  pub buffer_map : List (ℕ × BufferWriter A)
  pub sent : List (ℕ × RawArconMessage A)

-- The key range of a key. The product is a `u64`.
unfoldable pub key_index : ℕ → ℕ → ℕ → ℕ
key_index max_key key_ranges key = (key % max_key) * key_ranges % u64_mod / max_key

module _ {A : Type 0} (sender_id : NodeId) (buffer_size : ℕ) where
  -- The buffer of a channel goes out; the pair is the new writer and what has been sent.
  unfoldable pub flush_buffer :
      ℕ
      → BufferWriter A
      → List (ℕ × RawArconMessage A)
      → BufferWriter A × List (ℕ × RawArconMessage A)
  flush_buffer c w sent =
      (get_buffer sender_id buffer_size, sent ++ (c, message_of sender_id buffer_size w) ∷ [])

  -- A push that flushes the buffer when it is full.
  unfoldable pub push_or_flush :
      ℕ
      → ArconEventWrapper A
      → BufferWriter A
      → List (ℕ × RawArconMessage A)
      → BufferWriter A × List (ℕ × RawArconMessage A)
  unfolding push flush_buffer
  push_or_flush c e w sent =
      let r = push e w in
      elim r.0 [
        | none ↦ (r.1, sent)
        | some e' ↦ let f = flush_buffer c r.1 sent in ((push e' f.0).1, f.1)
      ]

  -- `iter_mut`: each buffer in turn, with what has been sent so far.
  unfoldable pub each :
      (ℕ
        → BufferWriter A
        → List (ℕ × RawArconMessage A)
        → BufferWriter A × List (ℕ × RawArconMessage A))
      → List (ℕ × BufferWriter A)
      → List (ℕ × RawArconMessage A)
      → List (ℕ × BufferWriter A) × List (ℕ × RawArconMessage A)
  each step [] sent = ([], sent)
  each step ((c, w) ∷ m) sent =
      let r = step c w sent in let rest = each step m r.1 in ((c, r.0) ∷ rest.0, rest.1)

  unfoldable pub key_by_flush : KeyBy A → KeyBy A
  unfolding each flush_buffer
  key_by_flush s =
      let r = each flush_buffer s.buffer_map s.sent in record { buffer_map = r.0; sent = r.1 }

  unfoldable pub key_by_marker : ArconEvent A → KeyBy A → KeyBy A
  unfolding key_by_flush each push_or_flush
  key_by_marker e s =
      let r = each (λ c w sent. push_or_flush c (wrap e) w sent) s.buffer_map s.sent in
      key_by_flush (record { buffer_map = r.0; sent = r.1 })

  module _ (get_key : A → ℕ) (max_key key_ranges : ℕ) where
    unfoldable pub key_by_element : ArconElement A → KeyBy A → Res (KeyBy A)
    unfolding push_or_flush
    key_by_element e s =
        if max_key == 0
        then panic
        else elim (get ℕ_discrete (key_index max_key key_ranges (get_key e.payload)) s.buffer_map) [
          | none ↦ panic
          | some w ↦
              let c = key_index max_key key_ranges (get_key e.payload) in
              let r = push_or_flush c (wrap (ArconEvent.element e)) w s.sent in
              ok (record { buffer_map = insert ℕ_discrete c r.0 s.buffer_map; sent = r.1 })
        ]

    unfoldable pub key_by_add : ArconEvent A → KeyBy A → Res (KeyBy A)
    unfolding key_by_element key_by_marker
    key_by_add (ArconEvent.element e) s = key_by_element e s
    key_by_add (ArconEvent.watermark w) s = ok (key_by_marker (ArconEvent.watermark w) s)
    key_by_add (ArconEvent.epoch e) s = ok (key_by_marker (ArconEvent.epoch e) s)
    key_by_add (ArconEvent.death msg) s = ok (key_by_marker (ArconEvent.death msg) s)
