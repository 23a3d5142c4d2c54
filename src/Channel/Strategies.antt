-- ===== src/Channel/Strategies.antt =====
-- execution-plane/arcon/src/stream/channel/strategy/{forward,broadcast,round_robin}.rs.
use arcon.Common.{
  ℕ, zero, suc, ◌+◌, List, [], ◌∷◌, ◌++◌, Res, ok, panic, ltb, leb, ◌==◌, if◌then◌else◌,
}
use arcon.Data.{NodeId, RawArconMessage}
use arcon.Channel.{BufferWriter, Batch}

abbrev pub copy_from_writer : {A : Type 0} → BufferWriter A → BufferWriter A → BufferWriter A
copy_from_writer w other = record w { events = other.events }

-- The node that sends, and the size of the buffers in its pool.
module _ {A : Type 0} (sender_id : NodeId) (buffer_size : ℕ) where
  -- `BufferPool::get`.
  abbrev pub get_buffer : BufferWriter A
  get_buffer = record { events = []; capacity = buffer_size }

  -- A strategy as its `new` leaves it.
  unfoldable pub new : Batch A
  new = record { curr_buffer = get_buffer; curr_index = 0; sent = [] }

  abbrev pub message_of : BufferWriter A → RawArconMessage A
  message_of w = record { events = w.events; sender = sender_id }

  unfoldable pub forward_flush : Batch A → Res (Batch A)
  forward_flush b =
      ok
        (record b { sent = b.sent ++ (0, message_of b.curr_buffer) ∷ []; curr_buffer = get_buffer })

  -- The loop over the channels from the `i`-th on, of which `left` are left: the last one is sent
  -- the current buffer, the others a copy of it.
  unfoldable pub broadcast : ℕ → ℕ → BufferWriter A → List (ℕ × RawArconMessage A)
  broadcast zero i w = []
  broadcast (suc left) i w =
      let rest = broadcast left (i + 1) w in
      if left == 0
      then (i, message_of w) ∷ rest
      else (i, message_of (copy_from_writer get_buffer w)) ∷ rest

  unfoldable pub broadcast_flush : ℕ → Batch A → Res (Batch A)
  broadcast_flush num_channels b = ok (record b {
    sent = b.sent ++ broadcast num_channels 0 b.curr_buffer;
    curr_buffer = get_buffer;
  })

  unfoldable pub round_robin_flush : ℕ → Batch A → Res (Batch A)
  round_robin_flush num_channels b =
      if ltb b.curr_index num_channels
      then ok (record b {
        sent = b.sent ++ (b.curr_index, message_of b.curr_buffer) ∷ [];
        curr_index = if leb num_channels (b.curr_index + 1) then 0 else b.curr_index + 1;
        curr_buffer = get_buffer;
      })
      else panic
