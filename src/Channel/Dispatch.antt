-- ===== src/Channel/Dispatch.antt =====
-- execution-plane/arcon/src/stream/channel/strategy/mod.rs: the choice of a strategy.
use arcon.Common.{ℕ, Res, ok, ◌>>=◌, length}
use arcon.Data.{NodeId, ArconEvent}
use arcon.Channel.{Batch, add}
use arcon.Channel.Strategies.{forward_flush, broadcast_flush, round_robin_flush}
use arcon.Channel.KeyBy.{KeyBy, key_by_add, key_by_flush}

-- `Broadcast` and `RoundRobin` come with the number of their channels.
pub data ChannelStrategy (A : Type 0) : Type 0 where
  forward : Batch A → ChannelStrategy A
  broadcast_to : ℕ → Batch A → ChannelStrategy A
  key_by : KeyBy A → ChannelStrategy A
  round_robin : ℕ → Batch A → ChannelStrategy A
  mute : ChannelStrategy A

module _ {A : Type 0} (sender_id : NodeId) (buffer_size : ℕ) where
  abbrev pub forward_add : ArconEvent A → Batch A → Res (Batch A)
  forward_add = add (forward_flush sender_id buffer_size)

  abbrev pub broadcast_add : ℕ → ArconEvent A → Batch A → Res (Batch A)
  broadcast_add n = add (broadcast_flush sender_id buffer_size n)

  abbrev pub round_robin_add : ℕ → ArconEvent A → Batch A → Res (Batch A)
  round_robin_add n = add (round_robin_flush sender_id buffer_size n)

  module _ (get_key : A → ℕ) (max_key key_ranges : ℕ) where
    unfoldable pub strategy_add : ArconEvent A → ChannelStrategy A → Res (ChannelStrategy A)
    strategy_add e (ChannelStrategy.forward b) =
        forward_add e b >>= λ b'. ok (ChannelStrategy.forward b')
    strategy_add e (ChannelStrategy.broadcast_to n b) =
        broadcast_add n e b >>= λ b'. ok (ChannelStrategy.broadcast_to n b')
    strategy_add e (ChannelStrategy.key_by s) =
        key_by_add sender_id buffer_size get_key max_key key_ranges e s >>= λ s'.
        ok (ChannelStrategy.key_by s')
    strategy_add e (ChannelStrategy.round_robin n b) =
        round_robin_add n e b >>= λ b'. ok (ChannelStrategy.round_robin n b')
    strategy_add e ChannelStrategy.mute = ok ChannelStrategy.mute

  unfoldable pub strategy_flush : ChannelStrategy A → Res (ChannelStrategy A)
  strategy_flush (ChannelStrategy.forward b) =
      forward_flush sender_id buffer_size b >>= λ b'. ok (ChannelStrategy.forward b')
  strategy_flush (ChannelStrategy.broadcast_to n b) =
      broadcast_flush sender_id buffer_size n b >>= λ b'. ok (ChannelStrategy.broadcast_to n b')
  strategy_flush (ChannelStrategy.key_by s) =
      ok (ChannelStrategy.key_by (key_by_flush sender_id buffer_size s))
  strategy_flush (ChannelStrategy.round_robin n b) =
      round_robin_flush sender_id buffer_size n b >>= λ b'. ok (ChannelStrategy.round_robin n b')
  strategy_flush ChannelStrategy.mute = ok ChannelStrategy.mute

unfoldable pub num_channels : {A : Type 0} → ChannelStrategy A → ℕ
num_channels (ChannelStrategy.forward b) = 1
num_channels (ChannelStrategy.broadcast_to n b) = n
num_channels (ChannelStrategy.key_by s) = length s.buffer_map
num_channels (ChannelStrategy.round_robin n b) = n
num_channels ChannelStrategy.mute = 0
