-- ===== src/Buffer/Examples.antt =====
-- Runs of the event buffers and instances of their theorems.
use arcon.Common.{
  ℕ, zero, suc, ◌≡◌, refl, Bool, true, false, none, some, List, [], ◌∷◌, arith, ok, length,
  ℕ_discrete,
}
use arcon.Data.{ArconEvent, ArconEventWrapper, wrap}
use arcon.Channel
use arcon.Channel.{push}
use arcon.Buffer.{
  EventBuffer, BufferWriter, push_at, new_writer, write, write_all, reader, into_vec, as_slice,
  drain_iter, into_iter, size_hint, update, try_reserve, release,
}
use arcon.Buffer.Pool.{BufferPool, index_incr, try_get, get}
use arcon.Buffer.Writers.{Views, new_writer-Holds, write-push, into_vec-write_all}
use arcon.Buffer.Waiting.{IsValid, Served, get-Served}
use arcon.Buffer.Sharing.{
  nobody, writing, reading, System, Step, Reach, put_buffer, pushed, idle, AllFree, try_get-nobody,
  into_vec-reading,
}

abbrev empty_buffer : Bool → EventBuffer ℕ
empty_buffer free = record { ptr = λ _. none; id = (1, 0); capacity = 2; free = free }

abbrev pool_of : List (EventBuffer ℕ) → BufferPool ℕ
pool_of bs = record { buffer_size = 2; buffers = bs; buffers_capacity = length bs; curr_buffer = 0 }

-- The third value does not fit.
three_values :
    (into_vec
        (reader (write_all (7 ∷ 8 ∷ 9 ∷ []) (new_writer 0 0 2) (empty_buffer false)).1)
        (write_all (7 ∷ 8 ∷ 9 ∷ []) (new_writer 0 0 2) (empty_buffer false)).2
      ≡ some (7 ∷ 8 ∷ []))
    × ((write_all (7 ∷ 8 ∷ 9 ∷ []) (new_writer 0 0 2) (empty_buffer false)).0
        ≡ none ∷ none ∷ some 9 ∷ [])
unfolding into_vec reader write_all write push_at new_writer ℕ_discrete
three_values = (refl, refl)

into_vec-write_all_example :
    (into_vec
        (reader (write_all (7 ∷ 8 ∷ 9 ∷ []) (new_writer 0 0 2) (empty_buffer false)).1)
        (write_all (7 ∷ 8 ∷ 9 ∷ []) (new_writer 0 0 2) (empty_buffer false)).2
      ≡ some (7 ∷ 8 ∷ []))
    × (as_slice
          (reader (write_all (7 ∷ 8 ∷ 9 ∷ []) (new_writer 0 0 2) (empty_buffer false)).1)
          (write_all (7 ∷ 8 ∷ 9 ∷ []) (new_writer 0 0 2) (empty_buffer false)).2
        ≡ some (7 ∷ 8 ∷ []))
    × (drain_iter
          (suc (reader (write_all (7 ∷ 8 ∷ 9 ∷ []) (new_writer 0 0 2) (empty_buffer false)).1).len)
          (into_iter
            (reader (write_all (7 ∷ 8 ∷ 9 ∷ []) (new_writer 0 0 2) (empty_buffer false)).1))
          (write_all (7 ∷ 8 ∷ 9 ∷ []) (new_writer 0 0 2) (empty_buffer false)).2
        ≡ some 7 ∷ some 8 ∷ [])
    × (size_hint (
          into_iter (reader (write_all (7 ∷ 8 ∷ 9 ∷ []) (new_writer 0 0 2) (empty_buffer false)).1))
        ≡ (
          (write_all (7 ∷ 8 ∷ 9 ∷ []) (new_writer 0 0 2) (empty_buffer false)).1.len,
          some (write_all (7 ∷ 8 ∷ 9 ∷ []) (new_writer 0 0 2) (empty_buffer false)).1.len,
        ))
    × ((write_all (7 ∷ 8 ∷ 9 ∷ []) (new_writer 0 0 2) (empty_buffer false)).0
        ≡ none ∷ none ∷ some 9 ∷ [])
into_vec-write_all_example = into_vec-write_all 0 (7 ∷ 8 ∷ 9 ∷ []) (empty_buffer false)

abbrev wrapped : ℕ → ArconEventWrapper ℕ
wrapped n = wrap (ArconEvent.watermark n)

abbrev wrapped_buffer : EventBuffer (ArconEventWrapper ℕ)
wrapped_buffer = record { ptr = λ _. none; id = (1, 0); capacity = 1; free = false }

abbrev empty_view : Channel.BufferWriter ℕ
empty_view = record { events = []; capacity = 1 }

fresh-Views : Views (new_writer 0 0 1) wrapped_buffer empty_view
fresh-Views = record { holds = new_writer-Holds 0 wrapped_buffer; capacity = refl }

write-push_example :
    ((write (wrapped 4) (new_writer 0 0 1) wrapped_buffer).0 ≡ (push (wrapped 4) empty_view).0)
    × Views
        (write (wrapped 4) (new_writer 0 0 1) wrapped_buffer).1
        (write (wrapped 4) (new_writer 0 0 1) wrapped_buffer).2
        (push (wrapped 4) empty_view).1
write-push_example = write-push (wrapped 4) (new_writer 0 0 1) wrapped_buffer empty_view fresh-Views

-- Both buffers are held; the second is released before the second round.
abbrev busy : BufferPool ℕ
busy = pool_of (empty_buffer false ∷ empty_buffer false ∷ [])

get_waits : get ([] ∷ (1 ∷ []) ∷ [] ∷ []) busy ≡ ok (new_writer 1 0 2, busy)
unfolding get try_get try_reserve index_incr release new_writer
get_waits = refl

busy-IsValid : IsValid busy
busy-IsValid = record { exact = refl; inside = omega arith }

get-Served_example : Served busy (get ([] ∷ (1 ∷ []) ∷ [] ∷ []) busy)
get-Served_example =
    get-Served ([] ∷ []) ([] ∷ []) [] [] 1 busy busy-IsValid (omega arith) (omega arith)

-- A pool of one free buffer, and what becomes of it: reserved, filled with one value, sent.
abbrev one : BufferPool ℕ
one = pool_of (empty_buffer true ∷ [])

one-IsValid : IsValid one
one-IsValid = record { exact = refl; inside = omega arith }

one-AllFree : AllFree one
one-AllFree zero b e = ground arith
one-AllFree (suc j) b e = absurd (ground arith)

abbrev reserved_once : System ℕ
reserved_once = record {
  pool = pool_of (empty_buffer false ∷ []);
  owner = update (λ _. nobody) 0 (writing (new_writer 0 0 2) []);
}

reserved_once-Reach : Reach (idle one) reserved_once
unfolding try_get try_reserve index_incr new_writer
reserved_once-Reach =
    Reach.next Reach.here (Step.reserve (new_writer 0 0 2) reserved_once.pool refl)

abbrev filled : System ℕ
filled = record {
  pool = put_buffer 0 (write 5 (new_writer 0 0 2) (empty_buffer false)).2 reserved_once.pool;
  owner = update reserved_once.owner 0 (
      writing (write 5 (new_writer 0 0 2) (empty_buffer false)).1
        (pushed (write 5 (new_writer 0 0 2) (empty_buffer false)).0 5 []));
}

filled-Reach : Reach (idle one) filled
unfolding ℕ_discrete
filled-Reach =
    Reach.next reserved_once-Reach
      (Step.fill 0 (new_writer 0 0 2) [] (empty_buffer false) 5 refl refl)

abbrev last_writer : BufferWriter
last_writer = (write 5 (new_writer 0 0 2) (empty_buffer false)).1

abbrev sent : System ℕ
sent = record {
  pool = filled.pool;
  owner = update filled.owner 0 (reading (reader last_writer) (5 ∷ []));
}

sent-Reach : Reach (idle one) sent
unfolding write push_at ℕ_discrete new_writer
sent-Reach = Reach.next filled-Reach (Step.send 0 last_writer (5 ∷ []) refl)

into_vec-reading_example :
    into_vec (reader last_writer) (write 5 (new_writer 0 0 2) (empty_buffer false)).2
    ≡ some (5 ∷ [])
unfolding ℕ_discrete
into_vec-reading_example =
    into_vec-reading {p = one} {s = sent} {j = 0} one-IsValid one-AllFree sent-Reach refl refl

-- Two free buffers, of which the first is reserved.
abbrev two : BufferPool ℕ
two = pool_of (empty_buffer true ∷ empty_buffer true ∷ [])

two-IsValid : IsValid two
two-IsValid = record { exact = refl; inside = omega arith }

two-AllFree : AllFree two
two-AllFree zero b e = ground arith
two-AllFree (suc zero) b e = ground arith
two-AllFree (suc (suc j)) b e = absurd (ground arith)

abbrev first_reserved : System ℕ
first_reserved = record {
  pool = record {
    buffer_size = 2;
    buffers = empty_buffer false ∷ empty_buffer true ∷ [];
    buffers_capacity = 2;
    curr_buffer = 1;
  };
  owner = update (λ _. nobody) 0 (writing (new_writer 0 0 2) []);
}

first_reserved-Reach : Reach (idle two) first_reserved
unfolding try_get try_reserve index_incr new_writer
first_reserved-Reach =
    Reach.next Reach.here (Step.reserve (new_writer 0 0 2) first_reserved.pool refl)

try_get-nobody_example : first_reserved.owner 1 ≡ nobody
unfolding try_get try_reserve index_incr new_writer
try_get-nobody_example =
    try_get-nobody {p = two} {q = pool_of (empty_buffer false ∷ empty_buffer false ∷ [])}
      {s = first_reserved} {w = new_writer 1 0 2} two-IsValid two-AllFree first_reserved-Reach refl
