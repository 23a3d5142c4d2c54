-- ===== src/Buffer.antt =====
-- execution-plane/arcon/src/buffer/event/mod.rs: event buffers, with their writers, readers and
-- iterators. A block of memory is a function from positions to cells, `none` where nothing has been
-- written. A pointer to a buffer (`Arc`) is its position in the pool, and what the code does through a
-- pointer is a function on the buffer that the pointer leads to. The flag `free` is one atomic
-- Boolean, read and written in single steps.
pub mod Pool
pub mod Sharing
pub mod Waiting
pub mod Writers
mod Examples
use arcon.Common.{
  ℕ, zero, suc, ◌+◌, ◌-◌, Bool, true, false, Option, none, some, List, [], ◌∷◌, ltb, leb, ◌==◌,
  if◌then◌else◌, ite, ℕ_discrete, Res, ok, err, Error,
}
use arcon.Allocator.{
  AllocId, Layout, AllocResult, alloc_done, arcon_oom, system_oom, capacity_err, ArconAllocator,
  alloc, dealloc,
}

abbrev pub Cells : Type 0 → Type 0
Cells A = ℕ → Option A

abbrev pub update {ℓ} : {A : Type ℓ} → (ℕ → A) → ℕ → A → ℕ → A
update f i a j = ite (ℕ_discrete i j) a (f j)

-- The `n` cells from `i` on; reading a cell that was never written has no meaning.
abbrev pub read : {A : Type 0} → Cells A → ℕ → ℕ → Option (List A)
read cells i zero = some []
read cells i (suc n) = elim (cells i) [
  | none ↦ none
  | some a ↦ elim (read cells (i + 1) n) [ none ↦ none | some rest ↦ some (a ∷ rest) ]
]

-- `std::ptr::copy` of the first `n` cells.
abbrev pub copy : {A : Type 0} → Cells A → ℕ → Cells A → Cells A
copy src n dst i = if ltb i n then src i else dst i

pub record EventBuffer (A : Type 0) : Type 0 where
  pub ptr : Cells A
  pub id : AllocId
  pub capacity : ℕ
  pub free : Bool

pub record BufferWriter : Type 0 where
  pub buffer : ℕ
  pub len : ℕ
  pub capacity : ℕ

pub record BufferReader : Type 0 where
  pub buffer : ℕ
  pub len : ℕ

pub record IntoIter : Type 0 where
  pub reader : BufferReader
  pub current : ℕ
  pub end : ℕ

unfoldable pub new_writer : ℕ → ℕ → ℕ → BufferWriter
new_writer buffer len capacity = record { buffer = buffer; len = len; capacity = capacity }

unfoldable pub reader : BufferWriter → BufferReader
reader w = record { buffer = w.buffer; len = w.len }

unfoldable pub into_iter : BufferReader → IntoIter
into_iter r = record { reader = r; current = 0; end = r.len }

unfoldable pub size_hint : IntoIter → ℕ × Option ℕ
size_hint it = let size = it.end - it.current in (size, some size)

module _ {A : Type 0} where
  module _ (system_alloc : Layout → Option ℕ) where
    -- `EventBuffer::new`, for elements of a size and an alignment.
    unfoldable pub new_buffer : ℕ → ℕ → ℕ → ArconAllocator → Res (EventBuffer A) × ArconAllocator
    new_buffer size align capacity a =
        let r = alloc system_alloc size align capacity a in
        elim r.0 [
          | alloc_done id addr ↦
              (ok (record { ptr = λ _. none; id = id; capacity = capacity; free = true }), r.1)
          | arcon_oom left ↦ (err Error.alloc_failed, r.1)
          | system_oom ↦ (err Error.alloc_failed, r.1)
          | capacity_err ↦ (err Error.alloc_failed, r.1)
        ]

  -- `EventBuffer::push`: a value that lies beyond the capacity is given back.
  unfoldable pub push_at : A → ℕ → EventBuffer A → Option A × EventBuffer A
  push_at value len b =
      if leb b.capacity len
      then (some value, b)
      else (none, record b { ptr = update b.ptr len (some value) })

  unfoldable pub release : EventBuffer A → EventBuffer A
  release b = record b { free = true }

  -- The value of the flag before, which is `true` when the reservation succeeds.
  unfoldable pub try_reserve : EventBuffer A → Bool × EventBuffer A
  try_reserve b = (b.free, if b.free then record b { free = false } else b)

  -- `Drop` of an `EventBuffer`.
  unfoldable pub drop_buffer :
      {Sys : Type 0}
      → (ℕ → Layout → Sys → Sys)
      → EventBuffer A
      → ArconAllocator × Sys
      → ArconAllocator × Sys
  drop_buffer system_dealloc b s = dealloc system_dealloc b.id s

  -- `BufferWriter::push`, with the buffer behind the writer.
  unfoldable pub write : A → BufferWriter → EventBuffer A → Option A × BufferWriter × EventBuffer A
  unfolding push_at
  write value w b =
      let r = push_at value w.len b in
      elim r.0 [ some v ↦ (some v, w, r.1) | none ↦ (none, record w { len = w.len + 1 }, r.1) ]

  unfoldable pub write_all :
      List A → BufferWriter → EventBuffer A → List (Option A) × BufferWriter × EventBuffer A
  write_all [] w b = ([], w, b)
  write_all (v ∷ vs) w b =
      let r = write v w b in let rest = write_all vs r.1 r.2 in (r.0 ∷ rest.0, rest.1, rest.2)

  -- `copy_from_writer`: `b` is the buffer behind the writer, `source` that behind the other one.
  unfoldable pub copy_from :
      BufferWriter → EventBuffer A → BufferWriter → EventBuffer A → BufferWriter × EventBuffer A
  copy_from other source w b =
      (record w { len = other.len }, record b { ptr = copy source.ptr other.len b.ptr })

  -- `as_slice`, and `into_vec`, which copies the cells into a new vector.
  unfoldable pub as_slice : BufferReader → EventBuffer A → Option (List A)
  as_slice r b = read b.ptr 0 r.len

  unfoldable pub into_vec : BufferReader → EventBuffer A → Option (List A)
  into_vec r b = read (copy b.ptr r.len (λ _. none)) 0 r.len

  -- `Drop` of a `BufferReader`.
  unfoldable pub drop_reader : BufferReader → EventBuffer A → EventBuffer A
  unfolding release
  drop_reader r b = release b

  -- The end of the iteration, or what the cell holds.
  unfoldable pub next : IntoIter → EventBuffer A → Option (Option A) × IntoIter
  next it b =
      if it.current == it.end
      then (none, it)
      else (some (b.ptr it.current), record it { current = it.current + 1 })

  -- A loop over the iterator, for at most `fuel` rounds.
  unfoldable pub drain_iter : ℕ → IntoIter → EventBuffer A → List (Option A)
  drain_iter zero it b = []
  drain_iter (suc fuel) it b =
      let r = next it b in
      let rest = drain_iter fuel r.1 b in elim r.0 [ none ↦ [] | some cell ↦ cell ∷ rest ]
