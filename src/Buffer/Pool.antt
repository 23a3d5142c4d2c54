-- ===== src/Buffer/Pool.antt =====
-- execution-plane/arcon/src/buffer/event/mod.rs: `BufferPool` and `PoolInfo`. `buffers.capacity()` is a
-- field, which `Vec::with_capacity` sets to the number asked for.
use arcon.Common.{
  ℕ, zero, suc, ◌+◌, Option, none, some, List, [], ◌∷◌, ◌++◌, ◌==◌, if◌then◌else◌, Res, ok, err,
  panic, out_of_fuel, ◌>>=◌, or_panic, get_elem?, set,
}
use arcon.Allocator.{Layout, ArconAllocator}
use arcon.Buffer.{
  EventBuffer, BufferWriter, new_buffer, drop_buffer, try_reserve, new_writer, release,
}

pub record PoolInfo : Type 0 where
  pub buffer_size : ℕ
  pub capacity : ℕ
  pub limit : ℕ
  pub allocator : ArconAllocator

unfoldable pub new_info : ℕ → ℕ → ℕ → ArconAllocator → PoolInfo
new_info buffer_size capacity limit allocator = record {
  buffer_size = buffer_size;
  capacity = capacity;
  limit = limit;
  allocator = allocator;
}

pub record BufferPool (A : Type 0) : Type 0 where
  pub buffer_size : ℕ
  pub buffers : List (EventBuffer A)
  pub buffers_capacity : ℕ
  pub curr_buffer : ℕ

module _ {A : Type 0} where
  module _ {Sys : Type 0} (system_alloc : Layout → Option ℕ)
      (system_dealloc : ℕ → Layout → Sys → Sys) where
    -- The buffers of a pool, or of a vector that an error drops.
    unfoldable pub drop_buffers : List (EventBuffer A) → ArconAllocator × Sys → ArconAllocator × Sys
    unfolding drop_buffer
    drop_buffers [] s = s
    drop_buffers (b ∷ bs) s = drop_buffers bs (drop_buffer system_dealloc b s)

    -- The loop of `BufferPool::new`, with the buffers so far. An error drops them.
    unfoldable pub new_buffers :
        ℕ
        → ℕ
        → ℕ
        → ℕ
        → List (EventBuffer A)
        → ArconAllocator × Sys
        → Res (List (EventBuffer A)) × (ArconAllocator × Sys)
    unfolding new_buffer drop_buffers
    new_buffers size align buffer_size zero bs s = (ok bs, s)
    new_buffers size align buffer_size (suc n) bs s =
        let r = new_buffer system_alloc size align buffer_size s.0 in
        elim r.0 [
          | ok b ↦ new_buffers size align buffer_size n (bs ++ b ∷ []) (r.1, s.1)
          | err e ↦ (err e, drop_buffers bs (r.1, s.1))
          | panic ↦ (panic, (r.1, s.1))
          | out_of_fuel ↦ (out_of_fuel, (r.1, s.1))
        ]

    unfoldable pub new_pool :
        ℕ → ℕ → ℕ → ℕ → ArconAllocator × Sys → Res (BufferPool A) × (ArconAllocator × Sys)
    unfolding new_buffers
    new_pool size align capacity buffer_size s =
        let r = new_buffers size align buffer_size capacity [] s in
        (
          r.0 >>= λ bs. ok (record {
            buffer_size = buffer_size;
            buffers = bs;
            buffers_capacity = capacity;
            curr_buffer = 0;
          }),
          r.1,
        )

  unfoldable pub index_incr : BufferPool A → BufferPool A
  index_incr p =
      let curr = p.curr_buffer + 1 in
      record p { curr_buffer = if curr == p.buffers_capacity then 0 else curr }

  -- An index beyond the buffers is a panic.
  unfoldable pub try_get : BufferPool A → Res (Option BufferWriter × BufferPool A)
  unfolding index_incr try_reserve new_writer
  try_get p = or_panic (get_elem? p.buffers p.curr_buffer) >>= λ buf.
      let r = try_reserve buf in
      let opt = if r.0 then some (new_writer p.curr_buffer 0 buf.capacity) else none in
      ok (opt, index_incr (record p { buffers = set p.buffers p.curr_buffer r.1 }))

  abbrev pub pool_capacity : BufferPool A → ℕ
  pool_capacity p = p.buffers_capacity

  -- What a reader of the buffer `j` does when it is dropped.
  abbrev pub release_at : ℕ → List (EventBuffer A) → List (EventBuffer A)
  release_at j bs = elim (get_elem? bs j) [ none ↦ bs | some b ↦ set bs j (release b) ]

  abbrev pub release_all : List ℕ → List (EventBuffer A) → List (EventBuffer A)
  release_all [] bs = bs
  release_all (j ∷ js) bs = release_all js (release_at j bs)

  -- The busy wait of `get`. Each round comes with the buffers that readers elsewhere have released
  -- before it, and the loop is followed for as many rounds as are listed.
  unfoldable pub get : List (List ℕ) → BufferPool A → Res (BufferWriter × BufferPool A)
  unfolding try_get
  get [] p = out_of_fuel
  get (js ∷ rounds) p =
      let again : BufferPool A → Res (BufferWriter × BufferPool A) = get rounds in
      try_get (record p { buffers = release_all js p.buffers }) >>= λ r. elim r.0 [
        | none ↦ again r.1
        | some w ↦ ok (w, r.1)
      ]
