-- ===== src/Allocator/Outcomes.antt =====
-- ArconAllocator: what each call does, on every branch.
use arcon.Common.{
  ℕ, ◌+◌, ◌-◌, ◌*◌, ◌^◌, ◌%◌, ◌≤◌, ◌<◌, ◌≡◌, refl, ap, ◌∙◌, ◌≢◌, ◌⊎◌, inl, inr, Option, none, some,
  List, [], ◌∷◌, arith, ltb, ◌==◌, Option-cases, Bool-cases, u32_mod, u64_mod, u64_max,
}
use arcon.Common.Assoc.{get, remove, IsMap, total, get-insert_self, remove_absent}
use arcon.Allocator.{
  AllocId, id_discrete, Layout, AllocResult, alloc_done, arcon_oom, system_oom, capacity_err,
  ArconAllocator, checked_mul, bytes_remaining, next_epoch, record_alloc, charge, alloc_bytes,
  alloc, dealloc, total_allocations, dealloc_all, drop_allocator,
}
use arcon.Allocator.Accounting.{
  Entry, block_size, IsAccounted, IsReady, next_epoch-IsReady, get-AllBefore, dealloc-IsAccounted,
}

module _ (system_alloc : Layout → Option ℕ) where
  -- What the caller learns from the result, and what has become of the allocator.
  abbrev pub BytesOutcome : ArconAllocator → Layout → AllocResult × ArconAllocator → Type 0
  BytesOutcome a layout (alloc_done id mem, b) =
      (system_alloc layout ≡ some mem)
      × (get id_discrete id a.allocations ≡ none)
      × (get id_discrete id b.allocations ≡ some (mem, layout))
      × (b.curr_alloc ≡ a.curr_alloc + layout.size)
      × (b.curr_alloc ≤ a.limit)
  BytesOutcome a layout (arcon_oom left, b) =
      (b ≡ a) × (left + a.curr_alloc ≡ a.limit) × (left < layout.size)
  BytesOutcome a layout (system_oom, b) = (b ≡ a) × (system_alloc layout ≡ none)
  BytesOutcome a layout (capacity_err, b) = ⊥

  pub alloc_bytes-BytesOutcome :
      (a : ArconAllocator) (layout : Layout)
      → IsAccounted a
      → a.alloc_epoch + 1 < u32_mod
      → ((m : ℕ) → system_alloc layout ≡ some m → layout.size < 2 ^ 63)
      → BytesOutcome a layout (alloc_bytes system_alloc a layout)
  unfolding alloc_bytes bytes_remaining record_alloc
  alloc_bytes-BytesOutcome a layout v h small =
      elim (Bool-cases (ltb a.limit ((a.curr_alloc + layout.size) % u64_mod))) [
        | inl e ↦
            rw e
              (refl, omega (arith, v.within, v.limit_fits), ground (arith, v.within, v.limit_fits))
        | inr e ↦ elim (Option-cases (system_alloc layout)) [
          | inl s ↦ rw e (rw s (refl, s))
          | inr (mem, s) ↦
              let fits : layout.size < 2 ^ 63 = small mem s in
              let below : a.curr_alloc + layout.size < u64_mod =
                omega (arith, v.within, v.limit_fits) in
              let n : ArconAllocator = next_epoch (charge a layout) in
              let r : IsReady a n layout = next_epoch-IsReady a layout v h below in
              rw e (
                rw s (
                  s,
                  get-AllBefore _ a.allocations r.ahead,
                  get-insert_self id_discrete _ _ n.allocations,
                  r.added,
                  ground (arith, r.added),
                ))
        ]
      ]

  abbrev pub AllocOutcome : ArconAllocator → ℕ → ℕ → ℕ → AllocResult × ArconAllocator → Type 0
  AllocOutcome a size align capacity (capacity_err, b) =
      (b ≡ a) × ((capacity ≡ 0) ⊎ (u64_mod ≤ capacity * size))
  AllocOutcome a size align capacity r =
      (capacity ≢ 0) × BytesOutcome a (record { size = capacity * size; align = align }) r

  AllocOutcome-of_BytesOutcome :
      (a : ArconAllocator) (size align capacity : ℕ) (r : AllocResult × ArconAllocator)
      → capacity ≢ 0
      → BytesOutcome a (record { size = capacity * size; align = align }) r
      → AllocOutcome a size align capacity r
  AllocOutcome-of_BytesOutcome a size align capacity (capacity_err, b) h o = absurd o
  AllocOutcome-of_BytesOutcome a size align capacity (alloc_done id mem, b) h o = (h, o)
  AllocOutcome-of_BytesOutcome a size align capacity (arcon_oom left, b) h o = (h, o)
  AllocOutcome-of_BytesOutcome a size align capacity (system_oom, b) h o = (h, o)

  -- Every result of `alloc` is explained. A block comes from the system, under an id that was not
  -- live and is live now, and its bytes are charged within the limit. A refusal leaves the allocator
  -- as it was: the limit is short by what the result says, the system has refused, or the capacity
  -- is zero or overflows. The limit and every block that the system grants fit into a signed word,
  -- and the last epoch is not reached.
  pub alloc-AllocOutcome :
      (size align capacity : ℕ) (a : ArconAllocator)
      → IsAccounted a
      → a.alloc_epoch + 1 < u32_mod
      → ((l : Layout) (m : ℕ) → system_alloc l ≡ some m → l.size < 2 ^ 63)
      → AllocOutcome a size align capacity (alloc system_alloc size align capacity a)
  unfolding alloc checked_mul
  alloc-AllocOutcome size align capacity a v h small = elim (Bool-cases (capacity == 0)) [
    | inl z ↦ rw z (refl, inl (ground arith))
    | inr nz ↦ elim (Bool-cases (ltb (capacity * size) u64_mod)) [
      | inl fits ↦ rw nz (
          rw fits (
            AllocOutcome-of_BytesOutcome a size align capacity _ (ground arith)
              (alloc_bytes-BytesOutcome a _ v h (small _))))
      | inr over ↦ rw nz (rw over (refl, inr (ground arith)))
    ]
  ]

total_nil : total id_discrete block_size [] ≡ 0
unfolding total
total_nil = refl

module _ {Sys : Type 0} (system_dealloc : ℕ → Layout → Sys → Sys) where
  -- The blocks of these entries are given back to the system, each once, in their order.
  abbrev pub free_all : List Entry → Sys → Sys
  free_all [] sys = sys
  free_all ((id, (mem, layout)) ∷ m) sys = free_all m (system_dealloc mem layout sys)

  -- Giving back the block of the first entry.
  record FreedFirst (b : ℕ × Layout) (m : List Entry) (sys : Sys) (r : ArconAllocator × Sys)
      : Type 0 where
    rest : r.0.allocations ≡ m
    freed : r.1 ≡ system_dealloc b.0 b.1 sys

  dealloc_first :
      (id : AllocId) (b : ℕ × Layout) (m : List Entry) (a : ArconAllocator) (sys : Sys)
      → IsAccounted a
      → a.allocations ≡ (id, b) ∷ m
      → FreedFirst b m sys (dealloc system_dealloc id (a, sys))
  unfolding dealloc get remove
  dealloc_first id b m a sys v e =
      let d : IsMap id_discrete ((id, b) ∷ m) = rw e at v.distinct in
      let found : get id_discrete id a.allocations ≡ some b = rw e (ground arith) in
      let gone : remove id_discrete id a.allocations ≡ m =
        rw e (ground (arith, remove_absent id_discrete id m d.0)) in
      rw (found, dealloc) (record { rest = gone; freed = refl })

  freed_all :
      (m : List Entry) (a : ArconAllocator) (sys : Sys)
      → IsAccounted a
      → a.allocations ≡ m
      → ((dealloc_all system_dealloc m (a, sys)).0.allocations ≡ [])
        × ((dealloc_all system_dealloc m (a, sys)).0.curr_alloc ≡ 0)
        × ((dealloc_all system_dealloc m (a, sys)).1 ≡ free_all m sys)
  unfolding dealloc_all
  freed_all [] a sys v e =
      (e, omega (arith, v.charged, ap (total id_discrete block_size) e, total_nil), refl)
  freed_all ((id, b) ∷ m) a sys v e =
      let r = dealloc system_dealloc id (a, sys) in
      let f = dealloc_first id b m a sys v e in
      let ih = freed_all m r.0 r.1 (dealloc-IsAccounted system_dealloc id a sys v) f.rest in
      (ih.0, ih.1, ih.2 ∙ ap (free_all m) f.freed)

  -- Dropping an allocator whose books are kept gives every outstanding block back to the system, each
  -- of them once, at its address and with its layout, and nothing else; afterwards no block is live and
  -- no byte is charged.
  pub drop_allocator-free_all :
      (a : ArconAllocator) (sys : Sys)
      → IsAccounted a
      → ((drop_allocator system_dealloc (a, sys)).0.allocations ≡ [])
        × ((drop_allocator system_dealloc (a, sys)).0.curr_alloc ≡ 0)
        × ((drop_allocator system_dealloc (a, sys)).1 ≡ free_all a.allocations sys)
  unfolding drop_allocator
  drop_allocator-free_all a sys v = freed_all a.allocations a sys v refl

-- From the third epoch on `total_allocations` is below the count that its comment promises, since
-- the product wraps in `u64`. The epoch is a `u32`.
pub total_allocations-lt :
    (a : ArconAllocator)
    → 3 ≤ a.alloc_epoch
    → a.alloc_epoch < u32_mod
    → total_allocations a < (a.alloc_epoch - 1) * u64_max + a.alloc_counter
unfolding total_allocations
total_allocations-lt a h k = ground arith
