-- ===== src/Allocator.antt =====
-- execution-plane/arcon/src/allocator/mod.rs: the memory accounting of `ArconAllocator`.
-- `usize` and `u64` are 64 bits wide; the release profile wraps, so sums and differences are taken
-- modulo 2 ^ 64. The system allocator is an argument: a function from a layout to an address, and what
-- giving a block back does to the system.
pub mod Accounting
pub mod Outcomes
mod Examples
use arcon.Common.{
  ℕ, ◌+◌, ◌-◌, ◌*◌, ◌%◌, Bool, true, false, Option, none, some, List, [], ◌∷◌, ltb, ◌==◌,
  if◌then◌else◌, u32_mod, u64_mod, u64_max, ℕ_discrete,
}
use arcon.Common.Assoc.{get, insert, remove}

-- `(u32, u64)`: the epoch and the counter within it.
abbrev pub AllocId : Type 0
AllocId = ℕ × ℕ

unfoldable pub id_discrete : Discrete AllocId
unfolding ℕ_discrete
id_discrete = hlevel ℕ_discrete

pub record Layout : Type 0 where
  pub size : ℕ
  pub align : ℕ

pub data AllocResult : Type 0 where
  alloc_done : AllocId → ℕ → AllocResult
  arcon_oom : ℕ → AllocResult
  system_oom : AllocResult
  capacity_err : AllocResult

pub record ArconAllocator : Type 0 where
  pub allocations : List (AllocId × (ℕ × Layout))
  pub limit : ℕ
  pub alloc_epoch : ℕ
  pub alloc_counter : ℕ
  pub curr_alloc : ℕ

unfoldable pub new : ℕ → ArconAllocator
new limit = record {
  allocations = [];
  limit = limit;
  alloc_epoch = 1;
  alloc_counter = 0;
  curr_alloc = 0;
}

-- `usize::checked_mul`.
unfoldable pub checked_mul : ℕ → ℕ → Option ℕ
checked_mul a b = if ltb (a * b) u64_mod then some (a * b) else none

unfoldable pub bytes_remaining : ArconAllocator → ℕ
bytes_remaining a = (a.limit + u64_mod - a.curr_alloc) % u64_mod

-- The epoch moves on when the counter is used up.
unfoldable pub next_epoch : ArconAllocator → ArconAllocator
next_epoch a =
    if a.alloc_counter == u64_max
    then record a { alloc_epoch = (a.alloc_epoch + 1) % u32_mod; alloc_counter = 0 }
    else a

-- Enters a block that the system has handed out.
unfoldable pub record_alloc : ArconAllocator → Layout → ℕ → AllocResult × ArconAllocator
record_alloc a layout mem =
    let id : AllocId = (a.alloc_epoch, a.alloc_counter) in
    (
      alloc_done id mem,
      record a {
        alloc_counter = (a.alloc_counter + 1) % u64_mod;
        allocations = insert id_discrete id (mem, layout) a.allocations;
      },
    )

unfoldable pub charge : ArconAllocator → Layout → ArconAllocator
charge a layout = record a { curr_alloc = (a.curr_alloc + layout.size) % u64_mod }

module _ (system_alloc : Layout → Option ℕ) where
  unfoldable pub alloc_bytes : ArconAllocator → Layout → AllocResult × ArconAllocator
  alloc_bytes a layout =
      if ltb a.limit ((a.curr_alloc + layout.size) % u64_mod)
      then (arcon_oom (bytes_remaining a), a)
      else elim (system_alloc layout) [
        | none ↦ (system_oom, a)
        | some mem ↦ record_alloc (next_epoch (charge a layout)) layout mem
      ]

  -- `alloc::<T>(capacity)`, with the size and the alignment of `T`.
  unfoldable pub alloc : ℕ → ℕ → ℕ → ArconAllocator → AllocResult × ArconAllocator
  alloc size align capacity a =
      if capacity == 0 then (capacity_err, a) else elim (checked_mul capacity size) [
        | none ↦ (capacity_err, a)
        | some required ↦ alloc_bytes a (record { size = required; align = align })
      ]

-- The system, with what `System.dealloc(ptr, layout)` does to it.
module _ {Sys : Type 0} (system_dealloc : ℕ → Layout → Sys → Sys) where
  unfoldable pub dealloc : AllocId → ArconAllocator × Sys → ArconAllocator × Sys
  dealloc id (a, sys) = elim (get id_discrete id a.allocations) [
    | none ↦ (a, sys)
    | some (mem, layout) ↦ (
      record a {
        allocations = remove id_discrete id a.allocations;
        curr_alloc = (a.curr_alloc + u64_mod - layout.size) % u64_mod;
      },
      system_dealloc mem layout sys,
    )
  ]

  -- `Drop`: every outstanding block goes back to the system. The ids are collected first.
  unfoldable pub dealloc_all :
      List (AllocId × (ℕ × Layout)) → ArconAllocator × Sys → ArconAllocator × Sys
  unfolding dealloc
  dealloc_all [] s = s
  dealloc_all ((id, block) ∷ rest) s = dealloc_all rest (dealloc id s)

  unfoldable pub drop_allocator : ArconAllocator × Sys → ArconAllocator × Sys
  unfolding dealloc_all
  drop_allocator s = dealloc_all s.0.allocations s

abbrev pub allocated_bytes : ArconAllocator → ℕ
allocated_bytes a = a.curr_alloc

-- A `u128`; the product of the earlier epochs is taken in `u64` first.
unfoldable pub total_allocations : ArconAllocator → ℕ
total_allocations a =
    if a.alloc_epoch == 1
    then a.alloc_counter
    else ((a.alloc_epoch + u32_mod - 1) % u32_mod) * u64_max % u64_mod + a.alloc_counter
