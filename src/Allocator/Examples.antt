-- ===== src/Allocator/Examples.antt =====
-- Runs of the allocator and instances of its theorems.
use arcon.Common.{
  ℕ, ◌^◌, ◌<◌, ◌≡◌, refl, List, ◌∷◌, Option, none, some, [], arith, ltb, if◌then◌else◌, u64_max,
}
use arcon.Common.Assoc.{insert}
use arcon.Allocator.{
  Layout, arcon_oom, ArconAllocator, new, checked_mul, bytes_remaining, next_epoch, record_alloc,
  charge, alloc_bytes, alloc, dealloc, drop_allocator,
}
use arcon.Allocator.Accounting.{
  IsAccounted, new-IsAccounted, alloc-IsAccounted, dealloc-IsAccounted,
}
use arcon.Allocator.Outcomes.{AllocOutcome, alloc-AllocOutcome, drop_allocator-free_all}

-- A system allocator that grants every block of a signed word's size.
abbrev granting : Layout → Option ℕ
granting l = if ltb l.size (2 ^ 63) then some 4096 else none

granting_small : (l : Layout) (m : ℕ) → granting l ≡ some m → l.size < 2 ^ 63
granting_small l m e = ground arith

fresh-IsAccounted : IsAccounted (new 1024)
fresh-IsAccounted = new-IsAccounted 1024 (omega arith)

-- The second allocation exceeds the limit.
alloc_then_oom : (alloc granting 8 8 100 (alloc granting 8 8 100 (new 1024)).1).0 ≡ arcon_oom 224
unfolding alloc checked_mul alloc_bytes record_alloc next_epoch charge bytes_remaining new
alloc_then_oom = refl

alloc-IsAccounted_example : IsAccounted (alloc granting 8 8 100 (new 1024)).1
unfolding new
alloc-IsAccounted_example =
    alloc-IsAccounted granting 8 8 100 (new 1024) fresh-IsAccounted (omega arith) granting_small

alloc-AllocOutcome_example :
    AllocOutcome granting (new 1024) 8 8 100 (alloc granting 8 8 100 (new 1024))
unfolding new
alloc-AllocOutcome_example =
    alloc-AllocOutcome granting 8 8 100 (new 1024) fresh-IsAccounted (omega arith) granting_small

-- A system that keeps the blocks that it was given back.
abbrev keeping : ℕ → Layout → List (ℕ × ℕ) → List (ℕ × ℕ)
keeping mem layout freed = (mem, layout.size) ∷ freed

dealloc-IsAccounted_example :
    IsAccounted (dealloc keeping (1, 0) ((alloc granting 8 8 100 (new 1024)).1, [])).0
dealloc-IsAccounted_example = dealloc-IsAccounted keeping (1, 0) _ [] alloc-IsAccounted_example

abbrev one_block : ArconAllocator
one_block = record {
  allocations = ((1, 0), (4096, record { size = 800; align = 8 })) ∷ [];
  limit = 1024;
  alloc_epoch = 1;
  alloc_counter = 1;
  curr_alloc = 800;
}

one_block_run : (alloc granting 8 8 100 (new 1024)).1 ≡ one_block
unfolding alloc checked_mul alloc_bytes record_alloc next_epoch charge new insert
one_block_run = refl

drop_allocator-free_all_example :
    ((drop_allocator keeping (one_block, [])).0.allocations ≡ [])
    × ((drop_allocator keeping (one_block, [])).0.curr_alloc ≡ 0)
    × ((drop_allocator keeping (one_block, [])).1 ≡ (4096, 800) ∷ [])
drop_allocator-free_all_example =
    drop_allocator-free_all keeping one_block [] (rw one_block_run at alloc-IsAccounted_example)

-- The last id of the first epoch has been given out.
abbrev worn : ArconAllocator
worn = record {
  allocations = [];
  limit = 1024;
  alloc_epoch = 1;
  alloc_counter = u64_max;
  curr_alloc = 0;
}

abbrev third_epoch : ArconAllocator
third_epoch = record worn { alloc_epoch = 3; alloc_counter = 7 }
