-- ===== src/Allocator/Accounting.antt =====
-- ArconAllocator: the bytes charged are those of the live blocks, and ids are not used twice.
use arcon.Common.{
  ℕ, ◌+◌, ◌*◌, ◌^◌, ◌%◌, ◌≤◌, ◌<◌, ◌≡◌, refl, ◌⊎◌, inl, inr, Option, none, some, List, [], ◌∷◌,
  arith, ltb, ◌==◌, Option-cases, Bool-cases, u32_mod, u64_mod, u64_max,
}
use arcon.Common.Assoc.{
  get, insert, remove, IsMap, insert-IsMap, remove-IsMap, total, total-insert, total-remove,
}
use arcon.Allocator.{
  AllocId, id_discrete, Layout, ArconAllocator, new, checked_mul, next_epoch, record_alloc, charge,
  alloc_bytes, alloc, dealloc,
}

-- The order in which ids are given out.
abbrev pub Before : AllocId → AllocId → Type 0
Before i j = (i.0 < j.0) ⊎ ((i.0 ≡ j.0) × (i.1 < j.1))

abbrev pub block_size : ℕ × Layout → ℕ
block_size b = b.1.size

abbrev pub Entry : Type 0
Entry = AllocId × (ℕ × Layout)

abbrev pub AllBefore : AllocId → List Entry → Type 0
AllBefore n [] = Unit {0}
AllBefore n ((i, b) ∷ m) = Before i n × AllBefore n m

pub record IsAccounted (a : ArconAllocator) : Type 0 where
  pub distinct : IsMap id_discrete a.allocations
  pub used : AllBefore (a.alloc_epoch, a.alloc_counter) a.allocations
  pub charged : a.curr_alloc ≡ total id_discrete block_size a.allocations
  pub within : a.curr_alloc ≤ a.limit
  pub limit_fits : a.limit ≤ 2 ^ 63
  pub counter_fits : a.alloc_counter < u64_mod

AllBefore-trans :
    (i j : AllocId) (m : List Entry)
    → ((k : AllocId) → Before k i → Before k j)
    → AllBefore i m
    → AllBefore j m
AllBefore-trans i j [] h b = tt
AllBefore-trans i j ((k, e) ∷ m) h b = (h k b.0, AllBefore-trans i j m h b.1)

AllBefore-insert :
    (n i : AllocId) (e : ℕ × Layout) (m : List Entry)
    → Before i n
    → AllBefore n m
    → AllBefore n (insert id_discrete i e m)
unfolding insert
AllBefore-insert n i e [] h b = (h, tt)
AllBefore-insert n i e ((k, f) ∷ m) h b = ground (arith, AllBefore-insert n i e m h b.1)

pub AllBefore-remove :
    (n i : AllocId) (m : List Entry) → AllBefore n m → AllBefore n (remove id_discrete i m)
unfolding remove
AllBefore-remove n i [] b = tt
AllBefore-remove n i ((k, f) ∷ m) b = ground (arith, AllBefore-remove n i m b.1)

pub get-AllBefore : (n : AllocId) (m : List Entry) → AllBefore n m → get id_discrete n m ≡ none
unfolding get
get-AllBefore n [] b = refl
get-AllBefore n ((k, f) ∷ m) b = ground (arith, get-AllBefore n m b.1)

pub new-IsAccounted : (limit : ℕ) → limit ≤ 2 ^ 63 → IsAccounted (new limit)
unfolding new total
new-IsAccounted limit h = ground arith

-- The facts that an allocation takes over from `charge` and `next_epoch`.
pub record IsReady (a n : ArconAllocator) (layout : Layout) : Type 0 where
  pub same : n.allocations ≡ a.allocations
  pub same_limit : n.limit ≡ a.limit
  pub ahead : AllBefore (n.alloc_epoch, n.alloc_counter) a.allocations
  pub room : n.alloc_counter < u64_max
  pub added : n.curr_alloc ≡ a.curr_alloc + layout.size

pub next_epoch-IsReady :
    (a : ArconAllocator) (layout : Layout)
    → IsAccounted a
    → a.alloc_epoch + 1 < u32_mod
    → a.curr_alloc + layout.size < u64_mod
    → IsReady a (next_epoch (charge a layout)) layout
unfolding next_epoch charge
next_epoch-IsReady a layout v h k = elim (Bool-cases (a.alloc_counter == u64_max)) [
  | inl e ↦ record {
    same = rw e;
    same_limit = rw e;
    ahead = rw e (
        AllBefore-trans (a.alloc_epoch, a.alloc_counter) _ a.allocations (λ i b. ground arith)
          v.used);
    room = rw e (omega arith);
    added = rw e (omega arith);
  }
  | inr e ↦ record {
    same = rw e;
    same_limit = rw e;
    ahead = rw e v.used;
    room = rw e (ground arith);
    added = rw e (omega arith);
  }
]

pub record_alloc-IsAccounted :
    (a n : ArconAllocator) (layout : Layout) (mem : ℕ)
    → IsAccounted a
    → IsReady a n layout
    → a.curr_alloc + layout.size ≤ a.limit
    → IsAccounted (record_alloc n layout mem).1
unfolding record_alloc
record_alloc-IsAccounted a n layout mem v r h = record {
  distinct = rw r.same (insert-IsMap id_discrete id (mem, layout) a.allocations v.distinct);
  used = rw r.same (
      AllBefore-insert _ id (mem, layout) a.allocations (ground arith)
        (AllBefore-trans id _ a.allocations (λ i b. ground arith) r.ahead));
  charged = rw r.same (
      omega (
        arith,
        r.added,
        v.charged,
        total-insert id_discrete block_size id (mem, layout) a.allocations
            (get-AllBefore id a.allocations r.ahead),
      ));
  within = omega (arith, r.added, r.same_limit);
  limit_fits = omega (arith, r.same_limit, v.limit_fits);
  counter_fits = omega (arith, r.room);
}
  where
    id : AllocId
    id = (n.alloc_epoch, n.alloc_counter)

module _ (system_alloc : Layout → Option ℕ) where
  alloc_bytes-IsAccounted :
      (a : ArconAllocator) (layout : Layout)
      → IsAccounted a
      → a.alloc_epoch + 1 < u32_mod
      → ((m : ℕ) → system_alloc layout ≡ some m → layout.size < 2 ^ 63)
      → IsAccounted (alloc_bytes system_alloc a layout).1
  unfolding alloc_bytes
  alloc_bytes-IsAccounted a layout v h small =
      elim (Bool-cases (ltb a.limit ((a.curr_alloc + layout.size) % u64_mod))) [
        | inl e ↦ rw e v
        | inr e ↦ elim (Option-cases (system_alloc layout)) [
          | inl s ↦ rw e (rw s v)
          | inr (mem, s) ↦
              let fits : layout.size < 2 ^ 63 = small mem s in
              let below : a.curr_alloc + layout.size < u64_mod =
                omega (arith, v.within, v.limit_fits) in
              rw e (
                rw s (
                  record_alloc-IsAccounted a _ layout mem v (next_epoch-IsReady a layout v h below)
                    (ground arith)))
        ]
      ]

  -- Every call of `alloc` keeps the books: the bytes charged are those of the live blocks and stay
  -- within the limit, and every id given out lies before the next one. The limit and every block
  -- that the system grants fit into a signed word, and the last epoch is not reached.
  pub alloc-IsAccounted :
      (size align capacity : ℕ) (a : ArconAllocator)
      → IsAccounted a
      → a.alloc_epoch + 1 < u32_mod
      → ((l : Layout) (m : ℕ) → system_alloc l ≡ some m → l.size < 2 ^ 63)
      → IsAccounted (alloc system_alloc size align capacity a).1
  unfolding alloc checked_mul
  alloc-IsAccounted size align capacity a v h small = ground (
    arith,
    alloc_bytes-IsAccounted a (record { size = capacity * size; align = align }) v h
        (small (record { size = capacity * size; align = align })),
  )

-- Giving a block back keeps the books, whether or not the id is live.
pub dealloc-IsAccounted :
    {Sys : Type 0} (system_dealloc : ℕ → Layout → Sys → Sys) (id : AllocId) (a : ArconAllocator)
    (sys : Sys)
    → IsAccounted a
    → IsAccounted (dealloc system_dealloc id (a, sys)).0
unfolding dealloc
dealloc-IsAccounted system_dealloc id a sys v =
    elim (Option-cases (get id_discrete id a.allocations)) [
      | inl e ↦ rw (e, dealloc) v
      | inr ((mem, layout), e) ↦
          let sum : total id_discrete block_size (remove id_discrete id a.allocations) + layout.size
              ≡ total id_discrete block_size a.allocations =
            total-remove id_discrete block_size id (mem, layout) a.allocations v.distinct e in
          rw (e, dealloc)
            (record {
              distinct = remove-IsMap id_discrete id a.allocations v.distinct;
              used = AllBefore-remove _ id a.allocations v.used;
              charged = omega (arith, v.charged, v.within, v.limit_fits);
              within = omega (arith, v.charged, v.within, v.limit_fits);
              limit_fits = v.limit_fits;
              counter_fits = v.counter_fits;
            })
    ]
