-- ===== src/Buffer/Writers.antt =====
-- Event buffers: what a writer has put into its buffer is what a reader gets out of it, and the
-- writer of `arcon.Channel` is the abstract view of a writer with its buffer.
use arcon.Common.{
  ℕ, zero, suc, ◌+◌, ◌≤◌, ◌<◌, ◌≡◌, refl, sym, ap, subst, ◌∙◌, inl, inr, true, false, Option, none,
  some, List, [], ◌∷◌, ◌++◌, map, append-nil, append_assoc, arith, ltb, ◌==◌, Bool-cases,
  Option-cases, length, take, drop,
}
use mathlib.Core.Path.{ap₂}
use arcon.Data.{ArconEventWrapper}
use arcon.Channel
use arcon.Channel.{push}
use arcon.Channel.Strategies.{copy_from_writer}
use arcon.Buffer.{
  Cells, update, read, copy, EventBuffer, BufferWriter, IntoIter, push_at, new_writer, write,
  write_all, reader, copy_from, as_slice, into_vec, into_iter, next, size_hint, drain_iter,
}

module _ {A : Type 0} where
  -- The first of the cells that have been read, and the others.
  read-suc :
      (cells : Cells A) (i n : ℕ) (es : List A)
      → read cells i (suc n) ≡ some es
      → (a : A) × (rest : List A) × (cells i ≡ some a)
        × (read cells (i + 1) n ≡ some rest)
        × (es ≡ a ∷ rest)
  read-suc cells i n es h = elim (Option-cases (cells i)) [
    | inl e ↦ absurd (ground arith)
    | inr (a, e) ↦ elim (Option-cases (read cells (i + 1) n)) [
      | inl f ↦ absurd (ground arith)
      | inr (rest, f) ↦ (a, rest, e, f, ground arith)
    ]
  ]

  pub read-update :
      (cells : Cells A) (i n j : ℕ) (v : A) (es : List A)
      → i + n ≡ j
      → read cells i n ≡ some es
      → read (update cells j (some v)) i (suc n) ≡ some (es ++ v ∷ [])
  read-update cells i zero j v es e h = ground arith
  read-update cells i (suc n) j v es e h =
      let (a, rest, c, r, q) = read-suc cells i n es h in
      let ih = read-update cells (i + 1) n j v rest (omega arith) r in ground arith

  pub read-copy :
      (src dst : Cells A) (m i n : ℕ) → i + n ≤ m → read (copy src m dst) i n ≡ read src i n
  read-copy src dst m i zero h = refl
  read-copy src dst m i (suc n) h = ground (arith, read-copy src dst m (i + 1) n)

  pub length-read :
      (cells : Cells A) (i n : ℕ) (es : List A) → read cells i n ≡ some es → length es ≡ n
  length-read cells i zero es h = ground arith
  length-read cells i (suc n) es h =
      let (a, rest, c, r, q) = read-suc cells i n es h in
      rw q (ap suc (length-read cells (i + 1) n rest r))

  -- The writer has put the values `es` into its buffer.
  pub record Holds (w : BufferWriter) (b : EventBuffer A) (es : List A) : Type 0 where
    pub cells : read b.ptr 0 w.len ≡ some es
    pub bounded : w.len ≤ b.capacity

  pub new_writer-Holds : (j : ℕ) (b : EventBuffer A) → Holds (new_writer j 0 b.capacity) b []
  unfolding new_writer
  new_writer-Holds j b = record { cells = refl; bounded = omega arith }

  pub write_room :
      (v : A) (w : BufferWriter) (b : EventBuffer A)
      → w.len < b.capacity
      → write v w b
        ≡ (none, record w { len = w.len + 1 }, record b { ptr = update b.ptr w.len (some v) })
  unfolding write push_at
  write_room v w b k = ground arith

  pub write_full :
      (v : A) (w : BufferWriter) (b : EventBuffer A)
      → b.capacity ≤ w.len
      → write v w b ≡ (some v, w, b)
  unfolding write push_at
  write_full v w b k = ground arith

  pub write-Holds :
      (v : A) (w : BufferWriter) (b : EventBuffer A) (es : List A)
      → Holds w b es
      → w.len < b.capacity
      → Holds (write v w b).1 (write v w b).2 (es ++ v ∷ [])
  write-Holds v w b es h k = rw (write_room v w b k) (record {
    cells =
        subst (λ n. read (update b.ptr w.len (some v)) 0 n ≡ some (es ++ v ∷ [])) {x = suc w.len}
          (omega arith) (read-update b.ptr 0 w.len w.len v es (omega arith) h.cells);
    bounded = omega arith;
  })

  write_all_full :
      (vs : List A) (w : BufferWriter) (b : EventBuffer A)
      → b.capacity ≤ w.len
      → write_all vs w b ≡ (map some vs, w, b)
  unfolding write_all
  write_all_full [] w b h = refl
  write_all_full (v ∷ vs) w b h = rw (write_full v w b h) (rw (write_all_full vs w b h) refl)

  -- Writing one value after the other: those that fit stand in the buffer, the others come back.
  abbrev pub Written :
      ℕ → List A → List A → EventBuffer A → List (Option A) × BufferWriter × EventBuffer A → Type 0
  Written n vs es b r =
      Holds r.1 r.2 (es ++ take n vs)
      × (r.0 ≡ map (λ _. none) (take n vs) ++ map some (drop n vs))
      × (r.2.capacity ≡ b.capacity)

  pub write_all-Written :
      (n : ℕ) (vs : List A) (w : BufferWriter) (b : EventBuffer A) (es : List A)
      → Holds w b es
      → w.len + n ≡ b.capacity
      → Written n vs es b (write_all vs w b)
  unfolding write_all
  write_all-Written zero vs w b es h e =
      rw (write_all_full vs w b (omega arith))
        (subst (λ l. Holds w b l) (sym (append-nil es)) h, refl, refl)
  write_all-Written (suc n) [] w b es h e =
      (subst (λ l. Holds w b l) (sym (append-nil es)) h, refl, refl)
  write_all-Written (suc n) (v ∷ vs) w b es h e =
      let k : w.len < b.capacity = omega arith in
      let ih =
        write_all-Written n vs (write v w b).1 (write v w b).2 (es ++ v ∷ [])
          (write-Holds v w b es h k) (rw (write_room v w b k) (omega arith)) in
      let q = write_room v w b k in
      (
        subst
            (λ l.
              Holds (write_all vs (write v w b).1 (write v w b).2).1
                (write_all vs (write v w b).1 (write v w b).2).2 l)
            (append_assoc es (v ∷ []) (take n vs)) ih.0,
        ap₂ ◌∷◌ (ap (λ r. r.0) q) ih.1,
        ih.2 ∙ ap (λ r. r.2.capacity) q,
      )

  -- The three ways to read a buffer agree.
  pub drain_iter-read :
      (b : EventBuffer A) (it : IntoIter) (n : ℕ) (es : List A)
      → it.current + n ≡ it.end
      → read b.ptr it.current n ≡ some es
      → drain_iter (suc n) it b ≡ map some es
  unfolding drain_iter next
  drain_iter-read b it zero es e h = ground arith
  drain_iter-read b it (suc n) es e h =
      let (a, rest, c, r, q) = read-suc b.ptr it.current n es h in
      let ih = drain_iter-read b (record it { current = it.current + 1 }) n rest (omega arith) r in
      let more : (it.current == it.end) ≡ false = ground arith in ground (arith, ih)

  -- Whatever the buffer held before, a reader of a fresh writer gets the values that fit, as a vector
  -- and by iteration, and the writer gives the others back, in order.
  pub into_vec-write_all :
      (j : ℕ) (vs : List A) (b : EventBuffer A)
      → let r = write_all vs (new_writer j 0 b.capacity) b in
        (into_vec (reader r.1) r.2 ≡ some (take b.capacity vs))
        × (as_slice (reader r.1) r.2 ≡ some (take b.capacity vs))
        × (drain_iter (suc (reader r.1).len) (into_iter (reader r.1)) r.2
            ≡ map some (take b.capacity vs))
        × (size_hint (into_iter (reader r.1)) ≡ (r.1.len, some r.1.len))
        × (r.0 ≡ map (λ _. none) (take b.capacity vs) ++ map some (drop b.capacity vs))
  unfolding into_vec as_slice reader into_iter size_hint new_writer
  into_vec-write_all j vs b =
      let r = write_all vs (new_writer j 0 b.capacity) b in
      let (held, back, same) =
        write_all-Written b.capacity vs (new_writer j 0 b.capacity) b [] (new_writer-Holds j b)
          (omega arith) in
      (
        read-copy r.2.ptr (λ _. none) r.1.len 0 r.1.len (omega arith) ∙ held.cells,
        held.cells,
        drain_iter-read r.2 (into_iter (reader r.1)) r.1.len _ (omega arith) held.cells,
        ground arith,
        back,
      )

-- A writer with its buffer looks like the abstract writer `v`.
pub record Views {A : Type 0} (w : BufferWriter) (b : EventBuffer (ArconEventWrapper A))
    (v : Channel.BufferWriter A) : Type 0 where
  pub holds : Holds w b v.events
  pub capacity : b.capacity ≡ v.capacity

module _ {A : Type 0} where
  -- A push returns what the push of the abstract writer returns, and the two still look alike after.
  pub write-push :
      (e : ArconEventWrapper A) (w : BufferWriter) (b : EventBuffer (ArconEventWrapper A))
      (v : Channel.BufferWriter A)
      → Views w b v
      → ((write e w b).0 ≡ (push e v).0) × Views (write e w b).1 (write e w b).2 (push e v).1
  unfolding push
  write-push e w b v h =
      let n : length v.events ≡ w.len = length-read b.ptr 0 w.len v.events h.holds.cells in
      elim (Bool-cases (ltb w.len b.capacity)) [
        | inl k ↦
            let q = write_room e w b (ground arith) in
            let t : ltb (length v.events) v.capacity ≡ true = ground (arith, h.capacity) in
            rw t (
              ap (λ r. r.0) q,
              record {
                holds = write-Holds e w b v.events h.holds (ground arith);
                capacity = ap (λ r. r.2.capacity) q ∙ h.capacity;
              },
            )
        | inr k ↦
            let q = write_full e w b (ground arith) in
            let t : ltb (length v.events) v.capacity ≡ false = ground (arith, h.capacity) in
            rw (t, q) (refl, h)
      ]

  -- A copy from a writer whose values fit looks like the abstract copy.
  pub copy_from-copy_from_writer :
      (other : BufferWriter) (source : EventBuffer (ArconEventWrapper A))
      (u : Channel.BufferWriter A) (w : BufferWriter) (b : EventBuffer (ArconEventWrapper A))
      (v : Channel.BufferWriter A)
      → Views other source u
      → Views w b v
      → other.len ≤ b.capacity
      → Views (copy_from other source w b).0 (copy_from other source w b).1 (copy_from_writer v u)
  unfolding copy_from
  copy_from-copy_from_writer other source u w b v hu hv k = record {
    holds = record {
      cells = read-copy source.ptr b.ptr other.len 0 other.len (omega arith) ∙ hu.holds.cells;
      bounded = k;
    };
    capacity = hv.capacity;
  }
