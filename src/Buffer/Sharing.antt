-- ===== src/Buffer/Sharing.antt =====
-- BufferPool: one writer and its readers over the buffers of a pool, interleaved in any order. Each
-- buffer is free, with a writer, or with a reader; a writer with its buffer is sent downstream as a
-- reader, which releases the buffer when it is dropped.
use arcon.Common.{
  ℕ, ◌<◌, ◌≡◌, refl, sym, ap, subst, ◌∙◌, ◌≢◌, inl, inr, true, false, Option, none, some, List, [],
  ◌∷◌, ◌++◌, arith, ltb, Bool-cases, ℕ_discrete, ok, length, get_elem?, set, length-set,
  get_elem?-set_self, get_elem?-set_ne, get_elem?-lt, lt-get_elem?,
}
use arcon.Buffer.{
  update, read, EventBuffer, BufferWriter, BufferReader, write, reader, into_vec, release,
  new_writer, drop_reader,
}
use arcon.Buffer.Pool.{BufferPool, index_incr, try_get}
use arcon.Buffer.Writers.{Holds, new_writer-Holds, write_room, write_full, write-Holds, read-copy}
use arcon.Buffer.Waiting.{IsValid, moved, moved-IsValid, reserved, try_get_free, try_get_held}

-- Who has a buffer, with the values that have been written since it was reserved.
pub data Owner (A : Type 0) : Type 0 where
  nobody : Owner A
  writing : BufferWriter → List A → Owner A
  reading : BufferReader → List A → Owner A

pub record System (A : Type 0) : Type 0 where
  pub pool : BufferPool A
  pub owner : ℕ → Owner A

module _ {A : Type 0} where
  abbrev pub put_buffer : ℕ → EventBuffer A → BufferPool A → BufferPool A
  put_buffer j b p = record p { buffers = set p.buffers j b }

  -- The values of a writer after a push.
  abbrev pub pushed : Option A → A → List A → List A
  pushed none v es = es ++ v ∷ []
  pushed (some back) v es = es

  pub data Step (s : System A) : System A → Type 0 where
    reserve :
        (w : BufferWriter) (p : BufferPool A)
        → try_get s.pool ≡ ok (some w, p)
        → Step s (record { pool = p; owner = update s.owner w.buffer (writing w []) })
    miss : (p : BufferPool A) → try_get s.pool ≡ ok (none, p) → Step s (record s { pool = p })
    fill :
        (j : ℕ) (w : BufferWriter) (es : List A) (b : EventBuffer A) (v : A)
        → s.owner j ≡ writing w es
        → get_elem? s.pool.buffers j ≡ some b
        → Step s (record {
          pool = put_buffer j (write v w b).2 s.pool;
          owner = update s.owner j (writing (write v w b).1 (pushed (write v w b).0 v es));
        })
    send :
        (j : ℕ) (w : BufferWriter) (es : List A)
        → s.owner j ≡ writing w es
        → Step s (record s { owner = update s.owner j (reading (reader w) es) })
    drop :
        (j : ℕ) (r : BufferReader) (es : List A) (b : EventBuffer A)
        → s.owner j ≡ reading r es
        → get_elem? s.pool.buffers j ≡ some b
        → Step s (record {
          pool = put_buffer j (drop_reader r b) s.pool;
          owner = update s.owner j nobody;
        })

  -- What a buffer looks like to the one who has it.
  abbrev pub Fits : ℕ → Owner A → EventBuffer A → Type 0
  Fits j nobody b = b.free ≡ true
  Fits j (writing w es) b = (b.free ≡ false) × (w.buffer ≡ j) × Holds w b es
  Fits j (reading r es) b = (b.free ≡ false) × (r.buffer ≡ j) × (read b.ptr 0 r.len ≡ some es)

  pub record IsShared (s : System A) : Type 0 where
    pub valid : IsValid s.pool
    pub fits :
        (j : ℕ) (b : EventBuffer A) → get_elem? s.pool.buffers j ≡ some b → Fits j (s.owner j) b

  -- The owner of one buffer changes, and at most that buffer.
  owner-IsShared :
      (s : System A) (p : BufferPool A) (j : ℕ) (o : Owner A)
      → IsShared s
      → IsValid p
      → ((i : ℕ) → i ≢ j → get_elem? p.buffers i ≡ get_elem? s.pool.buffers i)
      → ((b : EventBuffer A) → get_elem? p.buffers j ≡ some b → Fits j o b)
      → IsShared (record { pool = p; owner = update s.owner j o })
  owner-IsShared s p j o h v others f = record {
    valid = v;
    fits = λ i b g. elim (ℕ_discrete i j) [
      | yes q ↦
          let o' : update s.owner j o i ≡ o = ground arith in
          subst (λ x. Fits i x b) (sym o')
            (subst (λ x. Fits x o b) (sym q)
              (f b (subst (λ x. get_elem? p.buffers x ≡ some b) q g)))
      | no n ↦
          let o' : update s.owner j o i ≡ s.owner i = ground arith in
          subst (λ x. Fits i x b) (sym o') (h.fits i b (sym (others i n) ∙ g))
    ];
  }

  -- One buffer and its owner change together.
  put-IsShared :
      (s : System A) (p : BufferPool A) (j : ℕ) (c : EventBuffer A) (o : Owner A)
      → IsShared s
      → j < length s.pool.buffers
      → p.buffers ≡ set s.pool.buffers j c
      → IsValid p
      → Fits j o c
      → IsShared (record { pool = p; owner = update s.owner j o })
  put-IsShared s p j c o h below e v f =
      let self = get_elem?-set_self s.pool.buffers j c below in
      owner-IsShared s p j o h v
        (λ i n.
          ap (λ bs. get_elem? bs i) e ∙ get_elem?-set_ne s.pool.buffers j i c (λ q. n (sym q)))
        (λ b g. subst (λ x. Fits j o x) (ground arith) f)

  put_buffer-IsValid :
      (j : ℕ) (c : EventBuffer A) (p : BufferPool A) → IsValid p → IsValid (put_buffer j c p)
  put_buffer-IsValid j c p v =
      let same = length-set p.buffers j c in
      record { exact = v.exact ∙ sym same; inside = omega (arith, v.inside) }

  reserve_lem :
      (p p' : BufferPool A) (w : BufferWriter)
      → IsValid p
      → try_get p ≡ ok (some w, p')
      → (b : EventBuffer A) × (get_elem? p.buffers p.curr_buffer ≡ some b)
        × (b.free ≡ true)
        × (w ≡ new_writer p.curr_buffer 0 b.capacity)
        × (p' ≡ moved (set p.buffers p.curr_buffer (reserved b)) p)
  reserve_lem p p' w v e =
      let (b, q) = get_elem?-lt p.buffers p.curr_buffer v.inside in
      elim (Bool-cases b.free) [
        | inl f ↦ let u = sym e ∙ try_get_free p b q f in (b, q, f, cc, cc)
        | inr f ↦ let u = sym e ∙ try_get_held p b q f in absurd (cc)
      ]

  miss_lem : (p p' : BufferPool A) → IsValid p → try_get p ≡ ok (none, p') → p' ≡ moved p.buffers p
  miss_lem p p' v e =
      let (b, q) = get_elem?-lt p.buffers p.curr_buffer v.inside in
      elim (Bool-cases b.free) [
        | inl f ↦ let u = sym e ∙ try_get_free p b q f in absurd (cc)
        | inr f ↦ let u = sym e ∙ try_get_held p b q f in cc
      ]

  write-Fits :
      (j : ℕ) (w : BufferWriter) (es : List A) (b : EventBuffer A) (v : A)
      → Fits j (writing w es) b
      → Fits j (writing (write v w b).1 (pushed (write v w b).0 v es)) (write v w b).2
  write-Fits j w es b v k = elim (Bool-cases (ltb w.len b.capacity)) [
    | inl r ↦
        let q = write_room v w b (ground arith) in
        (
          ap (λ x. x.2.free) q ∙ k.0,
          ap (λ x. x.1.buffer) q ∙ k.1,
          subst (λ x. Holds (write v w b).1 (write v w b).2 (pushed x v es)) (sym (ap (λ x. x.0) q))
              (write-Holds v w b es k.2 (ground arith)),
        )
    | inr r ↦ rw (write_full v w b (ground arith)) k
  ]

  pub Step-IsShared : {s t : System A} → Step s t → IsShared s → IsShared t
  unfolding index_incr new_writer reader drop_reader release
  Step-IsShared {s} (Step.reserve w p e) h =
      let (b, g, f, q, m) = reserve_lem s.pool p w h.valid e in
      let j = s.pool.curr_buffer in
      let w' = new_writer j 0 b.capacity in
      let bs = set s.pool.buffers j (reserved b) in
      subst (λ x. IsShared (record { pool = p; owner = update s.owner x.buffer (writing x []) }))
        (sym q)
        (put-IsShared s p j (reserved b) (writing w' []) h h.valid.inside (ap (λ x. x.buffers) m)
          (subst IsValid (sym m) (moved-IsValid bs s.pool (length-set s.pool.buffers j _) h.valid))
          (refl, refl, new_writer-Holds j (reserved b)))
  Step-IsShared {s} (Step.miss p e) h =
      let m = miss_lem s.pool p h.valid e in
      record {
        valid = subst IsValid (sym m) (moved-IsValid s.pool.buffers s.pool refl h.valid);
        fits = λ j b g. h.fits j b (ap (λ x. get_elem? x.buffers j) (sym m) ∙ g);
      }
  Step-IsShared {s} (Step.fill j w es b v o g) h =
      let k = subst (λ x. Fits j x b) o (h.fits j b g) in
      put-IsShared s (put_buffer j (write v w b).2 s.pool) j (write v w b).2
        (writing (write v w b).1 (pushed (write v w b).0 v es)) h
        (lt-get_elem? s.pool.buffers j b g) refl
        (put_buffer-IsValid j (write v w b).2 s.pool h.valid) (write-Fits j w es b v k)
  Step-IsShared {s} (Step.send j w es o) h =
      owner-IsShared s s.pool j (reading (reader w) es) h h.valid (λ i n. refl)
        (λ b g. let k = subst (λ x. Fits j x b) o (h.fits j b g) in (k.0, k.1, k.2.cells))
  Step-IsShared {s} (Step.drop j r es b o g) h =
      put-IsShared s (put_buffer j (drop_reader r b) s.pool) j (drop_reader r b) nobody h
        (lt-get_elem? s.pool.buffers j b g) refl
        (put_buffer-IsValid j (drop_reader r b) s.pool h.valid) refl

  pub data Reach (s : System A) : System A → Type 0 where
    here : Reach s s
    next : {t u : System A} → Reach s t → Step t u → Reach s u

  -- All the buffers of a pool are free, and nobody has any of them.
  abbrev pub idle : BufferPool A → System A
  idle p = record { pool = p; owner = λ j. nobody }

  abbrev pub AllFree : BufferPool A → Type 0
  AllFree p = (j : ℕ) (b : EventBuffer A) → get_elem? p.buffers j ≡ some b → b.free ≡ true

  pub Reach-IsShared :
      {p : BufferPool A} {s : System A} → IsValid p → AllFree p → Reach (idle p) s → IsShared s
  Reach-IsShared v f here = record { valid = v; fits = f }
  Reach-IsShared v f (next r st) = Step-IsShared st (Reach-IsShared v f r)

  -- A pool whose buffers are all free to begin with never hands out a buffer that has a writer or a reader,
  -- however reservations, pushes, sends and drops of readers are interleaved.
  pub try_get-nobody :
      {p q : BufferPool A} {s : System A} {w : BufferWriter}
      → IsValid p
      → AllFree p
      → Reach (idle p) s
      → try_get s.pool ≡ ok (some w, q)
      → s.owner w.buffer ≡ nobody
  unfolding new_writer
  try_get-nobody {p} {q} {s} {w} v f r e =
      let h = Reach-IsShared v f r in
      let (b, g, free, k, m) = reserve_lem s.pool q w h.valid e in
      let j : w.buffer ≡ s.pool.curr_buffer = ap (λ x. x.buffer) k in
      subst (λ x. s.owner x ≡ nobody) (sym j)
        (free_nobody (s.owner s.pool.curr_buffer) _ b free (h.fits s.pool.curr_buffer b g))
    where
      free_nobody :
          (o : Owner A) (i : ℕ) (b : EventBuffer A) → b.free ≡ true → Fits i o b → o ≡ nobody
      free_nobody nobody i b free k = refl
      free_nobody (writing w es) i b free k = absurd (cc)
      free_nobody (reading r es) i b free k = absurd (cc)

  -- A reader gets exactly the values that its writer has pushed and not got back, whatever has been done
  -- with the other buffers of the pool in the meantime.
  pub into_vec-reading :
      {p : BufferPool A} {s : System A} {j : ℕ} {r : BufferReader} {es : List A} {b : EventBuffer A}
      → IsValid p
      → AllFree p
      → Reach (idle p) s
      → s.owner j ≡ reading r es
      → get_elem? s.pool.buffers j ≡ some b
      → into_vec r b ≡ some es
  unfolding into_vec
  into_vec-reading {j} {r} {b} v f reach o g =
      let h = Reach-IsShared v f reach in
      let k = subst (λ x. Fits j x b) o (h.fits j b g) in
      read-copy b.ptr (λ _. none) r.len 0 r.len (omega arith) ∙ k.2
