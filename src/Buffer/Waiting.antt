-- ===== src/Buffer/Waiting.antt =====
-- BufferPool: `try_get` on every branch, and that the busy wait of `get` ends.
use arcon.Common.{
  ℕ, suc, ◌+◌, ◌-◌, ◌≤◌, ◌<◌, ◌≡◌, refl, ap, sym, ◌∙◌, ◌≢◌, ◌⊎◌, inl, inr, Bool, true, false, none,
  some, List, [], ◌∷◌, ◌++◌, arith, leb, if◌then◌else◌, Bool-cases, Option-cases, ℕ_discrete, Res,
  ok, length, get_elem?, set, length-set, get_elem?-set_self, get_elem?-set_ne, set_same,
  get_elem?-lt, lt-get_elem?,
}
use arcon.Buffer.{EventBuffer, BufferWriter, try_reserve, new_writer, release}
use arcon.Buffer.Pool.{BufferPool, index_incr, try_get, release_at, release_all, get}

module _ {A : Type 0} where
  pub record IsValid (p : BufferPool A) : Type 0 where
    pub exact : p.buffers_capacity ≡ length p.buffers
    pub inside : p.curr_buffer < length p.buffers

  abbrev pub is_free : List (EventBuffer A) → ℕ → Bool
  is_free bs j = elim (get_elem? bs j) [ none ↦ false | some b ↦ b.free ]

  abbrev pub reserved : EventBuffer A → EventBuffer A
  reserved b = record b { free = false }

  -- A pool after a call of `try_get` that has found the buffers `bs`.
  abbrev pub moved : List (EventBuffer A) → BufferPool A → BufferPool A
  moved bs p = index_incr (record p { buffers = bs })

  pub moved-IsValid :
      (bs : List (EventBuffer A)) (p : BufferPool A)
      → length bs ≡ length p.buffers
      → IsValid p
      → IsValid (moved bs p)
  unfolding index_incr
  moved-IsValid bs p e v = ground (arith, v.exact, v.inside)

  pub try_get_free :
      (p : BufferPool A) (b : EventBuffer A)
      → get_elem? p.buffers p.curr_buffer ≡ some b
      → b.free ≡ true
      → try_get p
        ≡ ok (
          some (new_writer p.curr_buffer 0 b.capacity),
          moved (set p.buffers p.curr_buffer (reserved b)) p,
        )
  unfolding try_get try_reserve
  try_get_free p b e f = rw e (rw f refl)

  pub try_get_held :
      (p : BufferPool A) (b : EventBuffer A)
      → get_elem? p.buffers p.curr_buffer ≡ some b
      → b.free ≡ false
      → try_get p ≡ ok (none, moved p.buffers p)
  unfolding try_get try_reserve
  try_get_held p b e f =
      rw e (simp f (ap (λ bs. ok (none, moved bs p)) (set_same p.buffers p.curr_buffer b e)))

  -- How many buffers the index passes before it comes to `j`.
  abbrev distance : BufferPool A → ℕ → ℕ
  distance p j =
      if leb p.curr_buffer j then j - p.curr_buffer else j + p.buffers_capacity - p.curr_buffer

  distance-moved :
      (p : BufferPool A) (j : ℕ)
      → IsValid p
      → j < length p.buffers
      → p.curr_buffer ≢ j
      → suc (distance (moved p.buffers p) j) ≡ distance p j
  unfolding index_incr
  distance-moved p j v h n = ground (arith, v.exact, v.inside)

  length-release_at : (j : ℕ) (bs : List (EventBuffer A)) → length (release_at j bs) ≡ length bs
  length-release_at j bs = elim (Option-cases (get_elem? bs j)) [
    | inl e ↦ rw (e, release_at) refl
    | inr (b, e) ↦ rw (e, release_at) (length-set bs j (release b))
  ]

  pub length-release_all :
      (js : List ℕ) (bs : List (EventBuffer A)) → length (release_all js bs) ≡ length bs
  length-release_all [] bs = refl
  length-release_all (j ∷ js) bs =
      rw (length-release_all js (release_at j bs)) (length-release_at j bs)

  is_free-set_self :
      (bs : List (EventBuffer A)) (j : ℕ) (b : EventBuffer A)
      → j < length bs
      → is_free (set bs j b) j ≡ b.free
  is_free-set_self bs j b h = rw (get_elem?-set_self bs j b h, is_free) refl

  pub is_free-set_ne :
      (bs : List (EventBuffer A)) (i j : ℕ) (b : EventBuffer A)
      → i ≢ j
      → is_free (set bs i b) j ≡ is_free bs j
  is_free-set_ne bs i j b n = rw (get_elem?-set_ne bs i j b n, is_free) refl

  pub is_free-release_self :
      (j : ℕ) (bs : List (EventBuffer A)) → j < length bs → is_free (release_at j bs) j ≡ true
  unfolding release
  is_free-release_self j bs h =
      let (b, e) = get_elem?-lt bs j h in rw (e, release_at) (is_free-set_self bs j (release b) h)

  pub is_free-release_ne :
      (i j : ℕ) (bs : List (EventBuffer A)) → i ≢ j → is_free (release_at i bs) j ≡ is_free bs j
  is_free-release_ne i j bs n = elim (Option-cases (get_elem? bs i)) [
    | inl e ↦ rw (e, release_at) refl
    | inr (b, e) ↦ rw (e, release_at) (is_free-set_ne bs i j (release b) n)
  ]

  is_free-lt : (bs : List (EventBuffer A)) (j : ℕ) → is_free bs j ≡ true → j < length bs
  is_free-lt bs j h = elim (Option-cases (get_elem? bs j)) [
    | inl e ↦ absurd (ground arith)
    | inr (b, e) ↦ lt-get_elem? bs j b e
  ]

  is_free-release_at :
      (i j : ℕ) (bs : List (EventBuffer A))
      → is_free bs j ≡ true
      → is_free (release_at i bs) j ≡ true
  is_free-release_at i j bs h = elim (ℕ_discrete i j) [
    | yes e ↦ rw e (is_free-release_self j bs (is_free-lt bs j h))
    | no n ↦ is_free-release_ne i j bs n ∙ h
  ]

  is_free-release_all :
      (js : List ℕ) (j : ℕ) (bs : List (EventBuffer A))
      → is_free bs j ≡ true
      → is_free (release_all js bs) j ≡ true
  is_free-release_all [] j bs h = h
  is_free-release_all (i ∷ js) j bs h =
      is_free-release_all js j (release_at i bs) (is_free-release_at i j bs h)

  is_free-released :
      (is js : List ℕ) (j : ℕ) (bs : List (EventBuffer A))
      → j < length bs
      → is_free (release_all (is ++ j ∷ js) bs) j ≡ true
  is_free-released [] js j bs h =
      is_free-release_all js j (release_at j bs) (is_free-release_self j bs h)
  is_free-released (i ∷ is) js j bs h =
      is_free-released is js j (release_at i bs) (rw (length-release_at i bs) h)

  -- The wait is over: an empty writer on a buffer of the pool, which is now reserved.
  abbrev pub Served : BufferPool A → Res (BufferWriter × BufferPool A) → Type 0
  Served p r =
      (w : BufferWriter) × (p' : BufferPool A) × (r ≡ ok (w, p'))
      × (w.len ≡ 0)
      × (w.buffer < length p.buffers)
      × (is_free p'.buffers w.buffer ≡ false)
      × (length p'.buffers ≡ length p.buffers)
      × IsValid p'

  -- A round of the wait: it is over, or the index has moved past a buffer that is held.
  Round : List ℕ → List (List ℕ) → BufferPool A → Type 0
  Round js rounds p =
      let q : BufferPool A = record p { buffers = release_all js p.buffers } in
      Served p (get (js ∷ rounds) p)
      ⊎ ((is_free q.buffers q.curr_buffer ≡ false)
          × (get (js ∷ rounds) p ≡ get rounds (moved q.buffers q)))

  round : (js : List ℕ) (rounds : List (List ℕ)) (p : BufferPool A) → IsValid p → Round js rounds p
  unfolding get Round index_incr new_writer
  round js rounds p v =
      let q : BufferPool A = record p { buffers = release_all js p.buffers } in
      let same = length-release_all js p.buffers in
      let (b, e) = get_elem?-lt q.buffers q.curr_buffer (omega (arith, v.inside)) in
      elim (Bool-cases b.free) [
        | inl f ↦
            let bs = set q.buffers q.curr_buffer (reserved b) in
            let len : length bs ≡ length p.buffers =
              length-set q.buffers q.curr_buffer (reserved b) ∙ same in
            inl (
              new_writer q.curr_buffer 0 b.capacity,
              moved bs q,
              rw (try_get_free q b e f) refl,
              refl,
              v.inside,
              is_free-set_self q.buffers q.curr_buffer (reserved b) (omega (arith, v.inside)),
              len,
              moved-IsValid bs q (len ∙ sym same)
                  (record { exact = v.exact ∙ sym same; inside = omega (arith, v.inside) }),
            )
        | inr f ↦ inr (rw (e, is_free) f, rw (try_get_held q b e f) refl)
      ]

  released-IsValid :
      (js : List ℕ) (p : BufferPool A)
      → IsValid p
      → IsValid (record p { buffers = release_all js p.buffers })
  released-IsValid js p v =
      let same = length-release_all js p.buffers in
      record { exact = v.exact ∙ sym same; inside = omega (arith, v.inside) }

  Served-same :
      (p p' : BufferPool A) (r r' : Res (BufferWriter × BufferPool A))
      → length p'.buffers ≡ length p.buffers
      → r ≡ r'
      → Served p' r'
      → Served p r
  Served-same p p' r r' same e (w, p2, f, empty, below, taken, len, v) =
      (w, p2, e ∙ f, empty, omega arith, taken, len ∙ same, v)

  abbrev released : List ℕ → BufferPool A → BufferPool A
  released js p = record p { buffers = release_all js p.buffers }

  -- After a round that has found a held buffer, the free buffer `j` is closer.
  closer :
      (js : List ℕ) (p : BufferPool A) (j : ℕ)
      → IsValid p
      → is_free (release_all js p.buffers) j ≡ true
      → is_free (release_all js p.buffers) p.curr_buffer ≡ false
      → suc (distance (moved (release_all js p.buffers) (released js p)) j) ≡ distance p j
  closer js p j v f held =
      distance-moved (released js p) j (released-IsValid js p v) (is_free-lt _ j f)
        (λ c. absurd (ground (arith, held, f)))

  -- From a round on before which `j` is free, as many rounds as buffers lie between are enough.
  get-Served_of_free :
      (rounds : List (List ℕ)) (js : List ℕ) (p : BufferPool A) (j : ℕ)
      → IsValid p
      → is_free (release_all js p.buffers) j ≡ true
      → distance p j ≤ length rounds
      → Served p (get (js ∷ rounds) p)
  unfolding Round index_incr
  get-Served_of_free [] js p j v f d = elim (round js [] p v) [
    | inl s ↦ s
    | inr (held, e) ↦ absurd (omega (arith, closer js p j v f held))
  ]
  get-Served_of_free (is ∷ rounds) js p j v f d = elim (round js (is ∷ rounds) p v) [
    | inl s ↦ s
    | inr (held, e) ↦
        let bs = release_all js p.buffers in
        let p' : BufferPool A = moved bs (released js p) in
        Served-same p p' _ _ (length-release_all js p.buffers) e (
          get-Served_of_free rounds is p' j
            (moved-IsValid bs (released js p) refl (released-IsValid js p v))
            (is_free-release_all is j bs f) (omega (arith, closer js p j v f held)))
  ]

  distance-lt :
      (p : BufferPool A) (j : ℕ)
      → IsValid p
      → j < length p.buffers
      → distance p j < length p.buffers
  distance-lt p j v h = ground (arith, v.exact, v.inside)

  -- The busy wait of `get` ends: whatever the readers release and whenever they do, once some buffer `j` of the
  -- pool is released, the wait is over by the time that the index has gone round the pool. The
  -- writer is empty, and its buffer is reserved.
  pub get-Served :
      (before after : List (List ℕ)) (is js : List ℕ) (j : ℕ) (p : BufferPool A)
      → IsValid p
      → j < length p.buffers
      → length p.buffers ≤ suc (length after)
      → Served p (get (before ++ (is ++ j ∷ js) ∷ after) p)
  unfolding Round index_incr
  get-Served [] after is js j p v h k =
      get-Served_of_free after (is ++ j ∷ js) p j v (is_free-released is js j p.buffers h)
        (omega (arith, distance-lt p j v h))
  get-Served (now ∷ before) after is js j p v h k =
      elim (round now (before ++ (is ++ j ∷ js) ∷ after) p v) [
        | inl s ↦ s
        | inr (held, e) ↦
            let bs = release_all now p.buffers in
            let same = length-release_all now p.buffers in
            Served-same p (moved bs (released now p)) _ _ same e (
              get-Served before after is js j (moved bs (released now p))
                (moved-IsValid bs (released now p) refl (released-IsValid now p v)) (omega arith)
                (omega arith))
      ]
