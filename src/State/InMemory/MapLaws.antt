-- ===== src/State/InMemory/MapLaws.antt =====
-- Map states against a function from keys to values.
use arcon.Common.{
  ℕ, ◌≤◌, ◌≡◌, refl, sym, ap, ◌∙◌, Bool, true, false, Option, none, some, [], ◌∷◌, ◌++◌,
  append_assoc, append-nil, ok, arith, ite, length, take, drop, take_append, drop_append, ◌==◌,
  if◌then◌else◌,
}
use arcon.Common.Assoc.{get, get-insert_self}
use arcon.State.Serialization.{Bytes, FixedBytes}
use arcon.State.Serialization.Laws.{IsFixed}
use arcon.State.Handle.{Handle, Message, serialize_metakeys_and_key}
use arcon.State.Handle.Laws.{IsMessage}
use arcon.State.InMemory.{bytes_discrete, Stored, IsStored, Table, InMemory, get_table, get_mut}
use arcon.State.InMemory.Values.{typed_option}
use arcon.State.InMemory.Maps.{
  has_prefix, matching, retained, none_matching, entry_key, entry_pair, map_clear, map_get,
  map_insert, map_remove, map_len, map_is_empty,
}
use arcon.State.InMemory.Cells.{cell, update, cell-insert, cell-remove}
use arcon.State.InMemory.ValueLaws.{IsOpen, write-IsOpen}

-- Every key of a table is long enough to hold a prefix of this length.
abbrev pub AllLong : {Any : Type 0} → ℕ → Table Any → Type 0
AllLong n [] = Unit {0}
AllLong n ((k, v) ∷ t) = (n ≤ length k) × AllLong n t

-- The test that the iterators make, where no slice is out of range.
unfoldable pub is_below : Bytes → Bytes → Bool
is_below prefix k = ite (bytes_discrete (take (length prefix) k) prefix) true false

has_prefix_lem :
    (prefix k : Bytes) → length prefix ≤ length k → has_prefix prefix k ≡ ok (is_below prefix k)
unfolding has_prefix is_below
has_prefix_lem prefix k h = ground arith

is_below-append : (prefix k : Bytes) → is_below prefix (prefix ++ k) ≡ true
unfolding is_below
is_below-append prefix k = rw (take_append (length prefix) prefix k refl) (ground arith)

module _ {Any : Type 0} where
  below : Bytes → Table Any → Table Any
  below prefix [] = []
  below prefix ((k, v) ∷ t) = if is_below prefix k then (k, v) ∷ below prefix t else below prefix t

  others : Bytes → Table Any → Table Any
  others prefix [] = []
  others prefix ((k, v) ∷ t) =
      if is_below prefix k then others prefix t else (k, v) ∷ others prefix t

  matching_lem :
      (prefix : Bytes) (t : Table Any)
      → AllLong (length prefix) t
      → matching prefix t ≡ ok (below prefix t)
  unfolding matching below
  matching_lem prefix [] h = refl
  matching_lem prefix ((k, v) ∷ t) h =
      rw (has_prefix_lem prefix k h.0) (rw (matching_lem prefix t h.1) refl)

  retained_lem :
      (prefix : Bytes) (t : Table Any)
      → AllLong (length prefix) t
      → retained prefix t ≡ ok (others prefix t)
  unfolding retained others
  retained_lem prefix [] h = refl
  retained_lem prefix ((k, v) ∷ t) h =
      rw (has_prefix_lem prefix k h.0) (rw (retained_lem prefix t h.1) refl)

  get-others :
      (prefix k : Bytes) (t : Table Any)
      → get bytes_discrete k (others prefix t)
        ≡ (if is_below prefix k then none else get bytes_discrete k t)
  unfolding get others
  get-others prefix k [] = ground arith
  get-others prefix k ((j, v) ∷ t) = ground (arith, get-others prefix k t)

  -- Every iterator of a map state walks over the same entries, so the map is empty exactly when
  -- its length is 0.
  none_matching_lem :
      (prefix : Bytes) (t : Table Any)
      → AllLong (length prefix) t
      → none_matching prefix t ≡ ok (length (below prefix t) == 0)
  unfolding none_matching below
  none_matching_lem prefix [] h = refl
  none_matching_lem prefix ((k, v) ∷ t) h =
      rw (has_prefix_lem prefix k h.0) (ground (arith, none_matching_lem prefix t h.1))

module _ {Any K V X IK N : Type 0} (st : Stored Any V) (ok_st : IsStored st) (mk : Message K)
    {encode : K → Bytes} (im : IsMessage mk encode) (ik : FixedBytes IK) (ns : FixedBytes N)
    (h : Handle X IK N) (s : InMemory Any) (prefix : Bytes) (o : IsOpen ik ns h s prefix)
    (keyed : (k : K) → serialize_metakeys_and_key ik ns mk h k ≡ ok (prefix ++ encode k)) where
  -- A read of a key looks at one cell.
  pub map_get_lem :
      (k : K) → map_get st mk ik ns s h k ≡ typed_option st (cell s h.id (prefix ++ encode k))
  unfolding map_get cell
  map_get_lem k = rw (keyed k) (rw (o.registered, get_table) refl)

  -- `map_insert` returns what was read before, and sets one cell.
  pub map_insert_lem :
      (k : K) (v : V)
      → ((map_insert st mk ik ns h k v s).0 ≡ map_get st mk ik ns s h k)
        × (cell (map_insert st mk ik ns h k v s).1
            ≡ update (cell s) h.id (prefix ++ encode k) (some (st.box v)))
  unfolding map_insert map_get
  map_insert_lem k v = rw (keyed k) (
      rw (o.registered, get_mut, get_table)
        (refl, cell-insert s h.id _ (st.box v) o.table o.registered))

  pub map_remove_lem :
      (k : K)
      → ((map_remove st mk ik ns h k s).0 ≡ map_get st mk ik ns s h k)
        × (cell (map_remove st mk ik ns h k s).1 ≡ update (cell s) h.id (prefix ++ encode k) none)
  unfolding map_remove map_get
  map_remove_lem k =
      rw (keyed k)
        (rw (o.registered, get_mut, get_table) (refl, cell-remove s h.id _ o.table o.registered))

  map_insert-IsOpen : (k : K) (v : V) → IsOpen ik ns h (map_insert st mk ik ns h k v s).1 prefix
  unfolding map_insert
  map_insert-IsOpen k v =
      rw (keyed k) (rw (o.registered, get_mut) (write-IsOpen ik ns h s prefix _ o))

  map_remove-IsOpen : (k : K) → IsOpen ik ns h (map_remove st mk ik ns h k s).1 prefix
  unfolding map_remove
  map_remove-IsOpen k =
      rw (keyed k) (rw (o.registered, get_mut) (write-IsOpen ik ns h s prefix _ o))

  -- Where the keys of the table are long enough, `map_clear` empties the cells below the prefix and
  -- leaves the others.
  map_clear_lem :
      (k : Bytes)
      → AllLong (length prefix) o.table
      → cell (map_clear st mk ik ns h s).1 h.id k
        ≡ (if is_below prefix k then none else cell s h.id k)
  unfolding map_clear cell
  map_clear_lem k l = rw o.serialized (
      rw (o.registered, get_mut)
        (rw (retained_lem prefix o.table l) (
          rw (get-insert_self bytes_discrete h.id (others prefix o.table) s.data_map)
            (get-others prefix k o.table))))

  map_clear-IsOpen :
      AllLong (length prefix) o.table → IsOpen ik ns h (map_clear st mk ik ns h s).1 prefix
  unfolding map_clear
  map_clear-IsOpen l = rw o.serialized (
      rw (o.registered, get_mut)
        (rw (retained_lem prefix o.table l) (write-IsOpen ik ns h s prefix _ o)))

  -- The map is empty exactly when its length is 0. The keys of the table are as long as the prefix of
  -- the handle, and the handle is registered and serialises its keys.
  pub map_is_empty-map_len :
      AllLong (length prefix) o.table
      → (n : ℕ) × (map_len st mk ik ns s h ≡ ok n) × (map_is_empty st mk ik ns s h ≡ ok (n == 0))
  unfolding map_len map_is_empty
  map_is_empty-map_len l = (
    length (below prefix o.table),
    rw o.serialized (rw (o.registered, get_table) (rw (matching_lem prefix o.table l) refl)),
    rw o.serialized (rw (o.registered, get_table) (none_matching_lem prefix o.table l)),
  )

encode-injective :
    {K : Type 0} (mk : Message K) (encode : K → Bytes) (im : IsMessage mk encode) (prefix : Bytes)
    (k j : K)
    → prefix ++ encode k ≡ prefix ++ encode j
    → k ≡ j
encode-injective mk encode im prefix k j e =
    let same : encode k ≡ encode j =
      sym (drop_append (length prefix) prefix (encode k) refl)
      ∙ ap (drop (length prefix)) e
      ∙ drop_append (length prefix) prefix (encode j) refl in
    let read : mk.deserialize_from (encode k ++ []) ≡ ok (j, []) = rw same (im.reads j []) in
    ground (arith, im.reads k [], read)

-- Two keys of a handle read the same cell only if they are one key.
update-encode :
    {Any K V : Type 0} (st : Stored Any V) (mk : Message K) (encode : K → Bytes)
    (im : IsMessage mk encode) (dk : Discrete K) (f : Bytes → Bytes → Option Any) (id p : Bytes)
    (w : Option Any) (k j : K)
    → typed_option st (update f id (p ++ encode k) w id (p ++ encode j))
      ≡ ite (dk k j) (typed_option st w) (typed_option st (f id (p ++ encode j)))
unfolding update
update-encode st mk encode im dk f id p w k j = ground (arith, encode-injective mk encode im p k j)

module _ {Any K V X IK N : Type 0} (st : Stored Any V) (ok_st : IsStored st) (mk : Message K)
    {encode : K → Bytes} (im : IsMessage mk encode) (ik : FixedBytes IK) (ns : FixedBytes N)
    (h : Handle X IK N) (prefix : Bytes)
    (keyed : (k : K) → serialize_metakeys_and_key ik ns mk h k ≡ ok (prefix ++ encode k))
    (dk : Discrete K) (s : InMemory Any) (o : IsOpen ik ns h s prefix) where
  -- After `map_insert` a read of the key finds the value, and every other key reads as before. The handle is registered and
  -- serialises its keys, the encoding of keys is read back, and so is what the backend boxes.
  pub map_get-map_insert :
      (k j : K) (v : V)
      → map_get st mk ik ns (map_insert st mk ik ns h k v s).1 h j
        ≡ ite (dk k j) (ok (some v)) (map_get st mk ik ns s h j)
  map_get-map_insert k j v =
      rw
        (map_get_lem st ok_st mk im ik ns h _ prefix
          (map_insert-IsOpen st ok_st mk im ik ns h s prefix o keyed k v) keyed j)
        (rw ((map_insert_lem st ok_st mk im ik ns h s prefix o keyed k v).1) (
          rw (update-encode st mk encode im dk (cell s) h.id prefix (some (st.box v)) k j)
            (rw (map_get_lem st ok_st mk im ik ns h s prefix o keyed j) (rw ok_st refl))))

  -- After `map_remove` the key is gone, and every other key reads as before. The handle is registered and
  -- serialises its keys, the encoding of keys is read back, and so is what the backend boxes.
  pub map_get-map_remove :
      (k j : K)
      → map_get st mk ik ns (map_remove st mk ik ns h k s).1 h j
        ≡ ite (dk k j) (ok none) (map_get st mk ik ns s h j)
  map_get-map_remove k j =
      rw
        (map_get_lem st ok_st mk im ik ns h _ prefix
          (map_remove-IsOpen st ok_st mk im ik ns h s prefix o keyed k) keyed j)
        (rw ((map_remove_lem st ok_st mk im ik ns h s prefix o keyed k).1) (
          rw (update-encode st mk encode im dk (cell s) h.id prefix none k j)
            (rw (map_get_lem st ok_st mk im ik ns h s prefix o keyed j) refl)))

  -- After `map_clear` no key of the handle is left. The keys of the table are as long as the prefix
  -- of the handle, the handle is registered and serialises its keys, the encoding of keys is read
  -- back, and so is what the backend boxes.
  pub map_get-map_clear :
      (j : K)
      → AllLong (length prefix) o.table
      → map_get st mk ik ns (map_clear st mk ik ns h s).1 h j ≡ ok none
  map_get-map_clear j l =
      rw
        (map_get_lem st ok_st mk im ik ns h _ prefix
          (map_clear-IsOpen st ok_st mk im ik ns h s prefix o keyed l) keyed j)
        (rw (map_clear_lem st ok_st mk im ik ns h s prefix o keyed (prefix ++ encode j) l)
          (rw (is_below-append prefix (encode j)) refl))

-- The iterators decode what the inserts have stored: an entry is skipped past its metakeys, and
-- yields the key and the value that it was made of. The encodings of the metakeys and of the key are
-- read back, and so is what the backend boxes.
pub entry_pair-entry :
    {Any K V IK N : Type 0} (st : Stored Any V) (ok_st : IsStored st) (mk : Message K)
    {encode : K → Bytes} (im : IsMessage mk encode) {ik : FixedBytes IK} {ns : FixedBytes N}
    {P : IK → Type 0} {Q : N → Type 0} {ei : IK → Bytes} {en : N → Bytes} (fi : IsFixed ik P ei)
    (fn : IsFixed ns Q en) (a : IK) (b : N) (k : K) (v : V)
    → P a
    → Q b
    → entry_pair mk ik ns st ((ei a ++ en b) ++ encode k, st.box v) ≡ ok (k, v)
unfolding entry_key
entry_pair-entry st ok_st mk {encode} im {ei} {en} fi fn a b k v p q =
    rw (append_assoc (ei a) (en b) (encode k)) (
      rw (fi.reads a (en b ++ encode k) p) (
        rw (fn.reads b (encode k) q)
          (rw (← append-nil (encode k)) (rw (im.reads k []) (rw ok_st refl)))))
