-- ===== src/State/InMemory/Maps.antt =====
-- execution-plane/arcon/arcon_state/src/in_memory/map_ops.rs: the entries of a map stand in the
-- table of its id, under the metakeys followed by the encoded key. An iterator is the list of what
-- it yields, in the order of the table; a slice `k[..n]` of a shorter key panics.
use arcon.Common.{
  ℕ, Bool, true, false, Option, none, some, List, [], ◌∷◌, Res, ok, panic, ite, length, take, ltb,
  if◌then◌else◌,
}
use arcon.Common
use arcon.Common.Assoc.{get, insert, remove, is_some}
use arcon.State.Serialization.{Bytes, FixedBytes}
use arcon.State.Handle.{Handle, Message, serialize_metakeys, serialize_metakeys_and_key}
use arcon.State.InMemory.{
  bytes_discrete, Stored, Table, InMemory, M, ◌>>=◌, ◌>>◌, lift, pure, get_table, get_mut,
  put_table,
}
use arcon.State.InMemory.Values.{typed, typed_option}

-- `&k[..prefix.len()] == &prefix[..]`.
unfoldable pub has_prefix : Bytes → Bytes → Res Bool
has_prefix prefix k =
    if ltb (length k) (length prefix)
    then panic
    else ok (ite (bytes_discrete (take (length prefix) k) prefix) true false)

module _ {Any : Type 0} where
  -- The entries below a prefix, and the others.
  unfoldable pub matching : Bytes → Table Any → Res (Table Any)
  matching prefix [] = ok []
  matching prefix ((k, v) ∷ t) =
      Common.◌>>=◌ (has_prefix prefix k)
        (λ b. Common.◌>>=◌ (matching prefix t) (λ rest. ok (if b then (k, v) ∷ rest else rest)))

  unfoldable pub retained : Bytes → Table Any → Res (Table Any)
  retained prefix [] = ok []
  retained prefix ((k, v) ∷ t) =
      Common.◌>>=◌ (has_prefix prefix k)
        (λ b. Common.◌>>=◌ (retained prefix t) (λ rest. ok (if b then rest else (k, v) ∷ rest)))

  -- `filter(..).next().is_none()` stops at the first entry that matches.
  unfoldable pub none_matching : Bytes → Table Any → Res Bool
  none_matching prefix [] = ok true
  none_matching prefix ((k, v) ∷ t) =
      Common.◌>>=◌ (has_prefix prefix k) (λ b. if b then ok false else none_matching prefix t)

module _ {K IK N : Type 0} (mk : Message K) (ik : FixedBytes IK) (ns : FixedBytes N) where
  -- Skips the metakeys of an entry and reads its key.
  unfoldable pub entry_key : Bytes → Res K
  entry_key k = Common.◌>>=◌ (ik.deserialize_from k) (λ a.
      Common.◌>>=◌ (ns.deserialize_from a.1)
        (λ b. Common.◌>>=◌ (mk.deserialize_from b.1) (λ c. ok c.0)))

  abbrev pub entry_pair : {Any V : Type 0} → Stored Any V → Bytes × Any → Res (K × V)
  entry_pair st e = Common.◌>>=◌ (entry_key e.0) (λ k. Common.◌>>=◌ (typed st e.1) (λ v. ok (k, v)))

module _ {Any K V X IK N : Type 0} (st : Stored Any V) (mk : Message K) (ik : FixedBytes IK)
    (ns : FixedBytes N) where
  unfoldable pub map_clear : Handle X IK N → M Any (Unit {0})
  unfolding get_mut put_table
  map_clear h = do
    prefix ← lift (serialize_metakeys ik ns h)
    table ← get_mut h
    rest ← lift (retained prefix table)
    put_table h rest

  unfoldable pub map_get : InMemory Any → Handle X IK N → K → Res (Option V)
  unfolding get_table
  map_get s h k = Common.◌>>=◌ (serialize_metakeys_and_key ik ns mk h k) (λ key.
      Common.◌>>=◌ (get_table s h) (λ table. typed_option st (get bytes_discrete key table)))

  unfoldable pub map_fast_insert : Handle X IK N → K → V → M Any (Unit {0})
  unfolding get_mut put_table
  map_fast_insert h k value = do
    key ← lift (serialize_metakeys_and_key ik ns mk h k)
    table ← get_mut h
    put_table h (insert bytes_discrete key (st.box value) table)

  unfoldable pub map_insert : Handle X IK N → K → V → M Any (Option V)
  unfolding get_mut put_table
  map_insert h k value = do
    key ← lift (serialize_metakeys_and_key ik ns mk h k)
    table ← get_mut h
    put_table h (insert bytes_discrete key (st.box value) table)
    lift (typed_option st (get bytes_discrete key table))

  unfoldable pub map_insert_all : Handle X IK N → List (K × V) → M Any (Unit {0})
  map_insert_all h [] = pure tt
  map_insert_all h ((k, v) ∷ pairs) = map_fast_insert h k v >>= λ done. map_insert_all h pairs

  unfoldable pub map_remove : Handle X IK N → K → M Any (Option V)
  unfolding get_mut put_table
  map_remove h k = do
    key ← lift (serialize_metakeys_and_key ik ns mk h k)
    table ← get_mut h
    put_table h (remove bytes_discrete key table)
    lift (typed_option st (get bytes_discrete key table))

  unfoldable pub map_fast_remove : Handle X IK N → K → M Any (Unit {0})
  unfolding get_mut put_table
  map_fast_remove h k = do
    key ← lift (serialize_metakeys_and_key ik ns mk h k)
    table ← get_mut h
    put_table h (remove bytes_discrete key table)

  unfoldable pub map_contains : InMemory Any → Handle X IK N → K → Res Bool
  unfolding get_table
  map_contains s h k =
      Common.◌>>=◌ (serialize_metakeys_and_key ik ns mk h k)
        (λ key. Common.◌>>=◌ (get_table s h) (λ table. ok (is_some (get bytes_discrete key table))))

  -- The entries that the iterators of this handle walk over.
  unfoldable pub map_entries : InMemory Any → Handle X IK N → Res (Table Any)
  unfolding get_table
  map_entries s h =
      Common.◌>>=◌ (serialize_metakeys ik ns h)
        (λ prefix. Common.◌>>=◌ (get_table s h) (λ table. matching prefix table))

  unfoldable pub map_iter : InMemory Any → Handle X IK N → Res (List (Res (K × V)))
  unfolding map_entries
  map_iter s h = Common.◌>>=◌ (map_entries s h) (λ es. ok (Common.map (entry_pair mk ik ns st) es))

  unfoldable pub map_keys : InMemory Any → Handle X IK N → Res (List (Res K))
  unfolding map_entries
  map_keys s h =
      Common.◌>>=◌ (map_entries s h) (λ es. ok (Common.map (λ e. entry_key mk ik ns e.0) es))

  unfoldable pub map_values : InMemory Any → Handle X IK N → Res (List (Res V))
  unfolding map_entries
  map_values s h = Common.◌>>=◌ (map_entries s h) (λ es. ok (Common.map (λ e. typed st e.1) es))

  unfoldable pub map_len : InMemory Any → Handle X IK N → Res ℕ
  unfolding map_entries
  map_len s h = Common.◌>>=◌ (map_entries s h) (λ es. ok (length es))

  unfoldable pub map_is_empty : InMemory Any → Handle X IK N → Res Bool
  unfolding get_table
  map_is_empty s h =
      Common.◌>>=◌ (serialize_metakeys ik ns h)
        (λ prefix. Common.◌>>=◌ (get_table s h) (λ table. none_matching prefix table))
