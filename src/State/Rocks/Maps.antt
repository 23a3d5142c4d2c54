-- ===== src/State/Rocks/Maps.antt =====
-- execution-plane/arcon/arcon_state/src/rocks/map_ops.rs: the entries of a map state have their own
-- keys, behind the item key and the namespace. An iterator is the list of its results.
use arcon.Common.{ℕ, Bool, Option, List, [], ◌∷◌, Res, ok, ◌>>=◌, ◌>>◌, ◌==◌, length}
use arcon.State.Serialization.{Bytes, FixedBytes}
use arcon.State.Handle.{Handle, Message, serialize_metakeys, serialize_metakeys_and_key}
use arcon.State.Rocks.{
  Database, Rocks, when_initialized, update, set_db, get_cf_handle, db_put, db_remove,
  db_remove_prefix, db_contains,
}
use arcon.State.Rocks.Values.{rocks_get, serialize, deserialize, deserialize_option}

abbrev pub write_batch : {D : Type 0} → Database D → Bytes → List (Bytes × Bytes) → D → D
write_batch rocks cf [] d = d
write_batch rocks cf ((key, value) ∷ rest) d =
    write_batch rocks cf rest (rocks.put_cf cf key value d)

module _ {D : Type 0} (rocks : Database D) {K V X IK N : Type 0} (mk : Message K) (mv : Message V)
    (ik : FixedBytes IK) (ns : FixedBytes N) where
  unfoldable pub map_get : Handle X IK N → K → Rocks D → Res (Option V)
  unfolding rocks_get
  map_get h k r = do
    key ← serialize_metakeys_and_key ik ns mk h k
    stored ← rocks_get rocks h.id key r
    deserialize_option mv stored

  unfoldable pub map_fast_insert : Handle X IK N → K → V → Rocks D → Res (Rocks D)
  unfolding when_initialized db_put serialize
  map_fast_insert h k value r = do
    key ← serialize_metakeys_and_key ik ns mk h k
    serialized ← serialize mv value
    update rocks r (db_put rocks h.id key serialized)

  unfoldable pub map_insert : Handle X IK N → K → V → Rocks D → Res (Option V × Rocks D)
  unfolding rocks_get when_initialized db_put serialize
  map_insert h k value r = do
    key ← serialize_metakeys_and_key ik ns mk h k
    stored ← rocks_get rocks h.id key r
    old ← deserialize_option mv stored
    serialized ← serialize mv value
    r' ← update rocks r (db_put rocks h.id key serialized)
    ok (old, r')

  -- The write batch, which the database takes as a whole.
  unfoldable pub batch : Handle X IK N → List (K × V) → Res (List (Bytes × Bytes))
  unfolding serialize
  batch h [] = ok []
  batch h ((k, value) ∷ pairs) = do
    key ← serialize_metakeys_and_key ik ns mk h k
    serialized ← serialize mv value
    rest ← batch h pairs
    ok ((key, serialized) ∷ rest)

  unfoldable pub map_insert_all : Handle X IK N → List (K × V) → Rocks D → Res (Rocks D)
  unfolding when_initialized get_cf_handle batch
  map_insert_all h pairs r = update rocks r λ i. (do
    get_cf_handle rocks h.id i
    wb ← batch h pairs
    ok (set_db rocks (write_batch rocks h.id wb i.db) i))

  unfoldable pub map_remove : Handle X IK N → K → Rocks D → Res (Option V × Rocks D)
  unfolding rocks_get when_initialized db_remove
  map_remove h k r = do
    key ← serialize_metakeys_and_key ik ns mk h k
    stored ← rocks_get rocks h.id key r
    old ← deserialize_option mv stored
    r' ← update rocks r (db_remove rocks h.id key)
    ok (old, r')

  unfoldable pub map_fast_remove : Handle X IK N → K → Rocks D → Res (Rocks D)
  unfolding when_initialized db_remove
  map_fast_remove h k r = do
    key ← serialize_metakeys_and_key ik ns mk h k
    update rocks r (db_remove rocks h.id key)

  unfoldable pub map_contains : Handle X IK N → K → Rocks D → Res Bool
  unfolding when_initialized db_contains
  map_contains h k r = do
    key ← serialize_metakeys_and_key ik ns mk h k
    when_initialized rocks r (db_contains rocks h.id key)

module _ {K V IK N : Type 0} (mk : Message K) (mv : Message V) (ik : FixedBytes IK)
    (ns : FixedBytes N) where
  unfoldable pub entry_pair : Bytes × Bytes → Res (K × V)
  unfolding deserialize
  entry_pair (db_key, serialized_value) = do
    (item_key, rest) ← ik.deserialize_from db_key
    (namespace, rest') ← ns.deserialize_from rest
    (key, left) ← mk.deserialize_from rest'
    value ← deserialize mv serialized_value
    ok (key, value)

module _ {D : Type 0} (rocks : Database D) {X IK N : Type 0} (ik : FixedBytes IK)
    (ns : FixedBytes N) where
  unfoldable pub map_clear : Handle X IK N → Rocks D → Res (Rocks D)
  unfolding when_initialized db_remove_prefix
  map_clear h r = do
    prefix ← serialize_metakeys ik ns h
    update rocks r (db_remove_prefix rocks h.id prefix)

  -- The entries that the three iterators and the two counts go through.
  unfoldable pub prefix_iterator : Handle X IK N → Rocks D → Res (List (Bytes × Bytes))
  unfolding when_initialized get_cf_handle
  prefix_iterator h r = when_initialized rocks r λ i. (do
    prefix ← serialize_metakeys ik ns h
    get_cf_handle rocks h.id i
    ok (rocks.prefix_iterator_cf h.id prefix i.db))

  unfoldable pub map_len : Handle X IK N → Rocks D → Res ℕ
  unfolding prefix_iterator
  map_len h r = do entries ← prefix_iterator h r; ok (length entries)

  unfoldable pub map_is_empty : Handle X IK N → Rocks D → Res Bool
  unfolding prefix_iterator
  map_is_empty h r = do entries ← prefix_iterator h r; ok (length entries == 0)
