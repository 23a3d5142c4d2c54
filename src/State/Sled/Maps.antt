-- ===== src/State/Sled/Maps.antt =====
-- execution-plane/arcon/arcon_state/src/sled/map_ops.rs: the entries of a map state under their own keys.
-- An iterator is the list of its results.
use arcon.Common.{ℕ, Bool, Option, some, List, [], ◌∷◌, Res, ok, ◌>>=◌, length, ◌==◌}
use arcon.State.Serialization.{Bytes, FixedBytes}
use arcon.State.Handle.{Handle, Message, serialize_metakeys, serialize_metakeys_and_key}
use arcon.State.Rocks.Values.{serialize, deserialize_option}
use arcon.State.Sled.Database.{
  Trees, Sled, Call, after, sled_get, put, sled_remove, remove_prefix, sled_contains,
}

module _ {D : Type 0} (trees : Trees D) {X IK N : Type 0} (ik : FixedBytes IK)
    (ns : FixedBytes N) where
  unfoldable pub map_clear : Handle X IK N → Sled D → Call D (Unit {0})
  unfolding remove_prefix
  map_clear h s =
      after (serialize_metakeys ik ns h) s λ prefix. (ok tt, remove_prefix trees h.id prefix s)

  -- The entries that the three iterators and the two counts go through.
  unfoldable pub scanned : Handle X IK N → Sled D → Res (List (Bytes × Bytes))
  scanned h s = do prefix ← serialize_metakeys ik ns h; ok (trees.scan_prefix h.id prefix s.db)

  unfoldable pub map_len : Handle X IK N → Sled D → Res ℕ
  unfolding scanned
  map_len h s = do entries ← scanned h s; ok (length entries)

  unfoldable pub map_is_empty : Handle X IK N → Sled D → Res Bool
  unfolding scanned
  map_is_empty h s = do entries ← scanned h s; ok (length entries == 0)

module _ {D : Type 0} (trees : Trees D) {K V X IK N : Type 0} (mk : Message K) (mv : Message V)
    (ik : FixedBytes IK) (ns : FixedBytes N) where
  unfoldable pub map_get : Handle X IK N → K → Sled D → Res (Option V)
  map_get h k s = do
    key ← serialize_metakeys_and_key ik ns mk h k
    deserialize_option mv (sled_get trees h.id key s)

  unfoldable pub map_fast_insert : Handle X IK N → K → V → Sled D → Call D (Unit {0})
  unfolding serialize
  map_fast_insert h k value s =
      after (serialize_metakeys_and_key ik ns mk h k) s λ key.
        after (serialize mv value) s λ serialized. (ok tt, (put trees h.id key serialized s).1)

  -- The old value is read once the new one is in.
  unfoldable pub map_insert : Handle X IK N → K → V → Sled D → Call D (Option V)
  unfolding serialize
  map_insert h k value s = after (serialize_metakeys_and_key ik ns mk h k) s λ key.
      after (serialize mv value) s
        λ serialized. let r = put trees h.id key serialized s in (deserialize_option mv r.0, r.1)

  unfoldable pub batch : Handle X IK N → List (K × V) → Res (List (Bytes × Option Bytes))
  unfolding serialize
  batch h [] = ok []
  batch h ((k, value) ∷ pairs) = do
    key ← serialize_metakeys_and_key ik ns mk h k
    serialized ← serialize mv value
    rest ← batch h pairs
    ok ((key, some serialized) ∷ rest)

  unfoldable pub map_insert_all : Handle X IK N → List (K × V) → Sled D → Call D (Unit {0})
  unfolding batch
  map_insert_all h pairs s =
      after (batch h pairs) s λ ops. (ok tt, record s { db = trees.apply_batch h.id ops s.db })

  unfoldable pub map_remove : Handle X IK N → K → Sled D → Call D (Option V)
  map_remove h k s =
      after (serialize_metakeys_and_key ik ns mk h k) s
        λ key. let r = sled_remove trees h.id key s in (deserialize_option mv r.0, r.1)

  unfoldable pub map_fast_remove : Handle X IK N → K → Sled D → Call D (Unit {0})
  map_fast_remove h k s =
      after (serialize_metakeys_and_key ik ns mk h k) s
        λ key. (ok tt, (sled_remove trees h.id key s).1)

  unfoldable pub map_contains : Handle X IK N → K → Sled D → Res Bool
  map_contains h k s = do
    key ← serialize_metakeys_and_key ik ns mk h k
    ok (sled_contains trees h.id key s)
