-- ===== src/State/Handle.antt =====
-- execution-plane/arcon/arcon_state/src/handles.rs: the handles of the backend's states, and the
-- keys that they give to the data. The protobuf encoding of map keys is `prost`'s and is a
-- parameter.
pub mod Laws
use arcon.Common.{ℕ, Bool, true, false, Res, ok, err, ◌>>=◌, Error, length, ◌+◌, ltb, if◌then◌else◌}
use arcon.State.Serialization.{
  Bytes, Target, put_slice, FixedBytes, new_vec, unit_bytes, serialize_bytes_into,
}

-- `extra` is the reducer or the aggregator of such a state. An id is its UTF-8 bytes.
pub record Handle (X IK N : Type 0) : Type 0 where
  pub id : Bytes
  pub item_key : IK
  pub namespace : N
  pub extra_data : X
  pub registered : Bool

-- `Handle::value`, `Handle::map` and `Handle::vec` have no extra data.
unfoldable pub no_extra : Bytes → Handle (Unit {0}) (Unit {0}) (Unit {0})
no_extra id = record { id = id; item_key = tt; namespace = tt; extra_data = tt; registered = false }

-- `Handle::reducer` and `Handle::aggregator`.
unfoldable pub with_extra : {X : Type 0} → Bytes → X → Handle X (Unit {0}) (Unit {0})
with_extra id x = record {
  id = id;
  item_key = tt;
  namespace = tt;
  extra_data = x;
  registered = false;
}

unfoldable pub with_item_key : {X IK N NIK : Type 0} → NIK → Handle X IK N → Handle X NIK N
with_item_key k h = record {
  id = h.id;
  item_key = k;
  namespace = h.namespace;
  extra_data = h.extra_data;
  registered = h.registered;
}

unfoldable pub with_namespace : {X IK N NN : Type 0} → NN → Handle X IK N → Handle X IK NN
with_namespace n h = record {
  id = h.id;
  item_key = h.item_key;
  namespace = n;
  extra_data = h.extra_data;
  registered = h.registered;
}

unfoldable pub set_item_key : {X IK N : Type 0} → IK → Handle X IK N → Handle X IK N
set_item_key k h = record h { item_key = k }

unfoldable pub set_namespace : {X IK N : Type 0} → N → Handle X IK N → Handle X IK N
set_namespace n h = record h { namespace = n }

-- What `prost` does with a key: the length-delimited encoding into a target, and back.
pub record Message (K : Type 0) : Type 0 where
  pub serialize_into : Target → K → Res Target
  pub deserialize_from : Bytes → Res (K × Bytes)

unfoldable pub metakey_size : {IK N : Type 0} → FixedBytes IK → FixedBytes N → ℕ
metakey_size ik ns = ik.size + ns.size

module _ {X IK N : Type 0} (ik : FixedBytes IK) (ns : FixedBytes N) where
  unfoldable pub serialize_metakeys_into : Handle X IK N → Target → Res Target
  serialize_metakeys_into h dest = do
    dest' ← ik.serialize_into dest h.item_key
    ns.serialize_into dest' h.namespace

  unfoldable pub serialize_metakeys : Handle X IK N → Res Bytes
  serialize_metakeys h = do dest ← serialize_metakeys_into h new_vec; ok dest.bytes

  unfoldable pub serialize_metakeys_and_key_into :
      {K : Type 0} → Message K → Handle X IK N → K → Target → Res Target
  serialize_metakeys_and_key_into m h key dest = do
    dest' ← serialize_metakeys_into h dest
    m.serialize_into dest' key

  unfoldable pub serialize_metakeys_and_key :
      {K : Type 0} → Message K → Handle X IK N → K → Res Bytes
  serialize_metakeys_and_key m h key = do
    dest ← serialize_metakeys_and_key_into m h key new_vec
    ok dest.bytes

  unfoldable pub serialize_id_and_metakeys_into : Handle X IK N → Target → Res Target
  serialize_id_and_metakeys_into h dest = do
    dest' ← serialize_bytes_into dest h.id
    serialize_metakeys_into h dest'

  unfoldable pub serialize_id_and_metakeys : Handle X IK N → Res Bytes
  serialize_id_and_metakeys h = do dest ← serialize_id_and_metakeys_into h new_vec; ok dest.bytes
