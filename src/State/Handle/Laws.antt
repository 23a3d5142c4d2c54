-- ===== src/State/Handle/Laws.antt =====
-- The bytes of the keys that a handle gives to its data.
use arcon.Common.{◌+◌, ◌≤◌, ◌≡◌, refl, ◌++◌, append_assoc, ok, length, length-append, arith}
use arcon.State.Serialization.{Bytes, Target, put_slice, FixedBytes, new_vec}
use arcon.State.Serialization.Laws.{IsFixed}
use arcon.State.Handle.{
  Handle, Message, metakey_size, serialize_metakeys_into, serialize_metakeys,
  serialize_metakeys_and_key_into, serialize_metakeys_and_key,
}

-- The documented behaviour of `prost`: what is written is read back, whatever follows.
pub record IsMessage {K : Type 0} (m : Message K) (encode : K → Bytes) : Type 0 where
  pub writes :
      (t : Target) (k : K)
      → length (encode k) ≤ t.remaining_mut
      → m.serialize_into t k ≡ ok (put_slice t (encode k))
  pub reads : (k : K) (rest : Bytes) → m.deserialize_from (encode k ++ rest) ≡ ok (k, rest)

module _ {X IK N : Type 0} {ik : FixedBytes IK} {ns : FixedBytes N} {P : IK → Type 0}
    {Q : N → Type 0} {ei : IK → Bytes} {en : N → Bytes} (fi : IsFixed ik P ei)
    (fn : IsFixed ns Q en) (h : Handle X IK N) (p : P h.item_key) (q : Q h.namespace) where
  -- The bytes of the metakeys.
  abbrev pub prefix_of : Bytes
  prefix_of = ei h.item_key ++ en h.namespace

  pub serialize_metakeys_into_lem :
      (t : Target)
      → metakey_size ik ns ≤ t.remaining_mut
      → serialize_metakeys_into ik ns h t ≡ ok (put_slice t prefix_of)
  unfolding serialize_metakeys_into metakey_size
  serialize_metakeys_into_lem t k = rw (fi.writes t h.item_key p (omega arith)) (
      rw
        (fn.writes (put_slice t (ei h.item_key)) h.namespace q
          (omega (arith, fi.length_encode h.item_key p)))
        (ground (
          arith,
          append_assoc t.bytes (ei h.item_key) (en h.namespace),
          length-append (ei h.item_key) (en h.namespace),
        )))

  -- The key of a handle is its item key followed by its namespace, of a length that its types fix.
  pub serialize_metakeys_lem :
      metakey_size ik ns ≤ new_vec.remaining_mut
      → (serialize_metakeys ik ns h ≡ ok prefix_of) × (length prefix_of ≡ metakey_size ik ns)
  unfolding serialize_metakeys metakey_size
  serialize_metakeys_lem k = (
    rw (serialize_metakeys_into_lem new_vec (unfold metakey_size in k)) refl,
    omega (
      arith,
      length-append (ei h.item_key) (en h.namespace),
      fi.length_encode h.item_key p,
      fn.length_encode h.namespace q,
    ),
  )

  -- The key of a map entry is that of the handle followed by the encoded key.
  pub serialize_metakeys_and_key_lem :
      {K : Type 0} (m : Message K) (encode : K → Bytes) (key : K)
      → IsMessage m encode
      → metakey_size ik ns + length (encode key) ≤ new_vec.remaining_mut
      → serialize_metakeys_and_key ik ns m h key ≡ ok (prefix_of ++ encode key)
  unfolding serialize_metakeys_and_key serialize_metakeys_and_key_into metakey_size
  serialize_metakeys_and_key_lem m encode key im k =
      rw (serialize_metakeys_into_lem new_vec (unfold metakey_size in omega arith)) (
        rw
          (im.writes (put_slice new_vec prefix_of) key (
            omega (
              arith,
              length-append (ei h.item_key) (en h.namespace),
              fi.length_encode h.item_key p,
              fn.length_encode h.namespace q,
            )))
          refl)
