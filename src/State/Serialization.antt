-- ===== src/State/Serialization.antt =====
-- execution-plane/arcon/arcon_state/src/serialization.rs: the fixed-width encoding of metakeys.
-- A byte is a number below 256. A target (`BufMut`) is the bytes written so far with the room left,
-- a source (`Buf`) the bytes still to read.
pub mod Laws
mod Examples
use arcon.Common.{
  ℕ, zero, suc, ◌+◌, ◌-◌, ◌*◌, ◌/◌, ◌%◌, Bool, true, false, List, [], ◌∷◌, ◌++◌, Res, ok, err,
  panic, ◌>>=◌, Error, length, take, drop, ltb, ◌==◌, if◌then◌else◌, not,
}

abbrev pub Bytes : Type 0
Bytes = List ℕ

pub record Target : Type 0 where
  pub bytes : Bytes
  pub remaining_mut : ℕ

abbrev pub put_slice : Target → Bytes → Target
put_slice t bs = record { bytes = t.bytes ++ bs; remaining_mut = t.remaining_mut - length bs }

-- The trait: the operations of one type.
pub record FixedBytes (A : Type 0) : Type 0 where
  pub size : ℕ
  pub serialize : A → Res Bytes
  pub serialize_into : Target → A → Res Target
  pub deserialize : Bytes → Res A
  pub deserialize_from : Bytes → Res (A × Bytes)

unfoldable pub to_le_bytes : ℕ → ℕ → Bytes
to_le_bytes zero n = []
to_le_bytes (suc w) n = (n % 256) ∷ to_le_bytes w (n / 256)

unfoldable pub from_le_bytes : Bytes → ℕ
from_le_bytes [] = 0
from_le_bytes (b ∷ bs) = b + 256 * from_le_bytes bs

-- `impl_fixed_bytes!` at an unsigned type of `w` bytes. `deserialize` copies the whole slice into
-- a buffer of `w` bytes, and `copy_from_slice` panics when the lengths differ.
unfoldable pub int_serialize_into : ℕ → Target → ℕ → Res Target
int_serialize_into w t n =
    let needed = length (to_le_bytes w n) in
    if ltb t.remaining_mut needed
    then err (Error.short_target needed t.remaining_mut)
    else ok (put_slice t (to_le_bytes w n))

unfoldable pub int_deserialize : ℕ → Bytes → Res ℕ
int_deserialize w bytes =
    if ltb (length bytes) w
    then err (Error.short_source w (length bytes))
    else if length bytes == w
    then ok (from_le_bytes bytes)
    else panic

unfoldable pub int_deserialize_from : ℕ → Bytes → Res (ℕ × Bytes)
int_deserialize_from w source =
    if ltb (length source) w
    then err (Error.short_source w (length source))
    else ok (from_le_bytes (take w source), drop w source)

unfoldable pub int_bytes : ℕ → FixedBytes ℕ
int_bytes w = record {
  size = w;
  serialize = λ n. ok (to_le_bytes w n);
  serialize_into = int_serialize_into w;
  deserialize = int_deserialize w;
  deserialize_from = int_deserialize_from w;
}

-- The room of a new `Vec`: `usize::MAX` less its length, which is 0.
abbrev pub new_vec : Target
new_vec = record { bytes = []; remaining_mut = 18446744073709551615 }

-- `impl_fixed_bytes_for_tuples!` at a pair; the larger tuples go on in the same way.
module _ {A B : Type 0} (fa : FixedBytes A) (fb : FixedBytes B) where
  unfoldable pub pair_serialize_into : Target → A × B → Res Target
  pair_serialize_into t p = do t' ← fa.serialize_into t p.0; fb.serialize_into t' p.1

  unfoldable pub pair_deserialize_from : Bytes → Res ((A × B) × Bytes)
  pair_deserialize_from source = do
    (a, rest) ← fa.deserialize_from source
    (b, rest') ← fb.deserialize_from rest
    ok ((a, b), rest')

  unfoldable pub pair_bytes : FixedBytes (A × B)
  pair_bytes = record {
    size = fa.size + fb.size;
    serialize = λ p. (do t ← pair_serialize_into new_vec p; ok t.bytes);
    serialize_into = pair_serialize_into;
    deserialize = λ bytes. (do (p, rest) ← pair_deserialize_from bytes; ok p);
    deserialize_from = pair_deserialize_from;
  }

abbrev pub unit_bytes : FixedBytes (Unit {0})
unit_bytes = record {
  size = 0;
  serialize = λ u. ok [];
  serialize_into = λ t u. ok t;
  deserialize = λ bytes. ok tt;
  deserialize_from = λ source. ok (tt, source);
}

abbrev pub bool_byte : Bool → ℕ
bool_byte b = if b then 1 else 0

unfoldable pub bool_bytes : FixedBytes Bool
bool_bytes = record {
  size = 1;
  serialize = λ b. ok (to_le_bytes 1 (bool_byte b));
  serialize_into = λ t b. int_serialize_into 1 t (bool_byte b);
  deserialize = λ bytes. (do n ← int_deserialize 1 bytes; ok (not (n == 0)));
  deserialize_from =
      λ source. (do (n, rest) ← int_deserialize_from 1 source; ok (not (n == 0), rest));
}

-- `[T; N]`: the elements one after the other. An array is a list with `n` entries.
module _ {A : Type 0} (f : FixedBytes A) where
  unfoldable pub array_serialize_into : Target → List A → Res Target
  array_serialize_into t [] = ok t
  array_serialize_into t (x ∷ xs) = f.serialize_into t x >>= λ t'. array_serialize_into t' xs

  unfoldable pub array_deserialize_from : ℕ → Bytes → Res (List A × Bytes)
  array_deserialize_from zero source = ok ([], source)
  array_deserialize_from (suc n) source = do
    (x, rest) ← f.deserialize_from source
    (xs, rest') ← array_deserialize_from n rest
    ok ((x ∷ xs), rest')

-- `serialize_bytes_into` and `deserialize_bytes_from`: a length as a `usize`, then the bytes.
unfoldable pub serialize_bytes_into : Target → Bytes → Res Target
serialize_bytes_into t payload =
    let needed = 8 + length payload in
    if ltb t.remaining_mut needed
    then err (Error.short_target needed t.remaining_mut)
    else (do t' ← int_serialize_into 8 t (length payload); ok (put_slice t' payload))

unfoldable pub deserialize_bytes_from : Bytes → Res (Bytes × Bytes)
deserialize_bytes_from source = do
  (len, rest) ← int_deserialize_from 8 source
  if ltb (length rest) len
      then err (Error.short_source len (length rest))
      else ok (take len rest, drop len rest)
