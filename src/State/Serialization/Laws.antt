-- ===== src/State/Serialization/Laws.antt =====
-- Round trips of the fixed-width encoding.
use arcon.Common.{
  ℕ, zero, suc, ◌+◌, ◌*◌, ◌/◌, ◌≤◌, ◌<◌, ◌≡◌, refl, ap, Bool, true, false, List, [], ◌∷◌, ◌++◌,
  append_assoc, append-nil, ok, panic, length, take, drop, length-append, take_append, drop_append,
  arith, All,
}
use arcon.State.Serialization.{
  Bytes, Target, put_slice, FixedBytes, to_le_bytes, from_le_bytes, int_serialize_into,
  int_deserialize, int_deserialize_from, int_bytes, pair_serialize_into, pair_deserialize_from,
  pair_bytes, unit_bytes, bool_byte, bool_bytes, array_serialize_into, array_deserialize_from,
  serialize_bytes_into, deserialize_bytes_from,
}

-- 256 to the power of the width.
abbrev pub width_mod : ℕ → ℕ
width_mod zero = 1
width_mod (suc w) = 256 * width_mod w

pub length-to_le_bytes : (w n : ℕ) → length (to_le_bytes w n) ≡ w
unfolding to_le_bytes
length-to_le_bytes zero n = refl
length-to_le_bytes (suc w) n = ap suc (length-to_le_bytes w (n / 256))

pub from_le_bytes-to_le_bytes : (w n : ℕ) → n < width_mod w → from_le_bytes (to_le_bytes w n) ≡ n
unfolding to_le_bytes from_le_bytes
from_le_bytes-to_le_bytes zero n h = omega arith
from_le_bytes-to_le_bytes (suc w) n h =
    omega (arith, from_le_bytes-to_le_bytes w (n / 256) (omega arith))

-- What a type's operations promise on the values that `P` admits: `encode` is what they write.
pub record IsFixed {A : Type 0} (f : FixedBytes A) (P : A → Type 0) (encode : A → Bytes)
    : Type 0 where
  pub length_encode : (a : A) → P a → length (encode a) ≡ f.size
  pub writes :
      (t : Target) (a : A)
      → P a
      → f.size ≤ t.remaining_mut
      → f.serialize_into t a ≡ ok (put_slice t (encode a))
  pub reads : (a : A) (rest : Bytes) → P a → f.deserialize_from (encode a ++ rest) ≡ ok (a, rest)

pub int_reads :
    (w n : ℕ) (rest : Bytes)
    → n < width_mod w
    → int_deserialize_from w (to_le_bytes w n ++ rest) ≡ ok (n, rest)
unfolding int_deserialize_from
int_reads w n rest h =
    let e : length (to_le_bytes w n) ≡ w = length-to_le_bytes w n in
    rw (take_append w (to_le_bytes w n) rest e) (
      rw (drop_append w (to_le_bytes w n) rest e)
        (ground (arith, e, length-append (to_le_bytes w n) rest, from_le_bytes-to_le_bytes w n h)))

pub int_writes :
    (w : ℕ) (t : Target) (n : ℕ)
    → w ≤ t.remaining_mut
    → int_serialize_into w t n ≡ ok (put_slice t (to_le_bytes w n))
unfolding int_serialize_into
int_writes w t n k = ground (arith, length-to_le_bytes w n)

-- An unsigned integer of `w` bytes, below 256 to the power of `w`, is written as its little-endian
-- bytes where there is room, and read back from them, whatever follows.
pub int_bytes-IsFixed : (w : ℕ) → IsFixed (int_bytes w) (λ n. n < width_mod w) (to_le_bytes w)
unfolding int_bytes
int_bytes-IsFixed w = record {
  length_encode = λ n h. length-to_le_bytes w n;
  writes = λ t n h k. int_writes w t n k;
  reads = int_reads w;
}

-- On a slice that is longer than the type `deserialize` panics, where `deserialize_from` reads the
-- value and leaves the rest.
pub int_deserialize_long :
    (w : ℕ) (bytes : Bytes)
    → w < length bytes
    → (int_deserialize w bytes ≡ panic)
      × (int_deserialize_from w bytes ≡ ok (from_le_bytes (take w bytes), drop w bytes))
unfolding int_deserialize int_deserialize_from
int_deserialize_long w bytes h = (ground arith, ground arith)

pub unit_bytes-IsFixed : IsFixed unit_bytes (λ u. Unit {0}) (λ u. [])
unit_bytes-IsFixed = record {
  length_encode = λ u h. refl;
  writes = λ t u h k. ground (arith, append-nil t.bytes);
  reads = λ u rest h. refl;
}

bool_reads :
    (b : Bool) (rest : Bytes)
    → (bool_bytes.deserialize_from (to_le_bytes 1 (bool_byte b) ++ rest)) ≡ ok (b, rest)
unfolding bool_bytes
bool_reads true rest = rw (int_reads 1 1 rest (omega arith))
bool_reads false rest = rw (int_reads 1 0 rest (omega arith))

pub bool_bytes-IsFixed : IsFixed bool_bytes (λ b. Unit {0}) (λ b. to_le_bytes 1 (bool_byte b))
unfolding bool_bytes
bool_bytes-IsFixed = record {
  length_encode = λ b h. length-to_le_bytes 1 (bool_byte b);
  writes = λ t b h k. int_writes 1 t (bool_byte b) k;
  reads = λ b rest h. bool_reads b rest;
}

module _ {A B : Type 0} {fa : FixedBytes A} {fb : FixedBytes B} {P : A → Type 0} {Q : B → Type 0}
    {ea : A → Bytes} {eb : B → Bytes} (a : IsFixed fa P ea) (b : IsFixed fb Q eb) where
  -- A pair is read back from the bytes of its parts, if the parts are.
  pub pair_bytes-IsFixed : IsFixed (pair_bytes fa fb) (λ p. P p.0 × Q p.1) (λ p. ea p.0 ++ eb p.1)
  unfolding pair_bytes pair_serialize_into pair_deserialize_from
  pair_bytes-IsFixed = record {
    length_encode = λ p h.
        omega (
          arith,
          length-append (ea p.0) (eb p.1),
          a.length_encode p.0 h.0,
          b.length_encode p.1 h.1,
        );
    writes = λ t p h k. rw (a.writes t p.0 h.0 (omega arith)) (
        rw (b.writes (put_slice t (ea p.0)) p.1 h.1 (omega (arith, a.length_encode p.0 h.0))) (
          ground (arith, append_assoc t.bytes (ea p.0) (eb p.1), length-append (ea p.0) (eb p.1))));
    reads = λ p rest h.
        rw (append_assoc (ea p.0) (eb p.1) rest)
          (rw (a.reads p.0 (eb p.1 ++ rest) h.0) (rw (b.reads p.1 rest h.1)));
  }

module _ {A : Type 0} {f : FixedBytes A} {P : A → Type 0} {e : A → Bytes} (l : IsFixed f P e) where
  abbrev pub encode_all : List A → Bytes
  encode_all [] = []
  encode_all (x ∷ xs) = e x ++ encode_all xs

  -- An array is read back from the bytes of its elements.
  pub array_reads :
      (xs : List A) (rest : Bytes)
      → All P xs
      → array_deserialize_from f (length xs) (encode_all xs ++ rest) ≡ ok (xs, rest)
  unfolding array_deserialize_from
  array_reads [] rest h = refl
  array_reads (x ∷ xs) rest h =
      rw (append_assoc (e x) (encode_all xs) rest)
        (rw (l.reads x (encode_all xs ++ rest) h.0) (rw (array_reads xs rest h.1)))

  pub array_writes :
      (xs : List A) (t : Target)
      → All P xs
      → length xs * f.size ≤ t.remaining_mut
      → array_serialize_into f t xs ≡ ok (put_slice t (encode_all xs))
  unfolding array_serialize_into
  array_writes [] t h k = ground (arith, append-nil t.bytes)
  array_writes (x ∷ xs) t h k = rw (l.writes t x h.0 (omega arith)) (
      rw (array_writes xs (put_slice t (e x)) h.1 (omega (arith, l.length_encode x h.0))) (
        ground
          (arith, append_assoc t.bytes (e x) (encode_all xs), length-append (e x) (encode_all xs))))

-- A payload with its length in front is written where there is room, and read back, whatever follows
-- it. Its length fits into 8 bytes.
pub deserialize_bytes_from-serialize_bytes_into :
    (t : Target) (payload rest : Bytes)
    → length payload < width_mod 8
    → 8 + length payload ≤ t.remaining_mut
    → (w : Bytes) × (serialize_bytes_into t payload ≡ ok (put_slice t w))
      × (deserialize_bytes_from (w ++ rest) ≡ ok (payload, rest))
unfolding serialize_bytes_into deserialize_bytes_from
deserialize_bytes_from-serialize_bytes_into t payload rest h k = (
  to_le_bytes 8 (length payload) ++ payload,
  ground (
    arith,
    int_writes 8 t (length payload) (omega arith),
    append_assoc t.bytes (to_le_bytes 8 (length payload)) payload,
    length-append (to_le_bytes 8 (length payload)) payload,
    length-to_le_bytes 8 (length payload),
  ),
  rw (append_assoc (to_le_bytes 8 (length payload)) payload rest) (
      rw (int_reads 8 (length payload) (payload ++ rest) h) (
        rw (take_append (length payload) payload rest refl) (
          rw (drop_append (length payload) payload rest refl)
            (ground (arith, length-append payload rest))))),
)
