-- ===== src/State/InMemory/Examples.antt =====
-- Runs of the in-memory backend and instances of its theorems, with values of two types, keys of
-- eight bytes and a map from truth values.
use arcon.Common.{
  ℕ, ◌+◌, ◌≤◌, ◌<◌, ◌≡◌, refl, Bool, true, false, Option, none, some, List, [], ◌∷◌, ◌++◌, Res, ok,
  err, Error, arith, ite, length, ◌==◌, if◌then◌else◌, ℕ_discrete,
}
use arcon.Common.Assoc.{get}
use arcon.State.Serialization.{Bytes, put_slice, int_bytes, unit_bytes, to_le_bytes}
use arcon.State.Serialization.Laws.{width_mod, int_bytes-IsFixed, unit_bytes-IsFixed}
use arcon.State.Handle.{Handle, Message, metakey_size, serialize_metakeys_and_key}
use arcon.State.Handle.Laws.{IsMessage, serialize_metakeys_lem, serialize_metakeys_and_key_lem}
use arcon.State.InMemory.{bytes_discrete, Stored, IsStored, InMemory}
use arcon.State.InMemory.Values.{typed_option, Aggregator, value_get}
use arcon.State.InMemory.Vecs.{vec_get}
use arcon.State.InMemory.Maps.{map_get, map_insert}
use arcon.State.InMemory.Cells.{cell}
use arcon.State.InMemory.ValueLaws.{IsOpen}
use arcon.State.InMemory.MapLaws.{AllLong, map_get-map_insert}

data Dyn : Type 0 where
  number : ℕ → Dyn
  numbers : List ℕ → Dyn

abbrev to_number : Dyn → Option ℕ
to_number (number n) = some n
to_number (numbers ns) = none

abbrev to_numbers : Dyn → Option (List ℕ)
to_numbers (number n) = none
to_numbers (numbers ns) = some ns

abbrev stored_number : Stored Dyn ℕ
stored_number = record { box = number; downcast = to_number }

abbrev stored_numbers : Stored Dyn (List ℕ)
stored_numbers = record { box = numbers; downcast = to_numbers }

-- `prost` at `bool`-sized messages: the length, then the byte.
abbrev encode_bool : Bool → Bytes
encode_bool b = 1 ∷ (if b then 1 else 0) ∷ []

abbrev decode_bool : Bytes → Res (Bool × Bytes)
decode_bool (l ∷ b ∷ rest) = ok (b == 1, rest)
decode_bool _ = err Error.protobuf_decode

abbrev bool_message : Message Bool
bool_message = record {
  serialize_into = λ t b. ok (put_slice t (encode_bool b));
  deserialize_from = decode_bool;
}

bool_reads : (b : Bool) (rest : Bytes) → decode_bool (encode_bool b ++ rest) ≡ ok (b, rest)
bool_reads true rest = refl
bool_reads false rest = refl

bool_message-IsMessage : IsMessage bool_message encode_bool
bool_message-IsMessage = record { writes = λ t k h. refl; reads = bool_reads }

module _ {X : Type 0} (x : X) where
  abbrev handle : Handle X ℕ (Unit {0})
  handle = record { id = 7 ∷ []; item_key = 3; namespace = tt; extra_data = x; registered = true }

abbrev key : Bytes
key = to_le_bytes 8 3 ++ []

abbrev start : InMemory Dyn
start = record { data_map = (7 ∷ [], []) ∷ [] }

registered_start : get bytes_discrete (7 ∷ []) start.data_map ≡ some []
unfolding get bytes_discrete ℕ_discrete
registered_start = refl

three_fits : 3 < width_mod 8
three_fits = omega arith

metakeys_fit : metakey_size (int_bytes 8) unit_bytes ≤ 18446744073709551615
unfolding metakey_size int_bytes
metakeys_fit = omega arith

start-IsOpen : {X : Type 0} (x : X) → IsOpen (int_bytes 8) unit_bytes (handle x) start key
start-IsOpen x = record {
  table = [];
  registered = registered_start;
  serialized =
      (serialize_metakeys_lem (int_bytes-IsFixed 8) unit_bytes-IsFixed (handle x) three_fits tt
        metakeys_fit).0;
}

-- The same table with one entry of the map.
abbrev filled : InMemory Dyn
filled = record { data_map = (7 ∷ [], (key ++ encode_bool true, number 9) ∷ []) ∷ [] }

registered_filled :
    get bytes_discrete (7 ∷ []) filled.data_map ≡ some ((key ++ encode_bool true, number 9) ∷ [])
unfolding get bytes_discrete ℕ_discrete
registered_filled = refl

filled-IsOpen : IsOpen (int_bytes 8) unit_bytes (handle tt) filled key
filled-IsOpen = record {
  table = (key ++ encode_bool true, number 9) ∷ [];
  registered = registered_filled;
  serialized = (start-IsOpen tt).serialized;
}

filled-AllLong : AllLong (length key) filled-IsOpen.table
unfolding filled-IsOpen to_le_bytes
filled-AllLong = (omega arith, tt)

entry_fits : (b : Bool) → metakey_size (int_bytes 8) unit_bytes + 2 ≤ 18446744073709551615
unfolding metakey_size int_bytes
entry_fits b = omega arith

keyed_start :
    (b : Bool)
    → serialize_metakeys_and_key (int_bytes 8) unit_bytes bool_message (handle tt) b
      ≡ ok (key ++ encode_bool b)
keyed_start b =
    serialize_metakeys_and_key_lem (int_bytes-IsFixed 8) unit_bytes-IsFixed (handle tt) three_fits
      tt bool_message encode_bool b bool_message-IsMessage (entry_fits b)

number_round : IsStored stored_number
number_round v = refl

numbers_round : IsStored stored_numbers
numbers_round v = refl

bool_discrete : Discrete Bool
bool_discrete = hlevel

-- A reducer that adds.
abbrev adder : ℕ → ℕ → ℕ
adder a b = a + b

start_reads_none : value_get stored_number (int_bytes 8) unit_bytes start (handle adder) ≡ ok none
unfolding value_get get bytes_discrete ℕ_discrete
start_reads_none = rw ((start-IsOpen adder).serialized) refl

-- An aggregator that sums and doubles at the end.
abbrev summing : Aggregator ℕ ℕ ℕ
summing = record {
  create_accumulator = 0;
  add = λ acc v. acc + v;
  merge_accumulators = λ fst snd. ok (fst + snd);
  accumulator_into_result = λ acc. acc + acc;
}

start-cell-none : typed_option stored_number (cell start (7 ∷ []) key) ≡ ok none
unfolding cell get bytes_discrete ℕ_discrete
start-cell-none = refl

start_vec_empty : vec_get stored_numbers (int_bytes 8) unit_bytes start (handle tt) ≡ ok []
unfolding vec_get get bytes_discrete ℕ_discrete
start_vec_empty = rw ((start-IsOpen tt).serialized) refl

map_get-map_insert_example :
    map_get stored_number bool_message
      (int_bytes 8)
      unit_bytes
      (map_insert stored_number bool_message (int_bytes 8) unit_bytes (handle tt) true 5 filled).1
      (handle tt)
      false
    ≡ ite
        (bool_discrete true false)
        (ok (some 5))
        (map_get stored_number bool_message (int_bytes 8) unit_bytes filled (handle tt) false)
map_get-map_insert_example =
    map_get-map_insert stored_number number_round bool_message bool_message-IsMessage (int_bytes 8)
      unit_bytes (handle tt) key keyed_start bool_discrete filled filled-IsOpen true false 5
