-- ===== src/State/Rocks/Examples.antt =====
-- A database of one column family as an association list, and instances of the theorems on the backend.
use arcon.Common.{
  ℕ, ◌<◌, ◌≡◌, refl, Bool, true, false, not, none, some, List, [], ◌∷◌, ◌++◌, arith, ok, err, Error,
  length, ◌==◌, if◌then◌else◌, inl, inr, Option-cases,
}
use arcon.Common.Assoc.{get, insert, remove, get-insert_self, get-remove_self}
use arcon.State.Serialization.{
  Bytes, put_slice, int_bytes, unit_bytes, bool_byte, to_le_bytes, from_le_bytes,
  int_deserialize_from, int_serialize_into,
}
use arcon.State.Handle.{
  Handle, Message, no_extra, with_item_key, serialize_metakeys, serialize_metakeys_into,
}
use arcon.State.Handle.Laws.{IsMessage}
use arcon.State.InMemory.{bytes_discrete}
use arcon.State.Rocks.{Merge, Database, InitializedRocksDb, initialized, Rocks, default_options}
use arcon.State.Rocks.Vecs.{vec_append, vec_get}
use arcon.State.Rocks.Maps.{map_clear}
use arcon.State.Rocks.Merging.{vec_merge, vec_merge_from, vec_merge-vec_merge}
use arcon.State.Rocks.Ranges.{in_range, starts_with}
use arcon.State.Rocks.Laws.{IsDatabase, IsMerging, IsOpen, Cleared, map_clear-Cleared}
use arcon.State.Rocks.VecLaws.{HoldsVec, vec_append-HoldsVec}
use arcon.State.InMemory.Values.{Aggregator}
use arcon.State.Handle.{with_extra}
use arcon.State.Rocks.Values.{deserialize}
use arcon.State.Rocks.Aggregators.{
  aggregator_merge, merge_all, merge_slices, first_accumulator, aggregator_get,
  aggregator_aggregate,
}
use arcon.State.Rocks.AggregatorLaws.{
  aggregator_merge-aggregator_merge, HoldsAcc, Agrees, aggregator_aggregate-HoldsAcc,
}
use arcon.State.Rocks.Sums.{
  octet, octet-IsMessage, summing, sum_merge, sum_merge_lem, sum_merge-IsAssociative,
}

abbrev Table : Type 0
Table = List (Bytes × Bytes)

abbrev delete_range : Bytes → Bytes → Table → Table
delete_range s e [] = []
delete_range s e ((k, v) ∷ t) =
    let rest = delete_range s e t in if in_range s e k then rest else (k, v) ∷ rest

abbrev merged : Merge → Bytes → Bytes → Table → Table
merged merge key x t = elim (merge (get bytes_discrete key t) (x ∷ [])) [
  | none ↦ remove bytes_discrete key t
  | some v ↦ insert bytes_discrete key v t
]

abbrev entries : Bytes → Table → Table
entries p [] = []
entries p ((k, v) ∷ t) = let rest = entries p t in if starts_with p k then (k, v) ∷ rest else rest

abbrev tables_with : Merge → Database Table
tables_with merge = record {
  open_cfs = λ cfs. [];
  has_cf = λ cf t. true;
  create_cf = λ cf opts t. [];
  drop_cf = λ cf t. [];
  get_cf = λ cf key t. get bytes_discrete key t;
  put_cf = λ cf key value t. insert bytes_discrete key value t;
  delete_cf = λ cf key t. remove bytes_discrete key t;
  delete_range_cf = λ cf s e t. ok (delete_range s e t);
  merge_cf = λ cf key x t. merged merge key x t;
  prefix_iterator_cf = λ cf p t. entries p t;
}

abbrev tables : Database Table
tables = tables_with vec_merge

get-delete_range :
    (s e key : Bytes) (t : Table)
    → get bytes_discrete key (delete_range s e t)
      ≡ (if in_range s e key then none else get bytes_discrete key t)
unfolding get
get-delete_range s e key [] = ground arith
get-delete_range s e key ((k, v) ∷ t) = ground (arith, get-delete_range s e key t)

tables-IsDatabase : IsDatabase tables
tables-IsDatabase = record {
  deletes_range = λ cf s e d up present. record {
    after = delete_range s e d;
    succeeds = refl;
    has = λ c. refl;
    gets = λ key. get-delete_range s e key d;
  };
}

get-merged :
    (merge : Merge) (key x : Bytes) (t : Table)
    → get bytes_discrete key (merged merge key x t) ≡ merge (get bytes_discrete key t) (x ∷ [])
get-merged merge key x t = elim (Option-cases (merge (get bytes_discrete key t) (x ∷ []))) [
  | inl e ↦ rw (e, merged) (get-remove_self bytes_discrete key t)
  | inr (v, e) ↦ rw (e, merged) (get-insert_self bytes_discrete key v t)
]

tables-IsMerging : (merge : Merge) (cf : Bytes) → IsMerging (tables_with merge) cf merge
tables-IsMerging merge cf = record {
  has-merge = λ c key x t. refl;
  get-merge = λ assoc key x t. get-merged merge key x t;
}

-- A message of one byte.
abbrev flag : Message Bool
flag = record {
  serialize_into = λ t b. ok (put_slice t (bool_byte b ∷ []));
  deserialize_from =
      λ bytes. elim bytes [ [] ↦ err Error.protobuf_decode | x ∷ rest ↦ ok (not (x == 0), rest) ];
}

flag-IsMessage : IsMessage flag (λ b. bool_byte b ∷ [])
flag-IsMessage = record {
  writes = λ t b h. refl;
  reads = λ b rest.
      elim b as (λ b. flag.deserialize_from ((bool_byte b ∷ []) ++ rest) ≡ ok (b, rest)) [
        | true ↦ refl
        | false ↦ refl
      ];
}

-- The first field of `u8` item keys is their only byte.
abbrev item : ℕ → Handle (Unit {0}) ℕ (Unit {0})
item k = with_item_key k (no_extra (109 ∷ []))

abbrev table_of_two : InitializedRocksDb Table
table_of_two = record {
  db = (7 ∷ 1 ∷ [], 5 ∷ []) ∷ (255 ∷ 1 ∷ [], 6 ∷ []) ∷ [];
  options = (109 ∷ [], default_options) ∷ [];
}

abbrev backend : Rocks Table
backend = record { inner = initialized table_of_two; restored = false }

backend-IsOpen :
    (merge : Merge) (k : ℕ) → IsOpen (tables_with merge) (item k).id table_of_two backend
backend-IsOpen merge k = record { ready = refl; has = refl }

map_clear-Cleared_example :
    Cleared tables
      (item 7).id
      (λ key.
        if starts_with (7 ∷ []) key then none else tables.get_cf (item 7).id key table_of_two.db)
      (map_clear tables (int_bytes 1) unit_bytes (item 7) backend)
unfolding serialize_metakeys serialize_metakeys_into int_bytes int_serialize_into to_le_bytes
    with_item_key no_extra
map_clear-Cleared_example =
    map_clear-Cleared tables (int_bytes 1) unit_bytes (item 7) (7 ∷ []) table_of_two backend
      tables-IsDatabase (backend-IsOpen vec_merge 7) refl (omega arith)

abbrev operand : ℕ → Bytes
operand v = 1 ∷ 0 ∷ 0 ∷ 0 ∷ 0 ∷ 0 ∷ 0 ∷ 0 ∷ v ∷ []

vec_merge-vec_merge_example :
    vec_merge none (operand 4 ∷ (2 ∷ 0 ∷ 0 ∷ 0 ∷ 0 ∷ 0 ∷ 0 ∷ 0 ∷ 5 ∷ 6 ∷ []) ∷ [])
    ≡ vec_merge none (operand 4 ∷ operand 5 ∷ operand 6 ∷ [])
unfolding vec_merge vec_merge_from int_deserialize_from to_le_bytes from_le_bytes
vec_merge-vec_merge_example =
    vec_merge-vec_merge (operand 4 ∷ []) (operand 5 ∷ operand 6 ∷ []) []
      (2 ∷ 0 ∷ 0 ∷ 0 ∷ 0 ∷ 0 ∷ 0 ∷ 0 ∷ 5 ∷ 6 ∷ []) refl

nine_key : serialize_metakeys (int_bytes 1) unit_bytes (item 9) ≡ ok (9 ∷ [])
unfolding serialize_metakeys serialize_metakeys_into int_bytes int_serialize_into to_le_bytes
    with_item_key no_extra
nine_key = refl

abbrev flag_encode : Bool → Bytes
flag_encode b = bool_byte b ∷ []

flag_filled : (b : Bool) → 0 < length (flag_encode b)
flag_filled b = omega arith

fresh-HoldsVec :
    HoldsVec flag flag_encode flag-IsMessage flag_filled tables
      (int_bytes 1)
      unit_bytes
      (item 9)
      (9 ∷ [])
      nine_key
      []
      backend
unfolding get bytes_discrete
fresh-HoldsVec = record {
  inside = table_of_two;
  open_db = backend-IsOpen vec_merge 9;
  stores = inr (refl, refl);
}

vec_append-HoldsVec_example :
    (r' : Rocks Table) × (vec_append tables flag (int_bytes 1) unit_bytes (item 9) true backend
      ≡ ok r')
    × HoldsVec flag flag_encode flag-IsMessage flag_filled tables
        (int_bytes 1)
        unit_bytes
        (item 9)
        (9 ∷ [])
        nine_key
        (true ∷ [])
        r'
    × (vec_get tables flag (int_bytes 1) unit_bytes (item 9) r' ≡ ok (true ∷ []))
vec_append-HoldsVec_example =
    vec_append-HoldsVec flag flag_encode flag-IsMessage flag_filled tables (int_bytes 1) unit_bytes
      (item 9) (9 ∷ []) nine_key [] true backend (tables-IsMerging vec_merge (item 9).id)
      fresh-HoldsVec (omega arith) (omega arith)

-- A message that is its only byte.
aggregator_merge-aggregator_merge_example :
    aggregator_merge octet octet summing (some (172 ∷ 3 ∷ [])) ((0 ∷ 1 ∷ []) ∷ (172 ∷ 9 ∷ []) ∷ [])
    ≡ aggregator_merge octet octet summing
        (some (172 ∷ 3 ∷ []))
        ((0 ∷ 1 ∷ []) ∷ (0 ∷ 4 ∷ []) ∷ (0 ∷ 5 ∷ []) ∷ [])
unfolding aggregator_merge merge_all merge_slices first_accumulator deserialize
aggregator_merge-aggregator_merge_example =
    aggregator_merge-aggregator_merge octet octet (λ n. n ∷ []) (λ n. n ∷ []) octet-IsMessage
      octet-IsMessage summing 3 (1 ∷ []) (4 ∷ 5 ∷ []) [] (172 ∷ 9 ∷ []) refl (omega arith) refl

abbrev sums : Handle (Aggregator ℕ ℕ ℕ) ℕ (Unit {0})
sums = with_item_key 7 (with_extra (109 ∷ []) summing)

sums_key : serialize_metakeys (int_bytes 1) unit_bytes sums ≡ ok (7 ∷ [])
unfolding serialize_metakeys serialize_metakeys_into int_bytes int_serialize_into to_le_bytes
    with_item_key with_extra
sums_key = refl

sums-IsOpen : IsOpen (tables_with sum_merge) sums.id table_of_two backend
unfolding with_extra with_item_key
sums-IsOpen = record { ready = refl; has = refl }

fresh-HoldsAcc :
    HoldsAcc octet octet
      (λ n. n ∷ [])
      (λ n. n ∷ [])
      octet-IsMessage
      octet-IsMessage
      (tables_with sum_merge)
      (int_bytes 1)
      unit_bytes
      sums
      (7 ∷ [])
      sums_key
      0
      backend
unfolding get bytes_discrete with_extra with_item_key
fresh-HoldsAcc = record { inside = table_of_two; open_db = sums-IsOpen; stores = inr (refl, refl) }

sum_merge-Agrees :
    Agrees octet octet
      (λ n. n ∷ [])
      (λ n. n ∷ [])
      octet-IsMessage
      octet-IsMessage
      (tables_with sum_merge)
      (int_bytes 1)
      unit_bytes
      sums
      (7 ∷ [])
      sums_key
      sum_merge
unfolding with_extra with_item_key
sum_merge-Agrees first rest = sum_merge_lem first rest

aggregator_aggregate-HoldsAcc_example :
    (r' : Rocks Table) × (aggregator_aggregate octet octet
        (tables_with sum_merge)
        (int_bytes 1)
        unit_bytes
        sums
        5
        backend
      ≡ ok r')
    × HoldsAcc octet octet
        (λ n. n ∷ [])
        (λ n. n ∷ [])
        octet-IsMessage
        octet-IsMessage
        (tables_with sum_merge)
        (int_bytes 1)
        unit_bytes
        sums
        (7 ∷ [])
        sums_key
        5
        r'
    × (aggregator_get octet octet (tables_with sum_merge) (int_bytes 1) unit_bytes sums r' ≡ ok 5)
unfolding with_extra with_item_key
aggregator_aggregate-HoldsAcc_example =
    aggregator_aggregate-HoldsAcc octet octet (λ n. n ∷ []) (λ n. n ∷ []) octet-IsMessage
      octet-IsMessage (tables_with sum_merge) (int_bytes 1) unit_bytes sums (7 ∷ []) sums_key 0 5
      backend sum_merge sum_merge-Agrees sum_merge-IsAssociative
      (tables-IsMerging sum_merge sums.id) fresh-HoldsAcc (omega arith) (omega arith)
