-- ===== src/State/Sled/Examples.antt =====
-- A small export, and instances of the theorems on the backend over sled.
use arcon.Common.{
  ℕ, ◌≡◌, ◌≢◌, refl, ap, ◌∙◌, true, false, Option, none, some, List, [], ◌∷◌, arith, ok, ite,
  if◌then◌else◌,
}
use mathlib.Core.Path.{ap₂}
use arcon.Common.Assoc.{get, insert, remove, get-insert_self, get-insert_ne, get-insert, get-remove}
use arcon.State.Serialization.{Bytes, int_bytes, unit_bytes, to_le_bytes, int_serialize_into}
use arcon.State.Handle.{
  Handle, no_extra, with_item_key, serialize_metakeys, serialize_metakeys_into,
}
use arcon.State.InMemory.{bytes_discrete}
use arcon.State.Rocks.Ranges.{starts_with}
use arcon.State.Sled.{ExportedTree}
use arcon.State.Sled.Database.{Trees, Sled, sled_get, checkpoint, restore}
use arcon.State.Sled.Maps.{map_clear}
use arcon.State.Sled.MapLaws.{batched, IsTrees, map_clear-removes, restore-checkpoint}

-- A database of tables by name.
abbrev Table : Type 0
Table = List (Bytes × Bytes)

abbrev Tables : Type 0
Tables = List (Bytes × Table)

abbrev or_empty : Option Table → Table
or_empty none = []
or_empty (some t) = t

abbrev table_of : Bytes → Tables → Table
table_of tree d = or_empty (get bytes_discrete tree d)

abbrev changed : Bytes → Option Bytes → Table → Table
changed key none t = remove bytes_discrete key t
changed key (some v) t = insert bytes_discrete key v t

abbrev apply : List (Bytes × Option Bytes) → Table → Table
apply [] t = t
apply ((key, change) ∷ ops) t = apply ops (changed key change t)

abbrev entries : Bytes → Table → Table
entries p [] = []
entries p ((k, v) ∷ t) = let rest = entries p t in if starts_with p k then (k, v) ∷ rest else rest

abbrev rows_of : Table → List (List Bytes)
rows_of [] = []
rows_of ((k, v) ∷ t) = (k ∷ v ∷ []) ∷ rows_of t

abbrev table_from : List (List Bytes) → Table
table_from [] = []
table_from ((k ∷ v ∷ []) ∷ rows) = (k, v) ∷ table_from rows
table_from (row ∷ rows) = table_from rows

abbrev exported : Tables → List ExportedTree
exported [] = []
exported ((name, t) ∷ d) = (1 ∷ [], name, rows_of t) ∷ exported d

abbrev imported : List ExportedTree → Tables → Tables
imported [] d = d
imported ((typ, name, rows) ∷ ts) d = (name, table_from rows) ∷ imported ts d

abbrev tables : Trees Tables
tables = record {
  open_empty = [];
  get = λ tree key d. get bytes_discrete key (table_of tree d);
  insert = λ tree key v d. (
    get bytes_discrete key (table_of tree d),
    insert bytes_discrete tree (changed key (some v) (table_of tree d)) d,
  );
  remove = λ tree key d. (
    get bytes_discrete key (table_of tree d),
    insert bytes_discrete tree (changed key none (table_of tree d)) d,
  );
  scan_prefix = λ tree p d. entries p (table_of tree d);
  apply_batch = λ tree ops d. insert bytes_discrete tree (apply ops (table_of tree d)) d;
  merge = λ tree key x d. insert bytes_discrete tree (changed key (some x) (table_of tree d)) d;
  export_trees = exported;
  import_trees = imported;
}

get-changed :
    (k key : Bytes) (change : Option Bytes) (t : Table)
    → get bytes_discrete key (changed k change t)
      ≡ ite (bytes_discrete k key) change (get bytes_discrete key t)
get-changed k key none t = get-remove bytes_discrete k key t
get-changed k key (some v) t = get-insert bytes_discrete k key v t

get-apply :
    (key : Bytes) (ops : List (Bytes × Option Bytes)) (t : Table)
    → get bytes_discrete key (apply ops t) ≡ batched key ops (get bytes_discrete key t)
unfolding batched
get-apply key [] t = refl
get-apply key ((k, change) ∷ ops) t =
    get-apply key ops (changed k change t) ∙ ap (batched key ops) (get-changed k key change t)

get-entries :
    (p key : Bytes) (t : Table)
    → get bytes_discrete key (entries p t)
      ≡ (if starts_with p key then get bytes_discrete key t else none)
unfolding get
get-entries p key [] = ground arith
get-entries p key ((k, v) ∷ t) = ground (arith, get-entries p key t)

table_from-rows_of : (t : Table) → table_from (rows_of t) ≡ t
table_from-rows_of [] = refl
table_from-rows_of ((k, v) ∷ t) = ap (λ u. (k, v) ∷ u) (table_from-rows_of t)

imported-exported : (d : Tables) → imported (exported d) [] ≡ d
imported-exported [] = refl
imported-exported ((name, t) ∷ d) =
    ap₂ (λ u e. (name, u) ∷ e) (table_from-rows_of t) (imported-exported d)

tables-IsTrees : IsTrees tables
tables-IsTrees = record {
  get-apply_batch = λ tree key ops d.
      rw (get-insert_self bytes_discrete tree (apply ops (table_of tree d)) d)
        (get-apply key ops (table_of tree d));
  get-apply_batch_other = λ tree other key ops d n.
      ap (λ o. get bytes_discrete key (or_empty o))
        (get-insert_ne bytes_discrete tree other (apply ops (table_of tree d)) d n);
  get-scan_prefix = λ tree p key d. get-entries p key (table_of tree d);
  get-import_trees =
      λ tree key d. ap (λ e. get bytes_discrete key (table_of tree e)) (imported-exported d);
}

-- The map state "m" under an item key of one byte, with entries of the key 255 and of the key 7, and a
-- tree of another name.
abbrev item : ℕ → Handle (Unit {0}) ℕ (Unit {0})
item k = with_item_key k (no_extra (109 ∷ []))

abbrev filled : Sled Tables
filled = record {
  db =
      (109 ∷ [], (255 ∷ 1 ∷ [], 5 ∷ []) ∷ (7 ∷ 1 ∷ [], 6 ∷ []) ∷ [])
      ∷ (110 ∷ [], (255 ∷ 1 ∷ [], 8 ∷ []) ∷ [])
      ∷ [];
  restored = false;
}

item_key : serialize_metakeys (int_bytes 1) unit_bytes (item 255) ≡ ok (255 ∷ [])
unfolding serialize_metakeys serialize_metakeys_into int_bytes int_serialize_into to_le_bytes
    with_item_key no_extra
item_key = refl

map_clear-removes_example :
    ((map_clear tables (int_bytes 1) unit_bytes (item 255) filled).0 ≡ ok tt)
    × ((key : Bytes)
        → sled_get tables
            (item 255).id
            key
            (map_clear tables (int_bytes 1) unit_bytes (item 255) filled).1
          ≡ (if starts_with (255 ∷ []) key then none else sled_get tables (item 255).id key filled))
    × ((other key : Bytes)
        → (item 255).id ≢ other
        → sled_get tables other key (map_clear tables (int_bytes 1) unit_bytes (item 255) filled).1
          ≡ sled_get tables other key filled)
map_clear-removes_example =
    map_clear-removes tables (int_bytes 1) unit_bytes (item 255) (255 ∷ []) filled tables-IsTrees
      item_key

restore-checkpoint_example :
    (s' : Sled Tables) × (restore tables (checkpoint tables filled) ≡ ok s')
    × (s'.restored ≡ true)
    × ((tree key : Bytes) → sled_get tables tree key s' ≡ sled_get tables tree key filled)
restore-checkpoint_example = restore-checkpoint tables filled tables-IsTrees (omega arith) (
  (
    omega arith,
    omega arith,
    omega arith,
    (
      (omega arith, (omega arith, (omega arith, tt))),
      ((omega arith, (omega arith, (omega arith, tt))), tt),
    ),
  ),
  (
    (omega arith, omega arith, omega arith, ((omega arith, (omega arith, (omega arith, tt))), tt)),
    tt,
  ),
)
