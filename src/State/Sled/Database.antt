-- ===== src/State/Sled/Database.antt =====
-- execution-plane/arcon/arcon_state/src/sled/mod.rs: the backend over sled. The database is the crate
-- sled, a parameter: the record `Trees` of its calls, which are taken to succeed; `open_tree` makes a tree
-- that is missing. A call that fails late may have changed the database, so each returns it.
use arcon.Common.{
  Bool, true, false, Option, none, List, [], ◌∷◌, Res, ok, err, panic, out_of_fuel, ◌>>=◌,
}
use arcon.Common.Assoc.{is_some}
use arcon.State.Serialization.{Bytes}
use arcon.State.Sled.{ExportedTree, dump_export, parse_dumped_sled_export}

-- The calls of `Db` and `Tree`, each on the tree of a name. Inserting and removing return what stood
-- there. An entry of a batch puts a value or removes one.
pub record Trees (D : Type 0) : Type 0 where
  pub open_empty : D
  pub get : Bytes → Bytes → D → Option Bytes
  pub insert : Bytes → Bytes → Bytes → D → Option Bytes × D
  pub remove : Bytes → Bytes → D → Option Bytes × D
  pub scan_prefix : Bytes → Bytes → D → List (Bytes × Bytes)
  pub apply_batch : Bytes → List (Bytes × Option Bytes) → D → D
  pub merge : Bytes → Bytes → Bytes → D → D
  pub export_trees : D → List ExportedTree
  pub import_trees : List ExportedTree → D → D

pub record Sled (D : Type 0) : Type 0 where
  pub db : D
  pub restored : Bool

-- A call and the backend after it; a step that fails before leaves the backend alone.
abbrev pub Call : Type 0 → Type 0 → Type 0
Call D A = Res A × Sled D

abbrev pub after : {D A B : Type 0} → Res A → Sled D → (A → Call D B) → Call D B
after (ok a) s f = f a
after (err e) s f = (err e, s)
after panic s f = (panic, s)
after out_of_fuel s f = (out_of_fuel, s)

module _ {D : Type 0} (trees : Trees D) where
  abbrev pub sled_get : Bytes → Bytes → Sled D → Option Bytes
  sled_get tree key s = trees.get tree key s.db

  abbrev pub put : Bytes → Bytes → Bytes → Sled D → Option Bytes × Sled D
  put tree key value s = let r = trees.insert tree key value s.db in (r.0, record s { db = r.1 })

  abbrev pub sled_remove : Bytes → Bytes → Sled D → Option Bytes × Sled D
  sled_remove tree key s = let r = trees.remove tree key s.db in (r.0, record s { db = r.1 })

  -- A batch that removes the keys of these entries.
  abbrev pub removals : List (Bytes × Bytes) → List (Bytes × Option Bytes)
  removals [] = []
  removals ((key, value) ∷ entries) = (key, none) ∷ removals entries

  unfoldable pub remove_prefix : Bytes → Bytes → Sled D → Sled D
  remove_prefix tree prefix s = record s {
    db = trees.apply_batch tree (removals (trees.scan_prefix tree prefix s.db)) s.db;
  }

  abbrev pub sled_contains : Bytes → Bytes → Sled D → Bool
  sled_contains tree key s = is_some (trees.get tree key s.db)

  abbrev pub create : Sled D
  create = record { db = trees.open_empty; restored = false }

  -- With the feature `sled_checkpoints`: the file, and the backend that is read from it.
  unfoldable pub checkpoint : Sled D → Bytes
  unfolding dump_export
  checkpoint s = dump_export (trees.export_trees s.db)

  unfoldable pub restore : Bytes → Res (Sled D)
  unfolding parse_dumped_sled_export
  restore file = do
    import_data ← parse_dumped_sled_export file
    ok (record { db = trees.import_trees import_data trees.open_empty; restored = true })
