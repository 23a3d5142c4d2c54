-- ===== src/State/Rocks.antt =====
-- execution-plane/arcon/arcon_state/src/rocks/mod.rs: the state backend over RocksDB. The database is
-- the crate rocksdb, a parameter: the record `Database` of its calls, which are taken to succeed, but for the deletion of a range. Its
-- options are the length of the prefixes and the merge operator. What `create`, `restore` and
-- `checkpoint` do to files is left out. A call that fails has changed nothing, so the result carries
-- the new state only where it succeeds. The release profile wraps, as it does in `end`.
pub mod Values
pub mod Vecs
pub mod Maps
pub mod Merging
pub mod Aggregators
pub mod AggregatorLaws
pub mod Ranges
pub mod Laws
pub mod VecLaws
mod Sums
mod Examples
use arcon.Common.{
  ℕ, ◌+◌, ◌%◌, Bool, true, false, not, Option, none, some, List, [], ◌∷◌, ◌++◌, Res, ok, err, panic,
  ◌>>=◌, ◌>>◌, Error, ok_or, if◌then◌else◌, length, ◌==◌,
}
use arcon.Common.Assoc.{get, insert, remove, is_some}
use arcon.State.Serialization.{Bytes, FixedBytes}
use arcon.State.Handle.{metakey_size}
use arcon.State.InMemory.{bytes_discrete}

-- What a merge operator is given: the value before, if any, and the operands, oldest first.
abbrev pub Merge : Type 0
Merge = Option Bytes → List Bytes → Option Bytes

pub record Options : Type 0 where
  pub prefix_size : ℕ
  pub merge : Option Merge

abbrev pub default_options : Options
default_options = record { prefix_size = 0; merge = none }

-- The calls of `DB`, each on the column family of a name.
pub record Database (D : Type 0) : Type 0 where
  pub open_cfs : List (Bytes × Options) → D
  pub has_cf : Bytes → D → Bool
  pub create_cf : Bytes → Options → D → D
  pub drop_cf : Bytes → D → D
  pub get_cf : Bytes → Bytes → D → Option Bytes
  pub put_cf : Bytes → Bytes → Bytes → D → D
  pub delete_cf : Bytes → Bytes → D → D
  pub delete_range_cf : Bytes → Bytes → Bytes → D → Res D
  pub merge_cf : Bytes → Bytes → Bytes → D → D
  pub prefix_iterator_cf : Bytes → Bytes → D → List (Bytes × Bytes)

pub record InitializedRocksDb (D : Type 0) : Type 0 where
  pub db : D
  pub options : List (Bytes × Options)

-- `Uninitialized` has the column families that a restored database has but whose options are not
-- known yet, and those whose options are. A set is a map to the unit.
pub data Inner (D : Type 0) : Type 0 where
  initialized : InitializedRocksDb D → Inner D
  uninitialized : List (Bytes × Unit {0}) → List (Bytes × Options) → Inner D

pub record Rocks (D : Type 0) : Type 0 where
  pub inner : Inner D
  pub restored : Bool

abbrev pub was_restored : {D : Type 0} → Rocks D → Bool
was_restored r = r.restored

-- `*end.last_mut() += 1` on a `u8`.
unfoldable pub range_end : Bytes → Bytes
range_end [] = []
range_end (b ∷ []) = ((b + 1) % 256) ∷ []
range_end (b ∷ c ∷ bs) = b ∷ range_end (c ∷ bs)

module _ {D : Type 0} (rocks : Database D) where
  abbrev pub set_db : D → InitializedRocksDb D → InitializedRocksDb D
  set_db d i = record i { db = d }

  -- `get_cf_handle`, which fails on a missing column family.
  unfoldable pub get_cf_handle : Bytes → InitializedRocksDb D → Res (Unit {0})
  get_cf_handle cf i = if rocks.has_cf cf i.db then ok tt else err Error.missing_column_family

  unfoldable pub db_get : Bytes → Bytes → InitializedRocksDb D → Res (Option Bytes)
  unfolding get_cf_handle
  db_get cf key i = do get_cf_handle cf i; ok (rocks.get_cf cf key i.db)

  unfoldable pub db_put : Bytes → Bytes → Bytes → InitializedRocksDb D → Res (InitializedRocksDb D)
  unfolding get_cf_handle
  db_put cf key value i = do get_cf_handle cf i; ok (set_db (rocks.put_cf cf key value i.db) i)

  unfoldable pub db_remove : Bytes → Bytes → InitializedRocksDb D → Res (InitializedRocksDb D)
  unfolding get_cf_handle
  db_remove cf key i = do get_cf_handle cf i; ok (set_db (rocks.delete_cf cf key i.db) i)

  -- An empty prefix drops the column family and creates it anew.
  unfoldable pub db_remove_prefix :
      Bytes → Bytes → InitializedRocksDb D → Res (InitializedRocksDb D)
  unfolding get_cf_handle range_end
  db_remove_prefix cf [] i = do
    cf_opts ← ok_or (get bytes_discrete cf i.options) Error.missing_options
    ok (set_db (rocks.create_cf cf cf_opts (rocks.drop_cf cf i.db)) i)
  db_remove_prefix cf (b ∷ bs) i = do
    get_cf_handle cf i
    d ← rocks.delete_range_cf cf (b ∷ bs) (range_end (b ∷ bs)) i.db
    ok (set_db d i)

  unfoldable pub db_contains : Bytes → Bytes → InitializedRocksDb D → Res Bool
  unfolding get_cf_handle
  db_contains cf key i = do get_cf_handle cf i; ok (is_some (rocks.get_cf cf key i.db))

  unfoldable pub db_merge :
      Bytes → Bytes → Bytes → InitializedRocksDb D → Res (InitializedRocksDb D)
  unfolding get_cf_handle
  db_merge cf key operand i = do
    get_cf_handle cf i
    ok (set_db (rocks.merge_cf cf key operand i.db) i)

  unfoldable pub create_column_family_if_doesnt_exist :
      Bytes → Options → InitializedRocksDb D → InitializedRocksDb D
  create_column_family_if_doesnt_exist cf opts i = if rocks.has_cf cf i.db then i else record i {
    db = rocks.create_cf cf opts i.db;
    options = insert bytes_discrete cf opts i.options;
  }

  -- `initialized` and `initialized_mut`.
  unfoldable pub when_initialized : {A : Type 0} → Rocks D → (InitializedRocksDb D → Res A) → Res A
  when_initialized r f = elim r.inner [
    | initialized i ↦ f i
    | uninitialized unknown known ↦ err Error.rocks_uninitialized
  ]

  -- A call that changes the database.
  abbrev pub update : Rocks D → (InitializedRocksDb D → Res (InitializedRocksDb D)) → Res (Rocks D)
  update r f = when_initialized r λ i. (f i >>= λ i'. ok (record r { inner = initialized i' }))

  unfoldable pub is_initialized : Rocks D → Bool
  is_initialized r = elim r.inner [ initialized i ↦ true | uninitialized unknown known ↦ false ]

  -- `initialize`, once no column family is unknown.
  unfoldable pub initialize : Rocks D → Res (Rocks D)
  initialize r = elim r.inner [
    | initialized i ↦ panic
    | uninitialized unknown known ↦
        if length unknown == 0
        then ok (record r {
          inner = initialized (record { db = rocks.open_cfs known; options = known });
        })
        else panic
  ]

  unfoldable pub create_column_family : Bytes → Options → Rocks D → Res (Rocks D)
  unfolding create_column_family_if_doesnt_exist initialize
  create_column_family cf opts r = elim r.inner [
    | initialized i ↦
        ok (record r { inner = initialized (create_column_family_if_doesnt_exist cf opts i) })
    | uninitialized unknown known ↦
        if is_some (get bytes_discrete cf known)
        then ok r
        else (let left = remove bytes_discrete cf unknown in
            let r' : Rocks D = record r {
              inner = uninitialized left (insert bytes_discrete cf opts known);
            } in
            if length left == 0 then initialize r' else ok r')
  ]

unfoldable pub common_options : {IK N : Type 0} → FixedBytes IK → FixedBytes N → Options
unfolding metakey_size
common_options ik ns = record { prefix_size = metakey_size ik ns; merge = none }
