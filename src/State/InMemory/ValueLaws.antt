-- ===== src/State/InMemory/ValueLaws.antt =====
-- The states of one value per key against the cells: value, reducer and aggregator states.
use arcon.Common.{◌≡◌, refl, Option, none, some, List, [], ◌∷◌, ok, foldl}
use arcon.Common.Assoc.{get, insert, get-insert_self}
use arcon.State.Serialization.{Bytes, FixedBytes}
use arcon.State.Handle.{Handle, serialize_metakeys}
use arcon.State.InMemory.{bytes_discrete, Stored, IsStored, Table, InMemory, get_table, get_mut}
use arcon.State.InMemory.Values.{
  typed_option, value_clear, value_get, value_set, value_fast_set, reducer_reduce, Aggregator,
  aggregator_get, aggregator_aggregate, reduced, accumulated,
}
use arcon.State.InMemory.Cells.{cell, update, cell-insert, cell-remove, update_self}

-- A handle that is registered, and the key under which it reads and writes.
pub record IsOpen {Any X IK N : Type 0} (ik : FixedBytes IK) (ns : FixedBytes N) (h : Handle X IK N)
    (s : InMemory Any) (key : Bytes) : Type 0 where
  pub table : Table Any
  pub registered : get bytes_discrete h.id s.data_map ≡ some table
  pub serialized : serialize_metakeys ik ns h ≡ ok key

-- A handle stays open when its table is replaced.
pub write-IsOpen :
    {Any X IK N : Type 0} (ik : FixedBytes IK) (ns : FixedBytes N) (h : Handle X IK N)
    (s : InMemory Any) (key : Bytes) (t : Table Any)
    → IsOpen ik ns h s key
    → IsOpen ik ns h (record { data_map = insert bytes_discrete h.id t s.data_map }) key
write-IsOpen ik ns h s key t o = record {
  table = t;
  registered = get-insert_self bytes_discrete h.id t s.data_map;
  serialized = o.serialized;
}

-- Reading the cell of an open handle is reading its table.
pub cell_open :
    {Any X IK N : Type 0} (ik : FixedBytes IK) (ns : FixedBytes N) (h : Handle X IK N)
    (s : InMemory Any) (key : Bytes) (o : IsOpen ik ns h s key)
    → cell s h.id key ≡ get bytes_discrete key o.table
unfolding cell
cell_open ik ns h s key o = rw o.registered

module _ {Any T X IK N : Type 0} (st : Stored Any T) (ik : FixedBytes IK) (ns : FixedBytes N)
    (h : Handle X IK N) (s : InMemory Any) (key : Bytes) (o : IsOpen ik ns h s key) where
  -- A read looks at one cell.
  pub value_get_lem : value_get st ik ns s h ≡ typed_option st (cell s h.id key)
  unfolding value_get cell
  value_get_lem = rw (o.registered, get_table) (rw o.serialized refl)

  -- `value_set` returns what `value_get` would have returned, an error of the type included, and
  -- changes the cell of the handle to the new value and no other cell. The handle is registered and
  -- serialises its keys.
  pub value_set_lem :
      (v : T)
      → ((value_set st ik ns h v s).0 ≡ value_get st ik ns s h)
        × (cell (value_set st ik ns h v s).1 ≡ update (cell s) h.id key (some (st.box v)))
  unfolding value_set value_get
  value_set_lem v =
      rw o.serialized
        (rw (o.registered, get_mut) (refl, cell-insert s h.id key (st.box v) o.table o.registered))

  pub value_fast_set_lem :
      (v : T)
      → ((value_fast_set st ik ns h v s).0 ≡ ok tt)
        × (cell (value_fast_set st ik ns h v s).1 ≡ update (cell s) h.id key (some (st.box v)))
  unfolding value_fast_set
  value_fast_set_lem v =
      rw o.serialized
        (rw (o.registered, get_mut) (refl, cell-insert s h.id key (st.box v) o.table o.registered))

  pub value_clear_lem :
      ((value_clear st ik ns h s).0 ≡ ok tt)
      × (cell (value_clear st ik ns h s).1 ≡ update (cell s) h.id key none)
  unfolding value_clear
  value_clear_lem =
      rw o.serialized
        (rw (o.registered, get_mut) (refl, cell-remove s h.id key o.table o.registered))

module _ {Any T IK N : Type 0} (st : Stored Any T) (ik : FixedBytes IK) (ns : FixedBytes N)
    (h : Handle (T → T → T) IK N) (s : InMemory Any) (key : Bytes) (o : IsOpen ik ns h s key) where
  -- `reducer_reduce` combines the old value, if there is one, with the new by the handle's function,
  -- and changes no other cell. The handle is registered and serialises its keys, and the old value is
  -- of the right type.
  pub reducer_reduce_lem :
      (old : Option T) (v : T)
      → value_get st ik ns s h ≡ ok old
      → ((reducer_reduce st ik ns h v s).0 ≡ ok tt)
        × (cell (reducer_reduce st ik ns h v s).1
            ≡ update (cell s) h.id key (some (st.box (reduced h.extra_data old v))))
  unfolding reducer_reduce
  reducer_reduce_lem old v e =
      let read : typed_option st (get bytes_discrete key o.table) ≡ ok old =
        rw (value_get_lem st ik ns h s key o, cell_open ik ns h s key o) at e in
      rw o.serialized
        (rw (o.registered, get_mut) (rw read (refl, cell-insert s h.id key _ o.table o.registered)))

module _ {Any In Acc Out IK N : Type 0} (st : Stored Any Acc) (ok_st : IsStored st)
    (ik : FixedBytes IK) (ns : FixedBytes N) (h : Handle (Aggregator In Acc Out) IK N)
    (key : Bytes) where
  aggregator_get_lem :
      (s : InMemory Any) (acc : Option Acc)
      → IsOpen ik ns h s key
      → typed_option st (cell s h.id key) ≡ ok acc
      → aggregator_get st ik ns s h
        ≡ ok (h.extra_data.accumulator_into_result (accumulated h.extra_data acc))
  unfolding aggregator_get
  aggregator_get_lem s acc o e =
      let read : typed_option st (get bytes_discrete key o.table) ≡ ok acc =
        rw (cell_open ik ns h s key o) at e in
      rw o.serialized (rw (o.registered, get_table) (rw read refl))

  aggregator_aggregate_lem :
      (s : InMemory Any) (acc : Option Acc) (v : In) (o : IsOpen ik ns h s key)
      → typed_option st (cell s h.id key) ≡ ok acc
      → aggregator_aggregate st ik ns h v s ≡ (
        ok tt,
        record {
          data_map =
              insert bytes_discrete h.id
                (insert bytes_discrete key
                  (st.box (h.extra_data.add (accumulated h.extra_data acc) v))
                  o.table)
                s.data_map;
        },
      )
  unfolding aggregator_aggregate
  aggregator_aggregate_lem s acc v o e =
      let read : typed_option st (get bytes_discrete key o.table) ≡ ok acc =
        rw (cell_open ik ns h s key o) at e in
      rw o.serialized (rw (o.registered, get_mut) (rw read refl))

  -- The calls of `aggregate` for the elements of a stream, one after the other.
  abbrev pub aggregate_all : List In → InMemory Any → InMemory Any
  aggregate_all [] s = s
  aggregate_all (v ∷ vs) s = aggregate_all vs (aggregator_aggregate st ik ns h v s).1

  -- After any number of elements an aggregator state reads as the fold of `add` over them, from the
  -- accumulator that stood there or from a fresh one. The handle is registered and serialises its
  -- keys, what stands there is of the right type, and what the backend boxes is read back.
  pub aggregator_get-aggregate_all :
      (vs : List In) (s : InMemory Any) (acc : Option Acc)
      → IsOpen ik ns h s key
      → typed_option st (cell s h.id key) ≡ ok acc
      → aggregator_get st ik ns (aggregate_all vs s) h
        ≡ ok (
            h.extra_data.accumulator_into_result
              (foldl h.extra_data.add (accumulated h.extra_data acc) vs))
  aggregator_get-aggregate_all [] s acc o e = aggregator_get_lem s acc o e
  aggregator_get-aggregate_all (v ∷ vs) s acc o e = rw (aggregator_aggregate_lem s acc v o e) (
      aggregator_get-aggregate_all vs _ (some (h.extra_data.add (accumulated h.extra_data acc) v))
        (write-IsOpen ik ns h s key _ o)
        (rw (cell-insert s h.id key _ o.table o.registered)
          (rw (update_self (cell s) h.id key _) (rw ok_st refl))))
