-- ===== src/State/InMemory/VecLaws.antt =====
-- Vector states against a list.
use arcon.Common.{
  ◌+◌, ◌≡◌, refl, sym, Bool, true, false, Option, none, some, List, [], ◌∷◌, ◌++◌, Res, ok, arith,
  length, length-append,
}
use arcon.Common
use arcon.Common.Assoc.{get, insert}
use arcon.State.Serialization.{Bytes, FixedBytes}
use arcon.State.Handle.{Handle}
use arcon.State.InMemory.{bytes_discrete, Stored, IsStored, InMemory, get_table, get_mut}
use arcon.State.InMemory.Values.{typed_option}
use arcon.State.InMemory.Vecs.{
  vec_or_empty, is_nil, vec_clear, vec_get, vec_append, vec_set, vec_add_all, vec_len, vec_is_empty,
}
use arcon.State.InMemory.Cells.{cell, update, cell-insert, cell-remove, update_self}
use arcon.State.InMemory.ValueLaws.{IsOpen, write-IsOpen, cell_open}

stored_value :
    {T : Type 0} (r : Res (Option (List T))) (xs : List T)
    → Common.◌>>=◌ r (λ o. ok (vec_or_empty o)) ≡ ok xs
    → (o : Option (List T)) × (r ≡ ok o) × (vec_or_empty o ≡ xs)
stored_value (ok o) xs e = (o, refl, ground arith)
stored_value (Res.err x) xs e = absurd (ground arith)
stored_value Res.panic xs e = absurd (ground arith)
stored_value Res.out_of_fuel xs e = absurd (ground arith)

module _ {Any T X IK N : Type 0} (st : Stored Any (List T)) (ok_st : IsStored st)
    (ik : FixedBytes IK) (ns : FixedBytes N) (h : Handle X IK N) (key : Bytes) where
  -- The backend holds this list under the handle: none is stored for the empty one, or it is.
  abbrev pub Holds : InMemory Any → List T → Type 0
  Holds s xs =
      (o : Option (List T)) × (typed_option st (cell s h.id key) ≡ ok o) × (vec_or_empty o ≡ xs)

  -- What the readers see of a list.
  pub record Reads (s : InMemory Any) (xs : List T) : Type 0 where
    pub gets : vec_get st ik ns s h ≡ ok xs
    pub len : vec_len st ik ns s h ≡ ok (length xs)
    pub empty : vec_is_empty st ik ns s h ≡ ok (is_nil xs)

  Reads-of_Holds : (s : InMemory Any) (xs : List T) → IsOpen ik ns h s key → Holds s xs → Reads s xs
  unfolding vec_get vec_len vec_is_empty
  Reads-of_Holds s xs o (w, e, p) =
      let read : typed_option st (get bytes_discrete key o.table) ≡ ok w =
        rw (cell_open ik ns h s key o) at e in
      record {
        gets = rw o.serialized (rw (o.registered, get_table) (rw read (rw p refl)));
        len = rw o.serialized (rw (o.registered, get_table) (rw read (rw p refl)));
        empty = rw o.serialized (rw (o.registered, get_table) (rw read (rw p refl)));
      }

  Holds-of_get :
      (s : InMemory Any) (xs : List T)
      → IsOpen ik ns h s key
      → vec_get st ik ns s h ≡ ok xs
      → Holds s xs
  unfolding vec_get
  Holds-of_get s xs o e =
      let (w, p, q) =
        stored_value (typed_option st (get bytes_discrete key o.table)) xs
          (rw (o.serialized, o.registered, get_table) at e) in
      (w, rw (cell_open ik ns h s key o) p, q)

  -- After a list has been written, the readers see it.
  written-Reads :
      (s : InMemory Any) (ys : List T) (o : IsOpen ik ns h s key)
      → Reads
          (record {
            data_map =
                insert bytes_discrete h.id
                  (insert bytes_discrete key (st.box ys) o.table)
                  s.data_map;
          })
          ys
  written-Reads s ys o = Reads-of_Holds _ ys (write-IsOpen ik ns h s key _ o) (
    some ys,
    rw (cell-insert s h.id key (st.box ys) o.table o.registered)
        (rw (update_self (cell s) h.id key (some (st.box ys))) (rw ok_st refl)),
    refl,
  )

  -- `vec_append` puts the value at the end of the list that was read before, as `vec_get`, `vec_len`
  -- and `vec_is_empty` then see it, and changes no cell of another key. The handle is registered and
  -- serialises its keys, and what the backend boxes is read back.
  pub vec_append_lem :
      (s : InMemory Any) (xs : List T) (v : T)
      → IsOpen ik ns h s key
      → vec_get st ik ns s h ≡ ok xs
      → ((vec_append st ik ns h v s).0 ≡ ok tt)
        × Reads (vec_append st ik ns h v s).1 (xs ++ v ∷ [])
        × (cell (vec_append st ik ns h v s).1
            ≡ update (cell s) h.id key (some (st.box (xs ++ v ∷ []))))
  unfolding vec_append
  vec_append_lem s xs v o e =
      let (w, p, q) = Holds-of_get s xs o e in
      let read : typed_option st (get bytes_discrete key o.table) ≡ ok w =
        rw (cell_open ik ns h s key o) at p in
      rw o.serialized (
        rw (o.registered, get_mut)
          (rw read
            (rw q (refl, written-Reads s _ o, cell-insert s h.id key _ o.table o.registered))))

  pub vec_append-IsOpen :
      (s : InMemory Any) (xs : List T) (v : T)
      → IsOpen ik ns h s key
      → vec_get st ik ns s h ≡ ok xs
      → IsOpen ik ns h (vec_append st ik ns h v s).1 key
  unfolding vec_append
  vec_append-IsOpen s xs v o e =
      let (w, p, q) = Holds-of_get s xs o e in
      let read : typed_option st (get bytes_discrete key o.table) ≡ ok w =
        rw (cell_open ik ns h s key o) at p in
      rw o.serialized (rw (o.registered, get_mut) (rw read (write-IsOpen ik ns h s key _ o)))

  -- `vec_add_all` appends all the values in their order to the list that was read before. The handle
  -- is registered and serialises its keys, and what the backend boxes is read back.
  pub vec_add_all_lem :
      (s : InMemory Any) (xs vs : List T)
      → IsOpen ik ns h s key
      → vec_get st ik ns s h ≡ ok xs
      → ((vec_add_all st ik ns h vs s).0 ≡ ok tt) × Reads (vec_add_all st ik ns h vs s).1 (xs ++ vs)
  unfolding vec_add_all
  vec_add_all_lem s xs vs o e =
      let (w, p, q) = Holds-of_get s xs o e in
      let read : typed_option st (get bytes_discrete key o.table) ≡ ok w =
        rw (cell_open ik ns h s key o) at p in
      rw o.serialized (rw (o.registered, get_mut) (rw read (rw q (refl, written-Reads s _ o))))

  -- Whatever stood there, `vec_set` leaves the given list and `vec_clear` the empty one.
  pub vec_set-vec_clear_lem :
      (s : InMemory Any) (vs : List T)
      → IsOpen ik ns h s key
      → Reads (vec_set st ik ns h vs s).1 vs × Reads (vec_clear st ik ns h s).1 []
  unfolding vec_set vec_clear
  vec_set-vec_clear_lem s vs o = rw o.serialized (
      rw (o.registered, get_mut)
        (
          written-Reads s vs o,
          Reads-of_Holds _ [] (write-IsOpen ik ns h s key _ o) (
            none,
            rw (cell-remove s h.id key o.table o.registered)
                (rw (update_self (cell s) h.id key none) refl),
            refl,
          ),
        ))
