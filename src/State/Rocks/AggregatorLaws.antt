-- ===== src/State/Rocks/AggregatorLaws.antt =====
-- The aggregator states of the backend over RocksDB: what the merge operator makes of inputs and of
-- accumulators, and that a state is the accumulator of its inputs.
use arcon.Common.{
  ℕ, ◌+◌, ◌≤◌, ◌≡◌, refl, sym, ap, ◌∙◌, subst, Option, none, some, List, [], ◌∷◌, ◌++◌, append-nil,
  arith, ok, panic, ◌>>=◌, length, foldl, inl, inr, ◌⊎◌,
}
use arcon.State.Serialization.{Bytes, put_slice, FixedBytes, new_vec}
use arcon.State.Handle.{Handle, Message, serialize_metakeys}
use arcon.State.Handle.Laws.{IsMessage}
use arcon.State.InMemory.Values.{Aggregator}
use arcon.State.Rocks.{
  Merge, Database, InitializedRocksDb, initialized, Rocks, when_initialized, db_merge,
  get_cf_handle,
}
use arcon.State.Rocks.Values.{deserialize}
use arcon.State.Rocks.Aggregators.{
  accumulator_marker, value_marker, serialize_marked, first_accumulator, merge_slices, merge_all,
  aggregator_merge, stored_accumulator, aggregator_get, aggregator_aggregate,
}
use arcon.State.Rocks.Laws.{IsAssociative, IsMerging, IsOpen, rocks_get_lem}

deserialize_lem :
    {V : Type 0} (m : Message V) (encode : V → Bytes)
    → IsMessage m encode
    → (v : V) → deserialize m (encode v) ≡ ok v
unfolding deserialize
deserialize_lem m encode im v =
    let whole : m.deserialize_from (encode v) ≡ ok (v, []) =
      subst (λ l. m.deserialize_from l ≡ ok (v, [])) (append-nil (encode v)) (im.reads v []) in
    rw whole refl

pub serialize_marked_lem :
    {V : Type 0} (m : Message V) (encode : V → Bytes)
    → IsMessage m encode
    → (marker : ℕ) (v : V) → 1 + length (encode v) ≤ new_vec.remaining_mut
    → serialize_marked m marker v ≡ ok (marker ∷ encode v)
serialize_marked_lem m encode im marker v h =
    rw (im.writes (put_slice new_vec (marker ∷ [])) v (omega arith)) refl

module _ {In Acc Out : Type 0} (mi : Message In) (ma : Message Acc) (ei : In → Bytes)
    (ea : Acc → Bytes) (im : IsMessage mi ei) (am : IsMessage ma ea)
    (g : Aggregator In Acc Out) where
  -- Inputs as they are handed to the database.
  abbrev pub inputs : List In → List Bytes
  inputs [] = []
  inputs (v ∷ vs) = (value_marker ∷ ei v) ∷ inputs vs

  inputs-append : (vs ws : List In) → inputs (vs ++ ws) ≡ inputs vs ++ inputs ws
  inputs-append [] ws = refl
  inputs-append (v ∷ vs) ws = ap (λ l. (value_marker ∷ ei v) ∷ l) (inputs-append vs ws)

  first_accumulator_stored :
      (a : Acc) → first_accumulator mi ma g (accumulator_marker ∷ ea a) ≡ some a
  unfolding first_accumulator
  first_accumulator_stored a = rw (deserialize_lem ma ea am a) refl

  first_accumulator_input :
      (v : In)
      → first_accumulator mi ma g (value_marker ∷ ei v) ≡ some (g.add g.create_accumulator v)
  unfolding first_accumulator
  first_accumulator_input v = rw (deserialize_lem mi ei im v) refl

  merge_slices_stored :
      (acc second : Acc) (ops : List Bytes)
      → merge_slices mi ma g acc ((accumulator_marker ∷ ea second) ∷ ops)
        ≡ (g.merge_accumulators acc second >>= λ a. merge_slices mi ma g a ops)
  unfolding merge_slices
  merge_slices_stored acc second ops = rw (deserialize_lem ma ea am second) refl

  merge_slices_inputs :
      (vs : List In) (acc : Acc) (ops : List Bytes)
      → merge_slices mi ma g acc (inputs vs ++ ops) ≡ merge_slices mi ma g (foldl g.add acc vs) ops
  unfolding merge_slices
  merge_slices_inputs [] acc ops = refl
  merge_slices_inputs (v ∷ vs) acc ops =
      rw (deserialize_lem mi ei im v) (merge_slices_inputs vs (g.add acc v) ops)

  merge_slices_all :
      (vs : List In) (acc : Acc)
      → merge_slices mi ma g acc (inputs vs) ≡ ok (some (foldl g.add acc vs))
  unfolding merge_slices
  merge_slices_all vs acc =
      subst (λ ops. merge_slices mi ma g acc ops ≡ ok (some (foldl g.add acc vs)))
        (append-nil (inputs vs)) (merge_slices_inputs vs acc [])

  merge_all_inputs :
      (vs : List In)
      → merge_all mi ma g (inputs vs) ≡ ok (some (foldl g.add g.create_accumulator vs))
  unfolding merge_all
  merge_all_inputs [] = refl
  merge_all_inputs (v ∷ vs) = rw (first_accumulator_input v, merge_all) (merge_slices_all vs _)

  merge_all_stored :
      (a : Acc) (ops : List Bytes)
      → merge_all mi ma g ((accumulator_marker ∷ ea a) ∷ ops) ≡ merge_slices mi ma g a ops
  unfolding merge_all
  merge_all_stored a ops = rw (first_accumulator_stored a, merge_all) refl

  -- Inputs that are merged without a value before them become an accumulator.
  pub aggregator_merge_inputs :
      (vs : List In)
      → 1 + length (ea (foldl g.add g.create_accumulator vs)) ≤ new_vec.remaining_mut
      → aggregator_merge mi ma g none (inputs vs)
        ≡ ok (some (accumulator_marker ∷ ea (foldl g.add g.create_accumulator vs)))
  unfolding aggregator_merge
  aggregator_merge_inputs vs h = rw (merge_all_inputs vs) (
      rw (serialize_marked_lem ma ea am accumulator_marker (foldl g.add g.create_accumulator vs) h)
        refl)

  merge_all_run :
      (a b : Acc) (vs ws : List In) (ops : List Bytes)
      → g.merge_accumulators (foldl g.add a vs) b ≡ ok (foldl g.add (foldl g.add a vs) ws)
      → merge_all mi ma g
          ((accumulator_marker ∷ ea a) ∷ (inputs vs ++ (accumulator_marker ∷ ea b) ∷ ops))
        ≡ merge_all mi ma g ((accumulator_marker ∷ ea a) ∷ (inputs vs ++ (inputs ws ++ ops)))
  merge_all_run a b vs ws ops law =
      let mid = foldl g.add a vs in
      merge_all_stored a (inputs vs ++ (accumulator_marker ∷ ea b) ∷ ops)
      ∙ (merge_slices_inputs vs a ((accumulator_marker ∷ ea b) ∷ ops)
          ∙ (merge_slices_stored mid b ops
              ∙ (ap (λ r. r >>= λ x. merge_slices mi ma g x ops) law
                  ∙ sym (
                      merge_all_stored a (inputs vs ++ (inputs ws ++ ops))
                      ∙ (merge_slices_inputs vs a (inputs ws ++ ops)
                          ∙ merge_slices_inputs ws mid ops)))))

  -- When merging the accumulator of a run of inputs into another is adding the inputs to it, then a
  -- run that RocksDB has merged ahead of time counts as its inputs, whatever inputs come before it and
  -- whatever operands after it. The accumulator of the run fits into a vector.
  pub aggregator_merge-aggregator_merge :
      (a : Acc) (vs ws : List In) (ops : List Bytes) (m : Bytes)
      → g.merge_accumulators (foldl g.add a vs) (foldl g.add g.create_accumulator ws)
        ≡ ok (foldl g.add (foldl g.add a vs) ws)
      → 1 + length (ea (foldl g.add g.create_accumulator ws)) ≤ new_vec.remaining_mut
      → aggregator_merge mi ma g none (inputs ws) ≡ ok (some m)
      → aggregator_merge mi ma g (some (accumulator_marker ∷ ea a)) (inputs vs ++ m ∷ ops)
        ≡ aggregator_merge mi ma g
            (some (accumulator_marker ∷ ea a))
            (inputs vs ++ (inputs ws ++ ops))
  unfolding aggregator_merge
  aggregator_merge-aggregator_merge a vs ws ops m law h e =
      let b = foldl g.add g.create_accumulator ws in
      let same : m ≡ accumulator_marker ∷ ea b = ground (arith, aggregator_merge_inputs ws h) in
      rw (same, merge_all_run a b vs ws ops law) refl

  -- Where the aggregator panics on merging a run into an accumulator, so does the merge operator.
  pub aggregator_merge_panics :
      (a : Acc) (vs ws : List In) (ops : List Bytes) (m : Bytes)
      → g.merge_accumulators (foldl g.add a vs) (foldl g.add g.create_accumulator ws) ≡ panic
      → 1 + length (ea (foldl g.add g.create_accumulator ws)) ≤ new_vec.remaining_mut
      → aggregator_merge mi ma g none (inputs ws) ≡ ok (some m)
      → aggregator_merge mi ma g (some (accumulator_marker ∷ ea a)) (inputs vs ++ m ∷ ops) ≡ panic
  unfolding aggregator_merge
  aggregator_merge_panics a vs ws ops m law h e =
      let b = foldl g.add g.create_accumulator ws in
      let same : m ≡ accumulator_marker ∷ ea b = ground (arith, aggregator_merge_inputs ws h) in
      let stops =
        merge_all_stored a (inputs vs ++ (accumulator_marker ∷ ea b) ∷ ops)
        ∙ (merge_slices_inputs vs a ((accumulator_marker ∷ ea b) ∷ ops)
            ∙ merge_slices_stored (foldl g.add a vs) b ops) in
      rw (same, stops, law) refl

  merge_one :
      (acc : Acc) (v : In)
      → 1 + length (ea (g.add acc v)) ≤ new_vec.remaining_mut
      → aggregator_merge mi ma g (some (accumulator_marker ∷ ea acc)) ((value_marker ∷ ei v) ∷ [])
        ≡ ok (some (accumulator_marker ∷ ea (g.add acc v)))
  unfolding aggregator_merge
  merge_one acc v h =
      let all = merge_all_stored acc (inputs (v ∷ [])) ∙ merge_slices_all (v ∷ []) acc in
      rw (all, serialize_marked_lem ma ea am accumulator_marker (g.add acc v) h) refl

  -- What is stored stands for this accumulator, a fresh one if nothing is stored.
  abbrev pub StoresAcc : Option Bytes → Acc → Type 0
  StoresAcc stored acc =
      (stored ≡ some (accumulator_marker ∷ ea acc))
      ⊎ ((stored ≡ none) × (acc ≡ g.create_accumulator))

  merge-StoresAcc :
      (stored : Option Bytes) (acc : Acc) (v : In)
      → StoresAcc stored acc
      → 1 + length (ea (g.add acc v)) ≤ new_vec.remaining_mut
      → aggregator_merge mi ma g stored ((value_marker ∷ ei v) ∷ [])
        ≡ ok (some (accumulator_marker ∷ ea (g.add acc v)))
  merge-StoresAcc stored acc v (inl e) h = rw e (merge_one acc v h)
  merge-StoresAcc stored acc v (inr (e, f)) h =
      let room : 1 + length (ea (g.add g.create_accumulator v)) ≤ new_vec.remaining_mut =
        rw f at h in
      rw (e, f) (aggregator_merge_inputs (v ∷ []) room)

module _ {In Acc Out D IK N : Type 0} (mi : Message In) (ma : Message Acc) (ei : In → Bytes)
    (ea : Acc → Bytes) (im : IsMessage mi ei) (am : IsMessage ma ea) (rocks : Database D)
    (ik : FixedBytes IK) (ns : FixedBytes N) (h : Handle (Aggregator In Acc Out) IK N) (p : Bytes)
    (key : serialize_metakeys ik ns h ≡ ok p) where
  -- An open backend whose aggregator state has this accumulator.
  pub record HoldsAcc (acc : Acc) (r : Rocks D) : Type 0 where
    pub inside : InitializedRocksDb D
    pub open_db : IsOpen rocks h.id inside r
    pub stores : StoresAcc mi ma ei ea im am h.extra_data (rocks.get_cf h.id p inside.db) acc

  stored_accumulator_lem :
      (stored : Option Bytes) (acc : Acc)
      → StoresAcc mi ma ei ea im am h.extra_data stored acc
      → stored_accumulator mi ma h.extra_data stored ≡ ok acc
  unfolding stored_accumulator
  stored_accumulator_lem stored acc (inl e) = rw e (rw (deserialize_lem ma ea am acc) refl)
  stored_accumulator_lem stored acc (inr (e, f)) = rw (e, f) refl

  aggregator_get_lem :
      (acc : Acc) (r : Rocks D)
      → HoldsAcc acc r
      → aggregator_get mi ma rocks ik ns h r ≡ ok (h.extra_data.accumulator_into_result acc)
  unfolding aggregator_get
  aggregator_get_lem acc r s = rw key (
      rw (rocks_get_lem rocks h.id p s.inside r s.open_db)
        (rw (stored_accumulator_lem _ acc s.stores) refl))

  -- The merge operator of this aggregator never panics, and yields this function.
  abbrev pub Agrees : Merge → Type 0
  Agrees merge =
      (first : Option Bytes) (rest : List Bytes)
      → aggregator_merge mi ma h.extra_data first rest ≡ ok (merge first rest)

  merge_lem :
      (merge : Merge) (stored : Option Bytes) (rest : List Bytes) (out : Bytes)
      → Agrees merge
      → aggregator_merge mi ma h.extra_data stored rest ≡ ok (some out)
      → merge stored rest ≡ some out
  merge_lem merge stored rest out agrees e =
      let same : ok (merge stored rest) ≡ ok (some out) = sym (agrees stored rest) ∙ e in
      ground arith

  -- Adding an input to an aggregator state succeeds, the accumulator is then what the aggregator's
  -- `add` makes of the old one, a fresh one at first, and `aggregator_get` returns its result. The
  -- merge operator `aggregator_merge` never panics for this aggregator and is associative, which is
  -- what RocksDB asks for; the backend is open, the database merges by that operator, and the input
  -- and the accumulator fit into a vector.
  pub aggregator_aggregate-HoldsAcc :
      (acc : Acc) (v : In) (r : Rocks D) (merge : Merge)
      → Agrees merge
      → IsAssociative merge
      → IsMerging rocks h.id merge
      → HoldsAcc acc r
      → 1 + length (ei v) ≤ new_vec.remaining_mut
      → 1 + length (ea (h.extra_data.add acc v)) ≤ new_vec.remaining_mut
      → (r' : Rocks D) × (aggregator_aggregate mi ma rocks ik ns h v r ≡ ok r')
        × HoldsAcc (h.extra_data.add acc v) r'
        × (aggregator_get mi ma rocks ik ns h r'
            ≡ ok (h.extra_data.accumulator_into_result (h.extra_data.add acc v)))
  unfolding aggregator_aggregate when_initialized db_merge get_cf_handle
  aggregator_aggregate-HoldsAcc acc v r merge agrees assoc l s small room =
      let o = s.open_db in
      let i : InitializedRocksDb D = s.inside in
      let op : Bytes = value_marker ∷ ei v in
      let i' : InitializedRocksDb D = record i { db = rocks.merge_cf h.id p op i.db } in
      let r' : Rocks D = record r { inner = initialized i' } in
      let s' : HoldsAcc (h.extra_data.add acc v) r' = record {
        inside = i';
        open_db = record { ready = refl; has = l.has-merge h.id p op i.db ∙ o.has };
        stores = inl (
            l.get-merge assoc p op i.db
            ∙ merge_lem merge (rocks.get_cf h.id p i.db) (op ∷ []) _ agrees
                (merge-StoresAcc mi ma ei ea im am h.extra_data _ acc v s.stores room));
      } in
      rw o.ready (
        rw key (
          rw (serialize_marked_lem mi ei im value_marker v small)
            (rw o.has (r', refl, s', aggregator_get_lem (h.extra_data.add acc v) r' s'))))
