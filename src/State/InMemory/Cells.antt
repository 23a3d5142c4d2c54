-- ===== src/State/InMemory/Cells.antt =====
-- The abstract view of the in-memory backend: a function from ids and keys to cells.
use mathlib.Core.Path.{fun_ext}
use arcon.Common.{◌≡◌, Option, none, some, [], arith, ite}
use arcon.Common.Assoc.{get, insert, remove, get-insert, get-remove, get-nil}
use arcon.State.Serialization.{Bytes}
use arcon.State.Handle.{Handle}
use arcon.State.InMemory.{bytes_discrete, Table, InMemory, register}

abbrev pub Cells : Type 0 → Type 0
Cells Any = Bytes → Bytes → Option Any

module _ {Any : Type 0} where
  abbrev pub cell_of : Option (Table Any) → Bytes → Option Any
  cell_of none key = none
  cell_of (some t) key = get bytes_discrete key t

  unfoldable pub cell : InMemory Any → Cells Any
  cell s id key = cell_of (get bytes_discrete id s.data_map) key

  -- The same cells, but for one.
  unfoldable pub update : Cells Any → Bytes → Bytes → Option Any → Cells Any
  update f id key w i k = ite (bytes_discrete id i) (ite (bytes_discrete key k) w (f i k)) (f i k)

  pub cell-insert :
      (s : InMemory Any) (id key : Bytes) (v : Any) (t : Table Any)
      → get bytes_discrete id s.data_map ≡ some t
      → cell (record {
        data_map = insert bytes_discrete id (insert bytes_discrete key v t) s.data_map;
      })
        ≡ update (cell s) id key (some v)
  unfolding cell update
  cell-insert s id key v t e = fun_ext λ i. fun_ext λ k. ground (
    arith,
    get-insert bytes_discrete id i (insert bytes_discrete key v t) s.data_map,
    get-insert bytes_discrete key k v t,
  )

  pub cell-remove :
      (s : InMemory Any) (id key : Bytes) (t : Table Any)
      → get bytes_discrete id s.data_map ≡ some t
      → cell
          (record { data_map = insert bytes_discrete id (remove bytes_discrete key t) s.data_map })
        ≡ update (cell s) id key none
  unfolding cell update
  cell-remove s id key t e = fun_ext λ i. fun_ext λ k. ground (
    arith,
    get-insert bytes_discrete id i (remove bytes_discrete key t) s.data_map,
    get-remove bytes_discrete key k t,
  )

  no_key : (k : Bytes) → get {V = Any} bytes_discrete k [] ≡ none
  no_key k = get-nil bytes_discrete k

  -- Registering a handle changes no cell.
  pub cell-register :
      {X IK N : Type 0} (h : Handle X IK N) (s : InMemory Any) → cell (register h s).1 ≡ cell s
  unfolding cell register
  cell-register h s =
      fun_ext
        λ i. fun_ext λ k. ground (arith, get-insert bytes_discrete h.id i [] s.data_map, no_key k)

  pub update_self : (f : Cells Any) (id key : Bytes) (w : Option Any) → update f id key w id key ≡ w
  unfolding update
  update_self f id key w = ground arith
