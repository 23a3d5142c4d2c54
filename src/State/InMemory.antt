-- ===== src/State/InMemory.antt =====
-- execution-plane/arcon/arcon_state/src/in_memory/mod.rs: a table of dynamically typed values for
-- each registered id. The operations on the five kinds of state are the children's.
pub mod Values
pub mod Vecs
pub mod Maps
pub mod Cells
pub mod ValueLaws
pub mod VecLaws
pub mod MapLaws
mod Examples
use arcon.Common.{
  ℕ, ◌≡◌, Bool, true, Option, none, some, List, [], ◌∷◌, Res, ok, err, panic, out_of_fuel, Error,
  or_panic, ok_or, ℕ_discrete,
}
use arcon.Common.Assoc.{get, insert}
use arcon.State.Serialization.{Bytes}
use arcon.State.Handle.{Handle}

unfoldable pub bytes_discrete : Discrete Bytes
unfolding ℕ_discrete
bytes_discrete = hlevel ℕ_discrete

-- `SmallBox<dyn Any>` at one type: how a value gets in, and how it comes out if the type is right.
pub record Stored (Any T : Type 0) : Type 0 where
  pub box : T → Any
  pub downcast : Any → Option T

-- The documented behaviour of `Any`: a value comes out as it went in.
abbrev pub IsStored : {Any T : Type 0} → Stored Any T → Type 0
IsStored {T} st = (v : T) → st.downcast (st.box v) ≡ some v

abbrev pub Table : Type 0 → Type 0
Table Any = List (Bytes × Any)

pub record InMemory (Any : Type 0) : Type 0 where
  pub data_map : List (Bytes × Table Any)

-- `create`, `restore` and `restore_or_create`: all start empty.
unfoldable pub create : {Any : Type 0} → InMemory Any
create = record { data_map = [] }

abbrev pub was_restored : {Any : Type 0} → InMemory Any → Bool
was_restored s = Bool.false

-- A call that may change the backend; what it has changed stays also when it fails.
abbrev pub M : Type 0 → Type 0 → Type 0
M Any A = InMemory Any → Res A × InMemory Any

module _ {Any : Type 0} where
  abbrev pub carry_on : {A B : Type 0} → Res A × InMemory Any → (A → M Any B) → Res B × InMemory Any
  carry_on (ok a, s) f = f a s
  carry_on (err e, s) f = (err e, s)
  carry_on (panic, s) f = (panic, s)
  carry_on (out_of_fuel, s) f = (out_of_fuel, s)

  infixl 5 ◌>>=◌ ◌>>◌
  abbrev pub ◌>>=◌ : {A B : Type 0} → M Any A → (A → M Any B) → M Any B
  ◌>>=◌ m f s = carry_on (m s) f

  abbrev pub ◌>>◌ : {B : Type 0} → M Any (Unit {0}) → M Any B → M Any B
  m >> k = m >>= λ _. k

  abbrev pub lift : {A : Type 0} → Res A → M Any A
  lift r s = (r, s)

  abbrev pub pure : {A : Type 0} → A → M Any A
  pure a s = (ok a, s)

  module _ {X IK N : Type 0} where
    -- `get`: a handle that is not registered is a panic.
    unfoldable pub get_table : InMemory Any → Handle X IK N → Res (Table Any)
    get_table s h = or_panic (get bytes_discrete h.id s.data_map)

    -- `get_mut`: reads the table, and writes it back changed.
    unfoldable pub get_mut : Handle X IK N → M Any (Table Any)
    unfolding get_table
    get_mut h s = (get_table s h, s)

    unfoldable pub put_table : Handle X IK N → Table Any → M Any (Unit {0})
    put_table h t s = (ok tt, record { data_map = insert bytes_discrete h.id t s.data_map })

    -- `register_*_handle`: an empty table, if the id has none.
    unfoldable pub register : Handle X IK N → InMemory Any → Handle X IK N × InMemory Any
    register h s = elim (get bytes_discrete h.id s.data_map) [
      | none ↦ (
        record h { registered = true },
        record { data_map = insert bytes_discrete h.id [] s.data_map },
      )
      | some t ↦ (record h { registered = true }, s)
    ]
