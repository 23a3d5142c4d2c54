-- ===== src/Window/Appender.antt =====
-- execution-plane/arcon/src/stream/operator/window/mod.rs: `AppenderWindow`, on the backend in memory.
use arcon.Common.{
  ℕ, ◌≡◌, refl, sym, ap, ◌∙◌, List, [], ◌∷◌, ◌++◌, append-nil, append_assoc, Res, ok, ◌>>=◌,
}
use arcon.State.Serialization.{Bytes, int_bytes}
use arcon.State.Handle.{Handle, set_item_key, set_namespace}
use arcon.State.InMemory.{Stored, IsStored, InMemory}
use arcon.State.InMemory.Vecs.{vec_append, vec_get, vec_clear}
use arcon.State.InMemory.ValueLaws.{IsOpen}
use arcon.State.InMemory.VecLaws.{vec_append_lem, vec_append-IsOpen, vec_set-vec_clear_lem}

pub record AppenderWindow (IN OUT : Type 0) : Type 0 where
  pub buffer : Handle (Unit {0}) ℕ ℕ
  pub materializer : List IN → OUT

module _ {Any IN OUT : Type 0} (st : Stored Any (List IN)) (w : AppenderWindow IN OUT) where
  -- The handle of the buffer, set to the key and the index of the context.
  abbrev pub buffer_at : ℕ → ℕ → Handle (Unit {0}) ℕ ℕ
  buffer_at key index = set_namespace index (set_item_key key w.buffer)

  unfoldable pub appender_on_element : IN → ℕ → ℕ → InMemory Any → Res (Unit {0}) × InMemory Any
  appender_on_element v key index s =
      vec_append st (int_bytes 8) (int_bytes 8) (buffer_at key index) v s

  unfoldable pub appender_result : ℕ → ℕ → InMemory Any → Res OUT
  appender_result key index s =
      vec_get st (int_bytes 8) (int_bytes 8) s (buffer_at key index) >>= λ buf.
      ok (w.materializer buf)

  unfoldable pub appender_clear : ℕ → ℕ → InMemory Any → Res (Unit {0}) × InMemory Any
  appender_clear key index s = vec_clear st (int_bytes 8) (int_bytes 8) (buffer_at key index) s

  -- The elements of a window, one after the other.
  abbrev pub append_all : List IN → ℕ → ℕ → InMemory Any → InMemory Any
  append_all [] key index s = s
  append_all (v ∷ vs) key index s = append_all vs key index (appender_on_element v key index s).1

  module _ (ok_st : IsStored st) (key index : ℕ) (place : Bytes) where
    abbrev Opened : InMemory Any → Type 0
    Opened s = IsOpen (int_bytes 8) (int_bytes 8) (buffer_at key index) s place

    reads_all :
        (vs xs : List IN) (s : InMemory Any)
        → Opened s
        → vec_get st (int_bytes 8) (int_bytes 8) s (buffer_at key index) ≡ ok xs
        → Opened (append_all vs key index s)
          × (vec_get st
                (int_bytes 8)
                (int_bytes 8)
                (append_all vs key index s)
                (buffer_at key index)
              ≡ ok (xs ++ vs))
    unfolding appender_on_element
    reads_all [] xs s o e = (o, e ∙ ap ok (sym (append-nil xs)))
    reads_all (v ∷ vs) xs s o e =
        let h = buffer_at key index in
        let a = vec_append_lem st ok_st (int_bytes 8) (int_bytes 8) h place s xs v o e in
        let o' = vec_append-IsOpen st ok_st (int_bytes 8) (int_bytes 8) h place s xs v o e in
        let r = reads_all vs (xs ++ v ∷ []) (appender_on_element v key index s).1 o' a.1.gets in
        (r.0, r.1 ∙ ap ok (append_assoc xs (v ∷ []) vs))

    -- An empty appender window to which elements are given one by one yields its function applied to
    -- them in their order, and once cleared to none. The handle of its buffer is registered, and what
    -- the backend boxes is read back.
    pub appender_result-append_all :
        (vs : List IN) (s : InMemory Any)
        → IsOpen (int_bytes 8) (int_bytes 8) (buffer_at key index) s place
        → vec_get st (int_bytes 8) (int_bytes 8) s (buffer_at key index) ≡ ok []
        → (appender_result key index (append_all vs key index s) ≡ ok (w.materializer vs))
          × (appender_result key index (appender_clear key index (append_all vs key index s)).1
              ≡ ok (w.materializer []))
    unfolding appender_result appender_clear
    appender_result-append_all vs s o e =
        let r = reads_all vs [] s o e in
        let c =
          vec_set-vec_clear_lem st ok_st (int_bytes 8) (int_bytes 8) (buffer_at key index) place
            (append_all vs key index s) [] r.0 in
        (rw r.1 refl, rw c.1.gets refl)
