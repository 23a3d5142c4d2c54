-- ===== src/State/Rocks/Merging.antt =====
-- execution-plane/arcon/arcon_state/src/rocks: the merge operators `vec_merge` (vec_ops.rs) and that
-- of `make_reducer_merge` (reducer_ops.rs). RocksDB calls them with the value and the operands, or
-- with a run of operands, which it then keeps as one.
use arcon.Common.{
  ℕ, ◌+◌, ◌%◌, ◌<◌, ◌≡◌, refl, sym, ap, ◌∙◌, Option, none, some, List, [], ◌∷◌, ◌++◌, append-nil,
  append_assoc, arith, Res, ok, err, panic, out_of_fuel, u64_mod, Option-cases, inl, inr,
}
use mathlib.Core.Path.{ap₂}
use arcon.State.Serialization.{Bytes, to_le_bytes, int_deserialize_from}
use arcon.State.Serialization.Laws.{int_reads}
use arcon.State.Handle.{Message}
use arcon.State.Rocks.{Merge}
use arcon.State.Rocks.Values.{serialize, deserialize}

-- `.ok()`.
abbrev pub to_option : {A : Type 0} → Res A → Option A
to_option (ok a) = some a
to_option (err e) = none
to_option panic = none
to_option out_of_fuel = none

-- `first.into_iter().chain(rest)`.
abbrev pub chain : Option Bytes → List Bytes → List Bytes
chain none rest = rest
chain (some first) rest = first ∷ rest

-- The loop over the operands, and the length that is written in front at last.
unfoldable pub vec_merge_from : ℕ → Bytes → List Bytes → Option Bytes
vec_merge_from len result [] = some (to_le_bytes 8 len ++ result)
vec_merge_from len result (op ∷ ops) = elim (to_option (int_deserialize_from 8 op)) [
  | none ↦ none
  | some r ↦ vec_merge_from ((len + r.0) % u64_mod) (result ++ r.1) ops
]

unfoldable pub vec_merge : Merge
unfolding vec_merge_from
vec_merge first rest = vec_merge_from 0 [] (chain first rest)

pub vec_merge_from_step :
    (len n : ℕ) (result payload : Bytes) (ops : List Bytes)
    → n < u64_mod
    → vec_merge_from len result ((to_le_bytes 8 n ++ payload) ∷ ops)
      ≡ vec_merge_from ((len + n) % u64_mod) (result ++ payload) ops
unfolding vec_merge_from
vec_merge_from_step len n result payload ops h =
    rw (int_reads 8 n payload (omega arith), vec_merge_from) refl

module _ {T : Type 0} (m : Message T) (reduce_fn : T → T → T) where
  unfoldable pub reduce_from : Option T → List Bytes → Option T
  reduce_from acc [] = acc
  reduce_from acc (op ∷ ops) = elim (to_option (deserialize m op)) [
    | none ↦ none
    | some value ↦ elim acc [
      | none ↦ reduce_from (some value) ops
      | some old ↦ reduce_from (some (reduce_fn old value)) ops
    ]
  ]

  -- `make_reducer_merge`.
  unfoldable pub reducer_merge : Merge
  unfolding reduce_from
  reducer_merge first rest = elim (reduce_from none (chain first rest)) [
    | none ↦ none
    | some v ↦ to_option (serialize m v)
  ]

-- What the operands hold: the sum of their lengths, and their bytes.
abbrev Gathered : Type 0
Gathered = Option (ℕ × Bytes)

abbrev both : Gathered → Gathered → Gathered
both none b = none
both (some a) none = none
both (some a) (some b) = some (a.0 + b.0, a.1 ++ b.1)

gather : List Bytes → Gathered
gather [] = some (0, [])
gather (op ∷ ops) = both (to_option (int_deserialize_from 8 op)) (gather ops)

abbrev written : Gathered → Option Bytes
written none = none
written (some g) = some (to_le_bytes 8 (g.0 % u64_mod) ++ g.1)

both_assoc : (a b c : Gathered) → both (both a b) c ≡ both a (both b c)
both_assoc none b c = refl
both_assoc (some a) none c = refl
both_assoc (some a) (some b) none = refl
both_assoc (some a) (some b) (some c) =
    ap₂ (λ n l. some (n, l)) (omega arith) (append_assoc a.1 b.1 c.1)

both_unit : (b : Gathered) → both (some (0, [])) b ≡ b
both_unit none = refl
both_unit (some b) = ap (λ n. some (n, b.1)) (omega arith)

gather-append : (xs ys : List Bytes) → gather (xs ++ ys) ≡ both (gather xs) (gather ys)
unfolding gather
gather-append [] ys = sym (both_unit (gather ys))
gather-append (x ∷ xs) ys =
    ap (both (to_option (int_deserialize_from 8 x))) (gather-append xs ys)
    ∙ sym (both_assoc _ (gather xs) (gather ys))

written-both :
    (len n : ℕ) (result bytes : Bytes) (g : Gathered)
    → written (both (some ((len + n) % u64_mod, result ++ bytes)) g)
      ≡ written (both (some (len, result)) (both (some (n, bytes)) g))
written-both len n result bytes none = refl
written-both len n result bytes (some g) =
    ap₂ (λ k l. some (to_le_bytes 8 k ++ l)) (omega arith) (append_assoc result bytes g.1)

vec_merge_from_lem :
    (len : ℕ) (result : Bytes) (ops : List Bytes)
    → len < u64_mod
    → vec_merge_from len result ops ≡ written (both (some (len, result)) (gather ops))
unfolding vec_merge_from gather
vec_merge_from_lem len result [] h =
    ap₂ (λ k l. some (to_le_bytes 8 k ++ l)) (omega arith) (sym (append-nil result))
vec_merge_from_lem len result (op ∷ ops) h =
    elim (Option-cases (to_option (int_deserialize_from 8 op))) [
      | inl e ↦ rw (e, vec_merge_from) refl
      | inr (r, e) ↦
          rw (e, vec_merge_from)
            (vec_merge_from_lem ((len + r.0) % u64_mod) (result ++ r.1) ops (omega arith)
              ∙ written-both len r.0 result r.1 (gather ops))
    ]

vec_merge_lem : (ops : List Bytes) → vec_merge none ops ≡ written (gather ops)
unfolding vec_merge
vec_merge_lem ops = vec_merge_from_lem 0 [] ops (omega arith) ∙ ap written (both_unit (gather ops))

-- What a merged operand holds: the sum modulo the width, and the same bytes.
gather_merged :
    (ops : List Bytes) (m : Bytes)
    → vec_merge none ops ≡ some m
    → (g : ℕ × Bytes) × (gather ops ≡ some g) × (gather (m ∷ []) ≡ some (g.0 % u64_mod, g.1))
unfolding gather
gather_merged ops m h = elim (Option-cases (gather ops)) [
  | inl e ↦ absurd (ground (arith, vec_merge_lem ops))
  | inr (g, e) ↦ (
    g,
    e,
    let q : some m ≡ written (some g) = sym h ∙ (vec_merge_lem ops ∙ ap written e) in
        let s : m ≡ to_le_bytes 8 (g.0 % u64_mod) ++ g.1 = cc in
        rw s (
          rw (int_reads 8 (g.0 % u64_mod) g.1 (omega arith))
            (ap₂ (λ n l. some (n, l)) (omega arith) (append-nil g.1))),
  )
]

written_mod :
    (a : Gathered) (g : ℕ × Bytes) (b : Gathered)
    → written (both a (both (some (g.0 % u64_mod, g.1)) b)) ≡ written (both a (both (some g) b))
written_mod none g b = refl
written_mod (some a) g none = refl
written_mod (some a) g (some b) =
    let q : (a.0 + (g.0 % u64_mod + b.0)) % u64_mod ≡ (a.0 + (g.0 + b.0)) % u64_mod = omega arith in
    ap (λ k. some (to_le_bytes 8 k ++ (a.1 ++ (g.1 ++ b.1)))) q

-- A run of operands that RocksDB has merged ahead of time counts as the operands themselves, wherever it
-- stands: the merge operator of vector states is associative, as its registration promises.
pub vec_merge-vec_merge :
    (xs ys zs : List Bytes) (m : Bytes)
    → vec_merge none ys ≡ some m
    → vec_merge none (xs ++ m ∷ zs) ≡ vec_merge none (xs ++ (ys ++ zs))
unfolding gather
vec_merge-vec_merge xs ys zs m h =
    let (g, e, f) = gather_merged ys m h in
    vec_merge_lem (xs ++ m ∷ zs)
    ∙ (ap written (gather-append xs (m ∷ zs) ∙ ap (both (gather xs)) (gather-append (m ∷ []) zs))
        ∙ (ap (λ o. written (both (gather xs) (both o (gather zs)))) f
            ∙ (written_mod (gather xs) g (gather zs)
                ∙ (ap (λ o. written (both (gather xs) (both o (gather zs)))) (sym e)
                    ∙ (ap written (
                          sym (
                            gather-append xs (ys ++ zs)
                            ∙ ap (both (gather xs)) (gather-append ys zs)))
                        ∙ sym (vec_merge_lem (xs ++ (ys ++ zs))))))))
