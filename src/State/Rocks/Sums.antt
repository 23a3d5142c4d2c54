-- ===== src/State/Rocks/Sums.antt =====
-- An aggregator that sums octets, and that its merge operator is associative: the instance at which the
-- laws of aggregator states are applied.
use arcon.Common.{
  ℕ, ◌+◌, ◌≡◌, refl, sym, ap, ◌∙◌, subst, Option, none, some, List, [], ◌∷◌, ◌++◌, arith, Res, ok,
  err, panic, out_of_fuel, Error, ◌==◌, if◌then◌else◌, Option-cases, inl, inr,
}
use arcon.State.Serialization.{Bytes, put_slice}
use arcon.State.Handle.{Message}
use arcon.State.Handle.Laws.{IsMessage}
use arcon.State.InMemory.Values.{Aggregator}
use arcon.State.Rocks.{Merge}
use arcon.State.Rocks.Values.{deserialize}
use arcon.State.Rocks.Merging.{to_option, chain}
use arcon.State.Rocks.Aggregators.{
  serialize_marked, accumulator_marker, aggregator_merge, merge_all, merge_slices,
  first_accumulator,
}
use arcon.State.Rocks.Laws.{IsAssociative}

abbrev pub octet : Message ℕ
octet = record {
  serialize_into = λ t n. ok (put_slice t (n ∷ []));
  deserialize_from =
      λ bytes. elim bytes [ [] ↦ err Error.protobuf_decode | x ∷ rest ↦ ok (x, rest) ];
}

pub octet-IsMessage : IsMessage octet (λ n. n ∷ [])
octet-IsMessage = record { writes = λ t n h. refl; reads = λ n rest. refl }

abbrev pub summing : Aggregator ℕ ℕ ℕ
summing = record {
  create_accumulator = 0;
  add = λ acc v. acc + v;
  merge_accumulators = λ fst snd. ok (fst + snd);
  accumulator_into_result = λ acc. acc;
}

abbrev settled : Res (Option Bytes) → Option Bytes
settled (ok o) = o
settled (err e) = none
settled panic = none
settled out_of_fuel = none

abbrev pub sum_merge : Merge
sum_merge first rest = settled (aggregator_merge octet octet summing first rest)

-- The octet of an operand, whichever marker it has.
abbrev amount : Bytes → Option ℕ
amount [] = none
amount (b ∷ []) = none
amount (b ∷ n ∷ bs) = if b == 172 then some n else if b == 0 then some n else none

abbrev total : ℕ → List Bytes → Option ℕ
total acc [] = some acc
total acc (op ∷ ops) = elim (amount op) [ none ↦ none | some n ↦ total (acc + n) ops ]

abbrev total_from : Option ℕ → List Bytes → Option ℕ
total_from none ops = none
total_from (some acc) ops = total acc ops

abbrev written : Option ℕ → Option Bytes
written none = none
written (some n) = some (172 ∷ n ∷ [])

merge_slices-total :
    (acc : ℕ) (ops : List Bytes) → merge_slices octet octet summing acc ops ≡ ok (total acc ops)
unfolding merge_slices deserialize
merge_slices-total acc [] = refl
merge_slices-total acc ([] ∷ ops) = refl
merge_slices-total acc ((b ∷ []) ∷ ops) = ground arith
merge_slices-total acc ((b ∷ n ∷ bs) ∷ ops) =
    let rest = merge_slices-total (acc + n) ops in ground arith

merge_all-total : (ops : List Bytes) → merge_all octet octet summing ops ≡ ok (total 0 ops)
unfolding merge_all first_accumulator merge_slices deserialize
merge_all-total [] = refl
merge_all-total ([] ∷ ops) = refl
merge_all-total ((b ∷ []) ∷ ops) = ground arith
merge_all-total ((b ∷ n ∷ bs) ∷ ops) = let rest = merge_slices-total n ops in ground arith

stored-written :
    (t : Option ℕ)
    → settled (
        ok (elim t [
          | none ↦ none
          | some acc ↦ to_option (serialize_marked octet accumulator_marker acc)
        ]))
      ≡ written t
stored-written none = refl
stored-written (some n) = refl

sum_merge-total : (ops : List Bytes) → sum_merge none ops ≡ written (total 0 ops)
unfolding aggregator_merge
sum_merge-total ops = rw (merge_all-total ops) (stored-written (total 0 ops))

total-append : (acc : ℕ) (xs zs : List Bytes) → total acc (xs ++ zs) ≡ total_from (total acc xs) zs
total-append acc [] zs = refl
total-append acc (x ∷ xs) zs = elim (Option-cases (amount x)) [
  | inl q ↦ rw (q, total) refl
  | inr (n, q) ↦ rw (q, total) (total-append (acc + n) xs zs)
]

total_shift :
    (acc n : ℕ) (xs : List Bytes) (k : ℕ)
    → total n xs ≡ some k
    → total (acc + n) xs ≡ some (acc + k)
total_shift acc n [] k h = ground arith
total_shift acc n (x ∷ xs) k h = elim (Option-cases (amount x)) [
  | inl q ↦ ground arith
  | inr (m, q) ↦
      (let rest : total n (x ∷ xs) ≡ total (n + m) xs = rw (q, total) refl in
        let up : total (acc + n) (x ∷ xs) ≡ total (acc + n + m) xs = rw (q, total) refl in
        let assoc : acc + n + m ≡ acc + (n + m) = omega arith in
        up ∙ (ap (λ i. total i xs) assoc ∙ total_shift acc (n + m) xs k (sym rest ∙ h)))
]

written-inverse :
    (t : Option ℕ) (m : Bytes) → written t ≡ some m → (k : ℕ) × (t ≡ some k) × (m ≡ 172 ∷ k ∷ [])
written-inverse none m h = ground arith
written-inverse (some k) m h = (k, refl, ground arith)

-- A run of operands that is merged ahead of time counts as the run.
total_run :
    (t : Option ℕ) (ys zs : List Bytes) (k : ℕ)
    → total 0 ys ≡ some k
    → total_from t ((172 ∷ k ∷ []) ∷ zs) ≡ total_from t (ys ++ zs)
total_run none ys zs k h = refl
total_run (some acc) ys zs k h =
    let whole : total acc ys ≡ some (acc + k) =
      subst (λ i. total i ys ≡ some (acc + k)) (omega arith) (total_shift acc 0 ys k h) in
    sym (total-append acc ys zs ∙ ap (λ t. total_from t zs) whole)

pub sum_merge_lem :
    (first : Option Bytes) (rest : List Bytes)
    → aggregator_merge octet octet summing first rest ≡ ok (sum_merge first rest)
unfolding aggregator_merge
sum_merge_lem first rest = rw (merge_all-total (chain first rest)) refl

pub sum_merge-IsAssociative : IsAssociative sum_merge
unfolding aggregator_merge
sum_merge-IsAssociative = record {
  chained = λ x rest. refl;
  grouped = λ xs ys zs m h.
      let (k, e, f) = written-inverse (total 0 ys) m (sym (sum_merge-total ys) ∙ h) in
      let same : total 0 (xs ++ m ∷ zs) ≡ total 0 (xs ++ (ys ++ zs)) = rw f (
        total-append 0 xs ((172 ∷ k ∷ []) ∷ zs)
        ∙ (total_run (total 0 xs) ys zs k e ∙ sym (total-append 0 xs (ys ++ zs)))) in
      sum_merge-total (xs ++ m ∷ zs) ∙ (ap written same ∙ sym (sum_merge-total (xs ++ (ys ++ zs))));
}
