-- ===== src/State/Sled/Laws.antt =====
-- The export file of the backend over sled: what is written is read back.
use arcon.Common.{
  ℕ, zero, suc, ◌+◌, ◌%◌, ◌≤◌, ◌<◌, ◌≡◌, refl, sym, ap, ◌∙◌, List, [], ◌∷◌, ◌++◌, append-nil,
  append_assoc, arith, Res, ok, length, length-append, take, drop, take_append, drop_append, All,
  u64_mod,
}
use mathlib.Core.Path.{ap₂}
use arcon.State.Serialization.{Bytes, to_le_bytes}
use arcon.State.Serialization.Laws.{length-to_le_bytes, from_le_bytes-to_le_bytes}
use arcon.State.Sled.{
  ExportedTree, Writer, write_all, seek_start, write_length, write_len_and_bytes, write_each,
  write_row, write_rows, write_counted, write_tree, dump_export, read_exact, read_length,
  read_bytes_starting_with_len, read_times, read_row, read_tree, parse_dumped_sled_export,
}

encode_all : {A : Type 0} → (A → Bytes) → List A → Bytes
encode_all f [] = []
encode_all f (x ∷ xs) = f x ++ encode_all f xs

abbrev encode_bytes : Bytes → Bytes
encode_bytes bs = to_le_bytes 8 (length bs) ++ bs

abbrev encode_row : List Bytes → Bytes
encode_row vecs = to_le_bytes 8 (length vecs) ++ encode_all encode_bytes vecs

abbrev encode_tree : ExportedTree → Bytes
encode_tree (typ, name, vvecs) =
    encode_bytes typ
    ++ (encode_bytes name ++ (to_le_bytes 8 (length vvecs) ++ encode_all encode_row vvecs))

-- A writer at the end of what it has written.
abbrev at_end : Bytes → Writer
at_end bs = record { written = bs; position = length bs }

take-length : (xs : Bytes) → take (length xs) xs ≡ xs
take-length [] = refl
take-length (x ∷ xs) = ap (λ l. x ∷ l) (take-length xs)

drop_all : (n : ℕ) (xs : Bytes) → length xs ≤ n → drop n xs ≡ []
drop_all zero [] h = refl
drop_all zero (x ∷ xs) h = absurd (omega arith)
drop_all (suc n) [] h = refl
drop_all (suc n) (x ∷ xs) h = drop_all n xs (omega arith)

write_all-at_end : (bs done : Bytes) → write_all bs (at_end done) ≡ at_end (done ++ bs)
unfolding write_all
write_all-at_end bs done =
    rw (take-length done, drop_all (length done + length bs) done (omega arith), append-nil bs)
      (ap (λ n. record { written = done ++ bs; position = n }) (sym (length-append done bs)))

write_length-at_end :
    (n : ℕ) (done : Bytes) → write_length n (at_end done) ≡ at_end (done ++ to_le_bytes 8 n)
unfolding write_length
write_length-at_end n done = write_all-at_end (to_le_bytes 8 n) done

write_len_and_bytes-at_end :
    (bs done : Bytes) → write_len_and_bytes bs (at_end done) ≡ at_end (done ++ encode_bytes bs)
unfolding write_len_and_bytes
write_len_and_bytes-at_end bs done =
    ap (write_all bs) (write_length-at_end (length bs) done)
    ∙ (write_all-at_end bs (done ++ to_le_bytes 8 (length bs))
        ∙ ap at_end (append_assoc done (to_le_bytes 8 (length bs)) bs))

write_each-at_end :
    {A : Type 0} (P : A → Type 0) (f : A → Writer → Writer) (encode : A → Bytes)
    → ((x : A) (done : Bytes) → P x → f x (at_end done) ≡ at_end (done ++ encode x))
    → (xs : List A) (done : Bytes) → All P xs
    → write_each f xs (at_end done) ≡ at_end (done ++ encode_all encode xs)
unfolding write_each encode_all
write_each-at_end P f encode step [] done h = ap at_end (sym (append-nil done))
write_each-at_end P f encode step (x ∷ xs) done (h, hs) =
    ap (write_each f xs) (step x done h)
    ∙ (write_each-at_end P f encode step xs (done ++ encode x) hs
        ∙ ap at_end (append_assoc done (encode x) (encode_all encode xs)))

every_unit : {A : Type 0} (xs : List A) → All (λ x. Unit {0}) xs
every_unit [] = tt
every_unit (x ∷ xs) = (tt, every_unit xs)

write_row-at_end :
    (vecs : List Bytes) (done : Bytes)
    → write_row vecs (at_end done) ≡ at_end (done ++ encode_row vecs)
unfolding write_row
write_row-at_end vecs done =
    let n = to_le_bytes 8 (length vecs) in
    ap (write_each write_len_and_bytes vecs) (write_length-at_end (length vecs) done)
    ∙ (write_each-at_end (λ bs. Unit {0}) write_len_and_bytes encode_bytes
          (λ bs l u. write_len_and_bytes-at_end bs l) vecs (done ++ n) (every_unit vecs)
        ∙ ap at_end (append_assoc done n (encode_all encode_bytes vecs)))

write_rows-at_end :
    (rows : List (List Bytes)) (count : ℕ) (done : Bytes)
    → count + length rows < u64_mod
    → write_rows rows count (at_end done)
      ≡ (count + length rows, at_end (done ++ encode_all encode_row rows))
unfolding write_rows encode_all
write_rows-at_end [] count done h = ap₂ (λ k l. (k, at_end l)) (omega arith) (sym (append-nil done))
write_rows-at_end (vecs ∷ rows) count done h =
    let next : (count + 1) % u64_mod ≡ count + 1 = omega arith in
    ap₂ (λ k w. write_rows rows k w) next (write_row-at_end vecs done)
    ∙ (write_rows-at_end rows (count + 1) (done ++ encode_row vecs) (omega arith)
        ∙ ap₂ (λ k l. (k, at_end l)) (omega arith)
            (append_assoc done (encode_row vecs) (encode_all encode_row rows)))

-- Writing over a length that stands before the end.
overwrite-length :
    (n : ℕ) (done rest : Bytes)
    → let whole = done ++ (to_le_bytes 8 0 ++ rest) in
      let patched = done ++ (to_le_bytes 8 n ++ rest) in
      seek_start (length whole) (write_length n (seek_start (length done) (at_end whole)))
      ≡ at_end patched
unfolding write_length write_all
overwrite-length n done rest =
    let zeros = to_le_bytes 8 0 in
    let k = length done + length (to_le_bytes 8 n) in
    let same : length zeros ≡ length (to_le_bytes 8 n) =
      length-to_le_bytes 8 0 ∙ sym (length-to_le_bytes 8 n) in
    let after : drop k (done ++ (zeros ++ rest)) ≡ rest =
      ap (drop k) (sym (append_assoc done zeros rest))
      ∙ drop_append k (done ++ zeros) rest (omega (arith, same, length-append done zeros)) in
    ap₂ (λ l m. record { written = l; position = m })
      (ap₂ (λ l m. l ++ (to_le_bytes 8 n ++ m))
        (take_append (length done) done (zeros ++ rest) refl) after)
      (omega (
        arith,
        same,
        length-append done (zeros ++ rest),
        length-append zeros rest,
        length-append done (to_le_bytes 8 n ++ rest),
        length-append (to_le_bytes 8 n) rest,
      ))

write_tree-at_end :
    (tree : ExportedTree) (done : Bytes)
    → length (tree.2) < u64_mod
    → write_tree tree (at_end done) ≡ at_end (done ++ encode_tree tree)
unfolding write_tree write_counted
write_tree-at_end (typ, name, vvecs) done h =
    let start = done ++ encode_bytes typ in
    let ready = start ++ encode_bytes name in
    let rows = encode_all encode_row vvecs in
    let n = length vvecs in
    let named : write_len_and_bytes name (write_len_and_bytes typ (at_end done)) ≡ at_end ready =
      ap (write_len_and_bytes name) (write_len_and_bytes-at_end typ done)
      ∙ write_len_and_bytes-at_end name start in
    let counted : write_rows vvecs 0 (write_length 0 (at_end ready))
        ≡ (n, at_end (ready ++ (to_le_bytes 8 0 ++ rows))) =
      ap (write_rows vvecs 0) (write_length-at_end 0 ready)
      ∙ (write_rows-at_end vvecs 0 (ready ++ to_le_bytes 8 0) (omega arith)
          ∙ ap₂ (λ k l. (k, at_end l)) (omega arith) (append_assoc ready (to_le_bytes 8 0) rows)) in
    ap (write_counted vvecs) named
    ∙ (ap (λ c. seek_start c.1.position (write_length c.0 (seek_start (length ready) c.1))) counted
        ∙ (overwrite-length n ready rows
            ∙ ap at_end (
                append_assoc start (encode_bytes name) (to_le_bytes 8 n ++ rows)
                ∙ append_assoc done (encode_bytes typ)
                    (encode_bytes name ++ (to_le_bytes 8 n ++ rows)))))

dump_export_lem :
    (trees : List ExportedTree)
    → All (λ t. length t.2 < u64_mod) trees
    → dump_export trees ≡ to_le_bytes 8 (length trees) ++ encode_all encode_tree trees
unfolding dump_export
dump_export_lem trees fits =
    let n = to_le_bytes 8 (length trees) in
    ap (λ w. (write_each write_tree trees w).written) (write_length-at_end (length trees) [])
    ∙ ap (λ w. w.written)
        (write_each-at_end (λ t. length t.2 < u64_mod) write_tree encode_tree write_tree-at_end
          trees n fits)

read_exact_lem :
    (n : ℕ) (bs rest : Bytes) → length bs ≡ n → read_exact n (bs ++ rest) ≡ ok (bs, rest)
unfolding read_exact
read_exact_lem n bs rest h =
    rw (take_append n bs rest h)
      (rw (drop_append n bs rest h) (ground (arith, length-append bs rest)))

read_length_lem :
    (n : ℕ) (rest : Bytes) → n < u64_mod → read_length (to_le_bytes 8 n ++ rest) ≡ ok (n, rest)
unfolding read_length
read_length_lem n rest h =
    rw (read_exact_lem 8 (to_le_bytes 8 n) rest (length-to_le_bytes 8 n))
      (ap (λ k. ok (k, rest)) (from_le_bytes-to_le_bytes 8 n (omega arith)))

read_bytes_lem :
    (bs rest : Bytes)
    → length bs < u64_mod
    → read_bytes_starting_with_len (encode_bytes bs ++ rest) ≡ ok (bs, rest)
unfolding read_bytes_starting_with_len
read_bytes_lem bs rest h =
    rw
      (append_assoc (to_le_bytes 8 (length bs)) bs rest, read_length_lem (length bs) (bs ++ rest) h)
      (read_exact_lem (length bs) bs rest refl)

read_times_lem :
    {A : Type 0} (P : A → Type 0) (f : Bytes → Res (A × Bytes)) (encode : A → Bytes)
    → ((x : A) (rest : Bytes) → P x → f (encode x ++ rest) ≡ ok (x, rest))
    → (xs : List A) (rest : Bytes) → All P xs
    → read_times (length xs) f (encode_all encode xs ++ rest) ≡ ok (xs, rest)
unfolding read_times encode_all
read_times_lem P f encode step [] rest h = refl
read_times_lem P f encode step (x ∷ xs) rest (h, hs) =
    rw
      (
        append_assoc (encode x) (encode_all encode xs) rest,
        step x (encode_all encode xs ++ rest) h,
        read_times_lem P f encode step xs rest hs,
      )
      refl

-- Every length fits into a `usize`.
abbrev pub FitsRow : List Bytes → Type 0
FitsRow vecs = (length vecs < u64_mod) × All (λ bs. length bs < u64_mod) vecs

abbrev pub FitsTree : ExportedTree → Type 0
FitsTree (typ, name, vvecs) =
    (length typ < u64_mod) × (length name < u64_mod) × (length vvecs < u64_mod) × All FitsRow vvecs

read_row_lem :
    (vecs : List Bytes) (rest : Bytes)
    → FitsRow vecs
    → read_row (encode_row vecs ++ rest) ≡ ok (vecs, rest)
unfolding read_row
read_row_lem vecs rest (h, hs) =
    rw
      (
        append_assoc (to_le_bytes 8 (length vecs)) (encode_all encode_bytes vecs) rest,
        read_length_lem (length vecs) (encode_all encode_bytes vecs ++ rest) h,
      )
      (read_times_lem (λ bs. length bs < u64_mod) read_bytes_starting_with_len encode_bytes
        read_bytes_lem vecs rest hs)

read_tree_lem :
    (tree : ExportedTree) (rest : Bytes)
    → FitsTree tree
    → read_tree (encode_tree tree ++ rest) ≡ ok (tree, rest)
unfolding read_tree
read_tree_lem (typ, name, vvecs) rest (ht, hn, hv, hs) =
    let rows = encode_all encode_row vvecs in
    let n = to_le_bytes 8 (length vvecs) in
    let split : encode_tree (typ, name, vvecs) ++ rest
        ≡ encode_bytes typ ++ (encode_bytes name ++ (n ++ (rows ++ rest))) =
      append_assoc (encode_bytes typ) (encode_bytes name ++ (n ++ rows)) rest
      ∙ ap (λ l. encode_bytes typ ++ l)
          (append_assoc (encode_bytes name) (n ++ rows) rest
            ∙ ap (λ l. encode_bytes name ++ l) (append_assoc n rows rest)) in
    ap read_tree split
    ∙ rw
        (
          read_bytes_lem typ (encode_bytes name ++ (n ++ (rows ++ rest))) ht,
          read_bytes_lem name (n ++ (rows ++ rest)) hn,
          read_length_lem (length vvecs) (rows ++ rest) hv,
          read_times_lem FitsRow read_row encode_row read_row_lem vvecs rest hs,
        )
        refl

rows_fit : (trees : List ExportedTree) → All FitsTree trees → All (λ t. length t.2 < u64_mod) trees
rows_fit [] h = tt
rows_fit (t ∷ ts) (h, hs) = (h.2, rows_fit ts hs)

-- Reading the file that a checkpoint has written yields the export of the database: its trees in
-- their order, with their types, names and rows. Every length in the export fits into a `usize`.
pub parse_dumped_sled_export-dump_export :
    (trees : List ExportedTree)
    → length trees < u64_mod
    → All FitsTree trees
    → parse_dumped_sled_export (dump_export trees) ≡ ok trees
unfolding parse_dumped_sled_export
parse_dumped_sled_export-dump_export trees h fits =
    let n = to_le_bytes 8 (length trees) in
    let body = encode_all encode_tree trees in
    let whole : dump_export trees ≡ n ++ (body ++ []) =
      dump_export_lem trees (rows_fit trees fits) ∙ ap (λ l. n ++ l) (sym (append-nil body)) in
    rw
      (
        whole,
        read_length_lem (length trees) (body ++ []) h,
        read_times_lem FitsTree read_tree encode_tree read_tree_lem trees [] fits,
      )
      refl
