-- ===== src/State/Sled.antt =====
-- execution-plane/arcon/arcon_state/src/sled/mod.rs: the checkpoint of the state backend over sled, an
-- export of the database in one file, and how it is read back. The export itself is the crate sled's.
-- Writing to the file is taken to succeed, and a vector of any length to be allocated.
pub mod Database
pub mod Values
pub mod Maps
pub mod Vecs
pub mod VecLaws
pub mod MapLaws
pub mod Laws
mod Examples
use arcon.Common.{
  ℕ, zero, suc, ◌+◌, ◌%◌, List, [], ◌∷◌, ◌++◌, Res, ok, err, Error, ◌>>=◌, length, take, drop, ltb,
  if◌then◌else◌, u64_mod,
}
use arcon.State.Serialization.{Bytes, to_le_bytes, from_le_bytes}

-- The type, the name and the rows of a tree.
abbrev pub ExportedTree : Type 0
ExportedTree = Bytes × Bytes × List (List Bytes)

-- A file that is written at a position.
pub record Writer : Type 0 where
  pub written : Bytes
  pub position : ℕ

unfoldable pub write_all : Bytes → Writer → Writer
write_all bs w = record {
  written = take w.position w.written ++ (bs ++ drop (w.position + length bs) w.written);
  position = w.position + length bs;
}

abbrev pub seek_start : ℕ → Writer → Writer
seek_start position w = record w { position = position }

unfoldable pub write_length : ℕ → Writer → Writer
unfolding write_all
write_length n w = write_all (to_le_bytes 8 n) w

unfoldable pub write_len_and_bytes : Bytes → Writer → Writer
unfolding write_all write_length
write_len_and_bytes bs w = write_all bs (write_length (length bs) w)

-- A `for` loop that writes.
unfoldable pub write_each : {A : Type 0} → (A → Writer → Writer) → List A → Writer → Writer
write_each f [] w = w
write_each f (x ∷ xs) w = write_each f xs (f x w)

unfoldable pub write_row : List Bytes → Writer → Writer
unfolding write_each write_length write_len_and_bytes
write_row vecs w = write_each write_len_and_bytes vecs (write_length (length vecs) w)

-- The loop over the rows, which counts them.
unfoldable pub write_rows : List (List Bytes) → ℕ → Writer → ℕ × Writer
unfolding write_row
write_rows [] count w = (count, w)
write_rows (vecs ∷ rows) count w = write_rows rows ((count + 1) % u64_mod) (write_row vecs w)

-- A dummy length stands before the rows until they have been counted.
unfoldable pub write_counted : List (List Bytes) → Writer → Writer
unfolding write_length write_rows
write_counted vvecs w =
    let counted = write_rows vvecs 0 (write_length 0 w) in
    seek_start counted.1.position (write_length counted.0 (seek_start w.position counted.1))

unfoldable pub write_tree : ExportedTree → Writer → Writer
unfolding write_len_and_bytes write_counted
write_tree (typ, name, vvecs) w =
    write_counted vvecs (write_len_and_bytes name (write_len_and_bytes typ w))

-- The file that `checkpoint` leaves.
unfoldable pub dump_export : List ExportedTree → Bytes
unfolding write_each write_tree write_length
dump_export trees =
    (write_each write_tree trees
      (write_length (length trees) (record { written = []; position = 0 }))).written

unfoldable pub read_exact : ℕ → Bytes → Res (Bytes × Bytes)
read_exact n r = if ltb (length r) n then err Error.unexpected_eof else ok (take n r, drop n r)

unfoldable pub read_length : Bytes → Res (ℕ × Bytes)
unfolding read_exact
read_length r = do (length_bytes, r') ← read_exact 8 r; ok (from_le_bytes length_bytes, r')

unfoldable pub read_bytes_starting_with_len : Bytes → Res (Bytes × Bytes)
unfolding read_exact read_length
read_bytes_starting_with_len r = do (n, r') ← read_length r; read_exact n r'

-- A `for` loop that reads.
unfoldable pub read_times :
    {A : Type 0} → ℕ → (Bytes → Res (A × Bytes)) → Bytes → Res (List A × Bytes)
read_times zero f r = ok ([], r)
read_times (suc n) f r = do (x, r') ← f r; (xs, r'') ← read_times n f r'; ok (x ∷ xs, r'')

unfoldable pub read_row : Bytes → Res (List Bytes × Bytes)
unfolding read_length read_times read_bytes_starting_with_len
read_row r = do (n, r') ← read_length r; read_times n read_bytes_starting_with_len r'

unfoldable pub read_tree : Bytes → Res (ExportedTree × Bytes)
unfolding read_bytes_starting_with_len read_length read_times read_row
read_tree r = do
  (typ, r1) ← read_bytes_starting_with_len r
  (name, r2) ← read_bytes_starting_with_len r1
  (n, r3) ← read_length r2
  (vvecs, r4) ← read_times n read_row r3
  ok ((typ, name, vvecs), r4)

unfoldable pub parse_dumped_sled_export : Bytes → Res (List ExportedTree)
unfolding read_length read_times read_tree
parse_dumped_sled_export r = do
  (n, r1) ← read_length r
  (trees, r2) ← read_times n read_tree r1
  ok trees
