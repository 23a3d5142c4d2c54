-- ===== src/Window/Examples.antt =====
-- A window operator that counts, and instances of the theorems on windows.
use arcon.Common.{
  length, true, ◌++◌, ℕ, ◌+◌, ◌*◌, ◌%◌, ◌≤◌, ◌<◌, ◌≡◌, refl, ◌↔◌, false, none, some, List, [], ◌∷◌,
  ok, arith, leb, if◌then◌else◌, u64_mod, ℕ_discrete,
}
use arcon.Common.Assoc.{get, insert}
use arcon.Data.{with_timestamp}
use arcon.Window.{
  EventTimeWindowAssigner, pair_discrete, WindowEvent, Window, Timer, State, new, ceil_of, floor_of,
  new_window_trigger, insert_into, insert_all, handle_element,
}
use arcon.Window.Assignment.{
  IsAssigner, new-IsAssigner, floor_of-ceil_of, new_window_trigger-ceil_of,
}
use arcon.Window.Effects.{IsActive, handle_element-IsActive}
use arcon.State.Serialization.{to_le_bytes, int_bytes}
use arcon.State.Serialization.Laws.{width_mod, int_bytes-IsFixed}
use arcon.State.Handle.{metakey_size, set_item_key, set_namespace}
use arcon.State.Handle.Laws.{serialize_metakeys_lem}
use arcon.State.InMemory.{bytes_discrete, Stored, InMemory}
use arcon.State.InMemory.Vecs.{vec_get}
use arcon.State.InMemory.ValueLaws.{IsOpen}
use arcon.Window.Appender.{
  AppenderWindow, buffer_at, append_all, appender_result, appender_clear,
  appender_result-append_all,
}
use arcon.Window.Incremental.{
  incremental_aggregator, IncrementalWindow, new_incremental, aggregator_at, incremental_all,
  incremental_result, incremental_result-incremental_all,
}
use arcon.State.InMemory.Cells.{cell}
use arcon.State.InMemory.Values.{typed_option}
use arcon.Common.{Option, panic, Res, err, Error, zero, suc}
use arcon.State.Serialization.{Bytes, put_slice}
use arcon.State.Handle.{Message}
use arcon.State.Handle.Laws.{IsMessage}
use arcon.State.Rocks.Values.{deserialize}
use arcon.State.Rocks.Aggregators.{aggregator_merge, merge_all, merge_slices, first_accumulator}
use arcon.Window.Merging.{aggregator_merge-incremental_aggregator}
use arcon.State.Handle.{with_extra, with_item_key, with_namespace}

-- Windows of length 10 that slide by 5.
abbrev sliding : EventTimeWindowAssigner
sliding = record { window_length = 10; window_slide = 5; late_arrival_time = 0; keyed = false }

-- A window keeps what it has been given, with its index.
abbrev logging : Window ℕ ℕ (List (ℕ × ℕ))
logging = record {
  on_element = λ v key index s. ok ((index, v) ∷ s);
  result = λ key index s. ok index;
  clear = λ key index s. ok s;
}

-- The time, and what has been scheduled.
abbrev agenda : Timer (ℕ × List (ℕ × WindowEvent))
agenda = record {
  current_time = λ t. t.0;
  schedule_at = λ time e t. if leb time t.0 then none else some (t.0, (time, e) ∷ t.1);
}

abbrev started : State ℕ (List (ℕ × ℕ)) (ℕ × List (ℕ × WindowEvent))
started = record {
  window_start = (0, 100) ∷ [];
  active_windows = [];
  session = [];
  timer = (100, []);
  sent = [];
}

sliding-IsAssigner : IsAssigner sliding
unfolding new
sliding-IsAssigner = new-IsAssigner 10 5 0 false sliding refl

new-IsAssigner_example : IsAssigner sliding
unfolding new
new-IsAssigner_example = new-IsAssigner 10 5 0 false sliding refl

floor_of-ceil_of_example :
    (floor_of sliding (ceil_of sliding 100 113) ≤ 1) × (1 ≤ ceil_of sliding 100 113)
    ↔ (100 + 1 * 5 ≤ 113) × (113 < 100 + 1 * 5 + 10)
floor_of-ceil_of_example =
    floor_of-ceil_of sliding 100 113 1 sliding-IsAssigner (omega arith) (omega arith)

-- An element at time 95, from before the start of its key at time 100.
new_window_trigger-ceil_of_example :
    (end : ℕ) × (new_window_trigger logging agenda
        (λ n. n)
        sliding
        0
        (ceil_of sliding 100 95)
        started
      ≡ elim (agenda.schedule_at
            ((end + 0) % u64_mod)
            (record { key = 0; index = ceil_of sliding 100 95; timestamp = end })
            started.timer)
          as (λ _. Res (State ℕ (List (ℕ × ℕ)) (ℕ × List (ℕ × WindowEvent)))) [
            | none ↦ panic
            | some t ↦ ok (record started { timer = t })
          ])
    × (95 < end)
    × (end ≤ 95 + 10)
unfolding get ℕ_discrete
new_window_trigger-ceil_of_example =
    new_window_trigger-ceil_of logging agenda (λ n. n) sliding 0 100 95 started sliding-IsAssigner
      refl (omega arith) (omega arith)

-- The state after an element at time 113.
abbrev after_113 : State ℕ (List (ℕ × ℕ)) (ℕ × List (ℕ × WindowEvent))
after_113 = record {
  window_start = (0, 100) ∷ [];
  active_windows = ((0, 1), tt) ∷ ((0, 2), tt) ∷ [];
  session = (2, 42) ∷ (1, 42) ∷ [];
  timer = (
    100,
    (120, record { key = 0; index = 2; timestamp = 120 })
        ∷ (115, record { key = 0; index = 1; timestamp = 115 })
        ∷ [],
  );
  sent = [];
}

after_113_run :
    handle_element logging agenda (λ n. n) sliding (with_timestamp 42 113) started ≡ ok after_113
unfolding handle_element insert_all insert_into new_window_trigger ceil_of floor_of get insert
    pair_discrete ℕ_discrete
after_113_run = refl

handle_element-IsActive_example : IsActive (0, 1) after_113
unfolding get ℕ_discrete
handle_element-IsActive_example =
    handle_element-IsActive logging agenda (λ n. n) sliding (with_timestamp 42 113) started
      after_113 100 1 sliding-IsAssigner refl (omega arith) (omega arith) (omega arith)
      after_113_run (omega arith) (omega arith)

-- A window that counts its elements; the backend holds lists of numbers only.
abbrev counting : AppenderWindow ℕ ℕ
counting = record {
  buffer = record { id = 9 ∷ []; item_key = 0; namespace = 0; extra_data = tt; registered = true };
  materializer = length;
}

abbrev plain : Stored (List ℕ) (List ℕ)
plain = record { box = λ ns. ns; downcast = λ ns. some ns }

abbrev no_windows : InMemory (List ℕ)
no_windows = record { data_map = (9 ∷ [], []) ∷ [] }

registered_buffer : get bytes_discrete (9 ∷ []) no_windows.data_map ≡ some []
unfolding get bytes_discrete ℕ_discrete
registered_buffer = refl

metakeys_fit : metakey_size (int_bytes 8) (int_bytes 8) ≤ 18446744073709551615
unfolding metakey_size int_bytes
metakeys_fit = omega arith

three_fits : 3 < width_mod 8
three_fits = omega arith

two_fits : 2 < width_mod 8
two_fits = omega arith

no_windows-IsOpen :
    IsOpen
      (int_bytes 8)
      (int_bytes 8)
      (buffer_at plain counting 3 2)
      no_windows
      (to_le_bytes 8 3 ++ to_le_bytes 8 2)
unfolding set_item_key set_namespace
no_windows-IsOpen = record {
  table = [];
  registered = registered_buffer;
  serialized =
      (serialize_metakeys_lem (int_bytes-IsFixed 8) (int_bytes-IsFixed 8)
        (buffer_at plain counting 3 2) three_fits two_fits metakeys_fit).0;
}

no_windows-empty :
    vec_get plain (int_bytes 8) (int_bytes 8) no_windows (buffer_at plain counting 3 2) ≡ ok []
unfolding vec_get get bytes_discrete ℕ_discrete set_item_key set_namespace
no_windows-empty = rw no_windows-IsOpen.serialized refl

appender_result-append_all_example :
    (appender_result plain counting 3 2 (append_all plain counting (5 ∷ 6 ∷ 5 ∷ []) 3 2 no_windows)
      ≡ ok 3)
    × (appender_result plain counting 3 2
          (appender_clear plain counting 3 2
            (append_all plain counting (5 ∷ 6 ∷ 5 ∷ []) 3 2 no_windows)).1
        ≡ ok 0)
appender_result-append_all_example =
    appender_result-append_all plain counting (λ ns. refl) 3 2 (to_le_bytes 8 3 ++ to_le_bytes 8 2)
      (5 ∷ 6 ∷ 5 ∷ []) no_windows no_windows-IsOpen no_windows-empty

-- A window that sums, from ten times the first of its elements.
abbrev summing : IncrementalWindow ℕ ℕ
summing = new_incremental (9 ∷ []) (λ n. 10 * n) ◌+◌

abbrev sums : Stored (Option ℕ) (Option ℕ)
sums = record { box = λ o. o; downcast = λ o. some o }

abbrev no_sums : InMemory (Option ℕ)
no_sums = record { data_map = (9 ∷ [], []) ∷ [] }

no_sums-IsOpen :
    IsOpen
      (int_bytes 8)
      (int_bytes 8)
      (aggregator_at sums summing 3 2)
      no_sums
      (to_le_bytes 8 3 ++ to_le_bytes 8 2)
unfolding new_incremental with_extra with_item_key with_namespace set_item_key set_namespace get
    bytes_discrete ℕ_discrete
no_sums-IsOpen = record {
  table = [];
  registered = refl;
  serialized =
      (serialize_metakeys_lem (int_bytes-IsFixed 8) (int_bytes-IsFixed 8)
        (aggregator_at sums summing 3 2) three_fits two_fits metakeys_fit).0;
}

no_sums-empty :
    typed_option sums (cell no_sums (9 ∷ []) (to_le_bytes 8 3 ++ to_le_bytes 8 2)) ≡ ok none
unfolding cell get bytes_discrete ℕ_discrete
no_sums-empty = refl

incremental_result-incremental_all_example :
    (incremental_result sums summing 3 2 (incremental_all sums summing (5 ∷ 6 ∷ 7 ∷ []) 3 2 no_sums)
      ≡ ok 63)
    × (incremental_result sums summing 3 2 no_sums ≡ panic)
incremental_result-incremental_all_example =
    incremental_result-incremental_all sums (λ o. refl) (9 ∷ []) (λ n. 10 * n) ◌+◌ 3 2
      (to_le_bytes 8 3 ++ to_le_bytes 8 2) 5 (6 ∷ 7 ∷ []) no_sums no_sums-IsOpen no_sums-empty

-- Messages of a byte, and of an optional byte behind a tag.
abbrev octet : Message ℕ
octet = record {
  serialize_into = λ t n. ok (put_slice t (n ∷ []));
  deserialize_from =
      λ bytes. elim bytes [ [] ↦ err Error.protobuf_decode | x ∷ rest ↦ ok (x, rest) ];
}

octet-IsMessage : IsMessage octet (λ n. n ∷ [])
octet-IsMessage = record { writes = λ t n h. refl; reads = λ n rest. refl }

abbrev tagged : Option ℕ → Bytes
tagged none = 0 ∷ []
tagged (some n) = 1 ∷ n ∷ []

abbrev untagged : Bytes → Res (Option ℕ × Bytes)
untagged [] = err Error.protobuf_decode
untagged (zero ∷ rest) = ok (none, rest)
untagged (suc x ∷ []) = err Error.protobuf_decode
untagged (suc x ∷ n ∷ rest) = ok (some n, rest)

abbrev optional : Message (Option ℕ)
optional = record {
  serialize_into = λ t o. ok (put_slice t (tagged o));
  deserialize_from = untagged;
}

untagged-tagged : (o : Option ℕ) (rest : Bytes) → untagged (tagged o ++ rest) ≡ ok (o, rest)
untagged-tagged none rest = refl
untagged-tagged (some n) rest = refl

optional-IsMessage : IsMessage optional tagged
optional-IsMessage = record { writes = λ t o h. refl; reads = untagged-tagged }

aggregator_merge-incremental_aggregator_example :
    aggregator_merge octet optional
      (incremental_aggregator (λ n. 10 * n) ◌+◌)
      (some (172 ∷ 1 ∷ 30 ∷ []))
      ((0 ∷ 1 ∷ []) ∷ (172 ∷ 1 ∷ 45 ∷ []) ∷ [])
    ≡ panic
unfolding incremental_aggregator aggregator_merge merge_all merge_slices first_accumulator
    deserialize
aggregator_merge-incremental_aggregator_example =
    aggregator_merge-incremental_aggregator octet optional (λ n. n ∷ []) tagged octet-IsMessage
      optional-IsMessage (λ n. 10 * n) ◌+◌ (some 30) (1 ∷ []) (4 ∷ 5 ∷ []) [] (172 ∷ 1 ∷ 45 ∷ [])
      (omega arith) refl
