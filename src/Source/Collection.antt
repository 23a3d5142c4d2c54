-- ===== src/Source/Collection.antt =====
-- execution-plane/arcon/src/stream/source/collection.rs: the source over a collection.
use arcon.Common.{
  ℕ, zero, suc, ◌+◌, ◌-◌, List, [], ◌∷◌, min, Res, ok, out_of_fuel, length, take, drop, ◌==◌,
  if◌then◌else◌,
}
use arcon.Node.Defs.{Operator}
use arcon.Source.{SourceContext, extract_element, process, generate_watermark}

abbrev pub reschedule_every : ℕ
reschedule_every = 500000

-- `pending` is the number of messages `ContinueSending` on the loopback port.
pub record CollectionSource (IN OUT S T : Type 0) : Type 0 where
  pub source_ctx : SourceContext IN OUT S T
  pub collection : List IN
  pub counter : ℕ
  pub pending : ℕ

module _ {IN OUT S T : Type 0} where
  unfoldable pub new_source : List IN → SourceContext IN OUT S T → CollectionSource IN OUT S T
  new_source collection c = record {
    source_ctx = c;
    collection = collection;
    counter = 0;
    pending = 0;
  }

  -- `loopback_send.trigger(ContinueSending)`.
  abbrev pub trigger : CollectionSource IN OUT S T → CollectionSource IN OUT S T
  trigger s = record s { pending = s.pending + 1 }

  unfoldable pub on_start : CollectionSource IN OUT S T → CollectionSource IN OUT S T
  on_start s = trigger s

  module _ {TS : Type 0} (op : Operator IN OUT TS S T) (clock : ℕ → ℕ) where
    -- The body of the loop over the records.
    unfoldable pub send_record : IN → SourceContext IN OUT S T × ℕ → SourceContext IN OUT S T × ℕ
    unfolding extract_element process generate_watermark
    send_record value (c, counter) =
        let r = extract_element value c in
        let c' = process op r.0 r.1 in
        let counter' = counter + 1 in
        if counter' == c'.watermark_interval
        then (generate_watermark clock c', 0)
        else (c', counter')

    unfoldable pub send_records :
        List IN → SourceContext IN OUT S T × ℕ → SourceContext IN OUT S T × ℕ
    unfolding send_record
    send_records [] s = s
    send_records (value ∷ rest) s = send_records rest (send_record value s)

    unfoldable pub process_collection : CollectionSource IN OUT S T → CollectionSource IN OUT S T
    unfolding send_records generate_watermark
    process_collection s =
        let drain_to = min reschedule_every (length s.collection) in
        let r = send_records (take drain_to s.collection) (s.source_ctx, s.counter) in
        let s' : CollectionSource IN OUT S T = record s {
          source_ctx = r.0;
          counter = r.1;
          collection = drop drain_to s.collection;
        } in
        if length s'.collection == 0
        then record s' { source_ctx = generate_watermark clock s'.source_ctx }
        else trigger s'

    -- The handler of a loopback message, run until none is pending.
    unfoldable pub run : ℕ → CollectionSource IN OUT S T → Res (CollectionSource IN OUT S T)
    unfolding process_collection
    run zero s = out_of_fuel
    run (suc fuel) s =
        let again : CollectionSource IN OUT S T → Res (CollectionSource IN OUT S T) = run fuel in
        if s.pending == 0
        then ok s
        else again (process_collection (record s { pending = s.pending - 1 }))
