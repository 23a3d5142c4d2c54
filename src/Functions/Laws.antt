-- ===== src/Functions/Laws.antt =====
-- Operators on functions: three of them are special cases of FlatMap, and what a node with one of them
-- makes of a batch of elements.
use arcon.Common.{
  ◌≡◌, refl, sym, ap, ◌∙◌, inl, inr, Bool, some, List, [], ◌∷◌, ◌++◌, map, append-nil, append_assoc,
  ok, Bool-cases, if◌then◌else◌, ℕ_discrete,
}
use arcon.Common.Assoc.{get}
use arcon.Data.{NodeId, Watermark, ArconElement, ArconEvent, RawArconMessage}
use arcon.Node.Defs.{World, Operator, TimerBackend, Node, Config, M, set_world}
use arcon.Node.Events.{handle_events}
use arcon.Node.Delivery.{timely, feed, as_events, handle_events-timely}
use arcon.Functions.{
  on_elements, stateless, map_element, output_items, flat_map_element, filter_element,
  map_in_place_element,
}

abbrev pub kept : {X S : Type 0} → (X → S → Bool × S) → X → S → List X × S
kept udf x s = let r = udf x s in (if r.0 then x ∷ [] else [], r.1)

abbrev pub single : {X Y S : Type 0} → (X → S → Y × S) → X → S → List Y × S
single udf x s = let r = udf x s in (r.0 ∷ [], r.1)

-- What a function makes of elements: each value that it returns, with the element's timestamp.
abbrev pub outputs :
    {IN OUT : Type 0} → (IN → List OUT) → List (ArconElement IN) → List (ArconEvent OUT)
outputs f [] = []
outputs f (e ∷ es) =
    map (λ y. ArconEvent.element (record { payload = y; timestamp = e.timestamp })) (f e.payload)
    ++ outputs f es

module _ {IN OUT S T : Type 0} where
  -- Map, Filter and MapInPlace do what FlatMap does with a function that returns one value or, for
  -- Filter, none: they give out the same events and leave the same state.
  pub map_element-flat_map_element :
      (f : IN → S → OUT × S) (p : IN → S → Bool × S) (g : IN → S → IN × S) (e : ArconElement IN)
      (w : World S T OUT) (v : World S T IN)
      → (map_element f e w ≡ flat_map_element (single f) e w)
        × (filter_element p e v ≡ flat_map_element (kept p) e v)
        × (map_in_place_element g e v ≡ flat_map_element (single g) e v)
  unfolding map_element filter_element map_in_place_element flat_map_element
  map_element-flat_map_element f p g e w v = (
    refl,
    elim (Bool-cases (p e.payload v.session).0) [
      | inl yes_it ↦ rw (yes_it, filter_element, flat_map_element) refl
      | inr no_it ↦ rw (no_it, filter_element, flat_map_element) refl
    ],
    refl,
  )

  output_items_lem :
      (e : ArconElement IN) (ys : List OUT) (w : World S T OUT)
      → output_items e ys w ≡ record w {
        sent =
            w.sent
            ++ map (λ y. ArconEvent.element (record { payload = y; timestamp = e.timestamp })) ys;
      }
  unfolding output_items
  output_items_lem e [] w = ap (λ s. record w { sent = s }) (sym (append-nil w.sent))
  output_items_lem e (y ∷ ys) w =
      output_items_lem e ys _ ∙ ap (λ s. record w { sent = s }) (append_assoc w.sent (_ ∷ []) _)

  feed_lem :
      (TS : Type 0) (timer : TimerBackend TS S T) (cfg : Config) (f : IN → List OUT)
      (es : List (ArconElement IN)) (w : World S T OUT)
      → feed {TS = TS} (on_elements (flat_map_element (stateless f))) timer cfg es w
        ≡ record w { sent = w.sent ++ outputs f es }
  unfolding flat_map_element
  feed_lem TS timer cfg f [] w = ap (λ s. record w { sent = s }) (sym (append-nil w.sent))
  feed_lem TS timer cfg f (e ∷ es) w =
      ap (feed {TS = TS} (on_elements (flat_map_element (stateless f))) timer cfg es)
        (output_items_lem e (f e.payload) w)
      ∙ (feed_lem TS timer cfg f es _
          ∙ ap (λ s. record w { sent = s }) (append_assoc w.sent _ (outputs f es)))

module _ {IN OUT TS S T : Type 0} (timer : TimerBackend TS S T) (cfg : Config) where
  -- A node with a FlatMap on a function sends, for a batch of elements, the values of the function on those
  -- that are later than the watermark of their sender, in order and with their timestamps; nothing else
  -- changes. The sender has a watermark.
  pub handle_events-outputs :
      (f : IN → List OUT) (held : Bool)
      (d : Bool → List (RawArconMessage IN) → M IN OUT S T (Unit {0})) (sender : NodeId)
      (w : Watermark) (es : List (ArconElement IN)) (n : Node IN OUT S T)
      → get ℕ_discrete sender n.state.watermarks ≡ some w
      → let op : Operator IN OUT TS S T = on_elements (flat_map_element (stateless f)) in
        handle_events op timer cfg held d sender (as_events op timer cfg es) n ≡ (
          ok tt,
          set_world (λ v. record v { sent = v.sent ++ outputs f (timely op timer cfg w es) }) n,
        )
  handle_events-outputs f held d sender w es n h =
      let op : Operator IN OUT TS S T = on_elements (flat_map_element (stateless f)) in
      handle_events-timely op timer cfg held d sender w es n h
      ∙ ap (λ v. (ok tt, record n { world = v }))
          (feed_lem TS timer cfg f (timely op timer cfg w es) n.world)
