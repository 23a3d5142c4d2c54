-- ===== src/Data.antt =====
-- execution-plane/arcon/src/data/mod.rs: the events and messages that nodes exchange. Node ids,
-- watermarks and epochs are the numbers that their structs wrap.
use arcon.Common.{ℕ, List, Option, none, some, Res, or_panic}

abbrev pub NodeId : Type 0
NodeId = ℕ

abbrev pub Watermark : Type 0
Watermark = ℕ

abbrev pub Epoch : Type 0
Epoch = ℕ

pub record ArconElement (A : Type 0) : Type 0 where
  pub payload : A
  pub timestamp : Option ℕ

-- The death message is text, its bytes here.
pub data ArconEvent (A : Type 0) : Type 0 where
  element : ArconElement A → ArconEvent A
  watermark : Watermark → ArconEvent A
  epoch : Epoch → ArconEvent A
  death : List ℕ → ArconEvent A

-- A protobuf field may be missing.
pub record ArconEventWrapper (A : Type 0) : Type 0 where
  pub inner : Option (ArconEvent A)

-- `From<ArconEvent>`.
abbrev pub wrap : {A : Type 0} → ArconEvent A → ArconEventWrapper A
wrap e = record { inner = some e }

abbrev pub unwrap : {A : Type 0} → ArconEventWrapper A → Res (ArconEvent A)
unwrap w = or_panic w.inner

abbrev pub new_element : {A : Type 0} → A → ArconElement A
new_element a = record { payload = a; timestamp = none }

abbrev pub with_timestamp : {A : Type 0} → A → ℕ → ArconElement A
with_timestamp a ts = record { payload = a; timestamp = some ts }

-- `RawArconMessage`, and what a receiver reads out of the buffer of an `ArconMessage`.
pub record RawArconMessage (A : Type 0) : Type 0 where
  pub events : List (ArconEventWrapper A)
  pub sender : NodeId
