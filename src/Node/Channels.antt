-- ===== src/Node/Channels.antt =====
-- The blocked channels are among the input channels, so when there are as many, all are blocked.
use arcon.Common.{
  ◌+◌, ◌≤◌, ◌<◌, ◌≡◌, refl, ◌≢◌, true, none, List, [], ◌∷◌, arith, length, ◌==◌, if◌then◌else◌,
  ℕ_discrete, Option-cases, inl, inr,
}
use arcon.Common.Assoc.{get, insert, IsMap, is_some}
use arcon.Data.{NodeId}
use arcon.Node.Defs.{contains}

abbrev pub Blocked : Type 0
Blocked = List (NodeId × Unit {0})

abbrev pub KeysIn : List NodeId → Blocked → Type 0
KeysIn cs [] = Unit {0}
KeysIn cs ((k, u) ∷ m) = (contains k cs ≡ true) × KeysIn cs m

-- Every channel of the list is blocked.
abbrev pub AllBlocked : List NodeId → Blocked → Type 0
AllBlocked [] m = Unit {0}
AllBlocked (c ∷ cs) m = (is_some (get ℕ_discrete c m) ≡ true) × AllBlocked cs m

delete : NodeId → List NodeId → List NodeId
delete c [] = []
delete c (d ∷ ds) = if d == c then ds else d ∷ delete c ds

length-delete :
    (c : NodeId) (cs : List NodeId) → contains c cs ≡ true → length (delete c cs) + 1 ≡ length cs
unfolding contains delete
length-delete c [] h = absurd (ground arith)
length-delete c (d ∷ ds) h = ground (arith, length-delete c ds)

contains-delete :
    (c k : NodeId) (cs : List NodeId)
    → k ≢ c
    → contains k cs ≡ true
    → contains k (delete c cs) ≡ true
unfolding contains delete
contains-delete c k [] n h = h
contains-delete c k (d ∷ ds) n h = ground (arith, contains-delete c k ds n)

KeysIn-delete :
    (c : NodeId) (cs : List NodeId) (m : Blocked)
    → KeysIn cs m
    → get ℕ_discrete c m ≡ none
    → KeysIn (delete c cs) m
unfolding get
KeysIn-delete c cs [] k h = tt
KeysIn-delete c cs ((j, u) ∷ m) k h =
    ground (arith, KeysIn-delete c cs m k.1, contains-delete c j cs)

pub length-KeysIn :
    (cs : List NodeId) (m : Blocked) → IsMap ℕ_discrete m → KeysIn cs m → length m ≤ length cs
length-KeysIn cs [] d k = omega arith
length-KeysIn cs ((j, u) ∷ m) d k = omega (
  arith,
  length-delete j cs k.0,
  length-KeysIn (delete j cs) m d.1 (KeysIn-delete j cs m k.1 d.0),
)

pub KeysIn-insert :
    (c : NodeId) (cs : List NodeId) (m : Blocked)
    → contains c cs ≡ true
    → KeysIn cs m
    → KeysIn cs (insert ℕ_discrete c tt m)
unfolding insert
KeysIn-insert c cs [] h k = (h, tt)
KeysIn-insert c cs ((j, u) ∷ m) h k = ground (arith, KeysIn-insert c cs m h k.1)

pub contains_self : (c : NodeId) (cs : List NodeId) → contains c (c ∷ cs) ≡ true
unfolding contains
contains_self c cs = ground arith

contains_tail :
    (c d : NodeId) (cs : List NodeId) → contains c cs ≡ true → contains c (d ∷ cs) ≡ true
unfolding contains
contains_tail c d cs h = ground arith

blocked_of_full :
    (c : NodeId) (cs : List NodeId) (m : Blocked)
    → IsMap ℕ_discrete m
    → KeysIn cs m
    → length m ≡ length cs
    → contains c cs ≡ true
    → is_some (get ℕ_discrete c m) ≡ true
blocked_of_full c cs m d k e h = elim (Option-cases (get ℕ_discrete c m)) [
  | inl missing ↦ absurd (
      omega (
        arith,
        length-delete c cs h,
        length-KeysIn (delete c cs) m d (KeysIn-delete c cs m k missing),
      ))
  | inr (u, found) ↦ rw found refl
]

AllBlocked-below :
    (ds cs : List NodeId) (m : Blocked)
    → ((c : NodeId) → contains c ds ≡ true → contains c cs ≡ true)
    → IsMap ℕ_discrete m
    → KeysIn cs m
    → length m ≡ length cs
    → AllBlocked ds m
AllBlocked-below [] cs m sub d k e = tt
AllBlocked-below (c ∷ ds) cs m sub d k e = (
  blocked_of_full c cs m d k e (sub c (contains_self c ds)),
  AllBlocked-below ds cs m (λ j h. sub j (contains_tail j c ds h)) d k e,
)

-- As many blocked channels as there are input channels: every input channel is blocked.
pub AllBlocked-of_full :
    (cs : List NodeId) (m : Blocked)
    → IsMap ℕ_discrete m
    → KeysIn cs m
    → length m ≡ length cs
    → AllBlocked cs m
AllBlocked-of_full cs m d k e = AllBlocked-below cs cs m (λ c h. h) d k e

pub length_of_contains : (c : NodeId) (cs : List NodeId) → contains c cs ≡ true → 0 < length cs
unfolding contains
length_of_contains c [] h = absurd (ground arith)
length_of_contains c (d ∷ ds) h = omega arith
