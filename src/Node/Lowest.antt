-- ===== src/Node/Lowest.antt =====
-- The lowest of the watermarks of the channels.
use arcon.Common.{
  ◌≤◌, ◌<◌, ◌≡◌, refl, ◌≢◌, ◌⊎◌, inl, inr, some, List, [], ◌∷◌, arith, subst, ℕ_discrete,
}
use arcon.Common.Assoc.{get, insert}
use arcon.Data.{NodeId, Watermark}
use arcon.Node.Defs.{lowest}

abbrev pub Watermarks : Type 0
Watermarks = List (NodeId × Watermark)

-- Every channel has at least this watermark, and some channel has exactly it.
abbrev pub AllGe : Watermark → Watermarks → Type 0
AllGe x [] = Unit {0}
AllGe x ((c, v) ∷ m) = (x ≤ v) × AllGe x m

abbrev pub Attained : Watermark → Watermarks → Type 0
Attained x [] = ⊥
Attained x ((c, v) ∷ m) = (v ≡ x) ⊎ Attained x m

abbrev pub IsLowest : Watermark → Watermarks → Type 0
IsLowest x m = AllGe x m × Attained x m

AllGe-mono : (x y : Watermark) (m : Watermarks) → x ≤ y → AllGe y m → AllGe x m
AllGe-mono x y [] h a = tt
AllGe-mono x y ((c, v) ∷ m) h a = (omega arith, AllGe-mono x y m h a.1)

AllGe-insert :
    (x w : Watermark) (c : NodeId) (m : Watermarks)
    → x ≤ w
    → AllGe x m
    → AllGe x (insert ℕ_discrete c w m)
unfolding insert
AllGe-insert x w c [] h a = (h, tt)
AllGe-insert x w c ((d, v) ∷ m) h a = ground (arith, AllGe-insert x w c m h a.1)

pub AllGe-get :
    (x v : Watermark) (c : NodeId) (m : Watermarks)
    → AllGe x m
    → get ℕ_discrete c m ≡ some v
    → x ≤ v
unfolding get
AllGe-get x v c [] a e = absurd (ground arith)
AllGe-get x v c ((d, u) ∷ m) a e = ground (arith, AllGe-get x v c m a.1)

pub Attained-insert_self :
    (w : Watermark) (c : NodeId) (m : Watermarks) → Attained w (insert ℕ_discrete c w m)
unfolding insert
Attained-insert_self w c [] = inl refl
Attained-insert_self w c ((d, u) ∷ m) = ground (arith, Attained-insert_self w c m)

Attained-insert :
    (x w old : Watermark) (c : NodeId) (m : Watermarks)
    → Attained x m
    → get ℕ_discrete c m ≡ some old
    → old ≢ x
    → Attained x (insert ℕ_discrete c w m)
unfolding get insert
Attained-insert x w old c [] a e n = absurd a
Attained-insert x w old c ((d, u) ∷ m) (inl h) e n = ground arith
Attained-insert x w old c ((d, u) ∷ m) (inr a) e n = ground (arith, Attained-insert x w old c m a)

le_of_Attained : (x y : Watermark) (m : Watermarks) → AllGe x m → Attained y m → x ≤ y
le_of_Attained x y [] a b = absurd b
le_of_Attained x y ((c, v) ∷ m) a (inl h) = omega arith
le_of_Attained x y ((c, v) ∷ m) a (inr b) = le_of_Attained x y m a.1 b

lowest-le : (w : Watermark) (m : Watermarks) → lowest w m ≤ w
unfolding lowest
lowest-le w [] = omega arith
lowest-le w ((c, v) ∷ m) = ground (arith, lowest-le w m)

AllGe-lowest : (w : Watermark) (m : Watermarks) → AllGe (lowest w m) m
unfolding lowest
AllGe-lowest w [] = tt
AllGe-lowest w ((c, v) ∷ m) = ground (arith, AllGe-mono v (lowest w m) m, AllGe-lowest w m)

lowest-cases : (w : Watermark) (m : Watermarks) → (lowest w m ≡ w) ⊎ Attained (lowest w m) m
unfolding lowest
lowest-cases w [] = inl refl
lowest-cases w ((c, v) ∷ m) = ground (arith, lowest-cases w m)

-- Once the watermark of a channel has been stored, the minimum that the node takes is the lowest
-- watermark of its channels.
pub lowest-IsLowest :
    (w : Watermark) (c : NodeId) (m : Watermarks)
    → IsLowest (lowest w (insert ℕ_discrete c w m)) (insert ℕ_discrete c w m)
lowest-IsLowest w c m = (AllGe-lowest w m', attained (lowest-cases w m'))
  where
    m' : Watermarks
    m' = insert ℕ_discrete c w m

    attained : (lowest w m' ≡ w) ⊎ Attained (lowest w m') m' → Attained (lowest w m') m'
    attained (inl e) = rw e (Attained-insert_self w c m)
    attained (inr a) = a

-- A channel that was ahead of the lowest one leaves it where it was.
pub IsLowest-insert_ahead :
    (x w old : Watermark) (c : NodeId) (m : Watermarks)
    → IsLowest x m
    → get ℕ_discrete c m ≡ some old
    → x < old
    → old < w
    → IsLowest x (insert ℕ_discrete c w m)
IsLowest-insert_ahead x w old c m l e h k =
    (AllGe-insert x w c m (omega arith) l.0, Attained-insert x w old c m l.1 e (omega arith))

-- Where the new minimum is not above the old one, they are the same.
pub IsLowest-insert_same :
    (x w old : Watermark) (c : NodeId) (m : Watermarks)
    → IsLowest x m
    → get ℕ_discrete c m ≡ some old
    → old < w
    → lowest w (insert ℕ_discrete c w m) ≤ x
    → IsLowest x (insert ℕ_discrete c w m)
IsLowest-insert_same x w old c m l e h k =
    let m' : Watermarks = insert ℕ_discrete c w m in
    let n : IsLowest (lowest w m') m' = lowest-IsLowest w c m in
    let above : AllGe x m' = AllGe-insert x w c m (omega (arith, AllGe-get x old c m l.0 e)) l.0 in
    let same : lowest w m' ≡ x = omega (arith, le_of_Attained x (lowest w m') m' above n.1) in
    (above, subst (λ y. Attained y m') same n.1)
