-- ===== src/State/Rocks/Ranges.antt =====
-- The range that `remove_prefix` deletes, from the prefix to the prefix with its last byte increased.
use arcon.Common.{
  ℕ, ◌<◌, ◌≡◌, refl, Bool, true, false, not, ◌&&◌, [], ◌∷◌, arith, ltb, ◌==◌, if◌then◌else◌,
}
use arcon.State.Serialization.{Bytes}
use arcon.State.Rocks.{range_end}

-- The order of the keys in a column family, byte by byte.
abbrev pub less : Bytes → Bytes → Bool
less [] [] = false
less [] (b ∷ bs) = true
less (a ∷ as') [] = false
less (a ∷ as') (b ∷ bs) = if ltb a b then true else if a == b then less as' bs else false

abbrev pub in_range : Bytes → Bytes → Bytes → Bool
in_range start end key = not (less key start) && less key end

abbrev pub starts_with : Bytes → Bytes → Bool
starts_with [] key = true
starts_with (b ∷ bs) [] = false
starts_with (b ∷ bs) (k ∷ ks) = if k == b then starts_with bs ks else false

-- The last byte is there and has a property.
abbrev pub Last : (ℕ → Type 0) → Bytes → Type 0
Last P [] = ⊥
Last P (b ∷ []) = P b
Last P (b ∷ c ∷ bs) = Last P (c ∷ bs)

pub in_range-starts_with :
    (p key : Bytes) → Last (λ b. b < 255) p → in_range p (range_end p) key ≡ starts_with p key
unfolding range_end
in_range-starts_with [] key h = absurd h
in_range-starts_with (b ∷ []) [] h = refl
in_range-starts_with (b ∷ []) (k ∷ []) h = ground arith
in_range-starts_with (b ∷ []) (k ∷ l ∷ ks) h = ground arith
in_range-starts_with (b ∷ c ∷ bs) [] h = refl
in_range-starts_with (b ∷ c ∷ bs) (k ∷ ks) h = ground (arith, in_range-starts_with (c ∷ bs) ks h)

pub less-range_end : (p : Bytes) → Last (λ b. b < 255) p → less p (range_end p) ≡ true
unfolding range_end
less-range_end [] h = absurd h
less-range_end (b ∷ []) h = ground arith
less-range_end (b ∷ c ∷ bs) h = ground (arith, less-range_end (c ∷ bs) h)

range_end-less : (p : Bytes) → Last (λ b. b ≡ 255) p → less (range_end p) p ≡ true
unfolding range_end
range_end-less [] h = absurd h
range_end-less (b ∷ []) h = ground arith
range_end-less (b ∷ c ∷ bs) h = ground (arith, range_end-less (c ∷ bs) h)
