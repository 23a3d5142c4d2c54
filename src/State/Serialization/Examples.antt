-- ===== src/State/Serialization/Examples.antt =====
-- Runs of the encoding and instances of its theorems.
use arcon.Common.{◌<◌, ◌≡◌, refl, [], ◌∷◌}
use arcon.State.Serialization.{Bytes, Target, to_le_bytes, int_bytes}
use arcon.State.Serialization.Laws.{IsFixed, width_mod, int_bytes-IsFixed}

le_example : to_le_bytes 4 258 ≡ 2 ∷ 1 ∷ 0 ∷ 0 ∷ []
unfolding to_le_bytes
le_example = refl

abbrev roomy : Target
roomy = record { bytes = []; remaining_mut = 64 }

int_bytes-IsFixed_example : IsFixed (int_bytes 8) (λ n. n < width_mod 8) (to_le_bytes 8)
int_bytes-IsFixed_example = int_bytes-IsFixed 8

abbrev two_bytes : Bytes
two_bytes = 7 ∷ 0 ∷ []
