-- ===== src/Channel/Ranges.antt =====
-- The key ranges of KeyBy.
use arcon.Common.{ℕ, ◌*◌, ◌/◌, ◌%◌, ◌≤◌, ◌<◌, arith, u64_mod}
use arcon.Channel.KeyBy.{key_index}
use native.Mathlib.Nat.{
  mod-lt, mod-eq_of_lt, mul-lt-mul_of_pos_right, mul-le-mul_right, div-lt_iff_lt-mul,
  div-mul-le_self, le-div_iff_mul-le,
}

-- The product of a key below `max_key` fits.
product-lt :
    (max_key key_ranges k : ℕ)
    → k < max_key
    → 0 < key_ranges
    → k * key_ranges < max_key * key_ranges
product-lt max_key key_ranges k h g = mul-lt-mul_of_pos_right h g

-- Every key falls into one of the ranges. There is a range and a key, and the product of their numbers
-- fits into a `u64`.
pub key_index-lt :
    (max_key key_ranges key : ℕ)
    → 0 < max_key
    → 0 < key_ranges
    → max_key * key_ranges ≤ u64_mod
    → key_index max_key key_ranges key < key_ranges
unfolding key_index
key_index-lt max_key key_ranges key h k f =
    let small = product-lt max_key key_ranges (key % max_key) (mod-lt key h) k in
    let fits : (key % max_key) * key_ranges < u64_mod = omega (arith, small) in
    let low : (key % max_key) * key_ranges < key_ranges * max_key = omega (arith, small) in
    rw (mod-eq_of_lt fits) ((div-lt_iff_lt-mul h).1 low)

-- The ranges follow the order of the keys below the highest, so each of them is an interval of the key
-- space. There is a range, and the product of the numbers of keys and ranges fits into a `u64`.
pub key_index-le :
    (max_key key_ranges key key' : ℕ)
    → 0 < key_ranges
    → max_key * key_ranges ≤ u64_mod
    → key ≤ key'
    → key' < max_key
    → key_index max_key key_ranges key ≤ key_index max_key key_ranges key'
unfolding key_index
key_index-le max_key key_ranges key key' k f le h =
    let below : key < max_key = omega arith in
    let small = product-lt max_key key_ranges key below k in
    let small' = product-lt max_key key_ranges key' h k in
    let fits : key * key_ranges < u64_mod = omega (arith, small) in
    let fits' : key' * key_ranges < u64_mod = omega (arith, small') in
    let up : key * key_ranges / max_key * max_key ≤ key' * key_ranges =
      omega (arith, div-mul-le_self (key * key_ranges) max_key, mul-le-mul_right key_ranges le) in
    let some_key : 0 < max_key = omega arith in
    rw (mod-eq_of_lt below) (
      rw (mod-eq_of_lt h)
        (rw (mod-eq_of_lt fits) (rw (mod-eq_of_lt fits') ((le-div_iff_mul-le some_key).1 up))))
