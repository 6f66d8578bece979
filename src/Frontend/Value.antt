-- ===== src/Frontend/Value.antt =====
-- The comparisons of C's `float` on the 32-bit patterns that the packets carry (IEEE 754, single
-- precision), as src/frontend/MFiWrapper.mm uses them.
use mfi_wrapper.Prelude.{ℕ, ◌%◌, ◌^◌, Bool, not, ◌&&◌, ◌||◌, ltb, leb, ◌==◌}

-- The pattern without its sign.
abbrev pub magnitude : ℕ → ℕ
magnitude v = v % 2 ^ 31

unfoldable pub is_nan : ℕ → Bool
is_nan v = ltb 0x7F800000 (magnitude v)

-- `a == b`: a NaN equals nothing, and the two zeros are equal.
unfoldable pub equal : ℕ → ℕ → Bool
equal a b = not (is_nan a) && (not (is_nan b) && (a == b || (magnitude a == 0 && magnitude b == 0)))

-- `v < 0.0f`
unfoldable pub is_negative : ℕ → Bool
is_negative v = not (is_nan v) && (leb (2 ^ 31) v && not (magnitude v == 0))

-- `v > 0.0f`
unfoldable pub is_positive : ℕ → Bool
is_positive v = not (is_nan v) && (ltb v (2 ^ 31) && not (magnitude v == 0))

-- `v > 0.0001f`, whose pattern is 0x38D1B717: positive patterns are in the order of their values.
unfoldable pub is_above_threshold : ℕ → Bool
is_above_threshold v = not (is_nan v) && (ltb v (2 ^ 31) && ltb 0x38D1B717 v)

-- `fabsf`
unfoldable pub fabsf : ℕ → ℕ
fabsf v = magnitude v

-- The patterns of 1 and -1.
abbrev pub one : ℕ
one = 0x3F800000

abbrev pub minus_one : ℕ
minus_one = 0xBF800000
