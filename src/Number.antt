-- ===== src/Number.antt =====
-- JavaScript values, as far as packages/client/src tests them: numbers with their special
-- values, and the values that a decoded JSON envelope can hold.
use y_ruby.Base.{ℕ, ◌+◌, Bool, true, false, not, ◌&&◌, ◌||◌, ltb, ◌==◌, if◌then◌else◌, List}

-- The Boolean is the sign, `true` for a negative number; `integer true 0` is -0. A `fraction` is
-- a finite number that is no integer, by its sign and the integer part of its magnitude.
pub data Number : Type 0 where
  nan : Number
  infinity : Bool → Number
  integer : Bool → ℕ → Number
  fraction : Bool → ℕ → Number

-- 2 ^ 53: up to here each integer is a number of its own.
abbrev pub exact_limit : ℕ
exact_limit = 9007199254740992

-- `n + 1` on a non-negative integer: from 2 ^ 53 the sum rounds back to its argument.
abbrev pub increment : ℕ → ℕ
increment n = if ltb n exact_limit then n + 1 else n

-- Number.isFinite
abbrev pub is_finite : Number → Bool
is_finite nan = false
is_finite (infinity neg) = false
is_finite (integer neg n) = true
is_finite (fraction neg n) = true

-- `x <= 0`, false for NaN
abbrev pub le_zero : Number → Bool
le_zero nan = false
le_zero (infinity neg) = neg
le_zero (integer neg n) = neg || n == 0
le_zero (fraction neg n) = neg

-- `x < 0`, false for NaN and for -0
abbrev pub lt_zero : Number → Bool
lt_zero nan = false
lt_zero (infinity neg) = neg
lt_zero (integer neg n) = neg && not (n == 0)
lt_zero (fraction neg n) = neg

-- Number.isSafeInteger on a number
abbrev pub is_safe_integer : Number → Bool
is_safe_integer (integer neg n) = ltb n exact_limit
is_safe_integer nan = false
is_safe_integer (infinity neg) = false
is_safe_integer (fraction neg n) = false

abbrev pub magnitude : Number → ℕ
magnitude nan = 0
magnitude (infinity neg) = 0
magnitude (integer neg n) = n
magnitude (fraction neg n) = n

-- What a field of a decoded envelope can be; objects and arrays are not looked into.
pub data Value : Type 0 where
  undefined null : Value
  boolean : Bool → Value
  number : Number → Value
  text : List ℕ → Value
  object : Value
