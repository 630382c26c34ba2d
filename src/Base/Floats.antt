-- ===== src/Base/Floats.antt =====
-- float64, which the checker does not have: the operations and comparisons that the source uses
-- are an interface, with what IEEE 754 says of comparing values that are not NaN.
use kubemq_gcp_pub_sub.Base.Int.{ℤ}
use mathlib.Core.Path.{◌≡◌}
use mathlib.Core.Bool.{Bool, true, false, not}
use Prim.Native.Nat.{ℕ, ◌<◌}

pub record Floats : Type 1 where
  pub Float : Type 0
  pub of_uint : ℕ → Float  -- float64(u) for a uint64; counters are below 2 ^ 64
  pub of_int : ℤ → Float  -- float64(i) for an int
  pub ratio : ℕ → ℕ → Float  -- the constant n / d
  pub add : Float → Float → Float
  pub mul : Float → Float → Float
  pub div : Float → Float → Float
  pub gt : Float → Float → Bool  -- a > b
  pub le : Float → Float → Bool  -- a <= b
  pub is_nan : Float → Bool
  pub seconds : ℤ → Float  -- Duration.Seconds
  pub le-not-gt : (a b : Float) → is_nan a ≡ false → is_nan b ≡ false → le a b ≡ not (gt a b)
  pub ratio-not_nan : (n d : ℕ) → 0 < d → is_nan (ratio n d) ≡ false
  pub gt-not_nan : (a b : Float) → gt a b ≡ true → (is_nan a ≡ false) × (is_nan b ≡ false)
  -- A percentage of counters is finite where the whole is not zero.
  pub percent-not_nan :
      (a b : ℕ) → 0 < b → is_nan (mul (div (of_uint a) (of_uint b)) (ratio 100 1)) ≡ false
  pub gt→le : (a b : Float) → gt a b ≡ true → le b a ≡ true
  pub gt_trans : (a b c : Float) → gt a b ≡ true → le c b ≡ true → gt a c ≡ true
