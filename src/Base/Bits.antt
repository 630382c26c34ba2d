-- ===== src/Base/Bits.antt =====
-- Binary digits of a word: what `|`, `&`, `<<` and `>>` do to each of them.
use Prim.Native.Nat.{
  ℕ, zero, suc, ◌+◌, ◌*◌, ◌/◌, ◌%◌, ◌^◌, ◌≤◌, ◌<◌, min, max, bit_and, bit_or, digits, bitwise,
  bit_and-bitwise, bit_or-bitwise,
}
use mathlib.Core.Path.{◌≡◌, refl, sym, ◌∙◌, ap}
use mathlib.Core.Bool.{Bool, false, ◌||◌, not}
use native.Mathlib.Nat.{pow-suc}
use native.Mathlib.Omega.{arith}
use kubemq_gcp_pub_sub.Base.Tests.{◌==◌}

-- The digit of weight 2 ^ k.
abbrev pub bit : ℕ → ℕ → Bool
bit w zero = w % 2 == 1
bit w (suc k) = bit (w / 2) k

-- `bitwise` folds the digits on a fuel; a fuel of at least the first word changes nothing.
module _ (rest : ℕ → ℕ) (op : ℕ → ℕ → ℕ)
    (rest_step : (y : ℕ) → rest y ≡ rest (y / 2) * 2 + op 0 (y % 2)) where
  spare_fuel :
      (x y given enough : ℕ)
      → x ≤ given
      → x ≤ enough
      → digits rest op given x y ≡ digits rest op enough x y
  spare_fuel zero y zero zero _ _ = refl
  spare_fuel zero y zero (suc enough) _ _ = refl
  spare_fuel zero y (suc given) zero _ _ = refl
  spare_fuel zero y (suc given) (suc enough) _ _ = refl
  spare_fuel (suc x) y zero enough less _ = absurd (omega arith)
  spare_fuel (suc x) y (suc given) zero _ less = absurd (omega arith)
  spare_fuel (suc x) y (suc given) (suc enough) less less' =
      omega (arith, spare_fuel (suc x / 2) (y / 2) given enough (omega arith) (omega arith))

  bitwise_step :
      (x y : ℕ) → bitwise rest op x y ≡ bitwise rest op (x / 2) (y / 2) * 2 + op (x % 2) (y % 2)
  bitwise_step zero y = rest_step y
  bitwise_step (suc x) y =
      omega (arith, spare_fuel (suc x / 2) (y / 2) x (suc x / 2) (omega arith) (omega arith))

-- The two operations one digit at a time.
and_step : (x y : ℕ) → bit_and x y ≡ bit_and (x / 2) (y / 2) * 2 + min (x % 2) (y % 2)
and_step x y =
    bit_and-bitwise x y
    ∙ bitwise_step (λ _. zero) min (λ b. omega arith) x y
    ∙ sym (ap (λ n. n * 2 + min (x % 2) (y % 2)) (bit_and-bitwise (x / 2) (y / 2)))

or_step : (x y : ℕ) → bit_or x y ≡ bit_or (x / 2) (y / 2) * 2 + max (x % 2) (y % 2)
or_step x y =
    bit_or-bitwise x y
    ∙ bitwise_step (λ n. n) max (λ b. omega arith) x y
    ∙ sym (ap (λ n. n * 2 + max (x % 2) (y % 2)) (bit_or-bitwise (x / 2) (y / 2)))

pub bit-or : (a b k : ℕ) → bit (bit_or a b) k ≡ (bit a k || bit b k)
bit-or a b zero = ground (arith, or_step a b)
bit-or a b (suc k) =
    let half : bit_or a b / 2 ≡ bit_or (a / 2) (b / 2) = omega (arith, or_step a b) in
    rw half (bit-or (a / 2) (b / 2) k)

pub or-lt : (k a b : ℕ) → a < 2 ^ k → b < 2 ^ k → bit_or a b < 2 ^ k
or-lt zero a b p q =
    let a0 : a ≡ 0 = omega arith in let b0 : b ≡ 0 = omega arith in rw (a0, b0) (omega arith)
or-lt (suc k) a b p q = omega (
  arith,
  pow-suc 2 k,
  or_step a b,
  or-lt k (a / 2) (b / 2) (omega (arith, pow-suc 2 k)) (omega (arith, pow-suc 2 k)),
)

-- A shift to the right by one drops the lowest digit.
pub bit-half : (w k : ℕ) → bit (w / 2) k ≡ bit w (suc k)
bit-half w k = refl

pub zero-bit : (k : ℕ) → bit 0 k ≡ false
zero-bit zero = refl
zero-bit (suc k) = zero-bit k

pub bit_of_lt : (k w : ℕ) → w < 2 ^ k → bit w k ≡ false
bit_of_lt zero w p = let w0 : w ≡ 0 = omega arith in rw w0
bit_of_lt (suc k) w p = bit_of_lt k (w / 2) (omega (arith, pow-suc 2 k))

double-half : (n : ℕ) → 2 * n / 2 ≡ n
double-half n = omega arith

-- The mask `1 << p` has the one digit p.
pub bit-mask : (p k : ℕ) → bit (2 ^ p) k ≡ (p == k)
bit-mask zero zero = refl
bit-mask zero (suc k) = zero-bit k ∙ ground arith
bit-mask (suc p) zero = ground (arith, pow-suc 2 p)
bit-mask (suc p) (suc k) =
    let half : 2 ^ suc p / 2 ≡ 2 ^ p = omega (arith, pow-suc 2 p) in
    rw half (bit-mask p k ∙ ground arith)

and-zero_fuel : (n w : ℕ) → w ≤ n → bit_and w 0 ≡ 0
and-zero_fuel n zero h = refl
and-zero_fuel zero (suc w) h = absurd (omega arith)
and-zero_fuel (suc n) (suc w) h =
    omega (arith, and_step (suc w) 0, and-zero_fuel n (suc w / 2) (omega arith))

pub and-zero : (w : ℕ) → bit_and w 0 ≡ 0
and-zero w = and-zero_fuel w w (omega arith)

-- The lowest digit, as a number.
pub and-one : (w : ℕ) → bit_and w 1 ≡ w % 2
and-one w = omega (arith, and_step w 1, and-zero (w / 2))

and-mask_suc : (p w : ℕ) → bit_and w (2 ^ suc p) ≡ bit_and (w / 2) (2 ^ p) * 2
and-mask_suc p w =
    let half : 2 ^ suc p / 2 ≡ 2 ^ p = omega (arith, pow-suc 2 p) in
    let even : 2 ^ suc p % 2 ≡ 0 = omega (arith, pow-suc 2 p) in
    and_step w (2 ^ suc p) ∙ rw (half, even) (omega arith)

-- The test `w & (1 << p) != 0` reads digit p.
pub and-mask : (p w : ℕ) → not (bit_and w (2 ^ p) == 0) ≡ bit w p
and-mask zero w = ground (arith, and-one w)
and-mask (suc p) w = ground (arith, and-mask p (w / 2), and-mask_suc p w)
