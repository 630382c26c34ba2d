-- ===== src/Samples/Strokes.antt =====
-- A codec for the tests: numbers in unary, a stroke for zero and one more for each further unit, and
-- the text itself as its checksum.
use Prim.Native.Nat.{ℕ, zero, suc, ◌-◌}
use Prim.Native.String.{String, [], ◌∷◌}
use mathlib.Core.Path.{◌≡◌, refl, ap}
use mathlib.Core.Bool.{false}
use mathlib.Core.Option.{some}
use native.Mathlib.Omega.{arith}
use text.Mathlib.TextEquality.{eq_iff}
use kubemq_gcp_pub_sub.Base.Int.{pos, pos_part}
use kubemq_gcp_pub_sub.Base.Assoc.{eqs}
use kubemq_gcp_pub_sub.Base.Codec.{Codec}

abbrev unary : ℕ → String
unary zero = "|"
unary (suc n) = "|" ∷ unary n

abbrev strokes : String → ℕ
strokes [] = 0
strokes (c ∷ s) = suc (strokes s)

pub strokes-unary : (n : ℕ) → strokes (unary n) ≡ suc n
strokes-unary zero = refl
strokes-unary (suc n) = ap suc (strokes-unary n)

pub parsed : (n : ℕ) → strokes (unary n) - 1 ≡ n
parsed n = omega (arith, strokes-unary n)

counted : (n : ℕ) → ◌≡◌ {A = String} (unary n) "" → strokes (unary n) ≡ 0
counted n h = ap strokes h

pub not_empty : (n : ℕ) → eqs (unary n) "" ≡ false
not_empty n = ground (arith, eq_iff (unary n) "", strokes-unary n, counted n)

abbrev pub codec : Codec
codec = record {
  format_uint = unary;
  parse_uint = λ s. some (strokes s - 1);
  format_int = λ i. unary (pos_part i);
  parse_int = λ s. some (pos (strokes s - 1));
  crc32_hex = λ s. s;
  parse_uint-format_uint = λ n h. ap some (parsed n);
  parse_int-format_int = λ n h. ap (λ m. some (pos m)) (parsed n);
  format_uint-not_empty = λ n. not_empty n;
  format_int-not_empty = λ i. not_empty (pos_part i);
}
