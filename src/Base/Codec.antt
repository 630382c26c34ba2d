-- ===== src/Base/Codec.antt =====
-- What the code uses of Go's strconv and of the checksum that hash/crc32 and fmt print in
-- hexadecimal, with the documented laws.
use Prim.Native.Nat.{ℕ, ◌^◌, ◌<◌}
use Prim.Native.String.{String}
use mathlib.Core.Path.{◌≡◌}
use mathlib.Core.Bool.{false}
use mathlib.Core.Option.{Option, some}
use kubemq_gcp_pub_sub.Base.Int.{ℤ, pos}
use kubemq_gcp_pub_sub.Base.Assoc.{eqs}

pub record Codec : Type 0 where
  pub format_uint : ℕ → String
  pub parse_uint : String → Option ℕ
  pub format_int : ℤ → String
  pub parse_int : String → Option ℤ
  pub crc32_hex : String → String
  pub parse_uint-format_uint : (n : ℕ) → n < 2 ^ 64 → parse_uint (format_uint n) ≡ some n
  pub parse_int-format_int : (n : ℕ) → n < 2 ^ 63 → parse_int (format_int (pos n)) ≡ some (pos n)
  pub format_uint-not_empty : (n : ℕ) → eqs (format_uint n) "" ≡ false
  pub format_int-not_empty : (n : ℤ) → eqs (format_int n) "" ≡ false
