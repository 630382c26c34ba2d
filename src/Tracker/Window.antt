-- ===== src/Tracker/Window.antt =====
-- The bitset of burnin/tracker/tracker.go: setBit, getBit and shiftLeft over a []uint64.
-- A position is a Go `int`; every caller passes an offset that is not negative, so the source's
-- guard `pos < 0` is never taken and a position is a number here.
pub mod Laws
use Prim.Native.Nat.{bit_and, bit_or}
use kubemq_gcp_pub_sub.Base.{
  ℕ, ◌*◌, ◌/◌, ◌%◌, ◌^◌, List, [], ◌∷◌, Bool, false, not, length, get_or, set, leb, ◌==◌,
  if◌then◌else◌,
}
use kubemq_gcp_pub_sub.Base.Words.{u64}

unfoldable pub set_bit : List ℕ → ℕ → List ℕ
set_bit window pos =
    if leb (length window * 64) pos
    then window
    else set window (pos / 64) (bit_or (get_or window (pos / 64) 0) (2 ^ (pos % 64)))

unfoldable pub get_bit : List ℕ → ℕ → Bool
get_bit window pos =
    if leb (length window * 64) pos
    then false
    else not (bit_and (get_or window (pos / 64) 0) (2 ^ (pos % 64)) == 0)

-- Word i reads word i + 1 before that one is shifted, so the loop is a recursion on the words.
unfoldable pub shift_left : List ℕ → List ℕ
shift_left [] = []
shift_left (w ∷ []) = w / 2 ∷ []
shift_left (w ∷ v ∷ rest) = bit_or (w / 2) (u64 (bit_and v 1 * 2 ^ 63)) ∷ shift_left (v ∷ rest)
