-- ===== src/Tracker/Window/Laws.antt =====
-- The bitset of the tracker is a set of positions: what each operation does to get_bit.
use Prim.Native.Nat.{bit_and, bit_or}
use native.Mathlib.Nat.{pow-le-pow_right}
use kubemq_gcp_pub_sub.Base.{
  ℕ, zero, suc, ◌*◌, ◌/◌, ◌%◌, ◌^◌, ◌≤◌, ◌<◌, ◌≡◌, ◌≢◌, refl, sym, ap, List, [], ◌∷◌, ◌&&◌, ◌||◌,
  length, get_or, set, ltb, leb, ◌==◌, if◌then◌else◌, arith, length-set, get_or-set, Bool-cases,
  ==→eq, inl, inr,
}
use kubemq_gcp_pub_sub.Base.Words.{u64}
use kubemq_gcp_pub_sub.Base.Bits.{
  bit, zero-bit, bit-or, or-lt, bit_of_lt, bit-mask, and-mask, and-one,
}
use kubemq_gcp_pub_sub.Tracker.Window.{set_bit, get_bit, shift_left}

-- Every word is a uint64.
abbrev pub AreWords : List ℕ → Type 0
AreWords [] = Unit
AreWords (w ∷ ws) = (w < 2 ^ 64) × AreWords ws

get_or_out : (ws : List ℕ) (i : ℕ) → length ws ≤ i → get_or ws i 0 ≡ 0
get_or_out [] i h = refl
get_or_out (w ∷ ws) zero h = absurd (omega arith)
get_or_out (w ∷ ws) (suc i) h = get_or_out ws i (omega arith)

-- Out of range get_bit is false, and so is every digit of a missing word.
pub get_bit-bit : (ws : List ℕ) (p : ℕ) → get_bit ws p ≡ bit (get_or ws (p / 64) 0) (p % 64)
unfolding get_bit
get_bit-bit ws p = elim (Bool-cases (leb (length ws * 64) p)) [
  | inl out ↦ rw (out, get_or_out ws (p / 64) (ground arith)) (sym (zero-bit (p % 64)))
  | inr within ↦ rw within (and-mask (p % 64) (get_or ws (p / 64) 0))
]

-- The word that setBit writes has its position added.
set_word :
    (w p q : ℕ) → bit (bit_or w (2 ^ (p % 64))) (q % 64) ≡ (bit w (q % 64) || p % 64 == q % 64)
set_word w p q = rw (bit-or, bit-mask)

written-get_bit :
    (ws : List ℕ) (p q : ℕ)
    → p < length ws * 64
    → get_bit (set ws (p / 64) (bit_or (get_or ws (p / 64) 0) (2 ^ (p % 64)))) q
      ≡ (p == q) || get_bit ws q
written-get_bit ws p q h =
    rw
      (
        get_bit-bit (set ws (p / 64) _) q,
        get_or-set ws (p / 64) (q / 64) _ (omega arith),
        get_bit-bit ws q,
      )
      (elim (Bool-cases (p / 64 == q / 64)) [
        | inl same ↦ rw (same, set_word, ==→eq _ _ same) (ground arith)
        | inr other ↦ rw other (ground arith)
      ])

-- setBit adds its position, if the bitset reaches that far, and nothing else.
pub get_bit-set_bit :
    (ws : List ℕ) (p q : ℕ)
    → get_bit (set_bit ws p) q ≡ (ltb p (length ws * 64) && (p == q)) || get_bit ws q
unfolding set_bit
get_bit-set_bit ws p q = elim (Bool-cases (leb (length ws * 64) p)) [
  | inl out ↦ rw out (ground arith)
  | inr within ↦ rw within (ground (arith, written-get_bit ws p q))
]

-- The carry `(v & 1) << 63` has the digit 63 alone, if v is odd.
carry-bit : (v k : ℕ) → bit (u64 (bit_and v 1 * 2 ^ 63)) k ≡ (63 == k) && (v % 2 == 1)
carry-bit v k = elim (Bool-cases (v % 2 == 1)) [
  | inl odd ↦ rw (and-one, ==→eq _ _ odd) (ground (arith, bit-mask 63 k))
  | inr even ↦ let e : v % 2 ≡ 0 = ground arith in rw (and-one, e) (ground (arith, zero-bit k))
]

-- The word i of a shifted bitset.
shift_left_word :
    (ws : List ℕ) (i k : ℕ)
    → AreWords ws
    → k < 64
    → bit (get_or (shift_left ws) i 0) k
      ≡ (if k == 63 then bit (get_or ws (suc i) 0) 0 else bit (get_or ws i 0) (suc k))
unfolding shift_left
shift_left_word [] i k v h = ground (arith, zero-bit k)
shift_left_word (w ∷ []) zero k v h = ground (arith, bit_of_lt 64 w v.0)
shift_left_word (w ∷ []) (suc i) k v h = ground (arith, zero-bit k)
shift_left_word (w ∷ x ∷ ws) zero k v h =
    ground (arith, bit-or (w / 2) (u64 (bit_and x 1 * 2 ^ 63)) k, carry-bit x k, bit_of_lt 64 w v.0)
shift_left_word (w ∷ x ∷ ws) (suc i) k v h = shift_left_word (x ∷ ws) i k v.1 h

-- shiftLeft moves every position down by one.
pub get_bit-shift_left :
    (ws : List ℕ) (p : ℕ) → AreWords ws → get_bit (shift_left ws) p ≡ get_bit ws (suc p)
get_bit-shift_left ws p v =
    rw
      (
        get_bit-bit (shift_left ws) p,
        get_bit-bit ws (suc p),
        shift_left_word ws (p / 64) (p % 64) v (omega arith),
      )
      (elim (Bool-cases (p % 64 == 63)) [
        | inl last ↦
            let i : suc p / 64 ≡ suc (p / 64) = omega (arith, ==→eq _ _ last) in
            let k : suc p % 64 ≡ 0 = omega (arith, ==→eq _ _ last) in rw (last, i, k)
        | inr inside ↦
            let ne : p % 64 ≢ 63 = ground arith in
            let i : suc p / 64 ≡ p / 64 = omega arith in
            let k : suc p % 64 ≡ suc (p % 64) = omega arith in rw (inside, i, k)
      ])

pub length-set_bit : (ws : List ℕ) (p : ℕ) → length (set_bit ws p) ≡ length ws
unfolding set_bit
length-set_bit ws p = elim (Bool-cases (leb (length ws * 64) p)) [
  | inl out ↦ rw out
  | inr within ↦ rw within (length-set ws _ _)
]

pub length-shift_left : (ws : List ℕ) → length (shift_left ws) ≡ length ws
unfolding shift_left
length-shift_left [] = refl
length-shift_left (w ∷ []) = refl
length-shift_left (w ∷ v ∷ ws) = ap suc (length-shift_left (v ∷ ws))

set-AreWords : (ws : List ℕ) (i v : ℕ) → AreWords ws → v < 2 ^ 64 → AreWords (set ws i v)
set-AreWords [] i v a h = a
set-AreWords (w ∷ ws) zero v a h = (h, a.1)
set-AreWords (w ∷ ws) (suc i) v a h = (a.0, set-AreWords ws i v a.1 h)

get_or-AreWords : (ws : List ℕ) (i : ℕ) → AreWords ws → get_or ws i 0 < 2 ^ 64
get_or-AreWords [] i a = omega arith
get_or-AreWords (w ∷ ws) zero a = a.0
get_or-AreWords (w ∷ ws) (suc i) a = get_or-AreWords ws i a.1

-- `1 << (pos % 64)` is a uint64.
mask-lt : (k : ℕ) → k < 64 → 2 ^ k < 2 ^ 64
mask-lt k h = omega (arith, pow-le-pow_right {n = 2} (omega arith) {i = k} {j = 63} (omega arith))

pub set_bit-AreWords : (ws : List ℕ) (p : ℕ) → AreWords ws → AreWords (set_bit ws p)
unfolding set_bit
set_bit-AreWords ws p a = elim (Bool-cases (leb (length ws * 64) p)) [
  | inl out ↦ rw out a
  | inr within ↦ rw within (
      set-AreWords ws (p / 64) _ a
        (or-lt 64 _ _ (get_or-AreWords ws (p / 64) a) (mask-lt (p % 64) (omega arith))))
]

pub shift_left-AreWords : (ws : List ℕ) → AreWords ws → AreWords (shift_left ws)
unfolding shift_left
shift_left-AreWords [] a = a
shift_left-AreWords (w ∷ []) a = (omega arith, tt)
shift_left-AreWords (w ∷ x ∷ ws) a =
    (or-lt 64 (w / 2) _ (omega arith) (omega arith), shift_left-AreWords (x ∷ ws) a.1)
