-- ===== src/Tracker/Producer/Advance.antt =====
-- advanceContiguous: the length of its loop, and the standing of the numbers through it.
use kubemq_gcp_pub_sub.Base.{
  ℕ, zero, suc, ◌+◌, ◌-◌, ◌*◌, ◌≤◌, ◌<◌, ◌≡◌, refl, List, true, false, length, leb, ◌==◌, ==→eq,
  arith, Bool-cases, inl, inr, sym, ◌∙◌,
}
use kubemq_gcp_pub_sub.Base.Words.{u64, add64}
use kubemq_gcp_pub_sub.Tracker.Window.{get_bit, shift_left}
use kubemq_gcp_pub_sub.Tracker.Window.Laws.{
  AreWords, get_bit-shift_left, length-shift_left, shift_left-AreWords,
}
use kubemq_gcp_pub_sub.Tracker.Pending.{mem, Distinct}
use kubemq_gcp_pub_sub.Tracker.Producer.{ProducerState, advance, advance_contiguous}
use kubemq_gcp_pub_sub.Tracker.Producer.Seen.{seen_at, seen, Fits, IsValid}

-- One round, taken when the lowest position is set.
step-high :
    {r high : ℕ} {window : List ℕ}
    → Fits r high window
    → get_bit window 0 ≡ true
    → add64 high 1 ≡ high + 1
step-high f b = omega (arith, f.room 0 b)

step-Fits :
    {r high : ℕ} {window : List ℕ}
    → Fits r high window
    → get_bit window 0 ≡ true
    → Fits r (add64 high 1) (shift_left window)
step-Fits {r} {high} {window} f b = record {
  words = shift_left-AreWords window f.words;
  high_word = omega arith;
  wide = omega (arith, length-shift_left window, f.wide);
  inside = λ p h. get_bit-shift_left window p f.words ∙ f.inside (suc p) (omega arith);
  room = λ p h.
      omega (arith, step-high f b, f.room (suc p) (sym (get_bit-shift_left window p f.words) ∙ h));
}

module _ (pending : List ℕ) where
  -- No suspected loss lies above the watermark.
  abbrev Low : ℕ → Type 0
  Low high = (n : ℕ) → mem n pending ≡ true → n ≤ high

  step-seen :
      {r high : ℕ} {window : List ℕ}
      → Fits r high window
      → get_bit window 0 ≡ true
      → Low high
      → (n : ℕ)
      → seen_at (add64 high 1) (shift_left window) pending n ≡ seen_at high window pending n
  step-seen {high} {window} f b low n = rw (step-high f b) (elim (Bool-cases (leb n high)) [
    | inl below ↦ ground arith
    | inr above ↦ elim (Bool-cases (n == high + 1)) [
      | inl next ↦
          let absent : mem n pending ≡ false = ground (arith, low n) in
          let first : n - high - 1 ≡ 0 = omega (arith, ==→eq n (high + 1) next) in
          rw first (ground arith)
      | inr later ↦
          let down : n - high - 1 ≡ suc (n - (high + 1) - 1) = ground arith in
          rw down (ground (arith, get_bit-shift_left window (n - (high + 1) - 1) f.words))
    ]
  ])

  advance-seen :
      {r : ℕ} (fuel high : ℕ) (window : List ℕ)
      → Fits r high window
      → Low high
      → (n : ℕ)
      → (high ≤ (advance fuel high window).0)
        × (seen_at (advance fuel high window).0 (advance fuel high window).1 pending n
            ≡ seen_at high window pending n)
  unfolding advance
  advance-seen zero high window f low n = (omega arith, refl)
  advance-seen (suc fuel) high window f low n = elim (Bool-cases (get_bit window 0)) [
    | inl b ↦
        let low' : Low (add64 high 1) = λ m h. omega (arith, step-high f b, low m h) in
        let ih = advance-seen fuel (add64 high 1) (shift_left window) (step-Fits f b) low' n in
        rw (b, advance) (omega (arith, step-high f b, ih.0), ih.1 ∙ step-seen f b low n)
    | inr b ↦ rw (b, advance) (omega arith, refl)
  ]

-- The loop keeps the window's bounds and the standing of every number.
pub advance-Fits :
    {r : ℕ} (fuel high : ℕ) (window : List ℕ)
    → Fits r high window
    → Fits r (advance fuel high window).0 (advance fuel high window).1
unfolding advance
advance-Fits zero high window f = f
advance-Fits (suc fuel) high window f = elim (Bool-cases (get_bit window 0)) [
  | inl b ↦ rw (b, advance) (advance-Fits fuel (add64 high 1) (shift_left window) (step-Fits f b))
  | inr b ↦ rw (b, advance) f
]

-- The loop has ended by its test once the fuel is more than the positions that can be set.
pub advance_stops :
    (k fuel high : ℕ) (window : List ℕ)
    → AreWords window
    → ((p : ℕ) → k ≤ p → get_bit window p ≡ false)
    → k < fuel
    → get_bit (advance fuel high window).1 0 ≡ false
unfolding advance
advance_stops k zero high window a out h = absurd (omega arith)
advance_stops zero (suc fuel) high window a out h =
    rw (out 0 (omega arith), advance) (out 0 (omega arith))
advance_stops (suc k) (suc fuel) high window a out h = elim (Bool-cases (get_bit window 0)) [
  | inl b ↦
      rw (b, advance)
        (advance_stops k fuel (add64 high 1) (shift_left window) (shift_left-AreWords window a)
          (λ p q. get_bit-shift_left window p a ∙ out (suc p) (omega arith)) (omega arith))
  | inr b ↦ rw (b, advance) b
]

-- What advanceContiguous leaves: the window's bounds, an unset lowest position, a watermark no
-- lower than before, and the same standing of every number.
pub advance_contiguous-IsValid :
    {r : ℕ} (ps : ProducerState)
    → Fits r ps.high_contiguous ps.window
    → ((n : ℕ) → mem n ps.pending_lost ≡ true → n ≤ ps.high_contiguous)
    → Distinct ps.pending_lost
    → ps.confirmed_lost ≡ u64 (length ps.pending_lost)
    → IsValid r (advance_contiguous ps)
unfolding advance_contiguous
advance_contiguous-IsValid {r} ps f low d c =
    let fuel = suc (length ps.window * 64) in
    record {
      fits = advance-Fits fuel ps.high_contiguous ps.window f;
      settled =
          advance_stops r fuel ps.high_contiguous ps.window f.words f.inside
            (omega (arith, f.wide));
      pending_low = λ n h. omega (
        arith,
        low n h,
        (advance-seen ps.pending_lost fuel ps.high_contiguous ps.window f low n).0,
      );
      distinct = d;
      counted = c;
    }

pub advance_contiguous-seen :
    {r : ℕ} (ps : ProducerState)
    → Fits r ps.high_contiguous ps.window
    → ((n : ℕ) → mem n ps.pending_lost ≡ true → n ≤ ps.high_contiguous)
    → (n : ℕ) → seen (advance_contiguous ps) n ≡ seen ps n
unfolding advance_contiguous
advance_contiguous-seen ps f low n =
    (advance-seen ps.pending_lost (suc (length ps.window * 64)) ps.high_contiguous ps.window f low
      n).1
