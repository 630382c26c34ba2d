-- ===== src/Tracker/Producer/Slide.antt =====
-- slideWindow: what moving the watermark does to the standing of each number.
use Prim.Native.Nat.{min}
use kubemq_gcp_pub_sub.Base.{
  ℕ, zero, suc, ◌+◌, ◌-◌, ◌^◌, ◌≤◌, ◌<◌, ◌≡◌, refl, List, Bool, true, not, length, leb, ltb, ◌==◌,
  ==→eq, ◌&&◌, ◌||◌, if◌then◌else◌, arith, Bool-cases, inl, inr, ◌∙◌, ap,
}
use kubemq_gcp_pub_sub.Base.Words.{u64, add64, sub64}
use kubemq_gcp_pub_sub.Tracker.Window.{get_bit, shift_left}
use kubemq_gcp_pub_sub.Tracker.Window.Laws.{
  AreWords, get_bit-shift_left, length-shift_left, shift_left-AreWords,
}
use kubemq_gcp_pub_sub.Tracker.Pending.{mem, put, mem-put, put-Distinct, Distinct}
use kubemq_gcp_pub_sub.Tracker.Producer.{
  ProducerState, evict, shift_times, mark, slide_to, advance_contiguous,
}
use kubemq_gcp_pub_sub.Tracker.Producer.Seen.{seen, Fits, IsValid}
use kubemq_gcp_pub_sub.Tracker.Producer.Advance.{
  advance_contiguous-IsValid, advance_contiguous-seen,
}

-- `rounds` shifts move every position down by as many.
get_bit-shift_times :
    (rounds : ℕ) (window : List ℕ) (p : ℕ)
    → AreWords window
    → get_bit (shift_times rounds window) p ≡ get_bit window (rounds + p)
unfolding shift_times
get_bit-shift_times zero window p a = ap (get_bit window) (omega arith)
get_bit-shift_times (suc rounds) window p a =
    get_bit-shift_times rounds (shift_left window) p (shift_left-AreWords window a)
    ∙ get_bit-shift_left window (rounds + p) a
    ∙ ap (get_bit window) (omega arith)

shift_times-AreWords :
    (rounds : ℕ) (window : List ℕ) → AreWords window → AreWords (shift_times rounds window)
unfolding shift_times
shift_times-AreWords zero window a = a
shift_times-AreWords (suc rounds) window a =
    shift_times-AreWords rounds (shift_left window) (shift_left-AreWords window a)

length-shift_times :
    (rounds : ℕ) (window : List ℕ) → length (shift_times rounds window) ≡ length window
unfolding shift_times
length-shift_times zero window = refl
length-shift_times (suc rounds) window =
    length-shift_times rounds (shift_left window) ∙ length-shift_left window

module _ (high : ℕ) (window : List ℕ) where
  -- The numbers that `rounds` rounds from offset i on look at and find unseen.
  abbrev evicted : ℕ → ℕ → ℕ → Bool
  evicted i rounds n =
      leb (high + 1 + i) n && ltb n (high + 1 + i + rounds) && not (get_bit window (n - high - 1))

  evicted_step :
      (i rounds n : ℕ)
      → (high + 1 + i == n && not (get_bit window i)) || evicted (suc i) rounds n
        ≡ evicted i (suc rounds) n
  evicted_step i rounds n = elim (Bool-cases (high + 1 + i == n)) [
    | inl same ↦
        let offset : n - high - 1 ≡ i = omega (arith, ==→eq _ _ same) in rw offset (ground arith)
    | inr other ↦ ground arith
  ]

  evict-Distinct :
      (rounds i : ℕ) (pending : List ℕ)
      → Distinct pending
      → Distinct (evict rounds i high window pending)
  unfolding evict
  evict-Distinct zero i pending d = d
  evict-Distinct (suc rounds) i pending d = elim (Bool-cases (get_bit window i)) [
    | inl b ↦ rw (b, evict) (evict-Distinct rounds (suc i) pending d)
    | inr b ↦
        rw (b, evict)
          (evict-Distinct rounds (suc i) (put (add64 (add64 high 1) i) pending)
            (put-Distinct _ pending d))
  ]

  mem-evict :
      (rounds i : ℕ) (pending : List ℕ) (n : ℕ)
      → high + 1 + i + rounds ≤ 2 ^ 64
      → mem n (evict rounds i high window pending) ≡ mem n pending || evicted i rounds n
  unfolding evict
  mem-evict zero i pending n h = ground arith
  mem-evict (suc rounds) i pending n h =
      let number : add64 (add64 high 1) i ≡ high + 1 + i = omega arith in
      elim (Bool-cases (get_bit window i)) [
        | inl b ↦
            rw (b, evict)
              (mem-evict rounds (suc i) pending n (omega arith)
                ∙ ground (arith, evicted_step i rounds n))
        | inr b ↦
            rw (b, evict, number)
              (mem-evict rounds (suc i) (put (high + 1 + i) pending) n (omega arith)
                ∙ rw mem-put (ground (arith, evicted_step i rounds n)))
      ]

-- The window of a slide, before its lowest positions are taken off: the arriving number stands one
-- past the reorder window, so it is not marked.
pub unmarked : (r : ℕ) (window : List ℕ) → mark r r window ≡ window
unfolding mark
unmarked r window = ground arith

-- How far the window moves.
abbrev pub slide_dist : ℕ → ℕ → ℕ → ℕ
slide_dist r high new_high = let dist = sub64 new_high high in if ltb r dist then r else dist

-- What a slide by `dist` positions leaves before advanceContiguous.
abbrev slid : ℕ → ProducerState → ℕ → ProducerState
slid dist ps new_high =
    let pending = evict dist 0 ps.high_contiguous ps.window ps.pending_lost in
    record ps {
      pending_lost = pending;
      confirmed_lost = u64 (length pending);
      high_contiguous = new_high;
      window = shift_times dist ps.window;
    }

-- Numbers that a slide jumps over, past the window's old end: they come to count as seen.
abbrev pub skipped : ℕ → ℕ → ℕ → ℕ → Bool
skipped r high new_high n = ltb (high + r) n && leb n new_high

module _ (r : ℕ) (ps : ProducerState) (seq new_high : ℕ) (f : Fits r ps.high_contiguous ps.window)
    (low : (n : ℕ) → mem n ps.pending_lost ≡ true → n ≤ ps.high_contiguous)
    (beyond : seq ≡ new_high + r + 1) (up : ps.high_contiguous < new_high)
    (word : seq < 2 ^ 64) where
  module _ (dist : ℕ) (cut : dist ≡ min r (new_high - ps.high_contiguous)) where
    slid-Fits : Fits r new_high (slid dist ps new_high).window
    slid-Fits = record {
      words = shift_times-AreWords dist ps.window f.words;
      high_word = omega arith;
      wide = omega (arith, f.wide, length-shift_times dist ps.window);
      inside =
          λ p h. get_bit-shift_times dist ps.window p f.words ∙ f.inside (dist + p) (omega arith);
      room =
          λ p h. ground (arith, get_bit-shift_times dist ps.window p f.words, f.inside (dist + p));
    }

    mem-slid :
        (n : ℕ)
        → mem n (slid dist ps new_high).pending_lost
          ≡ mem n ps.pending_lost || evicted ps.high_contiguous ps.window 0 dist n
    mem-slid n = mem-evict ps.high_contiguous ps.window dist 0 ps.pending_lost n (omega arith)

    slid_low : (n : ℕ) → mem n (slid dist ps new_high).pending_lost ≡ true → n ≤ new_high
    slid_low n h = ground (arith, mem-slid n, low n)

    slid-seen :
        (n : ℕ)
        → seen (slid dist ps new_high) n ≡ seen ps n || skipped r ps.high_contiguous new_high n
    slid-seen n = elim (Bool-cases (leb n new_high)) [
      | inl below ↦
          rw (below, mem-slid) (ground (arith, low n, f.inside (n - ps.high_contiguous - 1)))
      | inr above ↦
          let shifted = get_bit-shift_times dist ps.window (n - new_high - 1) f.words in
          elim (Bool-cases (leb (new_high - ps.high_contiguous) r)) [
            | inl near ↦
                let same : dist + (n - new_high - 1) ≡ n - ps.high_contiguous - 1 = ground arith in
                rw (above, shifted, same) (ground arith)
            | inr far ↦
                rw (above, shifted, f.inside (dist + (n - new_high - 1)) (ground arith))
                  (ground (arith, f.inside (n - ps.high_contiguous - 1)))
          ]
    ]

  slide_to-slid :
      slide_to r ps seq new_high
      ≡ advance_contiguous (slid (slide_dist r ps.high_contiguous new_high) ps new_high)
  unfolding slide_to
  slide_to-slid =
      let offset : sub64 (sub64 seq new_high) 1 ≡ r = omega arith in rw (offset, unmarked)

  -- slideWindow's main branch keeps the invariant.
  pub slide_to-IsValid : Distinct ps.pending_lost → IsValid r (slide_to r ps seq new_high)
  slide_to-IsValid d =
      let dist = slide_dist r ps.high_contiguous new_high in
      let cut : dist ≡ min r (new_high - ps.high_contiguous) = ground arith in
      rw slide_to-slid (
        advance_contiguous-IsValid (slid dist ps new_high) (slid-Fits dist cut) (slid_low dist cut)
          (evict-Distinct ps.high_contiguous ps.window dist 0 ps.pending_lost d) refl)

  -- It leaves the standing of each number, but for those that it jumps over.
  pub slide_to-seen :
      (n : ℕ)
      → seen (slide_to r ps seq new_high) n ≡ seen ps n || skipped r ps.high_contiguous new_high n
  slide_to-seen n =
      let dist = slide_dist r ps.high_contiguous new_high in
      let cut : dist ≡ min r (new_high - ps.high_contiguous) = ground arith in
      rw slide_to-slid (
        advance_contiguous-seen (slid dist ps new_high) (slid-Fits dist cut) (slid_low dist cut) n
        ∙ slid-seen dist cut n)
