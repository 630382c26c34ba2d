-- ===== src/Tracker/Producer/First.antt =====
-- Record for a producer that is not known yet: the first number starts the count.
use kubemq_gcp_pub_sub.Base.{
  ℕ, zero, suc, ◌+◌, ◌-◌, ◌*◌, ◌/◌, ◌%◌, ◌^◌, ◌<◌, ◌≡◌, refl, List, [], false, length, leb,
  replicate, length-replicate, get_or-replicate, ◌==◌, arith, ◌∙◌,
}
use kubemq_gcp_pub_sub.Base.Words.{add64, sub64}
use kubemq_gcp_pub_sub.Base.Bits.{zero-bit}
use kubemq_gcp_pub_sub.Tracker.Window.{get_bit, set_bit, shift_left}
use kubemq_gcp_pub_sub.Tracker.Window.Laws.{
  AreWords, get_bit-bit, get_bit-set_bit, get_bit-shift_left, length-set_bit, length-shift_left,
  set_bit-AreWords, shift_left-AreWords,
}
use kubemq_gcp_pub_sub.Tracker.Pending.{mem}
use kubemq_gcp_pub_sub.Tracker.Producer.{ProducerState, advance, advance_contiguous, new_producer}
use kubemq_gcp_pub_sub.Tracker.Producer.Seen.{seen, Fits, IsValid}

module _ (words : ℕ) (some_words : 0 < words) where
  abbrev zeros : List ℕ
  zeros = replicate words 0

  first_window : List ℕ
  first_window = set_bit zeros 0

  zeros-AreWords : (n : ℕ) → AreWords (replicate n 0)
  zeros-AreWords zero = tt
  zeros-AreWords (suc n) = (omega arith, zeros-AreWords n)

  first_window-AreWords : AreWords first_window
  unfolding first_window
  first_window-AreWords = set_bit-AreWords zeros 0 (zeros-AreWords words)

  length-first_window : length first_window ≡ words
  unfolding first_window
  length-first_window = length-set_bit zeros 0 ∙ length-replicate words 0

  get_bit-first_window : (p : ℕ) → get_bit first_window p ≡ (0 == p)
  unfolding first_window
  get_bit-first_window p =
      let empty : get_bit zeros p ≡ false =
        get_bit-bit zeros p ∙ rw get_or-replicate (zero-bit (p % 64)) in
      ground (arith, get_bit-set_bit zeros 0 p, length-replicate {A = ℕ} words 0)

  -- The loop takes one round: the first number itself.
  advance-first_window :
      (high fuel : ℕ)
      → advance (suc (suc fuel)) high first_window ≡ (add64 high 1, shift_left first_window)
  unfolding advance
  advance-first_window high fuel =
      let second : get_bit (shift_left first_window) 0 ≡ false =
        get_bit-shift_left first_window 0 first_window-AreWords ∙ get_bit-first_window 1 in
      rw (get_bit-first_window 0, advance, second)

  get_bit-shifted : (p : ℕ) → get_bit (shift_left first_window) p ≡ false
  get_bit-shifted p =
      get_bit-shift_left first_window p first_window-AreWords
      ∙ get_bit-first_window (suc p)
      ∙ ground arith

-- What new_producer leaves.
first_state : ℕ → ℕ → ProducerState
first_state words seq = record {
  high_contiguous = seq;
  window = shift_left (set_bit (replicate words 0) 0);
  received = 1;
  duplicates = 0;
  out_of_order = 0;
  confirmed_lost = 0;
  pending_lost = [];
  last_reported_lost = 0;
  last_seen = seq;
}

new_producer-first_state :
    (r seq : ℕ) → 0 < r → seq < 2 ^ 64 → new_producer r seq ≡ first_state ((r + 63) / 64) seq
unfolding new_producer advance_contiguous first_state first_window
new_producer-first_state r seq h word =
    let words = (r + 63) / 64 in
    let some_words : 0 < words = omega arith in
    let rounds : length (set_bit (replicate words 0) 0) * 64 ≡ suc (words * 64 - 1) =
      omega (arith, length-first_window words some_words) in
    let wraps : add64 (sub64 seq 1) 1 ≡ seq = omega arith in
    rw (rounds, advance-first_window words some_words (sub64 seq 1) (words * 64 - 1), wraps)

first_state-Fits :
    (r seq : ℕ) → 0 < r → seq < 2 ^ 64 → Fits r seq (first_state ((r + 63) / 64) seq).window
unfolding first_state first_window
first_state-Fits r seq h word =
    let words = (r + 63) / 64 in
    let some_words : 0 < words = omega arith in
    record {
      words = shift_left-AreWords _ (first_window-AreWords words some_words);
      high_word = word;
      wide = omega (
        arith,
        length-shift_left (set_bit (replicate words 0) 0),
        length-first_window words some_words,
      );
      inside = λ p _. get_bit-shifted words some_words p;
      room = λ p b. absurd (cc (get_bit-shifted words some_words p));
    }

-- The first number of a producer becomes the watermark, also where `seq - 1` wraps at 0; nothing
-- is pending, and exactly the numbers up to it count as seen.
pub new_producer_lem :
    (r seq : ℕ)
    → 0 < r
    → seq < 2 ^ 64
    → let ps = new_producer r seq in
      IsValid r ps × (ps.high_contiguous ≡ seq) × ((n : ℕ) → seen ps n ≡ leb n seq)
unfolding first_state first_window mem
new_producer_lem r seq h word =
    let words = (r + 63) / 64 in
    let some_words : 0 < words = omega arith in
    rw (new_producer-first_state r seq h word) (
      record {
        fits = first_state-Fits r seq h word;
        settled = get_bit-shifted words some_words 0;
        pending_low = λ n m. cc;
        distinct = tt;
        counted = refl;
      },
      refl,
      λ n. ground (arith, get_bit-shifted words some_words (n - seq - 1)),
    )

-- The first number is counted once, as neither duplicate nor lost nor out of order.
pub new_producer_counters :
    (r seq : ℕ)
    → let ps = new_producer r seq in
      (ps.received ≡ 1)
      × (ps.duplicates ≡ 0)
      × (ps.out_of_order ≡ 0)
      × (ps.confirmed_lost ≡ 0)
      × (ps.last_seen ≡ seq)
unfolding new_producer advance_contiguous
new_producer_counters r seq = (refl, refl, refl, refl, refl)
