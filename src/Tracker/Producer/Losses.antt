-- ===== src/Tracker/Producer/Losses.antt =====
-- Suspected losses: how Record adds and clears them, and what it does not remember.
use kubemq_gcp_pub_sub.Base.{
  ℕ, ◌+◌, ◌-◌, ◌^◌, ◌≤◌, ◌<◌, ◌≡◌, true, false, length, ltb, if◌then◌else◌, arith, ◌∙◌,
}
use kubemq_gcp_pub_sub.Base.Words.{add64}
use kubemq_gcp_pub_sub.Tracker.Pending.{mem, mem-delete, length-delete}
use kubemq_gcp_pub_sub.Tracker.Producer.{
  ProducerState, advance_contiguous, slide_to, slide_window, count_arrival, place, record_known,
}
use kubemq_gcp_pub_sub.Tracker.Producer.Seen.{seen, IsValid}
use kubemq_gcp_pub_sub.Tracker.Producer.Arrival.{
  record_known-IsValid, duplicate_exact, seen-record_known,
}

place_counters :
    (r : ℕ) (ps : ProducerState) (seq : ℕ)
    → let (ps', is_duplicate) = place r ps seq in
      (ps'.received ≡ ps.received)
      × (ps'.duplicates ≡ (if is_duplicate then add64 ps.duplicates 1 else ps.duplicates))
      × (ps'.out_of_order ≡ ps.out_of_order)
      × (ps'.last_seen ≡ ps.last_seen)
unfolding place slide_window slide_to advance_contiguous
place_counters r ps seq = ground arith

-- Record counts the arrival, adds one duplicate if it reports one, and reports out of order
-- exactly a number below the previous arrival, which it counts and remembers.
pub record_known_counters :
    (r : ℕ) (ps : ProducerState) (seq : ℕ)
    → let (ps', is_duplicate, is_out_of_order) = record_known r ps seq in
      (ps'.received ≡ add64 ps.received 1)
      × (ps'.duplicates ≡ (if is_duplicate then add64 ps.duplicates 1 else ps.duplicates))
      × (is_out_of_order ≡ ltb seq ps.last_seen)
      × (ps'.out_of_order ≡ (if is_out_of_order then add64 ps.out_of_order 1 else ps.out_of_order))
      × (ps'.last_seen ≡ seq)
unfolding record_known count_arrival
record_known_counters r ps seq = ground (arith, place_counters r (count_arrival ps seq) seq)

-- A suspected loss that arrives after all is no duplicate: it leaves the pending set, the lost
-- count falls by one, and the watermark and the window stay.
late_delivery_recovers :
    (r : ℕ) (ps : ProducerState) (seq : ℕ)
    → IsValid r ps
    → mem seq ps.pending_lost ≡ true
    → length ps.pending_lost < 2 ^ 64
    → let (ps', is_duplicate, _) = record_known r ps seq in
      (is_duplicate ≡ false)
      × (ps'.confirmed_lost + 1 ≡ ps.confirmed_lost)
      × (mem seq ps'.pending_lost ≡ false)
      × (ps'.high_contiguous ≡ ps.high_contiguous)
      × (ps'.window ≡ ps.window)
unfolding record_known place count_arrival
late_delivery_recovers r ps seq v pending few =
    let below = v.pending_low seq pending in
    let kept = length-delete seq ps.pending_lost v.distinct pending in
    ground (arith, mem-delete seq seq ps.pending_lost)

-- An arrival past the reorder window is not remembered: at once delivered again, it is still not
-- reported as a duplicate.
pub past_window_forgotten :
    (r : ℕ) (ps : ProducerState) (seq : ℕ)
    → IsValid r ps
    → seq < 2 ^ 64
    → ps.high_contiguous + r + 1 ≤ seq
    → (record_known r (record_known r ps seq).0 seq).1 ≡ false
past_window_forgotten r ps seq v word past =
    duplicate_exact r (record_known r ps seq).0 seq (record_known-IsValid r ps seq v word) word
    ∙ seen-record_known r ps seq v word seq
    ∙ ground (arith, v.fits.inside (seq - ps.high_contiguous - 1))

-- A number that lies beyond the reorder window after the watermark, and that an arrival jumps over by
-- more than a whole window, is never a suspected loss: though it has not arrived, its own arrival is
-- then reported as a duplicate.
pub jumped_over_unnoticed :
    (r : ℕ) (ps : ProducerState) (seq n : ℕ)
    → IsValid r ps
    → seq < 2 ^ 64
    → ps.high_contiguous + r < n
    → n + r + 1 ≤ seq
    → (seen ps n ≡ false) × ((record_known r (record_known r ps seq).0 n).1 ≡ true)
jumped_over_unnoticed r ps seq n v word past jumped = (
  ground (arith, v.fits.inside (n - ps.high_contiguous - 1)),
  duplicate_exact r (record_known r ps seq).0 n (record_known-IsValid r ps seq v word) (omega arith)
      ∙ seen-record_known r ps seq v word n
      ∙ ground (arith, v.fits.inside (n - ps.high_contiguous - 1)),
)
