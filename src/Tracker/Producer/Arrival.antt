-- ===== src/Tracker/Producer/Arrival.antt =====
-- Record for a known producer: what an arrival reports, and what it does to the set of numbers
-- that count as seen, to the counters and to the suspected losses.
use kubemq_gcp_pub_sub.Base.{
  ℕ, ◌-◌, ◌^◌, ◌<◌, ◌≡◌, Bool, ◌==◌, ==→eq, ◌||◌, arith, Bool-cases, inl, inr, sym, ◌∙◌,
}
use kubemq_gcp_pub_sub.Tracker.Pending.{mem-delete}
use kubemq_gcp_pub_sub.Tracker.Producer.{
  ProducerState, count_arrival, count_duplicate, record_known,
}
use kubemq_gcp_pub_sub.Tracker.Producer.Seen.{seen, IsValid}
use kubemq_gcp_pub_sub.Tracker.Producer.Advance.{
  advance_contiguous-IsValid, advance_contiguous-seen,
}
use kubemq_gcp_pub_sub.Tracker.Producer.Placement.{
  absorbed, Branch, late, repeated, slides, fresh, place-Branch, slide_window-IsValid,
  slide_window-seen, marked, marked-Fits, marked-seen, recovered-IsValid,
}

-- Counters are no part of the invariant.
count_duplicate-IsValid :
    {r : ℕ} (ps : ProducerState) → IsValid r ps → IsValid r (count_duplicate ps)
count_duplicate-IsValid ps v = record {
  fits = v.fits;
  settled = v.settled;
  pending_low = v.pending_low;
  distinct = v.distinct;
  counted = v.counted;
}

count_arrival-IsValid :
    {r : ℕ} (ps : ProducerState) (seq : ℕ) → IsValid r ps → IsValid r (count_arrival ps seq)
unfolding count_arrival
count_arrival-IsValid ps seq v = record {
  fits = v.fits;
  settled = v.settled;
  pending_low = v.pending_low;
  distinct = v.distinct;
  counted = v.counted;
}

module _ (r : ℕ) (ps : ProducerState) (seq : ℕ) (v : IsValid r ps) (word : seq < 2 ^ 64) where
  Branch-IsValid : {out : ProducerState × Bool} → Branch r ps seq v word out → IsValid r out.0
  Branch-IsValid (late b p) = recovered-IsValid r ps seq v word
  Branch-IsValid (repeated s) = count_duplicate-IsValid ps v
  Branch-IsValid (slides past) = slide_window-IsValid r ps seq v word past
  Branch-IsValid (fresh above within b) =
      advance_contiguous-IsValid (marked r ps seq v word above within)
        (marked-Fits r ps seq v word above within) v.pending_low v.distinct v.counted

  Branch-dup : {out : ProducerState × Bool} → Branch r ps seq v word out → out.1 ≡ seen ps seq
  Branch-dup (late b p) = ground arith
  Branch-dup (repeated s) = sym s
  Branch-dup (slides past) = ground (arith, v.fits.inside (seq - ps.high_contiguous - 1))
  Branch-dup (fresh above within b) = ground arith

  Branch-seen :
      {out : ProducerState × Bool}
      → Branch r ps seq v word out
      → (n : ℕ) → seen out.0 n ≡ seen ps n || absorbed r ps seq n
  Branch-seen (late b p) n = ground (arith, mem-delete n seq ps.pending_lost)
  Branch-seen (repeated s) n = elim (Bool-cases (seq == n)) [
    | inl same ↦
        rw (← ==→eq seq n same) (ground (arith, v.fits.inside (seq - ps.high_contiguous - 1)))
    | inr other ↦ ground (arith, v.fits.inside (seq - ps.high_contiguous - 1))
  ]
  Branch-seen (slides past) n = ground (arith, slide_window-seen r ps seq v word past n)
  Branch-seen (fresh above within b) n =
      advance_contiguous-seen (marked r ps seq v word above within)
        (marked-Fits r ps seq v word above within) v.pending_low n
      ∙ ground (arith, marked-seen r ps seq v word above within n)

module _ (r : ℕ) (ps : ProducerState) (seq : ℕ) (v : IsValid r ps) (word : seq < 2 ^ 64) where
  -- In a valid state, a number below 2 ^ 64 leaves a valid state.
  pub record_known-IsValid : IsValid r (record_known r ps seq).0
  unfolding record_known
  record_known-IsValid =
      Branch-IsValid r (count_arrival ps seq) seq (count_arrival-IsValid ps seq v) word
        (place-Branch r (count_arrival ps seq) seq (count_arrival-IsValid ps seq v) word)

  -- In a valid state Record reports a duplicate exactly when the number, below 2 ^ 64, counts as
  -- seen.
  pub duplicate_exact : (record_known r ps seq).1 ≡ seen ps seq
  unfolding record_known count_arrival
  duplicate_exact =
      Branch-dup r (count_arrival ps seq) seq (count_arrival-IsValid ps seq v) word
        (place-Branch r (count_arrival ps seq) seq (count_arrival-IsValid ps seq v) word)

  -- In a valid state Record makes seen what `absorbed` names, and changes the standing of no other
  -- number.
  pub seen-record_known :
      (n : ℕ) → seen (record_known r ps seq).0 n ≡ seen ps n || absorbed r ps seq n
  unfolding record_known count_arrival
  seen-record_known =
      Branch-seen r (count_arrival ps seq) seq (count_arrival-IsValid ps seq v) word
        (place-Branch r (count_arrival ps seq) seq (count_arrival-IsValid ps seq v) word)
