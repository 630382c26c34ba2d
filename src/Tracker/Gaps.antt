-- ===== src/Tracker/Gaps.antt =====
-- What DetectGaps reports of the losses of the producers, and which producers Record touches.
use kubemq_gcp_pub_sub.Base.{
  ℕ, String, ◌+◌, ◌-◌, ◌^◌, ◌<◌, ◌≡◌, refl, List, [], ◌∷◌, false, Option, none, some, ltb,
  if◌then◌else◌, arith, Bool-cases, inl, inr,
}
use kubemq_gcp_pub_sub.Base.Assoc.{eqs, lookup, lookup-insert}
use kubemq_gcp_pub_sub.Tracker.Producer.{ProducerState, new_producer, record_known}
use kubemq_gcp_pub_sub.Tracker.{Tracker, Producers, record_sequence, detect_gaps_in, detect_gaps}

-- What DetectGaps adds to the live metric.
abbrev pub delta_sum : List (String × ℕ) → ℕ
delta_sum [] = 0
delta_sum ((_, d) ∷ ds) = d + delta_sum ds

-- How far the losses stand above what was last reported; a recovery counts nothing.
abbrev pub rise_sum : Producers → ℕ
rise_sum [] = 0
rise_sum ((_, ps) ∷ m) = ps.confirmed_lost - ps.last_reported_lost + rise_sum m

abbrev pub AreCounts : Producers → Type 0
AreCounts [] = Unit
AreCounts ((_, ps) ∷ m) = (ps.confirmed_lost < 2 ^ 64) × AreCounts m

abbrev pub AllPositive : List (String × ℕ) → Type 0
AllPositive [] = Unit
AllPositive ((_, d) ∷ ds) = (0 < d) × AllPositive ds

gaps_in :
    (m : Producers)
    → AreCounts m
    → (delta_sum (detect_gaps_in m).1 ≡ rise_sum m)
      × AllPositive (detect_gaps_in m).1
      × ((detect_gaps_in (detect_gaps_in m).0).1 ≡ [])
unfolding detect_gaps_in
gaps_in [] c = (refl, tt, refl)
gaps_in ((id, ps) ∷ m) c =
    let ih = gaps_in m c.1 in
    let again : ltb ps.confirmed_lost ps.confirmed_lost ≡ false = ground arith in
    elim (Bool-cases (ltb ps.last_reported_lost ps.confirmed_lost)) [
      | inl up ↦ rw (up, again) (ground (arith, ih.0), (ground arith, ih.1), ih.2)
      | inr down ↦ rw (down, again) (ground (arith, ih.0), ih.1, ih.2)
    ]

-- For counts below 2 ^ 64, DetectGaps reports exactly the rise of the losses since the last call, in positive
-- deltas only, and a second call at once reports nothing.
pub detect_gaps_lem :
    (t : Tracker)
    → AreCounts t.producers
    → (delta_sum (detect_gaps t).1 ≡ rise_sum t.producers)
      × AllPositive (detect_gaps t).1
      × ((detect_gaps (detect_gaps t).0).1 ≡ [])
unfolding detect_gaps
detect_gaps_lem t c = gaps_in t.producers c

-- The state that Record leaves for its producer.
abbrev recorded : ℕ → Option ProducerState → ℕ → ProducerState
recorded r none seq = new_producer r seq
recorded r (some ps) seq = (record_known r ps seq).0

-- Record changes the state of its own producer alone.
record_sequence-lookup :
    (t : Tracker) (id j : String) (seq : ℕ)
    → lookup j (record_sequence t id seq).0.producers ≡ (
        if eqs id j
        then some (recorded t.reorder_window (lookup id t.producers) seq)
        else lookup j t.producers)
unfolding record_sequence
record_sequence-lookup t id j seq = go (lookup id t.producers) refl
  where
    go :
        (found : Option ProducerState)
        → lookup id t.producers ≡ found
        → lookup j (record_sequence t id seq).0.producers ≡ (
            if eqs id j
            then some (recorded t.reorder_window (lookup id t.producers) seq)
            else lookup j t.producers)
    go none e = rw (e, record_sequence, recorded) (lookup-insert id j _ t.producers)
    go (some ps) e = rw (e, record_sequence, recorded) (lookup-insert id j _ t.producers)
