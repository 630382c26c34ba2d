-- ===== src/Tracker/Reported.antt =====
-- burnin/tracker/tracker.go: the losses of the producers, and what the passes of DetectGaps report of them.
use kubemq_gcp_pub_sub.Base.{
  ℕ, ◌+◌, ◌-◌, ◌^◌, ◌<◌, ◌≡◌, refl, sym, String, List, [], ◌∷◌, Option, none, some, arith,
  Bool-cases, inl, inr,
}
use kubemq_gcp_pub_sub.Base.Assoc.{
  eqs, lookup, insert, lookup_head, lookup_tail, insert_head, insert_tail,
}
use kubemq_gcp_pub_sub.Tracker.Producer.{
  ProducerState, new_producer, record_known, count_arrival, place, slide_window, slide_to,
  advance_contiguous,
}
use kubemq_gcp_pub_sub.Tracker.{
  Tracker, Producers, record_sequence, detect_gaps_in, detect_gaps, reset, new,
}
use kubemq_gcp_pub_sub.Tracker.Gaps.{AreCounts, rise_sum, delta_sum, detect_gaps_lem}

-- What moves a tracker during a run: an arrival, a pass of DetectGaps (by gapDetector or shutdownWorkers),
-- and the end of the warmup.
pub data Event : Type 0 where
  arrived : String → ℕ → Event
  detected warmed_up : Event

unfoldable pub observe : Event → Tracker → Tracker
observe (Event.arrived id seq) t = (record_sequence t id seq).0
observe Event.detected t = (detect_gaps t).0
observe Event.warmed_up t = reset t

-- What each pass reports, the first pass first.
abbrev pub reports : List Event → Tracker → List ℕ
reports [] t = []
reports (Event.arrived id seq ∷ es) t = reports es (observe (Event.arrived id seq) t)
reports (Event.detected ∷ es) t =
    delta_sum (detect_gaps t).1 ∷ reports es (observe Event.detected t)
reports (Event.warmed_up ∷ es) t = reports es (observe Event.warmed_up t)

abbrev first_of : List ℕ → ℕ
first_of [] = 0
first_of (n ∷ ns) = n

abbrev rest_of : List ℕ → List ℕ
rest_of [] = []
rest_of (n ∷ ns) = ns

-- The losses of the producers, in the order in which they first arrived.
abbrev losses : Producers → List ℕ
losses [] = []
losses ((_, ps) ∷ m) = ps.confirmed_lost ∷ losses m

-- How far the losses stand above what they were, 0 for a producer that was not there.
abbrev risen : Producers → List ℕ → ℕ
risen [] before = 0
risen ((_, ps) ∷ m) before = (ps.confirmed_lost - first_of before) + risen m (rest_of before)

-- What each pass is to report: how far the losses have risen since the pass before it, or since the end
-- of the warmup, where `before` are the losses at that time.
abbrev pub rises : List Event → List ℕ → Tracker → List ℕ
rises [] before t = []
rises (Event.arrived id seq ∷ es) before t = rises es before (observe (Event.arrived id seq) t)
rises (Event.detected ∷ es) before t =
    risen t.producers before ∷ rises es (losses t.producers) (observe Event.detected t)
rises (Event.warmed_up ∷ es) before t = rises es [] (observe Event.warmed_up t)

-- What is marked as reported of each producer.
abbrev AreReportedAs : List ℕ → Producers → Type 0
AreReportedAs before [] = before ≡ []
AreReportedAs before ((_, ps) ∷ m) =
    (ps.last_reported_lost ≡ first_of before) × AreReportedAs (rest_of before) m

abbrev reported_of : Option ProducerState → ℕ
reported_of none = 0
reported_of (some ps) = ps.last_reported_lost

insert-AreReportedAs :
    (id : String) (ps : ProducerState) (before : List ℕ) (m : Producers)
    → ps.last_reported_lost ≡ reported_of (lookup id m)
    → AreReportedAs before m
    → AreReportedAs before (insert id ps m)
insert-AreReportedAs id ps before [] h v = rw v (h, refl)
insert-AreReportedAs id ps before ((j, qs) ∷ m) h v = elim (Bool-cases (eqs j id)) [
  | inl same ↦ rw (insert_head id j qs m ps same) (ground (arith, h, v.0), v.1)
  | inr other ↦
      rw (insert_tail id j qs m ps other)
        (v.0, insert-AreReportedAs id ps (rest_of before) m (ground (arith, h)) v.1)
]

insert-AreCounts :
    (id : String) (ps : ProducerState) (m : Producers)
    → ps.confirmed_lost < 2 ^ 64
    → AreCounts m
    → AreCounts (insert id ps m)
insert-AreCounts id ps [] h c = (h, tt)
insert-AreCounts id ps ((j, qs) ∷ m) h c = elim (Bool-cases (eqs j id)) [
  | inl same ↦ rw (insert_head id j qs m ps same) (h, c.1)
  | inr other ↦ rw (insert_tail id j qs m ps other) (c.0, insert-AreCounts id ps m h c.1)
]

lookup-AreCounts :
    (id : String) (m : Producers) {ps : ProducerState}
    → AreCounts m
    → lookup id m ≡ some ps
    → ps.confirmed_lost < 2 ^ 64
lookup-AreCounts id [] c h = cc
lookup-AreCounts id ((j, qs) ∷ m) {ps} c h = elim (Bool-cases (eqs j id)) [
  | inl same ↦ rw (sym (lookup_head id j qs m same h)) c.0
  | inr other ↦ lookup-AreCounts id m c.1 (lookup_tail id j qs m (some ps) other h)
]

place_losses :
    (r : ℕ) (ps : ProducerState) (seq : ℕ)
    → ps.confirmed_lost < 2 ^ 64
    → let ps' = (place r ps seq).0 in
      (ps'.confirmed_lost < 2 ^ 64) × (ps'.last_reported_lost ≡ ps.last_reported_lost)
unfolding place slide_window slide_to advance_contiguous
place_losses r ps seq h = ground arith

record_known_losses :
    (r : ℕ) (ps : ProducerState) (seq : ℕ)
    → ps.confirmed_lost < 2 ^ 64
    → let ps' = (record_known r ps seq).0 in
      (ps'.confirmed_lost < 2 ^ 64) × (ps'.last_reported_lost ≡ ps.last_reported_lost)
unfolding record_known count_arrival
record_known_losses r ps seq h = place_losses r (count_arrival ps seq) seq h

new_producer_losses :
    (r seq : ℕ)
    → let ps = new_producer r seq in (ps.confirmed_lost ≡ 0) × (ps.last_reported_lost ≡ 0)
unfolding new_producer advance_contiguous
new_producer_losses r seq = (refl, refl)

-- Record keeps the losses words, and marks nothing as reported.
record_sequence_reported :
    (t : Tracker) (id : String) (seq : ℕ) (before : List ℕ)
    → AreCounts t.producers
    → AreReportedAs before t.producers
    → let t' = (record_sequence t id seq).0 in
      AreCounts t'.producers × AreReportedAs before t'.producers
unfolding record_sequence
record_sequence_reported t id seq before c v = go (lookup id t.producers) refl
  where
    go :
        (found : Option ProducerState)
        → lookup id t.producers ≡ found
        → let t' = (record_sequence t id seq).0 in
          AreCounts t'.producers × AreReportedAs before t'.producers
    go none e =
        let fresh = new_producer_losses t.reorder_window seq in
        rw (record_sequence, e)
          (
            insert-AreCounts id _ t.producers (omega (arith, fresh.0)) c,
            insert-AreReportedAs id _ before t.producers (rw e fresh.1) v,
          )
    go (some ps) e =
        let kept =
          record_known_losses t.reorder_window ps seq (lookup-AreCounts id t.producers c e) in
        rw (record_sequence, e)
          (
            insert-AreCounts id _ t.producers kept.0 c,
            insert-AreReportedAs id _ before t.producers (rw e kept.1) v,
          )

-- A pass marks all that is lost as reported.
detect_gaps_reported :
    (m : Producers)
    → AreCounts m
    → let m' = (detect_gaps_in m).0 in AreCounts m' × AreReportedAs (losses m) m'
unfolding detect_gaps_in
detect_gaps_reported [] c = (tt, refl)
detect_gaps_reported ((id, ps) ∷ m) c =
    let (kept, now) = detect_gaps_reported m c.1 in ((c.0, kept), (refl, now))

rise_sum-risen :
    (m : Producers) (before : List ℕ) → AreReportedAs before m → rise_sum m ≡ risen m before
rise_sum-risen [] before v = refl
rise_sum-risen ((id, ps) ∷ m) before v = omega (arith, v.0, rise_sum-risen m (rest_of before) v.1)

reports_from :
    (es : List Event) (before : List ℕ) (t : Tracker)
    → AreCounts t.producers
    → AreReportedAs before t.producers
    → reports es t ≡ rises es before t
unfolding observe detect_gaps reset
reports_from [] before t c v = refl
reports_from (Event.arrived id seq ∷ es) before t c v =
    let (c', v') = record_sequence_reported t id seq before c v in
    reports_from es before (observe (Event.arrived id seq) t) c' v'
reports_from (Event.detected ∷ es) before t c v =
    let (c', v') = detect_gaps_reported t.producers c in
    let here = (detect_gaps_lem t c).0 in
    let later = reports_from es (losses t.producers) (observe Event.detected t) c' v' in
    cc (here, later, rise_sum-risen t.producers before v)
reports_from (Event.warmed_up ∷ es) before t c v =
    reports_from es [] (observe Event.warmed_up t) tt refl

-- From a new tracker, whatever arrivals, passes of DetectGaps and ends of the warmup follow each other: each
-- pass reports, in the sum of its deltas, exactly how far the confirmed losses of the producers have
-- risen since the pass before it or the end of the warmup, a producer whose losses have fallen
-- counting nothing.
pub reports_lem :
    (es : List Event) (reorder_window : ℕ)
    → reports es (new reorder_window) ≡ rises es [] (new reorder_window)
unfolding new
reports_lem es r = reports_from es [] (new r) tt refl
