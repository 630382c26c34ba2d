-- ===== src/Tracker/Tests.antt =====
-- Runs of the tracker, burnin/tracker/tracker_recovery_test.go among them, and the theorems at
-- concrete inputs.
use kubemq_gcp_pub_sub.Base.{
  ℕ, ◌*◌, ◌≡◌, refl, List, [], ◌∷◌, true, false, not, ltb, ◌==◌, ◌&&◌, ◌||◌, arith, length,
}
use kubemq_gcp_pub_sub.Tracker.Window.{get_bit, set_bit, shift_left}
use kubemq_gcp_pub_sub.Tracker.Window.Laws.{get_bit-set_bit, get_bit-shift_left}
use kubemq_gcp_pub_sub.Tracker.Pending.{mem, put, delete}
use kubemq_gcp_pub_sub.Tracker.Producer.{
  ProducerState, advance, advance_contiguous, evict, shift_times, mark, slide_to, slide_window,
  new_producer, count_arrival, place, record_known,
}
use kubemq_gcp_pub_sub.Tracker.Producer.Seen.{seen, IsValid}
use kubemq_gcp_pub_sub.Tracker.Producer.Placement.{absorbed}
use kubemq_gcp_pub_sub.Tracker.Producer.Arrival.{
  record_known-IsValid, duplicate_exact, seen-record_known,
}
use kubemq_gcp_pub_sub.Tracker.Producer.Losses.{past_window_forgotten, jumped_over_unnoticed}
use kubemq_gcp_pub_sub.Tracker.Producer.First.{new_producer_lem}
use kubemq_gcp_pub_sub.Tracker.Producer.Runs.{run, InWindow, run-seen, run-pending}
use kubemq_gcp_pub_sub.Tracker.{Tracker, new, record_sequence, sum_in, total_received, total_lost}
use kubemq_gcp_pub_sub.Tracker.Reported.{Event, reports, rises, reports_lem}
use kubemq_gcp_pub_sub.Tracker.Totals.{AllValid, record_sequence-AllValid}

-- A reorder window of 4, and a producer that has sent 1.
abbrev first : ProducerState
first = new_producer 4 1

first-IsValid : IsValid 4 first
first-IsValid = (new_producer_lem 4 1 (omega arith) (omega arith)).0

first_high : first.high_contiguous ≡ 1
first_high = (new_producer_lem 4 1 (omega arith) (omega arith)).1

-- 7 arrives: the window slides and 2 is suspected lost.
abbrev slid : ProducerState
slid = (record_known 4 first 7).0

slid-IsValid : IsValid 4 slid
slid-IsValid = record_known-IsValid 4 first 7 first-IsValid (omega arith)

slid_pending : (slid.pending_lost ≡ 2 ∷ []) × (slid.high_contiguous ≡ 2)
unfolding record_known place count_arrival slide_window slide_to evict put mem shift_times mark
    advance_contiguous advance new_producer get_bit set_bit shift_left
slid_pending = (refl, refl)

record_known-IsValid_example : IsValid 4 (record_known 4 first 7).0
record_known-IsValid_example = record_known-IsValid 4 first 7 first-IsValid (omega arith)

duplicate_exact_example : (record_known 4 first 1).1 ≡ seen first 1
duplicate_exact_example = duplicate_exact 4 first 1 first-IsValid (omega arith)

seen-record_known_example : seen (record_known 4 first 3).0 3 ≡ seen first 3 || absorbed 4 first 3 3
seen-record_known_example = seen-record_known 4 first 3 first-IsValid (omega arith) 3

past_window_forgotten_example : (record_known 4 (record_known 4 first 7).0 7).1 ≡ false
past_window_forgotten_example =
    past_window_forgotten 4 first 7 first-IsValid (omega arith) (omega (arith, first_high))

jumped_over_unnoticed_example :
    (seen first 10 ≡ false) × ((record_known 4 (record_known 4 first 50).0 10).1 ≡ true)
jumped_over_unnoticed_example =
    jumped_over_unnoticed 4 first 50 10 first-IsValid (omega arith) (omega (arith, first_high))
      (omega arith)

get_bit-set_bit_example :
    get_bit (set_bit (0 ∷ 0 ∷ []) 70) 70
    ≡ (ltb 70 (length {A = ℕ} (0 ∷ 0 ∷ []) * 64) && (70 == 70)) || get_bit (0 ∷ 0 ∷ []) 70
get_bit-set_bit_example = get_bit-set_bit (0 ∷ 0 ∷ []) 70 70

-- The lowest bit of the second word becomes the highest of the first.
get_bit-shift_left_example : get_bit (shift_left (5 ∷ 1 ∷ [])) 63 ≡ get_bit (5 ∷ 1 ∷ []) 64
get_bit-shift_left_example = get_bit-shift_left (5 ∷ 1 ∷ []) 63 (omega arith)

abbrev swapped : List ℕ
swapped = 3 ∷ 2 ∷ 3 ∷ []

swapped-InWindow : InWindow 4 first swapped
unfolding record_known place count_arrival slide_window slide_to evict put mem shift_times mark
    advance_contiguous advance new_producer get_bit set_bit shift_left
swapped-InWindow = omega arith

run-seen_example : seen (run 4 first swapped) 2 ≡ seen first 2 || mem 2 swapped
run-seen_example = run-seen 4 swapped first 2 first-IsValid swapped-InWindow

run-pending_example :
    mem 2 (run 4 first swapped).pending_lost ≡ mem 2 first.pending_lost && not (mem 2 swapped)
run-pending_example = run-pending 4 swapped first 2 first-IsValid swapped-InWindow

-- One producer, and a second one that arrives.
abbrev one : Tracker
one = record { reorder_window = 4; producers = ("p1", slid) ∷ [] }

record_sequence-AllValid_example : AllValid 4 (record_sequence one "p2" 3).0.producers
record_sequence-AllValid_example =
    record_sequence-AllValid one "p2" 3 (omega arith) (omega arith) (slid-IsValid, tt)

slid_lost : slid.confirmed_lost ≡ 1
unfolding record_known place count_arrival slide_window slide_to evict put mem shift_times mark
    advance_contiguous advance new_producer get_bit set_bit shift_left
slid_lost = refl

-- TestSuspectedLossRecoveredIsNotLost: 1, 2, 3 and 9, then 4 late.
abbrev record_all : Tracker → List ℕ → Tracker
record_all t [] = t
record_all t (seq ∷ seqs) = record_all (record_sequence t "p1" seq).0 seqs

suspected_loss_recovered :
    let t = record_all (new 4) (1 ∷ 2 ∷ 3 ∷ 9 ∷ []) in
    (total_lost t ≡ 1)
    × ((record_sequence t "p1" 4).1 ≡ false)
    × (total_lost (record_sequence t "p1" 4).0 ≡ 0)
unfolding record_sequence new total_lost total_received sum_in record_known place count_arrival
    slide_window slide_to evict put delete mem shift_times mark advance_contiguous advance
    new_producer get_bit set_bit shift_left
suspected_loss_recovered = (refl, refl, refl)

-- 9 was received, and yet it is reported lost once the window has moved on.
received_counted_lost :
    let t = record_all (new 4) (1 ∷ 2 ∷ 3 ∷ 9 ∷ 4 ∷ 5 ∷ 6 ∷ 7 ∷ 8 ∷ 10 ∷ 11 ∷ 12 ∷ 14 ∷ []) in
    (total_lost (record_sequence t "p1" 15).0 ≡ 1) × (total_received t ≡ 13)
unfolding record_sequence new total_lost total_received sum_in record_known place count_arrival
    slide_window slide_to evict put delete mem shift_times mark advance_contiguous advance
    new_producer get_bit set_bit shift_left
received_counted_lost = (refl, refl)

-- A loss in the warmup that is reported and then arrives, one after the warmup, and a second pass that
-- has nothing more to report.
abbrev reported_events : List Event
reported_events =
    Event.arrived "p" 1
    ∷ Event.arrived "p" 131
    ∷ Event.detected
    ∷ Event.arrived "p" 2
    ∷ Event.warmed_up
    ∷ Event.arrived "q" 1
    ∷ Event.arrived "q" 131
    ∷ Event.detected
    ∷ Event.detected
    ∷ []

reports_lem_example : reports reported_events (new 128) ≡ rises reported_events [] (new 128)
reports_lem_example = reports_lem reported_events 128
