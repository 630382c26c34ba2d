-- ===== src/Tracker.antt =====
-- burnin/tracker/tracker.go: the tracker over all producers. The mutex makes each method one step,
-- so a method is a function from tracker to tracker. The map is an association list by producer
-- id: Go's order of iteration is not fixed, and no method's result depends on it.
pub mod Window
pub mod Pending
pub mod Producer
pub mod Gaps
pub mod Reported
pub mod Totals
mod Tests
use kubemq_gcp_pub_sub.Base.{
  ℕ, String, List, [], ◌∷◌, Bool, false, Option, none, some, ltb, if◌then◌else◌,
}
use kubemq_gcp_pub_sub.Base.Words.{add64, sub64}
use kubemq_gcp_pub_sub.Base.Assoc.{lookup, insert}
use kubemq_gcp_pub_sub.Tracker.Producer.{ProducerState, new_producer, record_known}

abbrev pub Producers : Type 0
Producers = List (String × ProducerState)

pub record Tracker : Type 0 where
  pub reorder_window : ℕ
  pub producers : Producers

unfoldable pub new : ℕ → Tracker
new reorder_window = record { reorder_window = reorder_window; producers = [] }

-- Record, with isDuplicate and isOutOfOrder.
unfoldable pub record_sequence : Tracker → String → ℕ → Tracker × Bool × Bool
record_sequence t producer_id seq = elim (lookup producer_id t.producers) [
  | none ↦ (
    record t { producers = insert producer_id (new_producer t.reorder_window seq) t.producers },
    false,
    false,
  )
  | some ps ↦
      let (ps', is_duplicate, is_out_of_order) = record_known t.reorder_window ps seq in
      (record t { producers = insert producer_id ps' t.producers }, is_duplicate, is_out_of_order)
]

abbrev pub report_lost : ProducerState → ProducerState
report_lost ps = record ps { last_reported_lost = ps.confirmed_lost }

-- The loop of DetectGaps: the producers with their losses marked as reported, and the deltas.
unfoldable pub detect_gaps_in : Producers → Producers × List (String × ℕ)
detect_gaps_in [] = ([], [])
detect_gaps_in ((id, ps) ∷ rest) =
    let (rest', deltas) = detect_gaps_in rest in
    (
      (id, report_lost ps) ∷ rest',
      if ltb ps.last_reported_lost ps.confirmed_lost
          then (id, sub64 ps.confirmed_lost ps.last_reported_lost) ∷ deltas
          else deltas,
    )

unfoldable pub detect_gaps : Tracker → Tracker × List (String × ℕ)
detect_gaps t =
    let (producers, deltas) = detect_gaps_in t.producers in
    (record t { producers = producers }, deltas)

unfoldable pub reset : Tracker → Tracker
reset t = record t { producers = [] }

pub record ProducerStats : Type 0 where
  pub received : ℕ
  pub duplicates : ℕ
  pub out_of_order : ℕ
  pub confirmed_lost : ℕ

abbrev pub stats_of : ProducerState → ProducerStats
stats_of ps = record {
  received = ps.received;
  duplicates = ps.duplicates;
  out_of_order = ps.out_of_order;
  confirmed_lost = ps.confirmed_lost;
}

unfoldable pub stats_in : Producers → List (String × ProducerStats)
stats_in [] = []
stats_in ((id, ps) ∷ rest) = (id, stats_of ps) ∷ stats_in rest

unfoldable pub stats : Tracker → List (String × ProducerStats)
stats t = stats_in t.producers

-- The loop of `sum`, with its uint64 accumulator.
unfoldable pub sum_in : (ProducerState → ℕ) → ℕ → Producers → ℕ
sum_in f total [] = total
sum_in f total ((_, ps) ∷ rest) = sum_in f (add64 total (f ps)) rest

unfoldable pub total_received : Tracker → ℕ
total_received t = sum_in (λ ps. ps.received) 0 t.producers

unfoldable pub total_duplicates : Tracker → ℕ
total_duplicates t = sum_in (λ ps. ps.duplicates) 0 t.producers

unfoldable pub total_lost : Tracker → ℕ
total_lost t = sum_in (λ ps. ps.confirmed_lost) 0 t.producers

unfoldable pub total_out_of_order : Tracker → ℕ
total_out_of_order t = sum_in (λ ps. ps.out_of_order) 0 t.producers
