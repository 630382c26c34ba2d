-- ===== src/Tracker/Producer/Runs.antt =====
-- A producer's arrivals in sequence, each within the reorder window.
use kubemq_gcp_pub_sub.Base.{
  ℕ, suc, ◌+◌, ◌^◌, ◌<◌, ◌≡◌, List, [], ◌∷◌, not, ◌==◌, ◌&&◌, ◌||◌, if◌then◌else◌, arith, ◌∙◌,
}
use kubemq_gcp_pub_sub.Tracker.Pending.{mem, mem-delete}
use kubemq_gcp_pub_sub.Tracker.Producer.{
  ProducerState, advance_contiguous, count_arrival, place, record_known,
}
use kubemq_gcp_pub_sub.Tracker.Producer.Seen.{seen, IsValid}
use kubemq_gcp_pub_sub.Tracker.Producer.Arrival.{record_known-IsValid, seen-record_known}

-- An arrival within the window takes itself out of the suspected losses, and adds none.
pub pending-record_known :
    (r : ℕ) (ps : ProducerState) (seq n : ℕ)
    → IsValid r ps
    → seq < 2 ^ 64
    → seq < ps.high_contiguous + r + 1
    → mem n (record_known r ps seq).0.pending_lost ≡ mem n ps.pending_lost && not (seq == n)
unfolding record_known place count_arrival advance_contiguous
pending-record_known r ps seq n v word within =
    ground (arith, mem-delete n seq ps.pending_lost, v.pending_low n)

module _ (r : ℕ) where
  -- The states and the duplicate reports of a sequence of arrivals.
  abbrev pub run : ProducerState → List ℕ → ProducerState
  run ps [] = ps
  run ps (seq ∷ seqs) = run (record_known r ps seq).0 seqs

  abbrev pub fresh_count : ProducerState → List ℕ → ℕ
  fresh_count ps [] = 0
  fresh_count ps (seq ∷ seqs) =
      let rest = fresh_count (record_known r ps seq).0 seqs in
      if (record_known r ps seq).1 then rest else suc rest

  -- Every arrival is a uint64 below the end of the window as it then stands.
  abbrev pub InWindow : ProducerState → List ℕ → Type 0
  InWindow ps [] = Unit
  InWindow ps (seq ∷ seqs) =
      (seq < 2 ^ 64) × (seq < ps.high_contiguous + r + 1) × InWindow (record_known r ps seq).0 seqs

  pub run-IsValid :
      (seqs : List ℕ) (ps : ProducerState)
      → IsValid r ps
      → InWindow ps seqs
      → IsValid r (run ps seqs)
  run-IsValid [] ps v w = v
  run-IsValid (seq ∷ seqs) ps v w =
      run-IsValid seqs (record_known r ps seq).0 (record_known-IsValid r ps seq v w.0) w.2

  -- The tracker implements a set: from a valid state, after arrivals within the window the numbers that count as seen
  -- are those before and the arrivals, in whatever order they came and however often.
  pub run-seen :
      (seqs : List ℕ) (ps : ProducerState) (n : ℕ)
      → IsValid r ps
      → InWindow ps seqs
      → seen (run ps seqs) n ≡ seen ps n || mem n seqs
  unfolding mem
  run-seen [] ps n v w = ground arith
  run-seen (seq ∷ seqs) ps n v w =
      run-seen seqs (record_known r ps seq).0 n (record_known-IsValid r ps seq v w.0) w.2
      ∙ ground (arith, seen-record_known r ps seq v w.0 n)

  -- From a valid state, arrivals within the window never raise a false loss, and each clears its own suspicion.
  pub run-pending :
      (seqs : List ℕ) (ps : ProducerState) (n : ℕ)
      → IsValid r ps
      → InWindow ps seqs
      → mem n (run ps seqs).pending_lost ≡ mem n ps.pending_lost && not (mem n seqs)
  unfolding mem
  run-pending [] ps n v w = ground arith
  run-pending (seq ∷ seqs) ps n v w =
      run-pending seqs (record_known r ps seq).0 n (record_known-IsValid r ps seq v w.0) w.2
      ∙ ground (arith, pending-record_known r ps seq n v w.0 w.1)
