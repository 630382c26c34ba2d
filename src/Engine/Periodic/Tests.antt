-- ===== src/Engine/Periodic/Tests.antt =====
-- Runs of the periodic tasks.
use kubemq_gcp_pub_sub.Base.{ℕ, ◌*◌, ◌≡◌, ◌≤◌, ◌+◌, refl, List, [], ◌∷◌, ◌++◌, map, none, some}
use kubemq_gcp_pub_sub.Base.Int.{pos}
use kubemq_gcp_pub_sub.Samples.{milli, fresh_worker}
use kubemq_gcp_pub_sub.Tracker
use kubemq_gcp_pub_sub.Metrics.Exported.{Vectors}
use kubemq_gcp_pub_sub.Worker.{BaseWorker, new_base_worker, record_tracked, record_duplicated}
use kubemq_gcp_pub_sub.Tracker.Window.{get_bit, set_bit, shift_left}
use kubemq_gcp_pub_sub.Tracker.Pending.{put, mem}
use kubemq_gcp_pub_sub.Tracker.Producer.{
  new_producer, record_known, count_arrival, place, slide_window, slide_to, advance_contiguous,
  advance, evict, shift_times, mark,
}
use kubemq_gcp_pub_sub.Worker.Counting.{largest}
use kubemq_gcp_pub_sub.Engine.Periodic.{Watched, add_lost, detect_workers, detect_group}
use kubemq_gcp_pub_sub.Engine.Periodic.Memory.{
  Sample, new_memory_tracker, raise_peak, track_memory, first_due, track_memory_lem,
}

-- Thousandths.
abbrev vectors : Vectors milli
vectors = record { Value = ℕ; inc = λ v. v + 1000; add = λ a v. v + a; set = λ a v. a }

-- A worker that has lost the message 2 of p.
abbrev losing : BaseWorker (List ℕ)
losing = (record_tracked "p" 131 (record_tracked "p" 1 fresh_worker).1).1

abbrev group : Watched (List ℕ) ℕ
group = record { workers = losing ∷ fresh_worker ∷ losing ∷ []; lost_total = 5000 }

-- Two passes count each loss once.
counted_once : (detect_group milli vectors (detect_group milli vectors group)).lost_total ≡ 7000
unfolding new_base_worker Tracker.new record_tracked record_duplicated Tracker.record_sequence
    detect_group detect_workers Tracker.detect_gaps Tracker.detect_gaps_in add_lost new_producer
    record_known count_arrival place slide_window slide_to advance_contiguous advance evict
    shift_times mark get_bit set_bit shift_left put mem
counted_once = refl

abbrev minute : ℕ
minute = 60 * 1000000000

-- The baseline of a short run is taken after ten seconds, that of any other after five minutes.
abbrev ticks : List Sample
ticks =
    record { sys = 70; since_start = 5 * 1000000000; duration = some (pos minute) }
    ∷ record { sys = 90; since_start = 10 * 1000000000; duration = none }
    ∷ record { sys = 80; since_start = 20 * 1000000000; duration = some (pos minute) }
    ∷ record { sys = 60; since_start = 30 * 1000000000; duration = some (pos minute) }
    ∷ []

track_memory_lem_example :
    let m = raise_peak 85 (track_memory ticks new_memory_tracker) in
    (m.peak_rss ≡ largest (map (λ s. s.sys) ticks ++ 85 ∷ []) 0)
    × (m.baseline_rss ≡ first_due ticks 0)
    × (m.baseline_rss ≤ m.peak_rss)
track_memory_lem_example = track_memory_lem ticks 85
