-- ===== src/Metrics/Tests.antt =====
-- Runs of the two rate accumulators.
use kubemq_gcp_pub_sub.Base.{sum_first, ◌≡◌, List, [], ◌∷◌, arith}
use kubemq_gcp_pub_sub.Metrics.{new_sliding_rate_window}
use kubemq_gcp_pub_sub.Metrics.Rates.{Event, slide_run, history_after, total_recent}

abbrev events : List Event
events = Event.arrival ∷ Event.arrival ∷ Event.second ∷ Event.arrival ∷ Event.second ∷ []

total_recent_example :
    (slide_run new_sliding_rate_window events).total ≡ sum_first 30 (history_after [] events)
total_recent_example = total_recent events (omega arith)
