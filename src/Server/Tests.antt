-- ===== src/Server/Tests.antt =====
-- The two answers for a run of two worker types.
use kubemq_gcp_pub_sub.Base.{ℕ, ◌≡◌, String, List, [], ◌∷◌, map, sum}
use kubemq_gcp_pub_sub.Base.Words.{u64}
use kubemq_gcp_pub_sub.Samples.{busy_worker}
use kubemq_gcp_pub_sub.Worker.{BaseWorker}
use kubemq_gcp_pub_sub.Server.Status.{no_metrics, run_status, run_snapshot}
use kubemq_gcp_pub_sub.Server.Status.Totals.{run_snapshot-run_status}

abbrev groups : List (String × List (BaseWorker (List ℕ)))
groups = ("fan_out", busy_worker ∷ busy_worker ∷ []) ∷ ("streaming_pull", busy_worker ∷ []) ∷ []

run_snapshot-run_status_example :
    let m = (run_snapshot groups no_metrics).1 in
    (u64 m.total_sent ≡ u64 (sum (map (λ g. g.1.sent) (run_status groups))))
    × (u64 m.total_received ≡ u64 (sum (map (λ g. g.1.received) (run_status groups))))
    × (u64 m.total_errors ≡ u64 (sum (map (λ g. g.1.errors) (run_status groups))))
run_snapshot-run_status_example = run_snapshot-run_status groups
