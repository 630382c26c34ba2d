-- ===== src/Worker/Tests.antt =====
-- Runs of a worker's counters and of the ordering check.
use kubemq_gcp_pub_sub.Base.{ℕ, ◌≡◌, ◌+◌, refl, List, [], ◌∷◌, arith, String}
use kubemq_gcp_pub_sub.Base.Assoc.{lookup}
use kubemq_gcp_pub_sub.Samples.{samples, busy_worker}
use kubemq_gcp_pub_sub.Worker.{new_base_worker, reset_after_warmup, record_sent, record_tracked}
use kubemq_gcp_pub_sub.Worker.Reset.{reset_after_warmup_lem}
use kubemq_gcp_pub_sub.Worker.Ordering.{OrderingState, check_keys, check_keys_lem, regressions}

reset_after_warmup_lem_example :
    reset_after_warmup samples busy_worker
    ≡ record (new_base_worker samples busy_worker.name busy_worker.channel_name
        busy_worker.channel_index busy_worker.trk.reorder_window) {
          disconnect_gen = busy_worker.disconnect_gen;
        }
reset_after_warmup_lem_example = reset_after_warmup_lem samples busy_worker

abbrev no_keys : OrderingState
no_keys = record { per_key = []; ordering_violations = 0 }

abbrev arrivals : List (String × ℕ)
arrivals = ("p|k0", 1) ∷ ("p|k1", 5) ∷ ("p|k0", 3) ∷ ("p|k0", 2) ∷ ("p|k1", 5) ∷ []

check_keys_lem_example :
    (check_keys arrivals no_keys).ordering_violations
    ≡ no_keys.ordering_violations + regressions arrivals (λ k. lookup k no_keys.per_key)
check_keys_lem_example = check_keys_lem arrivals no_keys (omega arith)

one_violation : (check_keys arrivals no_keys).ordering_violations ≡ 1
unfolding check_keys kubemq_gcp_pub_sub.Worker.Ordering.check_key
    kubemq_gcp_pub_sub.Worker.Ordering.check_sequence
one_violation = refl
