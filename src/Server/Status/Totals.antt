-- ===== src/Server/Status/Totals.antt =====
-- burnin/main.go: the counts of RunStatus beside the totals of RunSnapshot.
use kubemq_gcp_pub_sub.Base.{ℕ, ◌≡◌, ◌+◌, ◌∙◌, refl, String, List, [], ◌∷◌, map, sum, arith}
use kubemq_gcp_pub_sub.Base.Words.{add64, u64}
use kubemq_gcp_pub_sub.Worker.{BaseWorker}
use kubemq_gcp_pub_sub.Server.Status.{
  WorkerStatus, MetricsSnapshot, no_status, no_metrics, add_status, group_status, run_status,
  add_metrics, snapshot_workers, run_snapshot,
}

module _ {Hist : Type 0} where
  -- A count in the status of a group and in the totals, and the worker's counter behind both.
  module _ (of_status : WorkerStatus → ℕ) (of_metrics : MetricsSnapshot → ℕ)
      (of_worker : BaseWorker Hist → ℕ)
      (status_adds : (w : BaseWorker Hist) (s : WorkerStatus)
        → of_status (add_status w s) ≡ add64 (of_status s) (of_worker w))
      (metrics_add : (w : BaseWorker Hist) (m : MetricsSnapshot)
        → of_metrics (add_metrics w m) ≡ add64 (of_metrics m) (of_worker w)) where
    -- A group adds the same to its status as to the totals.
    group_moves :
        (ws : List (BaseWorker Hist)) (s : WorkerStatus) (m : MetricsSnapshot) (k : ℕ)
        → u64 (of_metrics m) ≡ u64 (k + of_status s)
        → u64 (of_metrics (snapshot_workers ws m).1) ≡ u64 (k + of_status (group_status ws s))
    unfolding snapshot_workers group_status
    group_moves [] s m k h = h
    group_moves (w ∷ ws) s m k h =
        group_moves ws (add_status w s) (add_metrics w m) k
          (omega (arith, status_adds w s, metrics_add w m, h))

    totals :
        of_status no_status ≡ 0
        → (gs : List (String × List (BaseWorker Hist))) (m : MetricsSnapshot)
        → u64 (of_metrics (run_snapshot gs m).1)
          ≡ u64 (of_metrics m + sum (map (λ g. of_status g.1) (run_status gs)))
    unfolding run_snapshot run_status
    totals zero_start [] m = omega arith
    totals zero_start ((name, ws) ∷ gs) m =
        let group = group_moves ws no_status m (of_metrics m) (omega (arith, zero_start)) in
        totals zero_start gs (snapshot_workers ws m).1 ∙ omega (arith, group)

    totals_of_all :
        of_status no_status ≡ 0
        → of_metrics no_metrics ≡ 0
        → (gs : List (String × List (BaseWorker Hist)))
        → u64 (of_metrics (run_snapshot gs no_metrics).1)
          ≡ u64 (sum (map (λ g. of_status g.1) (run_status gs)))
    totals_of_all zero_start zero_total gs =
        omega (arith, totals zero_start gs no_metrics, zero_total)

  -- At one moment the totals of sent, received and failed messages that GET /run gives are, as uint64, the sums
  -- over the worker types of the counts that GET /run/status gives.
  pub run_snapshot-run_status :
      (gs : List (String × List (BaseWorker Hist)))
      → let m = (run_snapshot gs no_metrics).1 in
        (u64 m.total_sent ≡ u64 (sum (map (λ g. g.1.sent) (run_status gs))))
        × (u64 m.total_received ≡ u64 (sum (map (λ g. g.1.received) (run_status gs))))
        × (u64 m.total_errors ≡ u64 (sum (map (λ g. g.1.errors) (run_status gs))))
  unfolding add_status add_metrics
  run_snapshot-run_status gs = (
    totals_of_all (λ s. s.sent) (λ m. m.total_sent) (λ w. w.sent) (λ w s. refl) (λ w m. refl) refl
        refl gs,
    totals_of_all (λ s. s.received) (λ m. m.total_received) (λ w. w.received) (λ w s. refl)
        (λ w m. refl) refl refl gs,
    totals_of_all (λ s. s.errors) (λ m. m.total_errors) (λ w. w.errors) (λ w s. refl) (λ w m. refl)
        refl refl gs,
  )
