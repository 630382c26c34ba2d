-- ===== src/Engine/Periodic.antt =====
-- burnin/engine/engine.go: the periodic tasks of a run, what one tick of each does. A group of workers
-- stands with the counter MessagesLostTotal of its name, which is a value of the Prometheus library.
pub mod Status
pub mod Memory
mod Tests
use kubemq_gcp_pub_sub.Base.{
  ℕ, ◌+◌, ◌-◌, String, Bool, List, [], ◌∷◌, ◌++◌, ltb, if◌then◌else◌, check,
}
use kubemq_gcp_pub_sub.Base.Int.{pos, ltb_ℤ}
use kubemq_gcp_pub_sub.Base.Words.{add64}
use kubemq_gcp_pub_sub.Config.{Config}
use kubemq_gcp_pub_sub.Base.Floats.{Floats}
use kubemq_gcp_pub_sub.Metrics.{rate}
use kubemq_gcp_pub_sub.Metrics.Exported.{Vectors}
use kubemq_gcp_pub_sub.Tracker.{detect_gaps}
use kubemq_gcp_pub_sub.Worker.{BaseWorker, advance_rate_windows}

pub data Task : Type 0 where
  periodic_reporter rate_advancer uptime_tracker memory_tracker gap_detector : Task
  disconnect_manager : Task

-- startPeriodicTasks: the goroutines that it launches.
unfoldable pub periodic_tasks : {Float : Type 0} → Config Float → List Task
periodic_tasks c =
    check (ltb_ℤ (pos 0) c.report_interval_parsed) Task.periodic_reporter
    ++ ((Task.rate_advancer ∷ Task.uptime_tracker ∷ Task.memory_tracker ∷ Task.gap_detector ∷ [])
        ++ check (ltb_ℤ (pos 0) c.forced_disconn_interval) Task.disconnect_manager)

pub record Watched (Hist Value : Type 0) : Type 0 where
  pub workers : List (BaseWorker Hist)
  pub lost_total : Value

module _ (F : Floats) (V : Vectors F) where
  -- AddLost for each delta.
  unfoldable pub add_lost : List (String × ℕ) → V.Value → V.Value
  add_lost [] total = total
  add_lost ((_, delta) ∷ deltas) total = add_lost deltas (V.add (F.of_uint delta) total)

-- What rateAdvancer sets for a group: the rates that it adds up, and the lag.
pub record Gauges : Type 0 where
  pub actual_rate : List (ℕ × ℕ)
  pub consumer_lag : ℕ

module _ (F : Floats) (V : Vectors F) {Hist : Type 0} where
  open V use {Value}

  -- The loop of gapDetector over the workers of a group, with its counter.
  unfoldable pub detect_workers : List (BaseWorker Hist) → Value → Watched Hist Value
  detect_workers [] total = record { workers = []; lost_total = total }
  detect_workers (w ∷ ws) total =
      let (trk, deltas) = detect_gaps w.trk in
      let rest = detect_workers ws (add_lost F V deltas total) in
      record rest { workers = record w { trk = trk } ∷ rest.workers }

  unfoldable pub detect_group : Watched Hist Value → Watched Hist Value
  detect_group g = detect_workers g.workers g.lost_total

  -- One tick of gapDetector.
  unfoldable pub detect_groups :
      List (String × Watched Hist Value) → List (String × Watched Hist Value)
  detect_groups [] = []
  detect_groups ((name, g) ∷ gs) = (name, detect_group g) ∷ detect_groups gs

module _ {Hist : Type 0} where
  -- The loop of rateAdvancer over the workers of a group, with totalRate, totalSent and totalRecv so far.
  unfoldable pub advance_workers :
      List (BaseWorker Hist) → List (ℕ × ℕ) → ℕ → ℕ → List (BaseWorker Hist) × Gauges
  advance_workers [] rates sent received = (
    [],
    record { actual_rate = rates; consumer_lag = if ltb received sent then sent - received else 0 },
  )
  advance_workers (w ∷ ws) rates sent received =
      let w' = advance_rate_windows w in
      let rest =
        advance_workers ws (rates ++ rate w'.rate_window ∷ []) (add64 sent w'.sent)
          (add64 received w'.received) in
      (w' ∷ rest.0, rest.1)

  -- One tick of rateAdvancer.
  unfoldable pub advance_groups :
      List (String × List (BaseWorker Hist)) → List (String × List (BaseWorker Hist) × Gauges)
  advance_groups [] = []
  advance_groups ((name, ws) ∷ gs) =
      let (ws', gauges) = advance_workers ws [] 0 0 in (name, ws', gauges) ∷ advance_groups gs
