-- ===== src/Engine/Shutdown.antt =====
-- burnin/engine/engine.go: shutdownWorkers after the drain, for the workers of one group. StopConsumers
-- of the worker interface is the parameter `stop_consumers`.
pub mod Silence
mod Tests
use kubemq_gcp_pub_sub.Base.{ℕ, String, List, [], ◌∷◌, map}
use kubemq_gcp_pub_sub.Base.Floats.{Floats}
use kubemq_gcp_pub_sub.Tracker
use kubemq_gcp_pub_sub.Worker.{Histogram, BaseWorker}
use kubemq_gcp_pub_sub.Engine.{WorkerSnapshot}
use kubemq_gcp_pub_sub.Engine.Capture.{Percentiles, capture_group}

module _ {Hist : Type 0} where
  -- DetectGaps on the tracker of a worker; the deltas go to a metric.
  unfoldable pub detect_worker_gaps : BaseWorker Hist → BaseWorker Hist
  detect_worker_gaps w = record w { trk = (Tracker.detect_gaps w.trk).0 }

-- What the engine calls of its workers.
pub record WorkerOps (Hist W : Type 0) : Type 0 where
  pub base : W → BaseWorker Hist
  pub with_base : BaseWorker Hist → W → W
  pub stop_consumers : W → W

module _ (F : Floats) (H : Histogram) (percentiles : H.State → Percentiles F.Float) {W : Type 0}
    (ops : WorkerOps H.State W) where
  -- The gaps, then the snapshot, then the end of the consumers.
  unfoldable pub shutdown_group : String → List W → WorkerSnapshot F.Float × List W
  shutdown_group name workers =
      let settled = map (λ w. ops.with_base (detect_worker_gaps (ops.base w)) w) workers in
      (capture_group F H percentiles name (map ops.base settled), map ops.stop_consumers settled)
