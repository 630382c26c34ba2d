-- ===== src/Engine/Shutdown/Silence.antt =====
-- burnin/engine/engine.go and burnin/worker/dead_letter.go: the snapshots of shutdownWorkers for the
-- dead-letter workers, whose StopConsumers reconciles.
use kubemq_gcp_pub_sub.Base.{ℕ, ◌≡◌, ◌∙◌, refl, ap, String, List, [], ◌∷◌, map, sum, arith}
use kubemq_gcp_pub_sub.Base.Words.{u64}
use kubemq_gcp_pub_sub.Base.Int.{ℤ}
use kubemq_gcp_pub_sub.Base.Floats.{Floats}
use kubemq_gcp_pub_sub.Base.Codec.{Codec}
use kubemq_gcp_pub_sub.Worker.{Histogram, BaseWorker}
use kubemq_gcp_pub_sub.Worker.DeadLetter.{
  DeadLetterWorker, DeadLetterEvent, new_dead_letter_worker, dead_letter_run,
  reconcile_dead_letter_loss,
}
use kubemq_gcp_pub_sub.Worker.DeadLetter.Counts.{dead_letter_run-IsCounted, new-IsCounted}
use kubemq_gcp_pub_sub.Engine.Capture.{Percentiles}
use kubemq_gcp_pub_sub.Engine.Capture.Totals.{capture_group-dead_letter_lost}
use kubemq_gcp_pub_sub.Engine.Shutdown.{WorkerOps, detect_worker_gaps, shutdown_group}

-- The dead-letter worker for the engine: the clock at the stop is `now`.
unfoldable pub dead_letter_ops : {Hist : Type 0} → ℤ → ℕ → WorkerOps Hist (DeadLetterWorker Hist)
dead_letter_ops budget now = record {
  base = λ w. w.base;
  with_base = λ b w. record w { base = b };
  stop_consumers = reconcile_dead_letter_loss budget now;
}

module _ (F : Floats) (H : Histogram) (percentiles : H.State → Percentiles F.Float) (C : Codec)
    (age : ℤ → ℕ) (id_of : String → ℕ → String) (channel_name : ℤ → String)
    (reorder_window : ℕ) where
  -- The workers of a group after their runs, each with its index.
  unfoldable pub after_runs : List (ℤ × List DeadLetterEvent) → List (DeadLetterWorker H.State)
  after_runs [] = []
  after_runs ((idx, es) ∷ runs) =
      dead_letter_run C H age id_of es
        (new_dead_letter_worker C H age id_of (channel_name idx) idx reorder_window)
      ∷ after_runs runs

  module _ (budget : ℤ) (now : ℕ) where
    settled : List (DeadLetterWorker H.State) → List (BaseWorker H.State)
    settled workers =
        map {A = DeadLetterWorker H.State} (λ w. w.base)
          (map {A = DeadLetterWorker H.State} (λ w. record w { base = detect_worker_gaps w.base })
            workers)

    no_loss_yet :
        (runs : List (ℤ × List DeadLetterEvent))
        → sum (map (λ w. w.dead_letter_lost) (settled (after_runs runs))) ≡ 0
    unfolding after_runs detect_worker_gaps settled
    no_loss_yet [] = refl
    no_loss_yet ((idx, es) ∷ runs) =
        let here =
          (dead_letter_run-IsCounted C H age id_of es _
            (new-IsCounted C H age id_of (channel_name idx) idx reorder_window)).no_loss in
        omega (arith, here, no_loss_yet runs)

    -- Whatever the dead-letter workers of a group published, received and lost, and however long
    -- their runs, the snapshot that shutdownWorkers takes of them counts no dead-letter loss.
    pub shutdown_dead_letter_silent :
        (name : String) (runs : List (ℤ × List DeadLetterEvent))
        → (shutdown_group F H percentiles
            (dead_letter_ops budget now)
            name
            (after_runs runs)).0.dead_letter_lost
          ≡ 0
    unfolding shutdown_group dead_letter_ops settled
    shutdown_dead_letter_silent name runs =
        capture_group-dead_letter_lost F H percentiles name (settled (after_runs runs))
        ∙ ap u64 (no_loss_yet runs)
        ∙ omega arith
