-- ===== src/Worker/Reset.antt =====
-- burnin/worker/worker.go: what ResetAfterWarmup leaves of a worker.
use kubemq_gcp_pub_sub.Base.{◌≡◌, ap}
use kubemq_gcp_pub_sub.Metrics.{slide_reset, new_sliding_rate_window}
use kubemq_gcp_pub_sub.Tracker
use kubemq_gcp_pub_sub.Worker.{Histogram, BaseWorker, new_base_worker, reset_after_warmup}

module _ (H : Histogram) where
  -- Whatever a worker has counted, probed and tracked, ResetAfterWarmup makes it the worker that
  -- NewBaseWorker builds under its name, channel and window, but for the disconnect generation.
  pub reset_after_warmup_lem :
      (w : BaseWorker H.State)
      → reset_after_warmup H w
        ≡ record (new_base_worker H w.name w.channel_name w.channel_index w.trk.reorder_window) {
          disconnect_gen = w.disconnect_gen;
        }
  unfolding reset_after_warmup new_base_worker slide_reset new_sliding_rate_window Tracker.new
      Tracker.reset
  reset_after_warmup_lem w =
      ap
        (λ h.
          record (new_base_worker H w.name w.channel_name w.channel_index w.trk.reorder_window) {
            disconnect_gen = w.disconnect_gen;
            lat_accum = h;
          })
        (H.clear_lem w.lat_accum)
