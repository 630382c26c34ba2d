-- ===== src/Server/Status.antt =====
-- burnin/main.go: RunStatus and RunSnapshot of engineAdapter, with the records of burnin/api/models.go, for
-- the groups as the map is visited. Both are read at one moment. The uptime, the identifiers and the
-- configuration are passed on and left out; a float64 sum of rates is kept as its terms.
pub mod Totals
use kubemq_gcp_pub_sub.Base.{ℕ, String, List, [], ◌∷◌, ◌++◌}
use kubemq_gcp_pub_sub.Base.Words.{add64}
use kubemq_gcp_pub_sub.Metrics.{rate}
use kubemq_gcp_pub_sub.Tracker.{total_lost}
use kubemq_gcp_pub_sub.Worker.{BaseWorker}

pub record WorkerStatus : Type 0 where
  pub sent : ℕ
  pub received : ℕ
  pub errors : ℕ
  pub rates : List (ℕ × ℕ)

pub record ChannelSnapshot : Type 0 where
  pub worker : String
  pub channel : String
  pub sent : ℕ
  pub received : ℕ
  pub errors : ℕ
  pub rate : ℕ × ℕ

pub record MetricsSnapshot : Type 0 where
  pub total_sent : ℕ
  pub total_received : ℕ
  pub total_errors : ℕ
  pub total_lost : ℕ
  pub total_corrupted : ℕ
  pub total_duplicated : ℕ
  pub fanout_deliveries : ℕ
  pub fanout_dropped : ℕ

abbrev pub no_status : WorkerStatus
no_status = record { sent = 0; received = 0; errors = 0; rates = [] }

abbrev pub no_metrics : MetricsSnapshot
no_metrics = record {
  total_sent = 0;
  total_received = 0;
  total_errors = 0;
  total_lost = 0;
  total_corrupted = 0;
  total_duplicated = 0;
  fanout_deliveries = 0;
  fanout_dropped = 0;
}

module _ {Hist : Type 0} where
  unfoldable pub add_status : BaseWorker Hist → WorkerStatus → WorkerStatus
  add_status w s = record {
    sent = add64 s.sent w.sent;
    received = add64 s.received w.received;
    errors = add64 s.errors w.errors;
    rates = s.rates ++ rate w.rate_window ∷ [];
  }

  unfoldable pub group_status : List (BaseWorker Hist) → WorkerStatus → WorkerStatus
  group_status [] s = s
  group_status (w ∷ ws) s = group_status ws (add_status w s)

  unfoldable pub run_status : List (String × List (BaseWorker Hist)) → List (String × WorkerStatus)
  run_status [] = []
  run_status ((name, ws) ∷ gs) = (name, group_status ws no_status) ∷ run_status gs

  unfoldable pub channel_snapshot : BaseWorker Hist → ChannelSnapshot
  channel_snapshot w = record {
    worker = w.name;
    channel = w.channel_name;
    sent = w.sent;
    received = w.received;
    errors = w.errors;
    rate = rate w.rate_window;
  }

  unfoldable pub add_metrics : BaseWorker Hist → MetricsSnapshot → MetricsSnapshot
  add_metrics w m = record {
    total_sent = add64 m.total_sent w.sent;
    total_received = add64 m.total_received w.received;
    total_errors = add64 m.total_errors w.errors;
    total_lost = add64 m.total_lost (total_lost w.trk);
    total_corrupted = add64 m.total_corrupted w.corrupted;
    total_duplicated = add64 m.total_duplicated w.duplicated;
    fanout_deliveries = add64 m.fanout_deliveries w.fanout_deliveries;
    fanout_dropped = add64 m.fanout_dropped w.fanout_dropped;
  }

  -- The workers of a group, and the totals so far.
  unfoldable pub snapshot_workers :
      List (BaseWorker Hist) → MetricsSnapshot → List ChannelSnapshot × MetricsSnapshot
  snapshot_workers [] m = ([], m)
  snapshot_workers (w ∷ ws) m =
      let rest = snapshot_workers ws (add_metrics w m) in (channel_snapshot w ∷ rest.0, rest.1)

  unfoldable pub run_snapshot :
      List (String × List (BaseWorker Hist))
      → MetricsSnapshot
      → List (String × List ChannelSnapshot) × MetricsSnapshot
  run_snapshot [] m = ([], m)
  run_snapshot ((name, ws) ∷ gs) m =
      let group = snapshot_workers ws m in
      let rest = run_snapshot gs group.1 in ((name, group.0) ∷ rest.0, rest.1)
