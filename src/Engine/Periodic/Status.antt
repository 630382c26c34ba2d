-- ===== src/Engine/Periodic/Status.antt =====
-- burnin/engine/engine.go: logStatus, and the totals of a group beside those of burnin/main.go.
use kubemq_gcp_pub_sub.Base.{
  ℕ, ◌-◌, ◌≡◌, refl, String, List, [], ◌∷◌, ◌++◌, none, some, if◌then◌else◌, arith,
}
use kubemq_gcp_pub_sub.Base.Words.{add64}
use kubemq_gcp_pub_sub.Base.Assoc.{lookup}
use kubemq_gcp_pub_sub.Config.Names.{all_worker_names, is_fanout_worker, is_ordering_worker}
use kubemq_gcp_pub_sub.Metrics.{rate}
use kubemq_gcp_pub_sub.Tracker.{total_lost}
use kubemq_gcp_pub_sub.Worker.{BaseWorker, advance_rate_windows}
use kubemq_gcp_pub_sub.Server.Status.{WorkerStatus, no_status, add_status, group_status}
use kubemq_gcp_pub_sub.Engine.Periodic.{advance_workers}

-- The variables of logStatus for one group; the rate is the rates that are added up.
pub record Tally : Type 0 where
  pub sent : ℕ
  pub received : ℕ
  pub errors : ℕ
  pub dup : ℕ
  pub lost : ℕ
  pub dropped : ℕ
  pub order_viol : ℕ
  pub rates : List (ℕ × ℕ)

-- One line of the log: the message, the counts under their keys, and the rate.
pub record StatusLine : Type 0 where
  pub message : String
  pub counts : List (String × ℕ)
  pub rates : List (ℕ × ℕ)

abbrev pub no_tally : Tally
no_tally = record {
  sent = 0;
  received = 0;
  errors = 0;
  dup = 0;
  lost = 0;
  dropped = 0;
  order_viol = 0;
  rates = [];
}

unfoldable pub status_counts : String → Tally → List (String × ℕ)
status_counts name t =
    if is_fanout_worker name
    then ("pub", t.sent)
      ∷ ("recv", t.received)
      ∷ ("dropped", t.dropped)
      ∷ ("dup", t.dup)
      ∷ ("err", t.errors)
      ∷ []
    else if is_ordering_worker name
    then ("sent", t.sent)
      ∷ ("recv", t.received)
      ∷ ("lost", t.lost)
      ∷ ("order_viol", t.order_viol)
      ∷ ("dup", t.dup)
      ∷ ("err", t.errors)
      ∷ []
    else ("sent", t.sent)
      ∷ ("recv", t.received)
      ∷ ("lost", t.lost)
      ∷ ("dup", t.dup)
      ∷ ("err", t.errors)
      ∷ []

module _ {Hist : Type 0} where
  unfoldable pub add_worker : BaseWorker Hist → Tally → Tally
  add_worker w t = record {
    sent = add64 t.sent w.sent;
    received = add64 t.received w.received;
    errors = add64 t.errors w.errors;
    dup = add64 t.dup w.duplicated;
    lost = add64 t.lost (total_lost w.trk);
    dropped = add64 t.dropped w.fanout_dropped;
    order_viol = add64 t.order_viol w.ordering_violations;
    rates = t.rates ++ rate w.rate_window ∷ [];
  }

  unfoldable pub tally : List (BaseWorker Hist) → Tally → Tally
  tally [] t = t
  tally (w ∷ ws) t = tally ws (add_worker w t)

  unfoldable pub status_lines :
      List (String × List (BaseWorker Hist)) → List String → List StatusLine
  status_lines groups [] = []
  status_lines groups (name ∷ names) =
      let rest = status_lines groups names in
      elim (lookup name groups) [
        | none ↦ rest
        | some ws ↦
            let t = tally ws no_tally in
            record { message = name; counts = status_counts name t; rates = t.rates } ∷ rest
      ]

  unfoldable pub log_status : List (String × List (BaseWorker Hist)) → List StatusLine
  log_status groups = status_lines groups all_worker_names

  tally_lem :
      (ws : List (BaseWorker Hist)) (t : Tally) (s : WorkerStatus)
      → t.sent ≡ s.sent
      → t.received ≡ s.received
      → t.errors ≡ s.errors
      → t.rates ≡ s.rates
      → ((tally ws t).sent ≡ (group_status ws s).sent)
        × ((tally ws t).received ≡ (group_status ws s).received)
        × ((tally ws t).errors ≡ (group_status ws s).errors)
        × ((tally ws t).rates ≡ (group_status ws s).rates)
  unfolding tally group_status add_worker add_status
  tally_lem [] t s a b c d = (a, b, c, d)
  tally_lem (w ∷ ws) t s a b c d =
      tally_lem ws (add_worker w t) (add_status w s) (rw a refl) (rw b refl) (rw c refl) (rw d refl)

  gauges_lem :
      (ws : List (BaseWorker Hist)) (s : WorkerStatus)
      → let (ws', gauges) = advance_workers ws s.rates s.sent s.received in
        let s' = group_status ws' s in
        (gauges.actual_rate ≡ s'.rates) × (gauges.consumer_lag ≡ s'.sent - s'.received)
  unfolding advance_workers group_status add_status
  gauges_lem [] s = (refl, ground arith)
  gauges_lem (w ∷ ws) s = gauges_lem ws (add_status (advance_rate_windows w) s)

  -- For one state of a group's workers, the line that logStatus writes counts the same sent, received and
  -- failed messages and adds up the same rates as GET /run/status; and the gauges that a tick of
  -- rateAdvancer sets are what GET /run/status then shows: its rate, and its sent less its received
  -- messages, or 0.
  pub tally-group_status :
      (ws : List (BaseWorker Hist))
      → let t = tally ws no_tally in
        let s = group_status ws no_status in
        let (ws', gauges) = advance_workers ws [] 0 0 in
        let s' = group_status ws' no_status in
        ((t.sent ≡ s.sent)
          × (t.received ≡ s.received)
          × (t.errors ≡ s.errors)
          × (t.rates ≡ s.rates))
        × (gauges.actual_rate ≡ s'.rates)
        × (gauges.consumer_lag ≡ s'.sent - s'.received)
  tally-group_status ws = (
    tally_lem ws no_tally no_status refl refl refl refl,
    (gauges_lem ws no_status).0,
    (gauges_lem ws no_status).1,
  )
