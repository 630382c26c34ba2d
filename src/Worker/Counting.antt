-- ===== src/Worker/Counting.antt =====
-- burnin/worker/worker.go: the counters of a worker along a run of its helpers.
use kubemq_gcp_pub_sub.Base.{
  ℕ, ◌≡◌, ◌+◌, ◌<◌, ◌^◌, ◌-◌, refl, ap, ◌∙◌, String, Bool, true, false, List, [], ◌∷◌, arith,
  length, ltb, if◌then◌else◌,
}
use kubemq_gcp_pub_sub.Base.Words.{add64}
use kubemq_gcp_pub_sub.Tracker
use kubemq_gcp_pub_sub.Worker.{
  BaseWorker, record_exactly_once_ack, reconcile_exactly_once, set_delivery_attempt_max,
  record_tracked, record_duplicated,
}

-- The largest of m and the elements.
abbrev pub largest : List ℕ → ℕ → ℕ
largest [] m = m
largest (v ∷ vs) m = largest vs (if ltb m v then v else m)

-- One exactly-once event: an ack result (confirmed or not), or the success of a retry.
pub data AckEvent : Type 0 where
  ack : Bool → AckEvent
  retried : AckEvent

-- The acks still open after a run that starts with n open ones; a retry closes one if there is one.
abbrev pub still_open : List AckEvent → ℕ → ℕ
still_open [] n = n
still_open (AckEvent.ack true ∷ es) n = still_open es n
still_open (AckEvent.ack false ∷ es) n = still_open es (n + 1)
still_open (AckEvent.retried ∷ es) n = still_open es (n - 1)

module _ {Hist : Type 0} where
  -- setDeliveryAttemptMax over a run of deliveries.
  unfoldable pub observe_attempts : List ℕ → BaseWorker Hist → BaseWorker Hist
  observe_attempts [] w = w
  observe_attempts (v ∷ vs) w = observe_attempts vs (set_delivery_attempt_max v w)

  -- After a run of deliveries the gauge is the largest attempt seen, the earlier gauge included.
  pub observe_attempts_lem :
      (vs : List ℕ) (w : BaseWorker Hist)
      → (observe_attempts vs w).delivery_attempt_max ≡ largest vs w.delivery_attempt_max
  unfolding observe_attempts set_delivery_attempt_max
  observe_attempts_lem [] w = refl
  observe_attempts_lem (v ∷ vs) w =
      observe_attempts_lem vs (set_delivery_attempt_max v w) ∙ ap (largest vs) (ground arith)

  unfoldable pub ack_event : AckEvent → BaseWorker Hist → BaseWorker Hist
  ack_event (AckEvent.ack confirmed) w = record_exactly_once_ack confirmed w
  ack_event AckEvent.retried w = reconcile_exactly_once w

  unfoldable pub ack_events : List AckEvent → BaseWorker Hist → BaseWorker Hist
  ack_events [] w = w
  ack_events (e ∷ es) w = ack_events es (ack_event e w)

  -- While the count of events stays below 2 ^ 64, the unreconciled counter is exactly the number of
  -- failed acks that no retry has closed: it never goes below zero and never wraps around.
  pub ack_events_lem :
      (es : List AckEvent) (w : BaseWorker Hist)
      → w.exactly_once_unreconciled + length es < 2 ^ 64
      → (ack_events es w).exactly_once_unreconciled ≡ still_open es w.exactly_once_unreconciled
  unfolding ack_events ack_event record_exactly_once_ack reconcile_exactly_once
  ack_events_lem [] w h = refl
  ack_events_lem (AckEvent.ack true ∷ es) w h = ack_events_lem es _ (omega arith)
  ack_events_lem (AckEvent.ack false ∷ es) w h =
      ack_events_lem es _ (ground arith) ∙ ap (still_open es) (omega arith)
  ack_events_lem (AckEvent.retried ∷ es) w h =
      ack_events_lem es (reconcile_exactly_once w) (ground arith)
      ∙ ap (still_open es) (ground arith)

  -- Feeding one arrival to the tracker counts it as duplicated exactly when the tracker says so, and
  -- leaves the counts of received and sent messages as they are.
  pub record_tracked_lem :
      (id : String) (seq : ℕ) (w : BaseWorker Hist)
      → ((record_tracked id seq w).1.trk ≡ (Tracker.record_sequence w.trk id seq).0)
        × ((record_tracked id seq w).0 ≡ (Tracker.record_sequence w.trk id seq).1)
        × ((record_tracked id seq w).1.duplicated ≡ (
            if (Tracker.record_sequence w.trk id seq).1
            then add64 w.duplicated 1
            else w.duplicated))
        × ((record_tracked id seq w).1.received ≡ w.received)
  unfolding record_tracked record_duplicated
  record_tracked_lem id seq w = ground arith
