-- ===== src/Worker/DeadLetter.antt =====
-- burnin/worker/dead_letter.go: the dead-letter worker on its events. The id of a message,
-- `producerID#seq`, is the parameter `id_of`; what a publish returned is an event.
pub mod Counts
pub mod Back
mod Tests
pub mod Backoff
pub mod Loss
pub mod Loops
use kubemq_gcp_pub_sub.Base.{
  ℕ, ◌+◌, ◌*◌, ◌/◌, ◌-◌, String, Bool, true, false, not, ◌&&◌, ◌||◌, Option, none, some, List, [],
  ◌∷◌, ltb, leb, length, if◌then◌else◌,
}
use kubemq_gcp_pub_sub.Base.Words.{add64}
use kubemq_gcp_pub_sub.Base.Int.{ℤ, pos, ltb_ℤ, add_int, mul_int}
use kubemq_gcp_pub_sub.Base.Assoc.{insert}
use kubemq_gcp_pub_sub.Base.Codec.{Codec}
use kubemq_gcp_pub_sub.Config.{GcpConfig}
use kubemq_gcp_pub_sub.Worker.{
  Histogram, BaseWorker, new_base_worker, reset_after_warmup, record_received, record_acked,
  record_dead_letter_republished, record_dead_letter_lost, record_retry_backoff_observed,
  set_delivery_attempt_max,
}
use kubemq_gcp_pub_sub.Worker.Attrs.{Meta, extract_meta}
use kubemq_gcp_pub_sub.Worker.Handling.{Message, time_message}
use kubemq_gcp_pub_sub.Worker.Publishing.{PublishResult, count_publish}
use kubemq_gcp_pub_sub.Worker.Reconcile.{has, since, count_overdue}

-- In nanoseconds.
abbrev pub second : ℤ
second = pos 1000000000

unfoldable pub dead_letter_budget : {Float : Type 0} → GcpConfig Float → ℤ
dead_letter_budget gcp =
    let attempts =
      if ltb_ℤ gcp.max_delivery_attempts (pos 5) then pos 5 else gcp.max_delivery_attempts in
    add_int (mul_int (mul_int gcp.ack_deadline_seconds second) (add_int attempts (pos 2)))
      (pos 15000000000)

pub record DeadLetterWorker (Hist : Type 0) : Type 0 where
  pub base : BaseWorker Hist
  pub seq : ℕ
  pub published : List (String × ℕ)
  pub republished : List String

-- A delivery on the dead-letter subscription, a pass of a producer with its time, the attempt counts
-- of a pull of the source, and the reset after the warmup.
pub data DeadLetterEvent : Type 0 where
  dlq_message : Message → DeadLetterEvent
  produce : String → ℕ → PublishResult → DeadLetterEvent
  pulled : List ℤ → DeadLetterEvent
  warmed_up : DeadLetterEvent

abbrev pub magnitude : ℤ → ℕ
magnitude (pos n) = n
magnitude _ = 0

abbrev pub note_published : PublishResult → String → ℕ → List (String × ℕ) → List (String × ℕ)
note_published PublishResult.published id now m = insert id now m
note_published PublishResult.failed id now m = m
note_published PublishResult.cancelled id now m = m

module _ {Hist : Type 0} where
  -- The loop of sourceDriveLoop over one response: no message is acked.
  unfoldable pub observe_pull : List ℤ → BaseWorker Hist → BaseWorker Hist
  observe_pull [] w = w
  observe_pull (a ∷ rest) w =
      observe_pull rest (if ltb_ℤ (pos 0) a then set_delivery_attempt_max (magnitude a) w else w)

  -- An id that came back for the first time counts; the first argument says that it came before.
  unfoldable pub confirm_once : Bool → String → DeadLetterWorker Hist → DeadLetterWorker Hist
  confirm_once true id w = w
  confirm_once false id w = record w {
    base = record_dead_letter_republished w.base;
    republished = id ∷ w.republished;
  }

  unfoldable pub confirm_republished : String → DeadLetterWorker Hist → DeadLetterWorker Hist
  confirm_republished id w = confirm_once (has id w.republished) id w

  unfoldable pub reconcile_dead_letter_loss : ℤ → ℕ → DeadLetterWorker Hist → DeadLetterWorker Hist
  reconcile_dead_letter_loss budget now w =
      let lost = count_overdue budget now w.republished w.published in
      if ltb 0 lost then record w { base = record_dead_letter_lost lost w.base } else w

module _ (C : Codec) (H : Histogram) (age : ℤ → ℕ) (id_of : String → ℕ → String) where
  unfoldable pub new_dead_letter_worker : String → ℤ → ℕ → DeadLetterWorker H.State
  new_dead_letter_worker channel_name idx reorder_window = record {
    base = new_base_worker H "dead_letter" channel_name idx reorder_window;
    seq = 0;
    published = [];
    republished = [];
  }

  -- The body's checksum is not verified, and nothing is tracked.
  unfoldable pub handle_dlq_message : Message → DeadLetterWorker H.State → DeadLetterWorker H.State
  handle_dlq_message msg w =
      let m = extract_meta C msg.attributes in
      let received = record w { base = record_received w.base } in
      let timed = record w { base = time_message C H age m.sent_at (record_received w.base) } in
      let confirmed =
        if m.ok then confirm_republished (id_of m.producer_id m.seq) timed else received in
      record confirmed { base = record_acked confirmed.base }

  unfoldable pub produce_poison :
      String → ℕ → PublishResult → DeadLetterWorker H.State → DeadLetterWorker H.State
  produce_poison producer_id now r w =
      let seq = add64 w.seq 1 in
      record w {
        seq = seq;
        published = note_published r (id_of producer_id seq) now w.published;
        base = count_publish r w.base;
      }

  unfoldable pub reset_dead_letter : DeadLetterWorker H.State → DeadLetterWorker H.State
  reset_dead_letter w = record w {
    base = reset_after_warmup H w.base;
    published = [];
    republished = [];
  }

  unfoldable pub dead_letter_event :
      DeadLetterEvent → DeadLetterWorker H.State → DeadLetterWorker H.State
  dead_letter_event (DeadLetterEvent.dlq_message msg) w = handle_dlq_message msg w
  dead_letter_event (DeadLetterEvent.produce producer_id now r) w =
      produce_poison producer_id now r w
  dead_letter_event (DeadLetterEvent.pulled attempts) w = record w {
    base = observe_pull attempts w.base;
  }
  dead_letter_event DeadLetterEvent.warmed_up w = reset_dead_letter w

  unfoldable pub dead_letter_run :
      List DeadLetterEvent → DeadLetterWorker H.State → DeadLetterWorker H.State
  dead_letter_run [] w = w
  dead_letter_run (e ∷ es) w = dead_letter_run es (dead_letter_event e w)
