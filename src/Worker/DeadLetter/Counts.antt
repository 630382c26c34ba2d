-- ===== src/Worker/DeadLetter/Counts.antt =====
-- burnin/worker/dead_letter.go: the counters of the dead-letter worker along a run.
use kubemq_gcp_pub_sub.Base.{
  ℕ, ◌≡◌, refl, ◌∙◌, String, Bool, true, false, Option, none, some, List, [], ◌∷◌, length, arith,
  if◌then◌else◌,
}
use kubemq_gcp_pub_sub.Base.Words.{u64}
use kubemq_gcp_pub_sub.Base.Int.{ℤ, pos, ltb_ℤ}
use kubemq_gcp_pub_sub.Base.Codec.{Codec}
use kubemq_gcp_pub_sub.Worker.{
  Histogram, BaseWorker, new_base_worker, reset_after_warmup, record_received, record_acked,
  record_latency, record_sent, record_error, record_dead_letter_republished,
  set_delivery_attempt_max,
}
use kubemq_gcp_pub_sub.Worker.Attrs.{extract_meta}
use kubemq_gcp_pub_sub.Worker.Handling.{Message, time_message}
use kubemq_gcp_pub_sub.Worker.Publishing.{PublishResult, count_publish}
use kubemq_gcp_pub_sub.Worker.Reconcile.{has}
use kubemq_gcp_pub_sub.Worker.DeadLetter.{
  DeadLetterWorker, DeadLetterEvent, observe_pull, confirm_once, confirm_republished,
  new_dead_letter_worker, handle_dlq_message, produce_poison, reset_dead_letter, dead_letter_event,
  dead_letter_run, magnitude,
}

-- No id stands twice.
abbrev pub IsDistinct : List String → Type 0
IsDistinct [] = Unit
IsDistinct (id ∷ ids) = (has id ids ≡ false) × IsDistinct ids

-- The counter is the number of ids in the set, no id stands twice, and no loss has been counted.
pub record IsCounted {Hist : Type 0} (w : DeadLetterWorker Hist) : Type 0 where
  pub counted : w.base.dead_letter_republished ≡ u64 (length w.republished)
  pub distinct : IsDistinct w.republished
  pub no_loss : w.base.dead_letter_lost ≡ 0

module _ {Hist : Type 0} where
  pub observe_pull_keeps :
      (attempts : List ℤ) (w : BaseWorker Hist)
      → ((observe_pull attempts w).dead_letter_republished ≡ w.dead_letter_republished)
        × ((observe_pull attempts w).dead_letter_lost ≡ w.dead_letter_lost)
  unfolding observe_pull set_delivery_attempt_max
  observe_pull_keeps [] w = (refl, refl)
  observe_pull_keeps (a ∷ rest) w = ground (
    arith,
    observe_pull_keeps rest
        (if ltb_ℤ (pos 0) a then set_delivery_attempt_max (magnitude a) w else w),
  )

  pub count_publish_keeps :
      (r : PublishResult) (w : BaseWorker Hist)
      → ((count_publish r w).dead_letter_republished ≡ w.dead_letter_republished)
        × ((count_publish r w).dead_letter_lost ≡ w.dead_letter_lost)
  unfolding count_publish record_sent record_error
  count_publish_keeps PublishResult.published w = (refl, refl)
  count_publish_keeps PublishResult.failed w = (refl, refl)
  count_publish_keeps PublishResult.cancelled w = (refl, refl)

  rebase :
      (b : BaseWorker Hist) (w : DeadLetterWorker Hist)
      → b.dead_letter_republished ≡ w.base.dead_letter_republished
      → b.dead_letter_lost ≡ w.base.dead_letter_lost
      → IsCounted w
      → IsCounted (record w { base = b })
  rebase b w same_count same_loss h = record {
    counted = same_count ∙ h.counted;
    distinct = h.distinct;
    no_loss = same_loss ∙ h.no_loss;
  }

  if-IsCounted :
      (b : Bool) (w v : DeadLetterWorker Hist)
      → IsCounted w
      → IsCounted v
      → IsCounted (if b then w else v)
  if-IsCounted true w v h k = h
  if-IsCounted false w v h k = k

  confirm_once-IsCounted :
      (seen : Bool) (id : String) (w : DeadLetterWorker Hist)
      → has id w.republished ≡ seen
      → IsCounted w
      → IsCounted (confirm_once seen id w)
  unfolding confirm_once record_dead_letter_republished
  confirm_once-IsCounted true id w fresh h = h
  confirm_once-IsCounted false id w fresh h = record {
    counted = omega (arith, h.counted);
    distinct = (fresh, h.distinct);
    no_loss = h.no_loss;
  }

module _ (C : Codec) (H : Histogram) (age : ℤ → ℕ) (id_of : String → ℕ → String) where
  pub time_message_keeps :
      (t : Option ℤ) (w : BaseWorker H.State)
      → ((time_message C H age t w).dead_letter_republished ≡ w.dead_letter_republished)
        × ((time_message C H age t w).dead_letter_lost ≡ w.dead_letter_lost)
  unfolding time_message record_latency
  time_message_keeps none w = (refl, refl)
  time_message_keeps (some t) w = (refl, refl)

  handle-IsCounted :
      (msg : Message) (w : DeadLetterWorker H.State)
      → IsCounted w
      → IsCounted (handle_dlq_message C H age id_of msg w)
  unfolding handle_dlq_message record_received record_acked confirm_republished
  handle-IsCounted msg w h =
      let m = extract_meta C msg.attributes in
      let received = record w { base = record_received w.base } in
      let timed = record w { base = time_message C H age m.sent_at (record_received w.base) } in
      let kept = time_message_keeps m.sent_at (record_received w.base) in
      let id = id_of m.producer_id m.seq in
      rebase _ _ refl refl (
        if-IsCounted m.ok _ _
          (confirm_once-IsCounted (has id w.republished) id timed refl (rebase _ w kept.0 kept.1 h))
          (rebase _ w refl refl h))

  event-IsCounted :
      (e : DeadLetterEvent) (w : DeadLetterWorker H.State)
      → IsCounted w
      → IsCounted (dead_letter_event C H age id_of e w)
  unfolding dead_letter_event produce_poison reset_dead_letter reset_after_warmup
  event-IsCounted (DeadLetterEvent.dlq_message msg) w h = handle-IsCounted msg w h
  event-IsCounted (DeadLetterEvent.produce producer_id now r) w h =
      let kept = count_publish_keeps r w.base in
      record { counted = kept.0 ∙ h.counted; distinct = h.distinct; no_loss = kept.1 ∙ h.no_loss }
  event-IsCounted (DeadLetterEvent.pulled attempts) w h =
      let kept = observe_pull_keeps attempts w.base in rebase _ w kept.0 kept.1 h
  event-IsCounted DeadLetterEvent.warmed_up w h = record {
    counted = refl;
    distinct = tt;
    no_loss = refl;
  }

  -- Every event of a run keeps the counter equal to the size of the set, and counts no loss.
  pub dead_letter_run-IsCounted :
      (es : List DeadLetterEvent) (w : DeadLetterWorker H.State)
      → IsCounted w
      → IsCounted (dead_letter_run C H age id_of es w)
  unfolding dead_letter_run
  dead_letter_run-IsCounted [] w h = h
  dead_letter_run-IsCounted (e ∷ es) w h = dead_letter_run-IsCounted es _ (event-IsCounted e w h)

  pub new-IsCounted :
      (channel_name : String) (idx : ℤ) (reorder_window : ℕ)
      → IsCounted (new_dead_letter_worker C H age id_of channel_name idx reorder_window)
  unfolding new_dead_letter_worker new_base_worker
  new-IsCounted channel_name idx reorder_window = record {
    counted = refl;
    distinct = tt;
    no_loss = refl;
  }
