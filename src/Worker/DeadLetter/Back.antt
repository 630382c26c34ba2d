-- ===== src/Worker/DeadLetter/Back.antt =====
-- burnin/worker/dead_letter.go: the counter of republished messages beside the messages that came back.
use kubemq_gcp_pub_sub.Base.{
  ℕ, suc, ◌≡◌, refl, sym, ap, ◌∙◌, ◌||◌, String, Bool, true, false, List, [], ◌∷◌, arith,
  if◌then◌else◌,
}
use kubemq_gcp_pub_sub.Base.Words.{u64}
use kubemq_gcp_pub_sub.Base.Int.{ℤ}
use kubemq_gcp_pub_sub.Base.Assoc.{eqs, eqs_iff}
use kubemq_gcp_pub_sub.Base.Codec.{Codec}
use kubemq_gcp_pub_sub.Worker.{
  Histogram, BaseWorker, new_base_worker, reset_after_warmup, record_received, record_acked,
  record_dead_letter_republished,
}
use kubemq_gcp_pub_sub.Worker.Attrs.{extract_meta}
use kubemq_gcp_pub_sub.Worker.Handling.{Message, time_message}
use kubemq_gcp_pub_sub.Worker.Reconcile.{has}
use kubemq_gcp_pub_sub.Worker.DeadLetter.{
  DeadLetterWorker, DeadLetterEvent, confirm_once, confirm_republished, new_dead_letter_worker,
  handle_dlq_message, produce_poison, reset_dead_letter, dead_letter_event, dead_letter_run,
}
use kubemq_gcp_pub_sub.Worker.DeadLetter.Counts.{
  observe_pull_keeps, count_publish_keeps, time_message_keeps, dead_letter_run-IsCounted,
  new-IsCounted,
}

-- How many different ids there are.
abbrev pub distinct : List String → ℕ
distinct [] = 0
distinct (id ∷ ids) = if has id ids then distinct ids else suc (distinct ids)

-- The worker has counted the different ones of the ids, and remembers just them.
record IsToldOf {Hist : Type 0} (back : List String) (w : DeadLetterWorker Hist) : Type 0 where
  pub counted : w.base.dead_letter_republished ≡ u64 (distinct back)
  pub same : (id : String) → has id w.republished ≡ has id back

-- An id that is there already makes no difference.
has_again :
    (id asked : String) (ids : List String)
    → has id ids ≡ true
    → has asked ids ≡ (eqs id asked || has asked ids)
has_again id asked ids there =
    let found : eqs id asked ≡ true → has asked ids ≡ true =
      λ e. ap (λ x. has x ids) (sym ((eqs_iff id asked).0 e)) ∙ there in
    ground (arith, found)

module _ {Hist : Type 0} where
  rebase :
      (back : List String) (b : BaseWorker Hist) (w : DeadLetterWorker Hist)
      → b.dead_letter_republished ≡ w.base.dead_letter_republished
      → IsToldOf back w
      → IsToldOf back (record w { base = b })
  rebase back b w kept h = record { counted = kept ∙ h.counted; same = h.same }

  either :
      (b : Bool) (one other : List String) (w v : DeadLetterWorker Hist)
      → IsToldOf one w
      → IsToldOf other v
      → IsToldOf (if b then one else other) (if b then w else v)
  either true one other w v h k = h
  either false one other w v h k = k

  confirm_once-IsToldOf :
      (seen : Bool) (id : String) (back : List String) (w : DeadLetterWorker Hist)
      → has id w.republished ≡ seen
      → IsToldOf back w
      → IsToldOf (id ∷ back) (confirm_once seen id w)
  unfolding confirm_once record_dead_letter_republished
  confirm_once-IsToldOf true id back w e h = record {
    counted = ground (arith, h.counted, sym (h.same id) ∙ e);
    same = λ x. h.same x ∙ has_again id x back (sym (h.same id) ∙ e);
  }
  confirm_once-IsToldOf false id back w e h = record {
    counted = ground (arith, h.counted, sym (h.same id) ∙ e);
    same = λ x. ap (λ b. eqs id x || b) (h.same x);
  }

module _ (C : Codec) (H : Histogram) (age : ℤ → ℕ) (id_of : String → ℕ → String) where
  -- The ids of the messages that came on the dead-letter topic since the last reset, each as often as it came.
  abbrev pub ids_back : List DeadLetterEvent → List String → List String
  ids_back [] back = back
  ids_back (DeadLetterEvent.dlq_message msg ∷ es) back =
      let m = extract_meta C msg.attributes in
      ids_back es (if m.ok then id_of m.producer_id m.seq ∷ back else back)
  ids_back (DeadLetterEvent.produce _ _ _ ∷ es) back = ids_back es back
  ids_back (DeadLetterEvent.pulled _ ∷ es) back = ids_back es back
  ids_back (DeadLetterEvent.warmed_up ∷ es) back = ids_back es []

  handle-IsToldOf :
      (msg : Message) (back : List String) (w : DeadLetterWorker H.State)
      → IsToldOf back w
      → let m = extract_meta C msg.attributes in
        IsToldOf
          (if m.ok then id_of m.producer_id m.seq ∷ back else back)
          (handle_dlq_message C H age id_of msg w)
  unfolding handle_dlq_message record_received record_acked confirm_republished
  handle-IsToldOf msg back w h =
      let m = extract_meta C msg.attributes in
      let received = record w { base = record_received w.base } in
      let timed = record w { base = time_message C H age m.sent_at (record_received w.base) } in
      let kept = time_message_keeps C H age id_of m.sent_at (record_received w.base) in
      let id = id_of m.producer_id m.seq in
      rebase _ _ _ refl (
        either m.ok (id ∷ back) back _ _
          (confirm_once-IsToldOf (has id w.republished) id back timed refl
            (rebase back _ w kept.0 h))
          (rebase back _ w refl h))

  run-IsToldOf :
      (es : List DeadLetterEvent) (back : List String) (w : DeadLetterWorker H.State)
      → IsToldOf back w
      → IsToldOf (ids_back es back) (dead_letter_run C H age id_of es w)
  unfolding dead_letter_run dead_letter_event produce_poison reset_dead_letter reset_after_warmup
  run-IsToldOf [] back w h = h
  run-IsToldOf (DeadLetterEvent.dlq_message msg ∷ es) back w h =
      run-IsToldOf es _ _ (handle-IsToldOf msg back w h)
  run-IsToldOf (DeadLetterEvent.produce producer_id now r ∷ es) back w h =
      run-IsToldOf es back _
        (record { counted = (count_publish_keeps r w.base).0 ∙ h.counted; same = h.same })
  run-IsToldOf (DeadLetterEvent.pulled attempts ∷ es) back w h =
      run-IsToldOf es back _ (rebase back _ w (observe_pull_keeps attempts w.base).0 h)
  run-IsToldOf (DeadLetterEvent.warmed_up ∷ es) back w h =
      run-IsToldOf es [] _ (record { counted = refl; same = λ id. refl })

  -- After any events of a new worker: the counter of republished messages is, as a uint64, the number of different
  -- ids among the messages that came on the dead-letter topic since the last reset, however often each
  -- came; and no loss has been counted.
  pub dead_letter_run_lem :
      (channel_name : String) (idx : ℤ) (reorder_window : ℕ) (es : List DeadLetterEvent)
      → let start = new_dead_letter_worker C H age id_of channel_name idx reorder_window in
        let w = dead_letter_run C H age id_of es start in
        (w.base.dead_letter_republished ≡ u64 (distinct (ids_back es [])))
        × (w.base.dead_letter_lost ≡ 0)
  unfolding new_dead_letter_worker new_base_worker
  dead_letter_run_lem channel_name idx reorder_window es =
      let start = new_dead_letter_worker C H age id_of channel_name idx reorder_window in
      (
        (run-IsToldOf es [] start (record { counted = refl; same = λ id. refl })).counted,
        (dead_letter_run-IsCounted C H age id_of es start
            (new-IsCounted C H age id_of channel_name idx reorder_window)).no_loss,
      )
