-- ===== src/Worker/DeadLetter/Loops.antt =====
-- burnin/worker/dead_letter.go: sourceDriveLoop, dlqConsumeLoop and retryBackoffProbe, on what their calls return
-- before the context or the window of the probe ends.
use kubemq_gcp_pub_sub.Base.{
  ℕ, ◌+◌, ◌<◌, ◌^◌, ◌≡◌, ◌∙◌, refl, ap, String, Bool, true, false, not, List, [], ◌∷◌, ltb, arith,
  Bool-cases, inl, inr, if◌then◌else◌,
}
use kubemq_gcp_pub_sub.Base.Int.{ℤ, pos, ltb_ℤ}
use kubemq_gcp_pub_sub.Base.Codec.{Codec}
use kubemq_gcp_pub_sub.Worker.{
  Histogram, BaseWorker, record_error, record_reconnection, set_delivery_attempt_max,
  record_retry_backoff_observed,
}
use kubemq_gcp_pub_sub.Worker.Counting.{largest}
use kubemq_gcp_pub_sub.Worker.Handling.{Message}
use kubemq_gcp_pub_sub.Worker.DeadLetter.{
  DeadLetterWorker, observe_pull, handle_dlq_message, magnitude,
}
use kubemq_gcp_pub_sub.Worker.DeadLetter.Backoff.{
  Sightings, no_sightings, sight, growing_gaps, poll,
}

-- A Pull of the source fails, or gives messages with these delivery attempts.
pub data SourcePull : Type 0 where
  failed : SourcePull
  gave : List ℤ → SourcePull

-- One Receive of the dead-letter subscription: its messages, and whether it returned an error.
pub record DlqPass : Type 0 where
  pub messages : List Message
  pub is_failed : Bool

module _ {Hist : Type 0} where
  unfoldable pub source_drive_loop : List SourcePull → BaseWorker Hist → BaseWorker Hist
  source_drive_loop [] w = w
  source_drive_loop (SourcePull.failed ∷ ps) w = source_drive_loop ps (record_error w)
  source_drive_loop (SourcePull.gave attempts ∷ ps) w =
      source_drive_loop ps (observe_pull attempts w)

  -- Whether the topic and the subscription are there, and whether the message was published.
  unfoldable pub retry_backoff_probe :
      Bool → Bool → Bool → List (ℕ × Bool) → BaseWorker Hist → BaseWorker Hist
  retry_backoff_probe topic sub published polls w =
      let polled = poll polls no_sightings w in
      if not topic then w else if not sub then w else if not published then w else polled

module _ (C : Codec) (H : Histogram) (age : ℤ → ℕ) (id_of : String → ℕ → String) where
  unfoldable pub handle_dlq_messages :
      List Message → DeadLetterWorker H.State → DeadLetterWorker H.State
  handle_dlq_messages [] w = w
  handle_dlq_messages (m ∷ ms) w = handle_dlq_messages ms (handle_dlq_message C H age id_of m w)

  unfoldable pub dlq_pass : Bool → DlqPass → DeadLetterWorker H.State → DeadLetterWorker H.State
  dlq_pass first p w =
      let started = if first then w else record w { base = record_reconnection w.base } in
      let handled = handle_dlq_messages p.messages started in
      if p.is_failed then record handled { base = record_error handled.base } else handled

  unfoldable pub dlq_consume_loop :
      Bool → List DlqPass → DeadLetterWorker H.State → DeadLetterWorker H.State
  dlq_consume_loop first [] w = w
  dlq_consume_loop first (p ∷ ps) w = dlq_consume_loop false ps (dlq_pass first p w)

-- The delivery attempts that a run of pulls shows.
abbrev pub positive : List ℤ → List ℕ
positive [] = []
positive (a ∷ rest) =
    let others = positive rest in if ltb_ℤ (pos 0) a then magnitude a ∷ others else others

abbrev pub failures : List SourcePull → ℕ
failures [] = 0
failures (SourcePull.failed ∷ ps) = 1 + failures ps
failures (SourcePull.gave _ ∷ ps) = failures ps

abbrev pub highest : List SourcePull → ℕ → ℕ
highest [] m = m
highest (SourcePull.failed ∷ ps) m = highest ps m
highest (SourcePull.gave attempts ∷ ps) m = highest ps (largest (positive attempts) m)

-- Whether the gaps grow at some poll.
abbrev pub is_backing_off : List (ℕ × Bool) → Sightings → Bool
is_backing_off [] s = false
is_backing_off ((now, got) ∷ polls) s =
    let later = is_backing_off polls (sight now got s) in
    if growing_gaps (sight now got s).gaps then true else later

module _ {Hist : Type 0} where
  raise_lem :
      (v : ℕ) (w : BaseWorker Hist)
      → let w' = set_delivery_attempt_max v w in
        (w'.delivery_attempt_max
          ≡ (if ltb w.delivery_attempt_max v then v else w.delivery_attempt_max))
        × (w'.errors ≡ w.errors)
        × (w'.received ≡ w.received)
        × (w'.acked ≡ w.acked)
  unfolding set_delivery_attempt_max
  raise_lem v w = ground arith

  observe_pull_lem :
      (attempts : List ℤ) (w : BaseWorker Hist)
      → let w' = observe_pull attempts w in
        (w'.delivery_attempt_max ≡ largest (positive attempts) w.delivery_attempt_max)
        × (w'.errors ≡ w.errors)
        × (w'.received ≡ w.received)
        × (w'.acked ≡ w.acked)
  unfolding observe_pull
  observe_pull_lem [] w = (refl, refl, refl, refl)
  observe_pull_lem (a ∷ rest) w = elim (Bool-cases (ltb_ℤ (pos 0) a)) [
    | inl counts ↦
        rw (observe_pull, counts)
          (let (top, errors, received, acked) = raise_lem (magnitude a) w in
            let (top', errors', received', acked') =
              observe_pull_lem rest (set_delivery_attempt_max (magnitude a) w) in
            (
              top' ∙ ap (largest (positive rest)) top,
              errors' ∙ errors,
              received' ∙ received,
              acked' ∙ acked,
            ))
    | inr no_count ↦ rw (observe_pull, no_count) (observe_pull_lem rest w)
  ]

  -- While the errors cannot wrap, sourceDriveLoop receives and acks nothing: it raises the gauge to the largest
  -- delivery attempt that any of its pulls shows, and counts one error for each pull that fails.
  source_drive_loop_lem :
      (ps : List SourcePull) (w : BaseWorker Hist)
      → w.errors + failures ps < 2 ^ 64
      → let w' = source_drive_loop ps w in
        (w'.delivery_attempt_max ≡ highest ps w.delivery_attempt_max)
        × (w'.errors ≡ w.errors + failures ps)
        × (w'.received ≡ w.received)
        × (w'.acked ≡ w.acked)
  unfolding source_drive_loop record_error
  source_drive_loop_lem [] w h = (refl, omega arith, refl, refl)
  source_drive_loop_lem (SourcePull.failed ∷ ps) w h =
      let (top, errors, received, acked) =
        source_drive_loop_lem ps (record_error w) (omega arith) in
      (top, omega (arith, errors), received, acked)
  source_drive_loop_lem (SourcePull.gave attempts ∷ ps) w h =
      let (top, errors, received, acked) = observe_pull_lem attempts w in
      let (top', errors', received', acked') =
        source_drive_loop_lem ps (observe_pull attempts w) (omega (arith, errors)) in
      (
        top' ∙ ap (highest ps) top,
        omega (arith, errors, errors'),
        received' ∙ received,
        acked' ∙ acked,
      )

  poll_lem :
      (polls : List (ℕ × Bool)) (s : Sightings) (w : BaseWorker Hist)
      → poll polls s w ≡ (if is_backing_off polls s then record_retry_backoff_observed w else w)
  unfolding poll
  poll_lem [] s w = refl
  poll_lem ((now, got) ∷ polls) s w = elim (Bool-cases (growing_gaps (sight now got s).gaps)) [
    | inl grows ↦ rw grows refl
    | inr flat ↦ rw flat (poll_lem polls (sight now got s) w)
  ]

  -- Whatever happens to retryBackoffProbe, it leaves the worker as it is, but for one observed backoff when its
  -- message was published and the gaps between its sightings grow at some poll.
  retry_backoff_probe_lem :
      (topic sub published : Bool) (polls : List (ℕ × Bool)) (w : BaseWorker Hist)
      → retry_backoff_probe topic sub published polls w ≡ (
          if not topic
          then w
          else if not sub
          then w
          else if not published
          then w
          else if is_backing_off polls no_sightings
          then record_retry_backoff_observed w
          else w)
  unfolding retry_backoff_probe
  retry_backoff_probe_lem topic sub published polls w = rw (poll_lem polls no_sightings w) refl
