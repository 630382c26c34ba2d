-- ===== src/Worker/DeadLetter/Tests.antt =====
-- Runs of the dead-letter worker.
use kubemq_gcp_pub_sub.Base.{ℕ, ◌≡◌, ◌+◌, List, [], ◌∷◌, length, arith}
use kubemq_gcp_pub_sub.Base.Words.{u64}
use kubemq_gcp_pub_sub.Base.Int.{pos}
use kubemq_gcp_pub_sub.Samples.{samples, fresh_worker}
use kubemq_gcp_pub_sub.Samples.Strokes.{codec}
use kubemq_gcp_pub_sub.Samples.Messages.{age, id_of, returned}
use kubemq_gcp_pub_sub.Worker.{new_base_worker}
use kubemq_gcp_pub_sub.Worker.Publishing.{PublishResult}
use kubemq_gcp_pub_sub.Worker.DeadLetter.{
  DeadLetterWorker, DeadLetterEvent, new_dead_letter_worker, dead_letter_run,
  reconcile_dead_letter_loss,
}
use kubemq_gcp_pub_sub.Worker.DeadLetter.Back.{distinct, ids_back, dead_letter_run_lem}
use kubemq_gcp_pub_sub.Worker.DeadLetter.Loss.{excused, reconcile_dead_letter_loss_lem}

abbrev poison : DeadLetterWorker (List ℕ)
poison = new_dead_letter_worker codec samples age id_of "pubsub.t" (pos 0) 128

-- One message comes back twice, the other one never.
abbrev poison_events : List DeadLetterEvent
poison_events =
    DeadLetterEvent.produce "p" 10 PublishResult.published
    ∷ DeadLetterEvent.produce "q" 20 PublishResult.published
    ∷ DeadLetterEvent.dlq_message returned
    ∷ DeadLetterEvent.dlq_message returned
    ∷ []

dead_letter_run_lem_example :
    let w = dead_letter_run codec samples age id_of poison_events poison in
    (w.base.dead_letter_republished
      ≡ u64 (distinct (ids_back codec samples age id_of poison_events [])))
    × (w.base.dead_letter_lost ≡ 0)
dead_letter_run_lem_example =
    dead_letter_run_lem codec samples age id_of "pubsub.t" (pos 0) 128 poison_events

abbrev waiting : DeadLetterWorker (List ℕ)
waiting = record {
  base = fresh_worker;
  seq = 2;
  published = ("p#1", 10) ∷ ("p#2", 20) ∷ [];
  republished = "p#1" ∷ [];
}

reconcile_dead_letter_loss_lem_example :
    (reconcile_dead_letter_loss (pos 100) 500 waiting).base.dead_letter_lost
      + excused 100 500 waiting.republished waiting.published
    ≡ waiting.base.dead_letter_lost + length waiting.published
unfolding new_base_worker
reconcile_dead_letter_loss_lem_example =
    reconcile_dead_letter_loss_lem 100 500 waiting (omega arith)
