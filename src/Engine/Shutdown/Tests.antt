-- ===== src/Engine/Shutdown/Tests.antt =====
-- Runs of the shutdown and of the drain before it.
use kubemq_gcp_pub_sub.Base.{
  ℕ, ◌+◌, ◌*◌, ◌≡◌, String, List, [], ◌∷◌, some, ltb, if◌then◌else◌, arith,
}
use kubemq_gcp_pub_sub.Base.Int.{ℤ, pos, pos_part, leb_ℤ}
use kubemq_gcp_pub_sub.Samples.{milli, samples, no_percentiles}
use kubemq_gcp_pub_sub.Samples.Strokes.{codec}
use kubemq_gcp_pub_sub.Samples.Messages.{age, id_of}
use kubemq_gcp_pub_sub.Worker.Publishing.{PublishResult}
use kubemq_gcp_pub_sub.Worker.DeadLetter.{DeadLetterEvent}
use kubemq_gcp_pub_sub.Engine.Drain.{
  Outcome, IsDrained, drain_to_quiescence, drain_to_quiescence_lem,
}
use kubemq_gcp_pub_sub.Engine.Shutdown.{shutdown_group}
use kubemq_gcp_pub_sub.Engine.Shutdown.Silence.{
  dead_letter_ops, after_runs, shutdown_dead_letter_silent,
}

abbrev channel : ℤ → String
channel idx = "pubsub.t"

-- Two workers that publish and never see a message come back.
abbrev lost_runs : List (ℤ × List DeadLetterEvent)
lost_runs =
    (pos 0, DeadLetterEvent.produce "p" 10 PublishResult.published ∷ [])
    ∷ (pos 1, DeadLetterEvent.produce "q" 20 PublishResult.published ∷ [])
    ∷ []

shutdown_dead_letter_silent_example :
    (shutdown_group milli samples no_percentiles (dead_letter_ops (pos 100) 500) "dead_letter" (
      after_runs milli samples no_percentiles codec age id_of channel 128
        lost_runs)).0.dead_letter_lost
    ≡ 0
shutdown_dead_letter_silent_example =
    shutdown_dead_letter_silent milli samples no_percentiles codec age id_of channel 128 (pos 100)
      500 "dead_letter" lost_runs

abbrev clock : ℕ → ℕ
clock k = k * 250000000

-- The total rises until the third poll.
abbrev total : ℕ → ℕ
total k = if ltb k 3 then k else 3

drain_to_quiescence_lem_example :
    (o : Outcome) × (drain_to_quiescence clock total 9 (pos 2000000000) ≡ some o)
    × IsDrained clock total
        (clock 0
          + (if leb_ℤ (pos 2000000000) (pos 0) then 1000000000 else pos_part (pos 2000000000)))
        o
drain_to_quiescence_lem_example =
    drain_to_quiescence_lem clock total (λ k. omega arith) 8 (pos 2000000000) (omega arith)
      (omega arith)
