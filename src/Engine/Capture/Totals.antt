-- ===== src/Engine/Capture/Totals.antt =====
-- burnin/engine/engine.go: a captured snapshot and the sums over the group's workers.
use kubemq_gcp_pub_sub.Base.{
  ℕ, ◌+◌, ◌≡◌, refl, ap, ◌∙◌, sym, String, List, [], ◌∷◌, map, sum, Option, none, some, arith,
  if◌then◌else◌,
}
use kubemq_gcp_pub_sub.Base.Words.{add64, u64}
use kubemq_gcp_pub_sub.Base.Floats.{Floats}
use kubemq_gcp_pub_sub.Config.Names.{is_fanout_worker}
use kubemq_gcp_pub_sub.Tracker.{total_lost}
use kubemq_gcp_pub_sub.Worker.{Histogram, BaseWorker}
use kubemq_gcp_pub_sub.Engine.{WorkerSnapshot}
use kubemq_gcp_pub_sub.Engine.Capture.{
  Percentiles, Capture, capture_worker, capture_latency, capture_workers, capture_group,
  fold_fanout, set_percentiles, empty_snapshot,
}

add64_sum : (a b s : ℕ) → u64 (add64 a b + s) ≡ u64 (a + (b + s))
add64_sum a b s = omega arith

u64-add64 : (a b : ℕ) → u64 (add64 a b) ≡ add64 a b
u64-add64 a b = omega arith

module _ (F : Floats) (H : Histogram) (percentiles : H.State → Percentiles F.Float) where
  open F use {Float}

  capture_latency-snap :
      (w : BaseWorker H.State) (k : Capture F H percentiles)
      → (capture_latency F H percentiles w k).snap ≡ k.snap
  unfolding capture_latency
  capture_latency-snap w k = ground arith

  abbrev pub start : Capture F H percentiles
  start = record { snap = empty_snapshot F H percentiles; best_lat = none; best_lat_count = 0 }

  -- A counter that every worker adds to.
  module _ (counter : WorkerSnapshot Float → ℕ) (of_worker : BaseWorker H.State → ℕ)
      (added : (w : BaseWorker H.State) (s : WorkerSnapshot Float)
        → counter (capture_worker F H percentiles w s) ≡ add64 (counter s) (of_worker w)) where
    capture_workers-sum :
        (ws : List (BaseWorker H.State)) (k : Capture F H percentiles)
        → u64 (counter k.snap) ≡ counter k.snap
        → counter (capture_workers F H percentiles ws k).snap
          ≡ u64 (counter k.snap + sum (map of_worker ws))
    unfolding capture_workers
    capture_workers-sum [] k h = sym h ∙ omega arith
    capture_workers-sum (w ∷ ws) k h =
        let next =
          capture_latency F H percentiles w
            (record k { snap = capture_worker F H percentiles w k.snap }) in
        let after : counter next.snap ≡ add64 (counter k.snap) (of_worker w) =
          ap counter
            (capture_latency-snap w (record k { snap = capture_worker F H percentiles w k.snap }))
          ∙ added w k.snap in
        capture_workers-sum ws next
          (ap u64 after ∙ u64-add64 (counter k.snap) (of_worker w) ∙ sym after)
        ∙ ap (λ n. u64 (n + sum (map of_worker ws))) after
        ∙ add64_sum (counter k.snap) (of_worker w) (sum (map of_worker ws))

    capture_workers-from_start :
        counter start.snap ≡ 0
        → (ws : List (BaseWorker H.State))
        → counter (capture_workers F H percentiles ws start).snap ≡ u64 (sum (map of_worker ws))
    capture_workers-from_start zero_start ws =
        capture_workers-sum ws start (ap u64 zero_start ∙ sym zero_start)
        ∙ ap (λ n. u64 (n + sum (map of_worker ws))) zero_start
        ∙ omega arith

  -- The capture of a group, before the percentiles and the fan-out rule.
  abbrev pub folded : List (BaseWorker H.State) → Capture F H percentiles
  folded ws = capture_workers F H percentiles ws start

  set_percentiles_keeps :
      (o : Option H.State) (s : WorkerSnapshot Float)
      → ((set_percentiles F H percentiles o s).sent ≡ s.sent)
        × ((set_percentiles F H percentiles o s).received ≡ s.received)
        × ((set_percentiles F H percentiles o s).errors ≡ s.errors)
        × ((set_percentiles F H percentiles o s).corrupted ≡ s.corrupted)
        × ((set_percentiles F H percentiles o s).lost ≡ s.lost)
        × ((set_percentiles F H percentiles o s).fanout_dropped ≡ s.fanout_dropped)
  unfolding set_percentiles
  set_percentiles_keeps none s = (refl, refl, refl, refl, refl, refl)
  set_percentiles_keeps (some lat) s = (refl, refl, refl, refl, refl, refl)

  -- The workers' sums of a counter, as a uint64.
  abbrev pub summed : (BaseWorker H.State → ℕ) → List (BaseWorker H.State) → ℕ
  summed of_worker ws = u64 (sum (map of_worker ws))

  folded_lem :
      (ws : List (BaseWorker H.State))
      → ((folded ws).snap.sent ≡ summed (λ w. w.sent) ws)
        × ((folded ws).snap.received ≡ summed (λ w. w.received) ws)
        × ((folded ws).snap.errors ≡ summed (λ w. w.errors) ws)
        × ((folded ws).snap.corrupted ≡ summed (λ w. w.corrupted) ws)
        × ((folded ws).snap.lost ≡ summed (λ w. total_lost w.trk) ws)
        × ((folded ws).snap.fanout_dropped ≡ summed (λ w. w.fanout_dropped) ws)
  unfolding capture_worker empty_snapshot
  folded_lem ws = (
    capture_workers-from_start (λ s. s.sent) (λ w. w.sent) (λ w s. refl) refl ws,
    capture_workers-from_start (λ s. s.received) (λ w. w.received) (λ w s. refl) refl ws,
    capture_workers-from_start (λ s. s.errors) (λ w. w.errors) (λ w s. refl) refl ws,
    capture_workers-from_start (λ s. s.corrupted) (λ w. w.corrupted) (λ w s. refl) refl ws,
    capture_workers-from_start (λ s. s.lost) (λ w. total_lost w.trk) (λ w s. refl) refl ws,
    capture_workers-from_start (λ s. s.fanout_dropped) (λ w. w.fanout_dropped) (λ w s. refl) refl
        ws,
  )

  -- A group's snapshot holds the uint64 sums of its workers' counters of sent, received, failed and
  -- corrupted messages; the sum of the trackers' losses counts as lost, except for the fan_out
  -- worker, which reports no loss and adds that sum to its dropped deliveries.
  pub capture_group_lem :
      (name : String) (ws : List (BaseWorker H.State))
      → ((capture_group F H percentiles name ws).sent ≡ summed (λ w. w.sent) ws)
        × ((capture_group F H percentiles name ws).received ≡ summed (λ w. w.received) ws)
        × ((capture_group F H percentiles name ws).errors ≡ summed (λ w. w.errors) ws)
        × ((capture_group F H percentiles name ws).corrupted ≡ summed (λ w. w.corrupted) ws)
        × ((capture_group F H percentiles name ws).lost
            ≡ (if is_fanout_worker name then 0 else summed (λ w. total_lost w.trk) ws))
        × ((capture_group F H percentiles name ws).fanout_dropped ≡ (
            if is_fanout_worker name
            then add64 (summed (λ w. w.fanout_dropped) ws) (summed (λ w. total_lost w.trk) ws)
            else summed (λ w. w.fanout_dropped) ws))
  unfolding capture_group fold_fanout
  capture_group_lem name ws =
      grind (arith, folded_lem ws, set_percentiles_keeps (folded ws).best_lat (folded ws).snap)

  set_percentiles-dead_letter_lost :
      (o : Option H.State) (s : WorkerSnapshot Float)
      → (set_percentiles F H percentiles o s).dead_letter_lost ≡ s.dead_letter_lost
  unfolding set_percentiles
  set_percentiles-dead_letter_lost none s = refl
  set_percentiles-dead_letter_lost (some lat) s = refl

  pub capture_group-dead_letter_lost :
      (name : String) (ws : List (BaseWorker H.State))
      → (capture_group F H percentiles name ws).dead_letter_lost
        ≡ summed (λ w. w.dead_letter_lost) ws
  unfolding capture_group fold_fanout capture_worker empty_snapshot
  capture_group-dead_letter_lost name ws = grind (
    arith,
    set_percentiles-dead_letter_lost (folded ws).best_lat (folded ws).snap,
    capture_workers-from_start (λ s. s.dead_letter_lost) (λ w. w.dead_letter_lost) (λ w s. refl)
        refl ws,
  )
