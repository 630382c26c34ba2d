-- ===== src/Disconnect/Tests.antt =====
-- A run of the forced disconnects.
use kubemq_gcp_pub_sub.Base.{ℕ, ◌≡◌, ◌≤◌, ◌+◌, ◌-◌, refl, List, [], ◌∷◌}
use kubemq_gcp_pub_sub.Base.Int.{pos}
use kubemq_gcp_pub_sub.Samples.{fresh_worker, busy_worker}
use kubemq_gcp_pub_sub.Worker.{BaseWorker}
use kubemq_gcp_pub_sub.Disconnect.{
  Wake, run, run_wakes, wake, wake_in, disconnect_all, disconnected, count, is_tick, is_elapsed,
  disconnects_paced,
}

abbrev targets : List (BaseWorker (List ℕ))
targets = fresh_worker ∷ busy_worker ∷ []

-- The third tick comes in a pause and is kept until its end; the context then ends in the next pause.
abbrev wakes : List Wake
wakes = Wake.tick ∷ Wake.elapsed ∷ Wake.tick ∷ Wake.tick ∷ Wake.elapsed ∷ Wake.done ∷ Wake.tick ∷ []

three_disconnects : (run (pos 60) targets 0 wakes).forced_disconnects ≡ 3
unfolding run run_wakes wake wake_in disconnect_all
three_disconnects = refl

disconnects_paced_example :
    let m = run (pos 60) targets 0 wakes in
    (0 ≤ m.forced_disconnects)
    × (m.targets ≡ disconnected (m.forced_disconnects - 0) targets)
    × (m.forced_disconnects ≤ 0 + count is_tick wakes)
    × (m.forced_disconnects ≤ 0 + count is_elapsed wakes + 1)
disconnects_paced_example = disconnects_paced (pos 60) targets 0 wakes
