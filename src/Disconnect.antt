-- ===== src/Disconnect.antt =====
-- burnin/disconnect/disconnect.go: Manager.Run. What its two selects wait for comes as a list of wakes; the
-- ticker keeps one tick that comes during the pause.
mod Tests
use kubemq_gcp_pub_sub.Base.{
  ℕ, zero, suc, ◌+◌, ◌-◌, ◌≤◌, ◌≡◌, refl, sym, ap, ◌∙◌, Bool, true, false, List, [], ◌∷◌, map,
  if◌then◌else◌, arith, Bool-cases, inl, inr,
}
use kubemq_gcp_pub_sub.Base.Int.{ℤ, pos, eqb_ℤ}
use kubemq_gcp_pub_sub.Worker.{BaseWorker, disconnect_consumers}

-- A tick of the interval, the end of the pause, the end of the context.
pub data Wake : Type 0 where
  tick elapsed done : Wake

-- Where Run stands; in the pause, whether a tick is kept.
pub data Phase : Type 0 where
  waiting stopped : Phase
  pausing : Bool → Phase

-- The targets, and ForcedDisconnectsTotal.
pub record Manager (Hist : Type 0) : Type 0 where
  pub phase : Phase
  pub targets : List (BaseWorker Hist)
  pub forced_disconnects : ℕ

module _ {Hist : Type 0} where
  -- The case of a tick, up to its pause.
  unfoldable pub disconnect_all : Manager Hist → Manager Hist
  disconnect_all m = record {
    phase = Phase.pausing false;
    targets = map disconnect_consumers m.targets;
    forced_disconnects = m.forced_disconnects + 1;
  }

  unfoldable pub wake_in : Phase → Wake → Manager Hist → Manager Hist
  wake_in Phase.stopped _ m = m
  wake_in Phase.waiting Wake.tick m = disconnect_all m
  wake_in Phase.waiting Wake.elapsed m = m
  wake_in Phase.waiting Wake.done m = record m { phase = Phase.stopped }
  wake_in (Phase.pausing _) Wake.tick m = record m { phase = Phase.pausing true }
  wake_in (Phase.pausing false) Wake.elapsed m = record m { phase = Phase.waiting }
  wake_in (Phase.pausing true) Wake.elapsed m = disconnect_all m
  wake_in (Phase.pausing _) Wake.done m = record m { phase = Phase.stopped }

  unfoldable pub wake : Manager Hist → Wake → Manager Hist
  wake m w = wake_in m.phase w m

  unfoldable pub run_wakes : Manager Hist → List Wake → Manager Hist
  run_wakes m [] = m
  run_wakes m (w ∷ ws) = run_wakes (wake m w) ws

  -- New and Run.
  unfoldable pub run : ℤ → List (BaseWorker Hist) → ℕ → List Wake → Manager Hist
  run interval targets forced_disconnects wakes =
      if eqb_ℤ interval (pos 0)
      then record {
        phase = Phase.stopped;
        targets = targets;
        forced_disconnects = forced_disconnects;
      }
      else run_wakes
          (record {
            phase = Phase.waiting;
            targets = targets;
            forced_disconnects = forced_disconnects;
          })
          wakes

  abbrev pub disconnected : ℕ → List (BaseWorker Hist) → List (BaseWorker Hist)
  disconnected zero ws = ws
  disconnected (suc n) ws = disconnected n (map disconnect_consumers ws)

abbrev pub count : (Wake → Bool) → List Wake → ℕ
count p [] = 0
count p (w ∷ ws) = (if p w then 1 else 0) + count p ws

abbrev pub is_tick : Wake → Bool
is_tick Wake.tick = true
is_tick _ = false

abbrev pub is_elapsed : Wake → Bool
is_elapsed Wake.elapsed = true
is_elapsed _ = false

-- A disconnect that is due without a pause to wait for, and one without a tick to wait for.
abbrev unpaused : Phase → ℕ
unpaused Phase.waiting = 1
unpaused _ = 0

abbrev kept : Phase → ℕ
kept (Phase.pausing true) = 1
kept _ = 0

sub_self : (n : ℕ) → n - n ≡ 0
sub_self n = omega arith

module _ {Hist : Type 0} where
  abbrev IsPaced : Manager Hist → List Wake → Manager Hist → Type 0
  IsPaced m ws m' =
      (m.forced_disconnects ≤ m'.forced_disconnects)
      × (m'.targets ≡ disconnected (m'.forced_disconnects - m.forced_disconnects) m.targets)
      × (m'.forced_disconnects ≤ m.forced_disconnects + count is_elapsed ws + unpaused m.phase)
      × (m'.forced_disconnects ≤ m.forced_disconnects + count is_tick ws + kept m.phase)

  abbrev manager : Phase → List (BaseWorker Hist) → ℕ → Manager Hist
  manager p ts n = record { phase = p; targets = ts; forced_disconnects = n }

  module _ (p : Phase) (ts : List (BaseWorker Hist)) (n : ℕ) (w : Wake) (ws : List Wake) where
    stays :
        (q : Phase)
        → IsPaced (manager q ts n) ws (run_wakes (manager q ts n) ws)
        → unpaused q ≤ unpaused p + count is_elapsed (w ∷ [])
        → kept q ≤ kept p + count is_tick (w ∷ [])
        → IsPaced (manager p ts n) (w ∷ ws) (run_wakes (manager q ts n) ws)
    stays q (grown, targets, paused, ticked) u k =
        (grown, targets, omega (arith, paused, u), omega (arith, ticked, k))

    disconnects :
        let after = manager (Phase.pausing false) (map disconnect_consumers ts) (n + 1) in
        IsPaced after ws (run_wakes after ws)
        → 1 ≤ unpaused p + count is_elapsed (w ∷ [])
        → 1 ≤ kept p + count is_tick (w ∷ [])
        → IsPaced (manager p ts n) (w ∷ ws) (run_wakes after ws)
    disconnects (grown, targets, paused, ticked) u k =
        let after = manager (Phase.pausing false) (map disconnect_consumers ts) (n + 1) in
        let m' = run_wakes after ws in
        let once : m'.forced_disconnects - n ≡ suc (m'.forced_disconnects - (n + 1)) =
          omega (arith, grown) in
        (
          omega (arith, grown),
          targets ∙ sym (ap (λ k. disconnected k ts) once),
          omega (arith, paused, u),
          omega (arith, ticked, k),
        )

  run_wakes-IsPaced :
      (ws : List Wake) (p : Phase) (ts : List (BaseWorker Hist)) (n : ℕ)
      → IsPaced (manager p ts n) ws (run_wakes (manager p ts n) ws)
  unfolding run_wakes wake wake_in disconnect_all
  run_wakes-IsPaced [] p ts n = (omega arith, rw (sub_self n) refl, omega arith, omega arith)
  run_wakes-IsPaced (w ∷ ws) Phase.stopped ts n =
      stays Phase.stopped ts n w ws Phase.stopped (run_wakes-IsPaced ws Phase.stopped ts n)
        (omega arith) (omega arith)
  run_wakes-IsPaced (Wake.tick ∷ ws) Phase.waiting ts n =
      disconnects Phase.waiting ts n Wake.tick ws (run_wakes-IsPaced ws _ _ _) (omega arith)
        (omega arith)
  run_wakes-IsPaced (Wake.elapsed ∷ ws) Phase.waiting ts n =
      stays Phase.waiting ts n Wake.elapsed ws Phase.waiting
        (run_wakes-IsPaced ws Phase.waiting ts n) (omega arith) (omega arith)
  run_wakes-IsPaced (Wake.done ∷ ws) Phase.waiting ts n =
      stays Phase.waiting ts n Wake.done ws Phase.stopped (run_wakes-IsPaced ws Phase.stopped ts n)
        (omega arith) (omega arith)
  run_wakes-IsPaced (Wake.tick ∷ ws) (Phase.pausing b) ts n =
      stays (Phase.pausing b) ts n Wake.tick ws (Phase.pausing true)
        (run_wakes-IsPaced ws (Phase.pausing true) ts n) (omega arith) (omega arith)
  run_wakes-IsPaced (Wake.elapsed ∷ ws) (Phase.pausing false) ts n =
      stays (Phase.pausing false) ts n Wake.elapsed ws Phase.waiting
        (run_wakes-IsPaced ws Phase.waiting ts n) (omega arith) (omega arith)
  run_wakes-IsPaced (Wake.elapsed ∷ ws) (Phase.pausing true) ts n =
      disconnects (Phase.pausing true) ts n Wake.elapsed ws (run_wakes-IsPaced ws _ _ _)
        (omega arith) (omega arith)
  run_wakes-IsPaced (Wake.done ∷ ws) (Phase.pausing b) ts n =
      stays (Phase.pausing b) ts n Wake.done ws Phase.stopped
        (run_wakes-IsPaced ws Phase.stopped ts n) (omega arith) (omega arith)

  -- Whatever wakes Run: it has called DisconnectConsumers of every target exactly as often as it has raised
  -- ForcedDisconnectsTotal, which is at most once for each tick, and at most once more than its pauses
  -- have ended.
  pub disconnects_paced :
      (interval : ℤ) (ts : List (BaseWorker Hist)) (n : ℕ) (ws : List Wake)
      → let m = run interval ts n ws in
        (n ≤ m.forced_disconnects)
        × (m.targets ≡ disconnected (m.forced_disconnects - n) ts)
        × (m.forced_disconnects ≤ n + count is_tick ws)
        × (m.forced_disconnects ≤ n + count is_elapsed ws + 1)
  unfolding run
  disconnects_paced interval ts n ws =
      let (grown, targets, paused, ticked) = run_wakes-IsPaced ws Phase.waiting ts n in
      elim (Bool-cases (eqb_ℤ interval (pos 0))) [
        | inl off ↦ rw off (omega arith, rw (sub_self n) refl, omega arith, omega arith)
        | inr on ↦ rw on (grown, targets, omega (arith, ticked), omega (arith, paused))
      ]
