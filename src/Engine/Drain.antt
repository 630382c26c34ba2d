-- ===== src/Engine/Drain.antt =====
-- burnin/engine/engine.go: drainToQuiescence and totalReceived. The clock and the total at each poll
-- are parameters, functions of the number of polls so far; times are in nanoseconds. The gaps that are
-- detected between two polls go to a metric.
use kubemq_gcp_pub_sub.Base.{
  ℕ, zero, suc, ◌+◌, ◌-◌, ◌*◌, ◌≤◌, ◌<◌, ◌≡◌, ◌∙◌, sym, ap, String, true, false, List, [], ◌∷◌,
  Option, none, some, ltb, leb, ◌==◌, arith, if◌then◌else◌, Bool-cases, inl, inr,
}
use kubemq_gcp_pub_sub.Base.Words.{add64}
use kubemq_gcp_pub_sub.Base.Int.{ℤ, pos, pos_part, leb_ℤ}
use kubemq_gcp_pub_sub.Worker.{BaseWorker}

abbrev pub poll_interval : ℕ
poll_interval = 250000000

abbrev pub stable_polls : ℕ
stable_polls = 4

module _ {Hist : Type 0} where
  unfoldable pub received_by : List (BaseWorker Hist) → ℕ → ℕ
  received_by [] total = total
  received_by (w ∷ ws) total = received_by ws (add64 total w.received)

  unfoldable pub received_of : List (String × List (BaseWorker Hist)) → ℕ → ℕ
  received_of [] total = total
  received_of ((name, ws) ∷ groups) total = received_of groups (received_by ws total)

  unfoldable pub total_received : List (String × List (BaseWorker Hist)) → ℕ
  total_received groups = received_of groups 0

-- How the drain ended, and after how many polls.
pub data Outcome : Type 0 where
  quiescent deadline_passed : ℕ → Outcome

module _ (clock total : ℕ → ℕ) where
  -- After k polls; a total that has changed starts the count of stable polls anew.
  unfoldable pub drain_loop : ℕ → ℕ → ℕ → ℕ → ℕ → Option Outcome
  drain_loop zero deadline k prev stable = none
  drain_loop (suc fuel) deadline k prev stable =
      let cur = total (suc k) in
      let stable' = if cur == prev then stable + 1 else 0 in
      let rest = drain_loop fuel deadline (suc k) cur stable' in
      if ltb (clock k) deadline
      then if leb stable_polls stable' then some (Outcome.quiescent (suc k)) else rest
      else some (Outcome.deadline_passed k)

  unfoldable pub drain_to_quiescence : ℕ → ℤ → Option Outcome
  drain_to_quiescence fuel max_wait =
      let wait = if leb_ℤ max_wait (pos 0) then 1000000000 else pos_part max_wait in
      drain_loop fuel (clock 0 + wait) 0 (total 0) 0

  -- The totals of the last s + 1 polls up to the k-th are the same.
  pub record IsSettled (s k : ℕ) : Type 0 where
    pub enough : s ≤ k
    pub same : (j : ℕ) → j ≤ s → total (k - j) ≡ total k

  abbrev pub IsDrained : ℕ → Outcome → Type 0
  IsDrained deadline (Outcome.quiescent m) = IsSettled stable_polls m × (clock (m - 1) < deadline)
  IsDrained deadline (Outcome.deadline_passed m) = deadline ≤ clock m

  IsSettled-none : (k : ℕ) → IsSettled 0 k
  IsSettled-none k = record { enough = omega arith; same = λ j h. ap total (omega arith) }

  IsSettled-more : (s k : ℕ) → total (suc k) ≡ total k → IsSettled s k → IsSettled (s + 1) (suc k)
  IsSettled-more s k h settled = record {
    enough = omega (arith, settled.enough);
    same = λ j b.
        elim j as (λ i. i ≤ s + 1 → total (suc k - i) ≡ total (suc k)) [
          | zero ↦ λ c. ap total (omega arith)
          | suc i ↦ λ c. ap total (omega arith) ∙ settled.same i (omega arith) ∙ sym h
        ]
          b;
  }

  module _ (tick : (k : ℕ) → clock k + poll_interval ≤ clock (suc k)) (deadline : ℕ) where
    abbrev Drains : ℕ → ℕ → ℕ → Type 0
    Drains fuel k stable =
        (o : Outcome) × (drain_loop fuel deadline k (total k) stable ≡ some o)
        × IsDrained deadline o

    past_deadline :
        (fuel k stable : ℕ) → ltb (clock k) deadline ≡ false → Drains (suc fuel) k stable
    unfolding drain_loop
    past_deadline fuel k stable late =
        (Outcome.deadline_passed k, ground (arith, late), ground (arith, late))

    -- One poll before the deadline, given how the rest ends.
    poll_once :
        (fuel k stable : ℕ)
        → ltb (clock k) deadline ≡ true
        → IsSettled stable k
        → stable < stable_polls
        → ((s : ℕ) → IsSettled s (suc k) → s < stable_polls → Drains fuel (suc k) s)
        → Drains (suc fuel) k stable
    unfolding drain_loop
    poll_once fuel k stable early settled few next = elim (Bool-cases (total (suc k) == total k)) [
      | inr changed ↦
          let (o, ends, good) = next 0 (IsSettled-none (suc k)) (omega arith) in
          (o, ground (arith, early, changed, ends), good)
      | inl unchanged ↦
          let more = IsSettled-more stable k (ground (arith, unchanged)) settled in
          elim (Bool-cases (leb stable_polls (stable + 1))) [
            | inl full ↦ (
              Outcome.quiescent (suc k),
              ground (arith, early, unchanged, full),
              (
                record {
                  enough = ground (arith, full, more.enough);
                  same = λ j b. more.same j (ground (arith, full));
                },
                let back : suc k - 1 ≡ k = omega arith in rw back (ground (arith, early)),
              ),
            )
            | inr open_still ↦
                let (o, ends, good) = next (stable + 1) more (ground (arith, open_still)) in
                (o, ground (arith, early, unchanged, open_still, ends), good)
          ]
    ]

    drain_loop_lem :
        (fuel k stable : ℕ)
        → IsSettled stable k
        → stable < stable_polls
        → deadline ≤ clock k + fuel * poll_interval
        → Drains (suc fuel) k stable
    drain_loop_lem zero k stable settled few enough = past_deadline zero k stable (ground arith)
    drain_loop_lem (suc fuel) k stable settled few enough =
        elim (Bool-cases (ltb (clock k) deadline)) [
          | inr late ↦ past_deadline (suc fuel) k stable late
          | inl early ↦
              poll_once (suc fuel) k stable early settled few
                (λ s h b. drain_loop_lem fuel (suc k) s h b (omega (arith, tick k, enough)))
        ]

  -- If every poll takes at least the poll interval, and maxWait is at most a number of intervals that is four
  -- or more, then the drain ends after at most one poll more than that: either with the deadline passed,
  -- or with a total that was the same at the last five readings, the poll before the last of them begun
  -- before the deadline. Without a maxWait the deadline is one second after the start.
  pub drain_to_quiescence_lem :
      (tick : (k : ℕ) → clock k + poll_interval ≤ clock (suc k)) (fuel : ℕ) (max_wait : ℤ)
      → pos_part max_wait ≤ fuel * poll_interval
      → stable_polls ≤ fuel
      → (o : Outcome) × (drain_to_quiescence (suc fuel) max_wait ≡ some o)
        × IsDrained (clock 0 + (if leb_ℤ max_wait (pos 0) then 1000000000 else pos_part max_wait)) o
  unfolding drain_to_quiescence
  drain_to_quiescence_lem tick fuel max_wait enough some_polls =
      drain_loop_lem tick _ fuel 0 0 (IsSettled-none 0) (omega arith) (ground (arith, enough))
