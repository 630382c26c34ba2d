-- ===== src/Worker/Publishing/Numbers.antt =====
-- burnin/worker: the numbers that the producers of a worker give to the messages of a run.
use kubemq_gcp_pub_sub.Base.{
  ℕ, zero, suc, ◌+◌, ◌<◌, ◌≤◌, ◌^◌, ◌≡◌, ◌⊎◌, refl, ap, String, Option, none, some, List, [], ◌∷◌,
  length, ◌==◌, if◌then◌else◌, arith,
}
use kubemq_gcp_pub_sub.Base.Words.{add64}
use kubemq_gcp_pub_sub.Worker.Publishing.{
  PublishResult, Publisher, FilteringPublisher, take_number, publish_taken, picked, drop_place,
  produce_filtered, accept, advance_match,
}

-- A step of one of the producers of a worker.
pub data Step : Type 0 where
  takes : String → Step
  ends : ℕ → PublishResult → Step

-- How many of the messages carry a number.
abbrev pub copies : ℕ → List (String × ℕ) → ℕ
copies n [] = 0
copies n ((_, m) ∷ ms) = (if m == n then 1 else 0) + copies n ms

-- n down to 1.
abbrev pub countdown : ℕ → List ℕ
countdown zero = []
countdown (suc n) = suc n ∷ countdown n

add64_one : (n : ℕ) → n + 1 < 2 ^ 64 → add64 n 1 ≡ suc n
add64_one n h = omega arith

countdown_next : (n : ℕ) → n + 1 < 2 ^ 64 → countdown (add64 n 1) ≡ add64 n 1 ∷ countdown n
countdown_next n h = cc (add64_one n h, ap countdown (add64_one n h))

copies-picked :
    (n place : ℕ) (ms : List (String × ℕ)) {m : String × ℕ}
    → picked place ms ≡ some m
    → copies n ms ≡ copies n (m ∷ drop_place place ms)
unfolding picked drop_place
copies-picked n place [] h = cc
copies-picked n zero (x ∷ ms) h = grind arith
copies-picked n (suc place) (x ∷ ms) h = omega (arith, copies-picked n place ms h)

copies-accept :
    (n : ℕ) (r : PublishResult) (m : String × ℕ) (ms : List (String × ℕ))
    → copies n (accept r m ms) ≤ copies n (m ∷ ms)
unfolding accept
copies-accept n PublishResult.published m ms = omega arith
copies-accept n PublishResult.failed m ms = omega arith
copies-accept n PublishResult.cancelled m ms = omega arith

module _ {Hist : Type 0} where
  unfoldable pub step : Step → Publisher Hist → Publisher Hist
  step (Step.takes id) p = take_number id p
  step (Step.ends place r) p = publish_taken place r p

  unfoldable pub steps : List Step → Publisher Hist → Publisher Hist
  steps [] p = p
  steps (s ∷ ss) p = steps ss (step s p)

  abbrev copies_of : ℕ → Publisher Hist → ℕ
  copies_of n p = copies n p.in_flight + copies n p.topic

  -- A number is there once at most, and only if it has been taken after `low`.
  abbrev IsNumbered : ℕ → Publisher Hist → Type 0
  IsNumbered low p =
      (n : ℕ)
      → (copies_of n p ≤ 1) × (n ≤ low → copies_of n p ≡ 0) × (p.seq < n → copies_of n p ≡ 0)

  takes-IsNumbered :
      (id : String) (p : Publisher Hist) (low : ℕ)
      → p.seq + 1 < 2 ^ 64
      → low ≤ p.seq
      → IsNumbered low p
      → IsNumbered low (take_number id p)
  unfolding take_number
  takes-IsNumbered id p low h k v n = ground (arith, v n)

  take_seq :
      (id : String) (p : Publisher Hist) → p.seq + 1 < 2 ^ 64 → (take_number id p).seq ≡ p.seq + 1
  unfolding take_number
  take_seq id p h = omega arith

  publish_copies :
      (place : ℕ) (r : PublishResult) (p : Publisher Hist) (n : ℕ)
      → (copies_of n (publish_taken place r p) ≤ copies_of n p)
        × ((publish_taken place r p).seq ≡ p.seq)
  unfolding publish_taken
  publish_copies place r p n = go (picked place p.in_flight) refl
    where
      go :
          (found : Option (String × ℕ))
          → picked place p.in_flight ≡ found
          → (copies_of n (publish_taken place r p) ≤ copies_of n p)
            × ((publish_taken place r p).seq ≡ p.seq)
      go none e = rw (publish_taken, e) (omega arith, refl)
      go (some m) e =
          rw (publish_taken, e)
            (omega (arith, copies-picked n place p.in_flight e, copies-accept n r m p.topic), refl)

  step-IsNumbered :
      (s : Step) (p : Publisher Hist) (low : ℕ)
      → p.seq + 1 < 2 ^ 64
      → low ≤ p.seq
      → IsNumbered low p
      → IsNumbered low (step s p) × (p.seq ≤ (step s p).seq) × ((step s p).seq ≤ p.seq + 1)
  unfolding step
  step-IsNumbered (Step.takes id) p low h k v = (
    takes-IsNumbered id p low h k v,
    omega (arith, take_seq id p h),
    omega (arith, take_seq id p h),
  )
  step-IsNumbered (Step.ends place r) p low h k v = (
    λ n.
        let (fewer, same) = publish_copies place r p n in
        let (once, after, before) = v n in
        (
          omega (arith, fewer, once),
          λ h. omega (arith, fewer, after h),
          λ h. omega (arith, fewer, before (omega (arith, same, h))),
        ),
    omega (arith, (publish_copies place r p 0).1),
    omega (arith, (publish_copies place r p 0).1),
  )

  steps-IsNumbered :
      (ss : List Step) (p : Publisher Hist) (low : ℕ)
      → p.seq + length ss < 2 ^ 64
      → low ≤ p.seq
      → IsNumbered low p
      → IsNumbered low (steps ss p)
  unfolding steps
  steps-IsNumbered [] p low h k v = v
  steps-IsNumbered (s ∷ ss) p low h k v =
      let (v', up, bound) = step-IsNumbered s p low (omega arith) k v in
      steps-IsNumbered ss (step s p) low (omega (arith, bound)) (omega (arith, up)) v'

  -- While the counter cannot wrap, from a worker with nothing in flight or published, whatever publishes
  -- succeed, fail or are cut off, and however the producers overtake each other between taking a number
  -- and publishing it: no two messages, published or in flight, carry the same number, and no message
  -- carries a number that the counter had passed before the run or has not reached after it.
  pub steps-numbered_once :
      (ss : List Step) (p : Publisher Hist) (n : ℕ)
      → p.seq + length ss < 2 ^ 64
      → p.in_flight ≡ []
      → p.topic ≡ []
      → let p' = steps ss p in
        let found = copies n p'.in_flight + copies n p'.topic in
        (found ≡ 0) ⊎ ((found ≡ 1) × (p.seq < n) × (n ≤ p'.seq))
  steps-numbered_once ss p n h idle empty =
      let start : IsNumbered p.seq p = λ m. rw (idle, empty) (omega arith, λ h. refl, λ h. refl) in
      let (once, after, before) = steps-IsNumbered ss p p.seq h (omega arith) start n in
      ground (arith, once, after, before)

  unfoldable pub produce_filtered_run :
      List PublishResult → FilteringPublisher Hist → FilteringPublisher Hist
  produce_filtered_run [] p = p
  produce_filtered_run (r ∷ rs) p = produce_filtered_run rs (produce_filtered r p)

  contiguous_step :
      (r : PublishResult) (p : FilteringPublisher Hist)
      → p.match_seq + 1 < 2 ^ 64
      → p.matching ≡ countdown p.match_seq
      → ((produce_filtered r p).matching ≡ countdown (produce_filtered r p).match_seq)
        × ((produce_filtered r p).match_seq ≤ p.match_seq + 1)
  unfolding produce_filtered accept advance_match
  contiguous_step PublishResult.published p h same =
      ground (arith, same, countdown_next p.match_seq h)
  contiguous_step PublishResult.failed p h same = ground (arith, same)
  contiguous_step PublishResult.cancelled p h same = ground (arith, same)

  -- Whatever publishes fail, the matching messages of a producer of filtering carry exactly the
  -- numbers from 1 up to its matchSeq, in order and without a gap.
  pub produce_filtered_run_lem :
      (rs : List PublishResult) (p : FilteringPublisher Hist)
      → p.match_seq + length rs < 2 ^ 64
      → p.matching ≡ countdown p.match_seq
      → (produce_filtered_run rs p).matching ≡ countdown (produce_filtered_run rs p).match_seq
  unfolding produce_filtered_run
  produce_filtered_run_lem [] p h same = same
  produce_filtered_run_lem (r ∷ rs) p h same =
      let (next, bound) = contiguous_step r p (omega arith) same in
      produce_filtered_run_lem rs (produce_filtered r p) (omega (arith, bound)) next
