-- ===== src/Worker/Seek.antt =====
-- burnin/worker/seek_snapshot.go: the sizes of a round, its drains and the check of the replay. A pull
-- with what became of it is an event; uint64(float64(n)*0.5/100) is the parameter `slack`.
pub mod Drain
pub mod Round
pub mod Failed
use kubemq_gcp_pub_sub.Base.{
  ℕ, ◌+◌, ◌-◌, ◌/◌, ◌||◌, String, Bool, true, false, not, ◌&&◌, Option, none, some, List, [], ◌∷◌,
  length, ltb, leb, if◌then◌else◌,
}
use kubemq_gcp_pub_sub.Base.Words.{add64, sub64}
use kubemq_gcp_pub_sub.Base.Int.{ℤ, pos, negsuc, ltb_ℤ}
use kubemq_gcp_pub_sub.Base.Assoc.{eqs}
use kubemq_gcp_pub_sub.Base.Codec.{Codec}
use kubemq_gcp_pub_sub.Config.{GcpConfig}
use kubemq_gcp_pub_sub.Worker.{
  Histogram, BaseWorker, record_received, record_acked, record_error, record_tracked,
  record_seek_replay_expected, record_seek_replay_observed, record_seek_replay_mismatch,
}
use kubemq_gcp_pub_sub.Worker.Attrs.{extract_meta}
use kubemq_gcp_pub_sub.Worker.Handling.{Message, check_body, time_message}
use kubemq_gcp_pub_sub.Worker.Publishing.{PublishResult, count_publish}

abbrev pub drain_quiescent_polls : ℕ
drain_quiescent_polls = 5

unfoldable pub replay_count : {Float : Type 0} → GcpConfig Float → ℤ
replay_count gcp = if ltb_ℤ gcp.seek_replay_count (pos 1) then pos 1 else gcp.seek_replay_count

-- A tenth of a replay count; Go's division rounds to 0, and the count is at least 1.
abbrev pub tenth : ℤ → ℤ
tenth (pos n) = pos (n / 10)
tenth (negsuc n) = negsuc n

unfoldable pub baseline_count : {Float : Type 0} → GcpConfig Float → ℤ
baseline_count gcp = let n = tenth (replay_count gcp) in if ltb_ℤ n (pos 5) then pos 5 else n

-- What became of the ack of a batch.
pub data AckEnd : Type 0 where
  acknowledged refused cut_off : AckEnd

-- The context ended, the pull failed, or it gave messages, which are acked at once.
pub data Pull : Type 0 where
  cancelled failed : Pull
  pulled : List Message → AckEnd → Pull

-- The messages drained, whether an error is returned, and the worker.
pub record DrainResult (Hist : Type 0) : Type 0 where
  pub got : ℕ
  pub erred : Bool
  pub base : BaseWorker Hist

module _ {Hist : Type 0} where
  unfoldable pub assert_replay_count : (ℕ → ℕ) → ℕ → ℕ → BaseWorker Hist → BaseWorker Hist
  assert_replay_count slack expected observed w =
      let tol = add64 (slack expected) 2 in
      let diff = if leb expected observed then observed - expected else expected - observed in
      if ltb tol diff then record_seek_replay_mismatch w else w

  -- The end of runRound.
  unfoldable pub count_replay : (ℕ → ℕ) → ℕ → ℕ → BaseWorker Hist → BaseWorker Hist
  count_replay slack replay observed w =
      assert_replay_count slack replay observed
        (record_seek_replay_observed observed (record_seek_replay_expected replay w))

  unfoldable pub publish_one : PublishResult → BaseWorker Hist → Bool × BaseWorker Hist
  publish_one PublishResult.published w = (true, count_publish PublishResult.published w)
  publish_one PublishResult.failed w = (false, count_publish PublishResult.failed w)
  publish_one PublishResult.cancelled w = (false, w)

  -- One ack for each message of the batch.
  unfoldable pub count_acks : List Message → BaseWorker Hist → BaseWorker Hist
  count_acks [] w = w
  count_acks (msg ∷ msgs) w = count_acks msgs (record_acked w)

  -- Whether the ack succeeded.
  unfoldable pub ack_batch : AckEnd → List Message → BaseWorker Hist → Bool × BaseWorker Hist
  ack_batch AckEnd.acknowledged msgs w = (true, count_acks msgs w)
  ack_batch AckEnd.refused msgs w = (false, record_error w)
  ack_batch AckEnd.cut_off msgs w = (false, w)

-- Whether the loop condition ends drainAck; drainReplay has no bound, for which `want` is none.
abbrev pub is_enough : Option ℕ → ℕ → Bool
is_enough none got = false
is_enough (some want) got = leb want got

module _ (C : Codec) (H : Histogram) (age : ℤ → ℕ) (expected_producer : String) where
  -- A message of another round is received but not tracked.
  unfoldable pub consume_received : Message → BaseWorker H.State → BaseWorker H.State
  consume_received msg w =
      let m = extract_meta C msg.attributes in
      let received = record_received w in
      let checked = time_message C H age m.sent_at (check_body C H age msg.body m received) in
      let tracked = (record_tracked m.producer_id m.seq checked).1 in
      if not m.ok
      then received
      else if eqs m.producer_id expected_producer
      then tracked
      else checked

  unfoldable pub consume_all : List Message → BaseWorker H.State → BaseWorker H.State
  consume_all [] w = w
  consume_all (msg ∷ msgs) w = consume_all msgs (consume_received msg w)

  -- The loops of drainAck and drainReplay. The result is none where the pulls run out before the
  -- loop has ended.
  unfoldable pub drain :
      Option ℕ → List Pull → ℕ → ℕ → BaseWorker H.State → Option (DrainResult H.State)
  drain want [] got empty_polls w =
      if is_enough want got then some (record { got = got; erred = false; base = w }) else none
  drain want (Pull.cancelled ∷ pulls) got empty_polls w =
      some (record { got = got; erred = not (is_enough want got); base = w })
  drain want (Pull.failed ∷ pulls) got empty_polls w = some (
      if is_enough want got
      then record { got = got; erred = false; base = w }
      else record { got = got; erred = true; base = record_error w })
  drain want (Pull.pulled [] end ∷ pulls) got empty_polls w =
      let rest = drain want pulls got (empty_polls + 1) w in
      if is_enough want got || ltb drain_quiescent_polls (empty_polls + 1)
      then some (record { got = got; erred = false; base = w })
      else rest
  drain want (Pull.pulled (msg ∷ msgs) end ∷ pulls) got empty_polls w =
      let all_got = add64 got (length (msg ∷ msgs)) in
      let (acked, next) = ack_batch end (msg ∷ msgs) (consume_all (msg ∷ msgs) w) in
      let rest = drain want pulls all_got 0 next in
      if is_enough want got
      then some (record { got = got; erred = false; base = w })
      else if acked
      then rest
      else some (record { got = all_got; erred = true; base = next })
