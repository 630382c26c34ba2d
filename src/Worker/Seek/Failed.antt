-- ===== src/Worker/Seek/Failed.antt =====
-- burnin/worker/seek_snapshot.go: the counters of the replay through a round.
use kubemq_gcp_pub_sub.Base.{
  ℕ, ◌≡◌, ◌∙◌, refl, String, Bool, true, false, Option, none, some, List, [], ◌∷◌, length, ◌||◌,
  ltb, ◌+◌, arith, if◌then◌else◌, Bool-cases, inl, inr, not,
}
use kubemq_gcp_pub_sub.Base.Words.{add64}
use kubemq_gcp_pub_sub.Base.Int.{ℤ}
use kubemq_gcp_pub_sub.Base.Assoc.{eqs}
use kubemq_gcp_pub_sub.Base.Codec.{Codec}
use kubemq_gcp_pub_sub.Worker.{
  Histogram, BaseWorker, record_received, record_acked, record_error, record_tracked,
  record_duplicated, record_corrupted, record_latency, record_sent,
}
use kubemq_gcp_pub_sub.Worker.Attrs.{Meta, extract_meta}
use kubemq_gcp_pub_sub.Worker.Handling.{Message, check_body, time_message}
use kubemq_gcp_pub_sub.Worker.Publishing.{PublishResult, count_publish}
use kubemq_gcp_pub_sub.Worker.Seek.{
  Pull, AckEnd, DrainResult, drain, publish_one, ack_batch, count_acks, consume_received,
  consume_all, drain_quiescent_polls, is_enough, count_replay,
}
use kubemq_gcp_pub_sub.Worker.Seek.Round.{
  RoundCalls, RoundResult, publish_all, end_round, seek_phase, replay_phase, run_round,
}

-- The counters of the replay are the same.
pub record IsSameReplay {Hist : Type 0} (v w : BaseWorker Hist) : Type 0 where
  pub expected : v.seek_replay_expected ≡ w.seek_replay_expected
  pub observed : v.seek_replay_observed ≡ w.seek_replay_observed
  pub mismatch : v.seek_replay_mismatch ≡ w.seek_replay_mismatch

module _ {Hist : Type 0} where
  same : (w : BaseWorker Hist) → IsSameReplay w w
  same w = record { expected = refl; observed = refl; mismatch = refl }

  then_same : {u v w : BaseWorker Hist} → IsSameReplay u v → IsSameReplay v w → IsSameReplay u w
  then_same h k = record {
    expected = h.expected ∙ k.expected;
    observed = h.observed ∙ k.observed;
    mismatch = h.mismatch ∙ k.mismatch;
  }

  if-same :
      (b : Bool) (u v w : BaseWorker Hist)
      → IsSameReplay u w
      → IsSameReplay v w
      → IsSameReplay (if b then u else v) w
  if-same true u v w h k = h
  if-same false u v w h k = k

  publish_one-same : (r : PublishResult) (w : BaseWorker Hist) → IsSameReplay (publish_one r w).1 w
  unfolding publish_one count_publish record_sent record_error
  publish_one-same PublishResult.published w = record {
    expected = refl;
    observed = refl;
    mismatch = refl;
  }
  publish_one-same PublishResult.failed w = record {
    expected = refl;
    observed = refl;
    mismatch = refl;
  }
  publish_one-same PublishResult.cancelled w = same w

  publish_all-same :
      (rs : List PublishResult) (w : BaseWorker Hist) → IsSameReplay (publish_all rs w).1 w
  unfolding publish_all
  publish_all-same [] w = same w
  publish_all-same (r ∷ rs) w =
      let here = publish_one-same r w in
      let rest = then_same (publish_all-same rs (publish_one r w).1) here in
      elim (Bool-cases (publish_one r w).0) [
        | inl go ↦ record {
          expected = ground (arith, go, rest.expected);
          observed = ground (arith, go, rest.observed);
          mismatch = ground (arith, go, rest.mismatch);
        }
        | inr stop ↦ record {
          expected = ground (arith, stop, here.expected);
          observed = ground (arith, stop, here.observed);
          mismatch = ground (arith, stop, here.mismatch);
        }
      ]

  count_acks-same : (msgs : List Message) (w : BaseWorker Hist) → IsSameReplay (count_acks msgs w) w
  unfolding count_acks record_acked
  count_acks-same [] w = same w
  count_acks-same (msg ∷ msgs) w =
      then_same (count_acks-same msgs (record_acked w))
        (record { expected = refl; observed = refl; mismatch = refl })

  ack_batch-same :
      (end : AckEnd) (msgs : List Message) (w : BaseWorker Hist)
      → IsSameReplay (ack_batch end msgs w).1 w
  unfolding ack_batch record_error
  ack_batch-same AckEnd.acknowledged msgs w = count_acks-same msgs w
  ack_batch-same AckEnd.refused msgs w = record {
    expected = refl;
    observed = refl;
    mismatch = refl;
  }
  ack_batch-same AckEnd.cut_off msgs w = same w

module _ (C : Codec) (H : Histogram) (age : ℤ → ℕ) (slack : ℕ → ℕ) (producer : String) where
  time_message-same :
      (t : Option ℤ) (w : BaseWorker H.State) → IsSameReplay (time_message C H age t w) w
  unfolding time_message record_latency
  time_message-same none w = same w
  time_message-same (some t) w = record { expected = refl; observed = refl; mismatch = refl }

  check_body-same :
      (body : String) (m : Meta) (w : BaseWorker H.State)
      → IsSameReplay (check_body C H age body m w) w
  unfolding check_body record_corrupted
  check_body-same body m w = record {
    expected = ground arith;
    observed = ground arith;
    mismatch = ground arith;
  }

  record_tracked-same :
      (id : String) (seq : ℕ) (w : BaseWorker H.State) → IsSameReplay (record_tracked id seq w).1 w
  unfolding record_tracked record_duplicated
  record_tracked-same id seq w = record {
    expected = ground arith;
    observed = ground arith;
    mismatch = ground arith;
  }

  consume_received-same :
      (msg : Message) (w : BaseWorker H.State)
      → IsSameReplay (consume_received C H age producer msg w) w
  unfolding consume_received record_received
  consume_received-same msg w =
      let m = extract_meta C msg.attributes in
      let received : IsSameReplay (record_received w) w = record {
        expected = refl;
        observed = refl;
        mismatch = refl;
      } in
      let checked = check_body-same msg.body m (record_received w) in
      let timed = then_same (then_same (time_message-same m.sent_at _) checked) received in
      let checked_worker =
        time_message C H age m.sent_at (check_body C H age msg.body m (record_received w)) in
      let tracked = (record_tracked m.producer_id m.seq checked_worker).1 in
      if-same (not m.ok) (record_received w)
        (if eqs m.producer_id producer then tracked else checked_worker) w received
        (if-same (eqs m.producer_id producer) tracked checked_worker w
          (then_same (record_tracked-same m.producer_id m.seq checked_worker) timed) timed)

  consume_all-same :
      (msgs : List Message) (w : BaseWorker H.State)
      → IsSameReplay (consume_all C H age producer msgs w) w
  unfolding consume_all
  consume_all-same [] w = same w
  consume_all-same (msg ∷ msgs) w =
      then_same (consume_all-same msgs _) (consume_received-same msg w)

  abbrev IsQuiet : BaseWorker H.State → Option (DrainResult H.State) → Type 0
  IsQuiet w none = Unit
  IsQuiet w (some r) = IsSameReplay r.base w

  if-IsQuiet :
      (b : Bool) (x y : Option (DrainResult H.State)) (w : BaseWorker H.State)
      → IsQuiet w x
      → IsQuiet w y
      → IsQuiet w (if b then x else y)
  if-IsQuiet true x y w h k = h
  if-IsQuiet false x y w h k = k

  IsQuiet-from :
      (o : Option (DrainResult H.State)) (v w : BaseWorker H.State)
      → IsQuiet v o
      → IsSameReplay v w
      → IsQuiet w o
  IsQuiet-from none v w h k = tt
  IsQuiet-from (some r) v w h k = then_same h k

  abbrev done : ℕ → BaseWorker H.State → Option (DrainResult H.State)
  done got w = some (record { got = got; erred = false; base = w })

  drain-IsQuiet :
      (want : Option ℕ) (pulls : List Pull) (got empties : ℕ) (w : BaseWorker H.State)
      → IsQuiet w (drain C H age producer want pulls got empties w)
  unfolding drain record_error
  drain-IsQuiet want [] got empties w =
      if-IsQuiet (is_enough want got) (done got w) none w (same w) tt
  drain-IsQuiet want (Pull.cancelled ∷ pulls) got empties w = same w
  drain-IsQuiet want (Pull.failed ∷ pulls) got empties w = record {
    expected = ground arith;
    observed = ground arith;
    mismatch = ground arith;
  }
  drain-IsQuiet want (Pull.pulled [] end ∷ pulls) got empties w =
      if-IsQuiet (is_enough want got || ltb drain_quiescent_polls (empties + 1)) (done got w)
        (drain C H age producer want pulls got (empties + 1) w) w (same w)
        (drain-IsQuiet want pulls got (empties + 1) w)
  drain-IsQuiet want (Pull.pulled (msg ∷ msgs) end ∷ pulls) got empties w =
      let next = ack_batch end (msg ∷ msgs) (consume_all C H age producer (msg ∷ msgs) w) in
      let kept = then_same (ack_batch-same end (msg ∷ msgs) _) (consume_all-same (msg ∷ msgs) w) in
      let all_got = add64 got (length (msg ∷ msgs)) in
      let rest = drain C H age producer want pulls all_got 0 next.1 in
      let refused = some (record { got = all_got; erred = true; base = next.1 }) in
      if-IsQuiet (is_enough want got) (done got w) (if next.0 then rest else refused) w (same w) (
        if-IsQuiet next.0 rest refused w
          (IsQuiet-from rest next.1 w (drain-IsQuiet want pulls all_got 0 next.1) kept) kept)

  -- A round that returns an error has left the counters of the replay alone.
  abbrev pub FailsQuietly : BaseWorker H.State → Option (RoundResult H.State) → Type 0
  FailsQuietly w none = Unit
  FailsQuietly w (some (true, v)) = IsSameReplay v w
  FailsQuietly w (some (false, v)) = Unit

  if-FailsQuietly :
      (b : Bool) (x y : Option (RoundResult H.State)) (w : BaseWorker H.State)
      → FailsQuietly w x
      → FailsQuietly w y
      → FailsQuietly w (if b then x else y)
  if-FailsQuietly true x y w h k = h
  if-FailsQuietly false x y w h k = k

  end_quiet :
      (erred : Bool) (u v w : BaseWorker H.State)
      → IsSameReplay u w
      → FailsQuietly w (some (if erred then (true, u) else (false, v)))
  end_quiet true u v w h = h
  end_quiet false u v w h = tt

  end_round-FailsQuietly :
      (replay : ℕ) (o : Option (DrainResult H.State)) (w : BaseWorker H.State)
      → IsQuiet w o
      → FailsQuietly w (end_round C H age slack producer replay o)
  unfolding end_round
  end_round-FailsQuietly replay none w h = tt
  end_round-FailsQuietly replay (some d) w h =
      end_quiet d.erred d.base (count_replay slack replay d.got d.base) w h

  seek_phase-FailsQuietly :
      (c : RoundCalls) (o : Option (DrainResult H.State)) (w : BaseWorker H.State)
      → IsQuiet w o
      → FailsQuietly w (seek_phase C H age slack producer c o)
  unfolding seek_phase
  seek_phase-FailsQuietly c none w h = tt
  seek_phase-FailsQuietly c (some d) w h =
      let replayed = drain C H age producer none c.replay_pulls 0 0 d.base in
      if-FailsQuietly (d.erred || not c.seek_ok) (some (true, d.base))
        (end_round C H age slack producer (length c.replay) replayed) w h
        (end_round-FailsQuietly (length c.replay) replayed w
          (IsQuiet-from replayed d.base w (drain-IsQuiet none c.replay_pulls 0 0 d.base) h))

  replay_phase-FailsQuietly :
      (c : RoundCalls) (o : Option (DrainResult H.State)) (w : BaseWorker H.State)
      → IsQuiet w o
      → FailsQuietly w (replay_phase C H age slack producer c o)
  unfolding replay_phase
  replay_phase-FailsQuietly c none w h = tt
  replay_phase-FailsQuietly c (some d) w h =
      let kept = then_same (publish_all-same c.replay d.base) h in
      let (published, sent) = publish_all c.replay d.base in
      let want = some (length c.replay) in
      let drained = drain C H age producer want c.replay_set_pulls 0 0 sent in
      let next = seek_phase C H age slack producer c drained in
      if-FailsQuietly (d.erred || not c.cursor_ok) (some (true, d.base))
        (if not published then some (true, sent) else next) w h
        (if-FailsQuietly (not published) (some (true, sent)) next w kept (
          seek_phase-FailsQuietly c drained w
            (IsQuiet-from drained sent w (drain-IsQuiet want c.replay_set_pulls 0 0 sent) kept)))

  -- Whatever goes wrong in a round, at a publish, a drain, the cursor or the seek: a round that returns
  -- an error has left the counts of expected, observed and mismatched replays as they were.
  pub run_round-FailsQuietly :
      (c : RoundCalls) (w : BaseWorker H.State)
      → FailsQuietly w (run_round C H age slack producer c w)
  unfolding run_round
  run_round-FailsQuietly c w =
      let kept = publish_all-same c.baseline w in
      let (published, sent) = publish_all c.baseline w in
      let want = some (length c.baseline) in
      let drained = drain C H age producer want c.baseline_pulls 0 0 sent in
      if-FailsQuietly (not published) (some (true, sent))
        (replay_phase C H age slack producer c drained) w kept
        (replay_phase-FailsQuietly c drained w
          (IsQuiet-from drained sent w (drain-IsQuiet want c.baseline_pulls 0 0 sent) kept))
