-- ===== src/Worker/Seek/Round.antt =====
-- burnin/worker/seek_snapshot.go: runRound, from the baseline to the count of the replay. The results
-- of the publishes, the pulls of each drain, and whether the cursor and the seek succeeded are given.
use kubemq_gcp_pub_sub.Base.{
  ℕ, String, Bool, true, false, not, Option, none, some, List, [], ◌∷◌, length, ◌||◌, if◌then◌else◌,
}
use kubemq_gcp_pub_sub.Base.Int.{ℤ}
use kubemq_gcp_pub_sub.Base.Codec.{Codec}
use kubemq_gcp_pub_sub.Worker.{Histogram, BaseWorker}
use kubemq_gcp_pub_sub.Worker.Publishing.{PublishResult}
use kubemq_gcp_pub_sub.Worker.Seek.{Pull, DrainResult, drain, publish_one, count_replay}

pub record RoundCalls : Type 0 where
  pub baseline : List PublishResult
  pub baseline_pulls : List Pull
  pub cursor_ok : Bool  -- the snapshot was created, or the beat before the replay set was not cut off
  pub replay : List PublishResult
  pub replay_set_pulls : List Pull
  pub seek_ok : Bool
  pub replay_pulls : List Pull

-- Whether an error is returned, and the worker.
abbrev pub RoundResult : Type 0 → Type 0
RoundResult Hist = Bool × BaseWorker Hist

module _ {Hist : Type 0} where
  -- The loop of publishes ends at the first that fails; the first result is whether none did.
  unfoldable pub publish_all : List PublishResult → BaseWorker Hist → Bool × BaseWorker Hist
  publish_all [] w = (true, w)
  publish_all (r ∷ rs) w =
      let (published, next) = publish_one r w in
      let rest = publish_all rs next in if published then rest else (false, next)

module _ (C : Codec) (H : Histogram) (age : ℤ → ℕ) (slack : ℕ → ℕ) (producer : String) where
  unfoldable pub end_round : ℕ → Option (DrainResult H.State) → Option (RoundResult H.State)
  end_round replay none = none
  end_round replay (some d) =
      some (if d.erred then (true, d.base) else (false, count_replay slack replay d.got d.base))

  unfoldable pub seek_phase :
      RoundCalls → Option (DrainResult H.State) → Option (RoundResult H.State)
  seek_phase c none = none
  seek_phase c (some d) =
      let replayed = drain C H age producer none c.replay_pulls 0 0 d.base in
      if d.erred || not c.seek_ok then some (true, d.base) else end_round (length c.replay) replayed

  unfoldable pub replay_phase :
      RoundCalls → Option (DrainResult H.State) → Option (RoundResult H.State)
  replay_phase c none = none
  replay_phase c (some d) =
      let (published, sent) = publish_all c.replay d.base in
      let drained = drain C H age producer (some (length c.replay)) c.replay_set_pulls 0 0 sent in
      if d.erred || not c.cursor_ok
      then some (true, d.base)
      else if not published
      then some (true, sent)
      else seek_phase c drained

  unfoldable pub run_round : RoundCalls → BaseWorker H.State → Option (RoundResult H.State)
  run_round c w =
      let (published, sent) = publish_all c.baseline w in
      let drained = drain C H age producer (some (length c.baseline)) c.baseline_pulls 0 0 sent in
      if not published then some (true, sent) else replay_phase c drained
