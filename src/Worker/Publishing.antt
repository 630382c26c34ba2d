-- ===== src/Worker/Publishing.antt =====
-- burnin/worker/streaming_pull.go, exactly_once.go, ordering_keys.go and filtering.go: one pass of
-- produceLoop past its rate limit. What the publish call returned is an event; the topic's messages
-- are kept, the last one first. The producers of a worker share the counter seq, and each of them can
-- be overtaken between taking a number and publishing it, which are two steps; ordering_keys and
-- filtering have a single producer, whose pass is one step.
pub mod Numbers
use kubemq_gcp_pub_sub.Base.{
  ℕ, zero, suc, ◌+◌, ◌%◌, String, Option, none, some, List, [], ◌∷◌, get_or, set, ◌==◌,
  if◌then◌else◌,
}
use kubemq_gcp_pub_sub.Base.Words.{add64}
use kubemq_gcp_pub_sub.Worker.{BaseWorker, record_sent, record_error}

-- PublishSync gave an id, an error, or an error because the context had ended.
pub data PublishResult : Type 0 where
  published failed cancelled : PublishResult

module _ {Hist : Type 0} where
  unfoldable pub count_publish : PublishResult → BaseWorker Hist → BaseWorker Hist
  count_publish PublishResult.published w = record_sent w
  count_publish PublishResult.failed w = record_error w
  count_publish PublishResult.cancelled w = w

unfoldable pub accept : {A : Type 0} → PublishResult → A → List A → List A
accept PublishResult.published m topic = m ∷ topic
accept PublishResult.failed m topic = topic
accept PublishResult.cancelled m topic = topic

unfoldable pub picked : {A : Type 0} → ℕ → List A → Option A
picked n [] = none
picked zero (x ∷ xs) = some x
picked (suc n) (x ∷ xs) = picked n xs

unfoldable pub drop_place : {A : Type 0} → ℕ → List A → List A
drop_place n [] = []
drop_place zero (x ∷ xs) = xs
drop_place (suc n) (x ∷ xs) = x ∷ drop_place n xs

-- in_flight holds what the producers have numbered and not yet published, the last one first.
pub record Publisher (Hist : Type 0) : Type 0 where
  pub seq : ℕ
  pub in_flight : List (String × ℕ)
  pub base : BaseWorker Hist
  pub topic : List (String × ℕ)

-- A message of ordering_keys: its key and the numbers seq and orderingSeq.
pub record OrderedMessage : Type 0 where
  pub key_index : ℕ
  pub seq : ℕ
  pub ordering_seq : ℕ

-- The locals of a producer of ordering_keys beside the worker's state.
pub record OrderedPublisher (Hist : Type 0) : Type 0 where
  pub seq : ℕ
  pub key_seq : List ℕ
  pub rr : ℕ
  pub base : BaseWorker Hist
  pub topic : List OrderedMessage

-- A producer of filtering, with the numbers of its messages that match and of those that do not.
pub record FilteringPublisher (Hist : Type 0) : Type 0 where
  pub match_seq : ℕ
  pub tick : ℕ
  pub non_match_seq : ℕ
  pub base : BaseWorker Hist
  pub matching : List ℕ
  pub non_matching : List ℕ

abbrev pub ordering_key_count : ℕ
ordering_key_count = 8

unfoldable pub advance_match : PublishResult → ℕ → ℕ
advance_match PublishResult.published n = add64 n 1
advance_match PublishResult.failed n = n
advance_match PublishResult.cancelled n = n

module _ {Hist : Type 0} where
  -- seq.Add of a producer: the number is taken before the call, so a failed publish uses it up.
  unfoldable pub take_number : String → Publisher Hist → Publisher Hist
  take_number producer_id p =
      let seq = add64 p.seq 1 in
      record p { seq = seq; in_flight = (producer_id, seq) ∷ p.in_flight }

  -- PublishSync of the message in flight at a place returns; there is no such call past the last one.
  unfoldable pub publish_taken : ℕ → PublishResult → Publisher Hist → Publisher Hist
  publish_taken place r p = elim (picked place p.in_flight) [
    | none ↦ p
    | some m ↦ record p {
      in_flight = drop_place place p.in_flight;
      base = count_publish r p.base;
      topic = accept r m p.topic;
    }
  ]

  -- rr is an int, which a run is taken not to overflow.
  unfoldable pub produce_ordered : PublishResult → OrderedPublisher Hist → OrderedPublisher Hist
  produce_ordered r p =
      let key_index = p.rr % ordering_key_count in
      let ordering_seq = add64 (get_or p.key_seq key_index 0) 1 in
      let seq = add64 p.seq 1 in
      record {
        seq = seq;
        key_seq = set p.key_seq key_index ordering_seq;
        rr = p.rr + 1;
        base = count_publish r p.base;
        topic =
            accept r (record { key_index = key_index; seq = seq; ordering_seq = ordering_seq })
              p.topic;
      }

  -- A publish that does not match is not counted as sent.
  unfoldable pub publish_non_match : PublishResult → BaseWorker Hist → BaseWorker Hist
  publish_non_match PublishResult.published w = w
  publish_non_match PublishResult.failed w = record_error w
  publish_non_match PublishResult.cancelled w = w

  unfoldable pub produce_filtered :
      PublishResult → FilteringPublisher Hist → FilteringPublisher Hist
  produce_filtered r p =
      if p.tick % 2 == 0
      then record p {
        match_seq = advance_match r p.match_seq;
        tick = add64 p.tick 1;
        base = count_publish r p.base;
        matching = accept r (add64 p.match_seq 1) p.matching;
      }
      else record p {
        tick = add64 p.tick 1;
        non_match_seq = add64 p.non_match_seq 1;
        base = publish_non_match r p.base;
        non_matching = accept r (add64 p.non_match_seq 1) p.non_matching;
      }
