-- ===== src/Worker/Inflight/Release.antt =====
-- burnin/worker/inflight_cap.go: the release of the held leases, and the bound on the backlog.
use kubemq_gcp_pub_sub.Base.{
  ℕ, zero, suc, ◌+◌, ◌≤◌, ◌<◌, ◌^◌, ◌≡◌, ◌∙◌, refl, String, Bool, true, false, List, [], ◌∷◌,
  length, arith,
}
use kubemq_gcp_pub_sub.Base.Int.{ℤ, ◌≤ℤ◌, ltb_ℤ, int_of_pattern}
use kubemq_gcp_pub_sub.Worker.{BaseWorker, record_acked, record_error}
use kubemq_gcp_pub_sub.Worker.Publishing.{PublishResult, accept}
use kubemq_gcp_pub_sub.Worker.Seek.{AckEnd}
use kubemq_gcp_pub_sub.Worker.Inflight.{
  InflightCapWorker, batch, take, drop, count_refusal, count_chunk, ack_many, stop_producers,
  produce_capped, publish_within,
}

length-take-drop :
    {A : Type 0} (n : ℕ) (xs : List A) → length (take n xs) + length (drop n xs) ≡ length xs
length-take-drop zero xs = omega arith
length-take-drop (suc n) [] = refl
length-take-drop (suc n) (x ∷ xs) = omega (arith, length-take-drop n xs)

drop_shorter : {A : Type 0} (n : ℕ) (xs : List A) → length (drop n xs) ≤ length xs
drop_shorter n xs = omega (arith, length-take-drop n xs)

length-drop : (id : String) (ids : List String) → length (drop batch (id ∷ ids)) ≤ length ids
length-drop id ids = drop_shorter 999 ids

-- Every number of the topic is at most the target.
abbrev pub IsWithin : ℤ → List ℕ → Type 0
IsWithin target [] = Unit
IsWithin target (n ∷ ns) = (int_of_pattern n ≤ℤ target) × IsWithin target ns

module _ {Hist : Type 0} where
  count_chunk-acked :
      (ids : List String) (w : BaseWorker Hist)
      → w.acked + length ids < 2 ^ 64
      → (count_chunk ids w).acked ≡ w.acked + length ids
  unfolding count_chunk record_acked
  count_chunk-acked [] w h = omega arith
  count_chunk-acked (id ∷ ids) w h = ground (arith, count_chunk-acked ids (record_acked w))

  count_refusal-acked : (end : AckEnd) (w : BaseWorker Hist) → (count_refusal end w).acked ≡ w.acked
  unfolding count_refusal record_error
  count_refusal-acked AckEnd.acknowledged w = refl
  count_refusal-acked AckEnd.refused w = refl
  count_refusal-acked AckEnd.cut_off w = refl

  pub ack_many-acked :
      (fuel : ℕ) (ends : ℕ → AckEnd) (k : ℕ) (ids : List String) (w : BaseWorker Hist)
      → length ids ≤ fuel
      → w.acked + length ids < 2 ^ 64
      → (ack_many fuel ends k ids w).acked ≡ w.acked + length ids
  unfolding ack_many
  ack_many-acked zero ends k [] w h room = omega arith
  ack_many-acked zero ends k (id ∷ ids) w h room = absurd (omega arith)
  ack_many-acked (suc fuel) ends k [] w h room = omega arith
  ack_many-acked (suc fuel) ends k (id ∷ ids) w h room =
      let refused = count_refusal (ends k) w in
      let same = count_refusal-acked (ends k) w in
      let split = length-take-drop batch (id ∷ ids) in
      let chunk = count_chunk-acked (take batch (id ∷ ids)) refused (omega (arith, same, split)) in
      let next = count_chunk (take batch (id ∷ ids)) refused in
      ack_many-acked fuel ends (k + 1) (drop batch (id ∷ ids)) next
        (omega (arith, length-drop id ids)) (omega (arith, same, split, chunk))
      ∙ omega (arith, same, split, chunk)

  unfoldable pub produce_capped_run :
      List PublishResult → InflightCapWorker Hist → InflightCapWorker Hist
  produce_capped_run [] w = w
  produce_capped_run (r ∷ rs) w = produce_capped_run rs (produce_capped r w)

  IsWithin-step :
      (over : Bool) (r : PublishResult) (w : InflightCapWorker Hist)
      → ltb_ℤ w.backlog_target (int_of_pattern w.seq) ≡ over
      → IsWithin w.backlog_target w.topic
      → IsWithin (publish_within over r w).backlog_target (publish_within over r w).topic
  unfolding publish_within accept
  IsWithin-step true r w above h = h
  IsWithin-step false PublishResult.published w below h = (ground (arith, below), h)
  IsWithin-step false PublishResult.failed w below h = h
  IsWithin-step false PublishResult.cancelled w below h = h

  -- However the producers overtake each other between the check and the count, and whatever publishes
  -- fail, no message above the backlog target is published.
  pub produce_capped_run-IsWithin :
      (rs : List PublishResult) (w : InflightCapWorker Hist)
      → IsWithin w.backlog_target w.topic
      → IsWithin (produce_capped_run rs w).backlog_target (produce_capped_run rs w).topic
  unfolding produce_capped_run produce_capped
  produce_capped_run-IsWithin [] w h = h
  produce_capped_run-IsWithin (r ∷ rs) w h =
      produce_capped_run-IsWithin rs (produce_capped r w) (IsWithin-step _ r _ refl h)

  -- Stopping the producers gives up every held lease and counts each as acked, in chunks of a
  -- thousand, whatever the acknowledgements returned. The counter must not wrap.
  pub stop_producers_lem :
      (now : ℕ) (ends : ℕ → AckEnd) (w : InflightCapWorker Hist)
      → w.base.acked + length w.held < 2 ^ 64
      → ((stop_producers now ends w).held ≡ [])
        × ((stop_producers now ends w).base.acked ≡ w.base.acked + length w.held)
  unfolding stop_producers
  stop_producers_lem now ends w room =
      (refl, ack_many-acked (length w.held) ends 0 w.held w.base (omega arith) room)
