-- ===== src/Worker/Start/Every.antt =====
-- burnin/worker: the steps of every Start that NewWorkerGroup can build, and what they come to when run.
use kubemq_gcp_pub_sub.Base.{
  ℕ, ◌≡◌, refl, ◌∙◌, String, Bool, true, false, ◌||◌, List, [], ◌∷◌, any, arith, if◌then◌else◌,
}
use kubemq_gcp_pub_sub.Base.Int.{ℤ, pos_part}
use kubemq_gcp_pub_sub.Base.Assoc.{eqs}
use kubemq_gcp_pub_sub.Config.{Config}
use kubemq_gcp_pub_sub.Worker.Start.{
  Call, Step, run_start, plain_config, filtered_subscription_config, ordering_subscription_config,
}
use kubemq_gcp_pub_sub.Worker.Start.Programs.{
  start_of, start_round_trip, start_streaming_pull, start_ordering_keys, start_exactly_once,
  start_dead_letter, start_fan_out, start_interop, start_nack_redelivery, start_filtering,
  start_schema_enforce, start_seek_snapshot, start_inflight_cap, fanout_ids, subscribe_all,
  launch_all, topic_id,
}
use kubemq_gcp_pub_sub.Config.Names.{
  worker_publish_pull_round_trip, worker_streaming_pull, worker_ordering_keys, worker_exactly_once,
  worker_dead_letter, worker_fan_out, worker_cross_protocol, worker_nack_redelivery,
  worker_filtering, worker_schema_enforce, worker_seek_snapshot, worker_inflight_cap,
}
use kubemq_gcp_pub_sub.Config.Lookup.{fanout_subscription_count}
use kubemq_gcp_pub_sub.Worker.Start.Order.{
  is_launch, is_call, calls_first, has, is_provisioned, failed_launches_none,
  run_start-is_provisioned, eqs_refl,
}

module _ (getenv : String → String) (pad : ℕ → ℤ → String) {Float : Type 0} (c : Config Float)
    (idx : ℤ) where
  launch_all-is_provisioned :
      (project : String) (topics subs ids : List String)
      → ((i : String) → has ids i ≡ true → has subs i ≡ true)
      → is_provisioned project topics subs (launch_all getenv pad c idx ids) ≡ true
  unfolding launch_all
  launch_all-is_provisioned project topics subs [] h = refl
  launch_all-is_provisioned project topics subs (id ∷ ids) h = ground (
    arith,
    h id,
    eqs_refl id,
    launch_all-is_provisioned project topics subs ids λ i p. h i (ground (arith, p)),
  )

  launch_all-calls_first :
      (ids : List String)
      → (any is_call (launch_all getenv pad c idx ids) ≡ false)
        × (calls_first (launch_all getenv pad c idx ids) ≡ true)
  unfolding launch_all
  launch_all-calls_first [] = (refl, refl)
  launch_all-calls_first (id ∷ ids) = ground (arith, launch_all-calls_first ids)

  subscribe_all-calls_first :
      (ids : List String) (steps : List Step)
      → calls_first (subscribe_all getenv pad c idx ids steps) ≡ calls_first steps
  unfolding subscribe_all
  subscribe_all-calls_first [] steps = refl
  subscribe_all-calls_first (id ∷ ids) steps = subscribe_all-calls_first ids steps

  subscribe_all-is_provisioned :
      (project : String) (topics subs ids loops : List String)
      → has topics (topic_id getenv pad c idx worker_fan_out) ≡ true
      → ((i : String) → has loops i ≡ true → (has ids i || has subs i) ≡ true)
      → is_provisioned project topics subs
          (subscribe_all getenv pad c idx ids (launch_all getenv pad c idx loops))
        ≡ true
  unfolding subscribe_all plain_config
  subscribe_all-is_provisioned project topics subs [] loops made h =
      launch_all-is_provisioned project topics subs loops h
  subscribe_all-is_provisioned project topics subs (id ∷ ids) loops made h = ground (
    arith,
    eqs_refl id,
    subscribe_all-is_provisioned project topics (id ∷ subs) ids loops made
        λ i p. ground (arith, h i p),
  )

  -- What holds of the steps of every Start.
  abbrev IsStart : List Step → Type 0
  IsStart steps = (is_provisioned c.gcp.project_id [] [] steps ≡ true) × (calls_first steps ≡ true)

  round_trip-IsStart : IsStart (start_round_trip getenv pad c idx)
  unfolding start_round_trip plain_config
  round_trip-IsStart = grind (arith, eqs_refl)

  streaming_pull-IsStart : IsStart (start_streaming_pull getenv pad c idx)
  unfolding start_streaming_pull plain_config
  streaming_pull-IsStart = grind (arith, eqs_refl)

  ordering_keys-IsStart : IsStart (start_ordering_keys getenv pad c idx)
  unfolding start_ordering_keys plain_config ordering_subscription_config
  ordering_keys-IsStart = grind (arith, eqs_refl)

  exactly_once-IsStart : IsStart (start_exactly_once getenv pad c idx)
  unfolding start_exactly_once plain_config
  exactly_once-IsStart = grind (arith, eqs_refl)

  dead_letter-IsStart : IsStart (start_dead_letter getenv pad c idx)
  unfolding start_dead_letter plain_config
  dead_letter-IsStart = grind (arith, eqs_refl)

  interop-IsStart : IsStart (start_interop getenv pad c idx)
  unfolding start_interop plain_config
  interop-IsStart = grind (arith, eqs_refl)

  nack_redelivery-IsStart : IsStart (start_nack_redelivery getenv pad c idx)
  unfolding start_nack_redelivery plain_config
  nack_redelivery-IsStart = grind (arith, eqs_refl)

  filtering-IsStart : IsStart (start_filtering getenv pad c idx)
  unfolding start_filtering plain_config filtered_subscription_config
  filtering-IsStart = grind (arith, eqs_refl)

  schema_enforce-IsStart : IsStart (start_schema_enforce getenv pad c idx)
  unfolding start_schema_enforce plain_config
  schema_enforce-IsStart = grind (arith, eqs_refl)

  seek_snapshot-IsStart : IsStart (start_seek_snapshot getenv pad c idx)
  unfolding start_seek_snapshot plain_config
  seek_snapshot-IsStart = grind (arith, eqs_refl)

  inflight_cap-IsStart : IsStart (start_inflight_cap getenv pad c idx)
  unfolding start_inflight_cap plain_config
  inflight_cap-IsStart = grind (arith, eqs_refl)

  fan_out-IsStart : IsStart (start_fan_out getenv pad c idx)
  unfolding start_fan_out
  fan_out-IsStart =
      let topic = topic_id getenv pad c idx worker_fan_out in
      let ids = fanout_ids getenv pad c idx 0 (pos_part (fanout_subscription_count c)) in
      (
        subscribe_all-is_provisioned c.gcp.project_id (topic ∷ []) [] ids ids
            (ground (arith, eqs_refl topic)) (λ i p. ground (arith, p)),
        subscribe_all-calls_first ids (launch_all getenv pad c idx ids)
            ∙ (launch_all-calls_first ids).1,
      )

  if-IsStart : (b : Bool) (x y : List Step) → IsStart x → IsStart y → IsStart (if b then x else y)
  if-IsStart true x y h k = h
  if-IsStart false x y h k = k

  start_of-IsStart : (name : String) → IsStart (start_of getenv pad c idx name)
  unfolding start_of
  start_of-IsStart name =
      if-IsStart (eqs name worker_publish_pull_round_trip) (start_round_trip getenv pad c idx) _
        round_trip-IsStart
        (if-IsStart (eqs name worker_streaming_pull) (start_streaming_pull getenv pad c idx) _
          streaming_pull-IsStart
          (if-IsStart (eqs name worker_ordering_keys) (start_ordering_keys getenv pad c idx) _
            ordering_keys-IsStart
            (if-IsStart (eqs name worker_exactly_once) (start_exactly_once getenv pad c idx) _
              exactly_once-IsStart
              (if-IsStart (eqs name worker_dead_letter) (start_dead_letter getenv pad c idx) _
                dead_letter-IsStart
                (if-IsStart (eqs name worker_fan_out) (start_fan_out getenv pad c idx) _
                  fan_out-IsStart
                  (if-IsStart (eqs name worker_cross_protocol) (start_interop getenv pad c idx) _
                    interop-IsStart
                    (if-IsStart (eqs name worker_nack_redelivery)
                      (start_nack_redelivery getenv pad c idx) _ nack_redelivery-IsStart
                      (if-IsStart (eqs name worker_filtering) (start_filtering getenv pad c idx) _
                        filtering-IsStart
                        (if-IsStart (eqs name worker_schema_enforce)
                          (start_schema_enforce getenv pad c idx) _ schema_enforce-IsStart
                          (if-IsStart (eqs name worker_seek_snapshot)
                            (start_seek_snapshot getenv pad c idx) _ seek_snapshot-IsStart
                            (if-IsStart (eqs name worker_inflight_cap)
                              (start_inflight_cap getenv pad c idx) _ inflight_cap-IsStart
                              ((refl, refl)))))))))))))

  -- Whatever the calls of a worker's Start return: no subscription is asked for on a topic, or with a
  -- dead-letter topic, that the same Start has not asked for before, and no receive loop is configured or
  -- launched for a subscription that it has not asked for before.
  pub start-is_provisioned :
      (ok : Call → Bool) (name : String)
      → is_provisioned c.gcp.project_id [] [] (run_start ok (start_of getenv pad c idx name)).1
        ≡ true
  start-is_provisioned ok name =
      run_start-is_provisioned c.gcp.project_id ok (start_of getenv pad c idx name) [] []
        (start_of-IsStart name).0

  -- A Start that returns an error has launched no goroutine.
  pub failed_start_launches_none :
      (ok : Call → Bool) (name : String)
      → (run_start ok (start_of getenv pad c idx name)).0 ≡ false
      → any is_launch (run_start ok (start_of getenv pad c idx name)).1 ≡ false
  failed_start_launches_none ok name h =
      failed_launches_none ok (start_of getenv pad c idx name) (start_of-IsStart name).1 h
