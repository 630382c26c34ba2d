-- ===== src/Worker/Exporting/InStep.antt =====
-- burnin/worker/worker.go and burnin/metrics/metrics.go: a worker's counters beside the vectors that are scraped.
use kubemq_gcp_pub_sub.Base.Int.{pos}
use kubemq_gcp_pub_sub.Base.{
  ℕ, zero, suc, ◌+◌, ◌≡◌, refl, ap, map, Bool, true, false, List, [], ◌∷◌, Bool-cases, inl, inr,
  arith, String, leb, ◌==◌, if◌then◌else◌, length, replicate,
}
use kubemq_gcp_pub_sub.Base.Words.{u64, add64}
use kubemq_gcp_pub_sub.Tracker
use kubemq_gcp_pub_sub.Base.Floats.{Floats}
use kubemq_gcp_pub_sub.Metrics.Exported.{
  Vectors, Exported, inc_sent, inc_received, inc_duplicated, inc_corrupted, inc_error,
  inc_reconnection, inc_ack, add_downtime as export_downtime, inc_ordering_violation,
  inc_fanout_delivery, add_fanout_dropped, inc_exactly_once_confirmed, inc_dead_letter_republished,
  add_dead_letter_lost, inc_interop_converged, add_interop_diverged, inc_nack_redelivered,
  inc_batch_atomicity_violation, inc_filter_mismatch, inc_filter_matched_delivered,
  inc_schema_reject_violation, inc_schema_enforce_confirmed, add_seek_replay_expected,
  add_seek_replay_observed, inc_seek_replay_mismatch, inc_inflight_cap_tail_redelivered,
  add_inflight_cap_lost, inc_exactly_once_invalid_ack_confirmed, inc_flow_control_violation,
  inc_retry_backoff_observed, inc_lease_extend_confirmed, inc_lease_extend_reject_confirmed,
  inc_cross_stream_ack_confirmed, inc_periodic_close_observed, add_lost, inc_out_of_order,
  record_bytes_sent, record_bytes_received, inc_exactly_once_unreconciled,
  set_delivery_attempt_max as export_delivery_attempt_max,
}
use kubemq_gcp_pub_sub.Worker.{
  Histogram, BaseWorker, reset_after_warmup, record_sent, record_received, record_duplicated,
  record_corrupted, record_error, record_reconnection, record_acked, add_downtime,
  record_ordering_violation, record_fanout_delivery, record_fanout_dropped,
  record_dead_letter_republished, record_dead_letter_lost, record_interop_converged,
  record_interop_diverged, record_nack_redelivered, record_batch_atomicity_violation,
  record_filter_mismatch, record_filter_matched_delivered, record_schema_reject_violation,
  record_schema_enforce_confirmed, record_seek_replay_expected, record_seek_replay_observed,
  record_seek_replay_mismatch, record_inflight_cap_tail_redelivered, record_inflight_cap_lost,
  record_exactly_once_invalid_ack_confirmed, record_flow_control_violation,
  record_retry_backoff_observed, record_lease_extend_confirmed,
  record_lease_extend_reject_confirmed, record_cross_stream_ack_confirmed,
  record_periodic_close_observed, record_tracked, record_exactly_once_ack, reconcile_exactly_once,
  set_delivery_attempt_max,
}
use kubemq_gcp_pub_sub.Worker.Exporting.{Call, Counted, call, calls, raise_attempt, export_tracked}

-- How a vector is fed: one by one, by counts, or by durations.
pub data Kind : Type 0 where
  counted added timed : Kind

abbrev pub kinds : List Kind
kinds =
    Kind.counted ∷ Kind.counted ∷ Kind.counted ∷ Kind.counted ∷ Kind.counted ∷ Kind.counted
    ∷ Kind.counted ∷ Kind.timed ∷ Kind.counted ∷ Kind.counted ∷ Kind.added ∷ Kind.counted
    ∷ Kind.counted ∷ Kind.added ∷ Kind.counted ∷ Kind.added ∷ Kind.counted ∷ Kind.counted
    ∷ Kind.counted ∷ Kind.counted ∷ Kind.counted ∷ Kind.counted ∷ Kind.added ∷ Kind.added
    ∷ Kind.counted ∷ Kind.counted ∷ Kind.added ∷ Kind.counted ∷ Kind.counted ∷ Kind.counted
    ∷ Kind.counted ∷ Kind.counted ∷ Kind.counted ∷ Kind.counted ∷ []

-- The vectors that count what a counter of the worker counts, in one order with those counters.
abbrev pub series : {Value : Type 0} → Exported Value → List Value
series e =
    e.messages_sent ∷ e.messages_received ∷ e.messages_duplicated ∷ e.messages_corrupted ∷ e.errors
    ∷ e.reconnections ∷ e.acks ∷ e.downtime_seconds ∷ e.ordering_violations ∷ e.fanout_deliveries
    ∷ e.fanout_dropped ∷ e.exactly_once_confirmed ∷ e.dead_letter_republished ∷ e.dead_letter_lost
    ∷ e.interop_converged ∷ e.interop_diverged ∷ e.nack_redelivered ∷ e.batch_atomicity_violations
    ∷ e.filter_mismatch ∷ e.filter_matched_delivered ∷ e.schema_reject_violations
    ∷ e.schema_enforce_confirmed ∷ e.seek_replay_expected ∷ e.seek_replay_observed
    ∷ e.seek_replay_mismatch ∷ e.inflight_cap_tail_redelivered ∷ e.inflight_cap_lost
    ∷ e.exactly_once_invalid_ack_confirmed ∷ e.flow_control_violations ∷ e.retry_backoff_observed
    ∷ e.lease_extend_confirmed ∷ e.lease_extend_reject_confirmed ∷ e.cross_stream_ack_confirmed
    ∷ e.periodic_close_observed ∷ []

abbrev pub counters : {Hist : Type 0} → BaseWorker Hist → List ℕ
counters w =
    w.sent ∷ w.received ∷ w.duplicated ∷ w.corrupted ∷ w.errors ∷ w.reconnections ∷ w.acked
    ∷ w.downtime ∷ w.ordering_violations ∷ w.fanout_deliveries ∷ w.fanout_dropped
    ∷ w.exactly_once_confirmed ∷ w.dead_letter_republished ∷ w.dead_letter_lost
    ∷ w.interop_converged ∷ w.interop_diverged ∷ w.nack_redelivered ∷ w.batch_atomicity_violations
    ∷ w.filter_mismatch ∷ w.filter_matched_delivered ∷ w.schema_reject_violations
    ∷ w.schema_enforce_confirmed ∷ w.seek_replay_expected ∷ w.seek_replay_observed
    ∷ w.seek_replay_mismatch ∷ w.inflight_cap_tail_redelivered ∷ w.inflight_cap_lost
    ∷ w.exactly_once_invalid_ack_confirmed ∷ w.flow_control_violations ∷ w.retry_backoff_observed
    ∷ w.lease_extend_confirmed ∷ w.lease_extend_reject_confirmed ∷ w.cross_stream_ack_confirmed
    ∷ w.periodic_close_observed ∷ []

abbrev sum : List ℕ → ℕ
sum [] = 0
sum (n ∷ ns) = n + sum ns

-- A vector that is fed one by one takes no other amount.
abbrev amount : Kind → ℕ → ℕ
amount Kind.counted n = 1
amount Kind.added n = n
amount Kind.timed n = n

-- What one call adds to the counter of a place.
abbrev count_at : ℕ → ℕ → List Kind → List ℕ → List ℕ
count_at i n [] cs = cs
count_at i n ks [] = []
count_at zero n (k ∷ ks) (c ∷ cs) = add64 c (amount k n) ∷ cs
count_at (suc i) n (k ∷ ks) (c ∷ cs) = c ∷ count_at i n ks cs

module _ (F : Floats) (V : Vectors F) where
  open V use {Value}

  abbrev pub times : ℕ → Value → Value
  times zero v = v
  times (suc n) v = times n (V.inc v)

  abbrev move : Kind → ℕ → Value → Value
  move Kind.counted n v = V.inc v
  move Kind.added n v = V.add (F.of_uint n) v
  move Kind.timed n v = V.add (F.seconds (pos n)) v

  -- The last amount first.
  abbrev moves : Kind → List ℕ → Value → Value
  moves k [] v = v
  moves k (n ∷ ns) v = move k n (moves k ns v)

  -- There are amounts that the vector has been moved by from its start, one after another, and that
  -- the counter has added up as a uint64; each is one where the vector is fed one by one.
  pub record IsFed (k : Kind) (start : Value) (c : ℕ) (v : Value) : Type 0 where
    pub amounts : List ℕ
    pub summed : c ≡ u64 (sum (map (amount k) amounts))
    pub moved : v ≡ moves k amounts start

  abbrev pub AreFed : List Kind → List Value → List ℕ → List Value → Type 0
  AreFed [] [] [] [] = Unit
  AreFed (k ∷ ks) (start ∷ starts) (c ∷ cs) (v ∷ vs) = IsFed k start c v × AreFed ks starts cs vs
  AreFed _ _ _ _ = ⊥

  abbrev move_at : ℕ → ℕ → List Kind → List Value → List Value
  move_at i n [] vs = vs
  move_at i n ks [] = []
  move_at zero n (k ∷ ks) (v ∷ vs) = move k n v ∷ vs
  move_at (suc i) n (k ∷ ks) (v ∷ vs) = v ∷ move_at i n ks vs

  IsFed-more :
      (k : Kind) (start : Value) (c n : ℕ) (v : Value)
      → IsFed k start c v
      → IsFed k start (add64 c (amount k n)) (move k n v)
  IsFed-more k start c n v h = record {
    amounts = n ∷ h.amounts;
    summed = omega (arith, h.summed);
    moved = ap (move k n) h.moved;
  }

  raised :
      (i n : ℕ) (ks : List Kind) (starts : List Value) (cs : List ℕ) (vs : List Value)
      → AreFed ks starts cs vs
      → AreFed ks starts (count_at i n ks cs) (move_at i n ks vs)
  raised i n [] [] [] [] h = tt
  raised zero n (k ∷ ks) (a ∷ starts) (c ∷ cs) (v ∷ vs) h = (IsFed-more k a c n v h.0, h.1)
  raised (suc i) n (k ∷ ks) (a ∷ starts) (c ∷ cs) (v ∷ vs) h = (h.0, raised i n ks starts cs vs h.1)
  raised i n [] [] [] (_ ∷ _) h = absurd h
  raised i n [] [] (_ ∷ _) vs h = absurd h
  raised i n [] (_ ∷ _) cs vs h = absurd h
  raised i n (_ ∷ _) [] cs vs h = absurd h
  raised i n (_ ∷ _) (_ ∷ _) [] vs h = absurd h
  raised i n (_ ∷ _) (_ ∷ _) (_ ∷ _) [] h = absurd h

module _ (F : Floats) (V : Vectors F) {Hist : Type 0} (starts : List V.Value) where
  abbrev IsInStep : Counted Hist V.Value → Type 0
  IsInStep s = AreFed F V kinds starts (counters s.worker) (series s.exported)

  tracked-IsInStep :
      (id : String) (seq : ℕ) (s : Counted Hist V.Value)
      → IsInStep s
      → IsInStep (call F V (Call.tracked id seq) s)
  unfolding call record_tracked record_duplicated export_tracked inc_duplicated inc_out_of_order
  tracked-IsInStep id seq s h =
      let found = (Tracker.record_sequence s.worker.trk id seq).1 in
      let early = (Tracker.record_sequence s.worker.trk id seq).2 in
      elim (Bool-cases found) [
        | inl dup ↦ elim (Bool-cases early) [
          | inl below ↦ rw (dup, below) (raised F V 2 1 kinds starts _ _ h)
          | inr above ↦ rw (dup, above) (raised F V 2 1 kinds starts _ _ h)
        ]
        | inr new ↦ elim (Bool-cases early) [
          | inl below ↦ rw (new, below) h
          | inr above ↦ rw (new, above) h
        ]
      ]

  call-IsInStep : (c : Call) (s : Counted Hist V.Value) → IsInStep s → IsInStep (call F V c s)
  unfolding call record_sent record_received record_duplicated record_corrupted record_error
      record_reconnection record_acked add_downtime record_ordering_violation record_fanout_delivery
      record_fanout_dropped record_dead_letter_republished record_dead_letter_lost
      record_interop_converged record_interop_diverged record_nack_redelivered
      record_batch_atomicity_violation record_filter_mismatch record_filter_matched_delivered
      record_schema_reject_violation record_schema_enforce_confirmed record_seek_replay_expected
      record_seek_replay_observed record_seek_replay_mismatch record_inflight_cap_tail_redelivered
      record_inflight_cap_lost record_exactly_once_invalid_ack_confirmed
      record_flow_control_violation record_retry_backoff_observed record_lease_extend_confirmed
      record_lease_extend_reject_confirmed record_cross_stream_ack_confirmed
      record_periodic_close_observed record_exactly_once_ack reconcile_exactly_once
      set_delivery_attempt_max inc_sent inc_received inc_duplicated inc_corrupted inc_error
      inc_reconnection inc_ack export_downtime inc_ordering_violation inc_fanout_delivery
      add_fanout_dropped inc_exactly_once_confirmed inc_dead_letter_republished add_dead_letter_lost
      inc_interop_converged add_interop_diverged inc_nack_redelivered inc_batch_atomicity_violation
      inc_filter_mismatch inc_filter_matched_delivered inc_schema_reject_violation
      inc_schema_enforce_confirmed add_seek_replay_expected add_seek_replay_observed
      inc_seek_replay_mismatch inc_inflight_cap_tail_redelivered add_inflight_cap_lost
      inc_exactly_once_invalid_ack_confirmed inc_flow_control_violation inc_retry_backoff_observed
      inc_lease_extend_confirmed inc_lease_extend_reject_confirmed inc_cross_stream_ack_confirmed
      inc_periodic_close_observed add_lost inc_out_of_order record_bytes_sent record_bytes_received
      inc_exactly_once_unreconciled export_delivery_attempt_max raise_attempt
  call-IsInStep (Call.sent n) s h = raised F V 0 1 kinds starts _ _ h
  call-IsInStep (Call.received n) s h = raised F V 1 1 kinds starts _ _ h
  call-IsInStep Call.duplicated s h = raised F V 2 1 kinds starts _ _ h
  call-IsInStep Call.corrupted s h = raised F V 3 1 kinds starts _ _ h
  call-IsInStep Call.error s h = raised F V 4 1 kinds starts _ _ h
  call-IsInStep Call.reconnection s h = raised F V 5 1 kinds starts _ _ h
  call-IsInStep Call.acked s h = raised F V 6 1 kinds starts _ _ h
  call-IsInStep (Call.downtime n) s h = raised F V 7 n kinds starts _ _ h
  call-IsInStep Call.ordering_violation s h = raised F V 8 1 kinds starts _ _ h
  call-IsInStep Call.fanout_delivery s h = raised F V 9 1 kinds starts _ _ h
  call-IsInStep (Call.fanout_dropped n) s h = raised F V 10 n kinds starts _ _ h
  call-IsInStep (Call.exactly_once_ack true) s h = raised F V 11 1 kinds starts _ _ h
  call-IsInStep Call.dead_letter_republished s h = raised F V 12 1 kinds starts _ _ h
  call-IsInStep (Call.dead_letter_lost n) s h = raised F V 13 n kinds starts _ _ h
  call-IsInStep Call.interop_converged s h = raised F V 14 1 kinds starts _ _ h
  call-IsInStep (Call.interop_diverged n) s h = raised F V 15 n kinds starts _ _ h
  call-IsInStep Call.nack_redelivered s h = raised F V 16 1 kinds starts _ _ h
  call-IsInStep Call.batch_atomicity_violation s h = raised F V 17 1 kinds starts _ _ h
  call-IsInStep Call.filter_mismatch s h = raised F V 18 1 kinds starts _ _ h
  call-IsInStep Call.filter_matched_delivered s h = raised F V 19 1 kinds starts _ _ h
  call-IsInStep Call.schema_reject_violation s h = raised F V 20 1 kinds starts _ _ h
  call-IsInStep Call.schema_enforce_confirmed s h = raised F V 21 1 kinds starts _ _ h
  call-IsInStep (Call.seek_replay_expected n) s h = raised F V 22 n kinds starts _ _ h
  call-IsInStep (Call.seek_replay_observed n) s h = raised F V 23 n kinds starts _ _ h
  call-IsInStep Call.seek_replay_mismatch s h = raised F V 24 1 kinds starts _ _ h
  call-IsInStep Call.inflight_cap_tail_redelivered s h = raised F V 25 1 kinds starts _ _ h
  call-IsInStep (Call.inflight_cap_lost n) s h = raised F V 26 n kinds starts _ _ h
  call-IsInStep Call.exactly_once_invalid_ack_confirmed s h = raised F V 27 1 kinds starts _ _ h
  call-IsInStep Call.flow_control_violation s h = raised F V 28 1 kinds starts _ _ h
  call-IsInStep Call.retry_backoff_observed s h = raised F V 29 1 kinds starts _ _ h
  call-IsInStep Call.lease_extend_confirmed s h = raised F V 30 1 kinds starts _ _ h
  call-IsInStep Call.lease_extend_reject_confirmed s h = raised F V 31 1 kinds starts _ _ h
  call-IsInStep Call.cross_stream_ack_confirmed s h = raised F V 32 1 kinds starts _ _ h
  call-IsInStep Call.periodic_close_observed s h = raised F V 33 1 kinds starts _ _ h
  call-IsInStep (Call.exactly_once_ack false) s h = h
  call-IsInStep Call.reconciled s h = elim (Bool-cases (s.worker.exactly_once_unreconciled == 0)) [
    | inl closed ↦ rw closed h
    | inr open_ack ↦ rw open_ack h
  ]
  call-IsInStep (Call.delivery_attempt v) s h =
      elim (Bool-cases (leb v s.worker.delivery_attempt_max)) [
        | inl low ↦ rw low h
        | inr high ↦ rw high h
      ]
  call-IsInStep (Call.tracked id seq) s h = tracked-IsInStep id seq s h

  calls-IsInStep :
      (cs : List Call) (s : Counted Hist V.Value) → IsInStep s → IsInStep (calls F V cs s)
  unfolding calls
  calls-IsInStep [] s h = h
  calls-IsInStep (c ∷ cs) s h = calls-IsInStep cs (call F V c s) (call-IsInStep c s h)

-- Whether a call is of an ack that failed, whatever its retry came to.
abbrev fails : Call → Bool
fails (Call.exactly_once_ack false) = true
fails _ = false

abbrev pub failed_acks : List Call → ℕ
failed_acks [] = 0
failed_acks (c ∷ cs) = if fails c then suc (failed_acks cs) else failed_acks cs

module _ (F : Floats) (V : Vectors F) {Hist : Type 0} where
  call_failed :
      (c : Call) (s : Counted Hist V.Value)
      → (call F V c s).exported.exactly_once_unreconciled ≡ (
          if fails c
          then V.inc s.exported.exactly_once_unreconciled
          else s.exported.exactly_once_unreconciled)
  unfolding call inc_sent inc_received inc_duplicated inc_corrupted inc_error inc_reconnection
      inc_ack export_downtime inc_ordering_violation inc_fanout_delivery add_fanout_dropped
      inc_exactly_once_confirmed inc_dead_letter_republished add_dead_letter_lost
      inc_interop_converged add_interop_diverged inc_nack_redelivered inc_batch_atomicity_violation
      inc_filter_mismatch inc_filter_matched_delivered inc_schema_reject_violation
      inc_schema_enforce_confirmed add_seek_replay_expected add_seek_replay_observed
      inc_seek_replay_mismatch inc_inflight_cap_tail_redelivered add_inflight_cap_lost
      inc_exactly_once_invalid_ack_confirmed inc_flow_control_violation inc_retry_backoff_observed
      inc_lease_extend_confirmed inc_lease_extend_reject_confirmed inc_cross_stream_ack_confirmed
      inc_periodic_close_observed add_lost inc_out_of_order record_bytes_sent record_bytes_received
      inc_exactly_once_unreconciled export_delivery_attempt_max raise_attempt export_tracked
  call_failed (Call.sent n) s = refl
  call_failed (Call.received n) s = refl
  call_failed Call.duplicated s = refl
  call_failed Call.corrupted s = refl
  call_failed Call.error s = refl
  call_failed Call.reconnection s = refl
  call_failed Call.acked s = refl
  call_failed (Call.downtime n) s = refl
  call_failed Call.ordering_violation s = refl
  call_failed Call.fanout_delivery s = refl
  call_failed (Call.fanout_dropped n) s = refl
  call_failed (Call.exactly_once_ack true) s = refl
  call_failed (Call.exactly_once_ack false) s = refl
  call_failed Call.dead_letter_republished s = refl
  call_failed (Call.dead_letter_lost n) s = refl
  call_failed Call.interop_converged s = refl
  call_failed (Call.interop_diverged n) s = refl
  call_failed Call.nack_redelivered s = refl
  call_failed Call.batch_atomicity_violation s = refl
  call_failed Call.filter_mismatch s = refl
  call_failed Call.filter_matched_delivered s = refl
  call_failed Call.schema_reject_violation s = refl
  call_failed Call.schema_enforce_confirmed s = refl
  call_failed (Call.seek_replay_expected n) s = refl
  call_failed (Call.seek_replay_observed n) s = refl
  call_failed Call.seek_replay_mismatch s = refl
  call_failed Call.inflight_cap_tail_redelivered s = refl
  call_failed (Call.inflight_cap_lost n) s = refl
  call_failed Call.exactly_once_invalid_ack_confirmed s = refl
  call_failed Call.flow_control_violation s = refl
  call_failed Call.retry_backoff_observed s = refl
  call_failed Call.lease_extend_confirmed s = refl
  call_failed Call.lease_extend_reject_confirmed s = refl
  call_failed Call.cross_stream_ack_confirmed s = refl
  call_failed Call.periodic_close_observed s = refl
  call_failed Call.reconciled s = refl
  call_failed (Call.delivery_attempt v) s =
      elim (Bool-cases (leb v s.worker.delivery_attempt_max)) [
        | inl low ↦ rw low refl
        | inr high ↦ rw high refl
      ]
  call_failed (Call.tracked id seq) s =
      let found = (Tracker.record_sequence s.worker.trk id seq).1 in
      let early = (Tracker.record_sequence s.worker.trk id seq).2 in
      elim (Bool-cases found) [
        | inl dup ↦ elim (Bool-cases early) [
          | inl below ↦ rw (dup, below) refl
          | inr above ↦ rw (dup, above) refl
        ]
        | inr new ↦ elim (Bool-cases early) [
          | inl below ↦ rw (new, below) refl
          | inr above ↦ rw (new, above) refl
        ]
      ]

  abbrev pick : Counted Hist V.Value → Bool → V.Value
  pick s b =
      if b then V.inc s.exported.exactly_once_unreconciled else s.exported.exactly_once_unreconciled

  calls_failed :
      (cs : List Call) (s : Counted Hist V.Value)
      → (calls F V cs s).exported.exactly_once_unreconciled
        ≡ times F V (failed_acks cs) s.exported.exactly_once_unreconciled
  unfolding calls
  calls_failed [] s = refl
  calls_failed (c ∷ cs) s = elim (Bool-cases (fails c)) [
    | inl bad ↦
        let now : (call F V c s).exported.exactly_once_unreconciled
            ≡ V.inc s.exported.exactly_once_unreconciled =
          cc (call_failed c s, ap (pick s) bad) in
        rw bad (cc (calls_failed cs (call F V c s), ap (times F V (failed_acks cs)) now))
    | inr good ↦
        let now : (call F V c s).exported.exactly_once_unreconciled
            ≡ s.exported.exactly_once_unreconciled =
          cc (call_failed c s, ap (pick s) good) in
        rw good (cc (calls_failed cs (call F V c s), ap (times F V (failed_acks cs)) now))
  ]

module _ (F : Floats) (V : Vectors F) where
  at_start :
      (ks : List Kind) (vs : List V.Value)
      → length ks ≡ length vs
      → AreFed F V ks vs (replicate (length ks) 0) vs
  at_start [] [] h = tt
  at_start (k ∷ ks) (v ∷ vs) h =
      (record { amounts = []; summed = refl; moved = refl }, at_start ks vs (omega (arith, h)))
  at_start [] (_ ∷ _) h = omega (arith, h)
  at_start (_ ∷ _) [] h = omega (arith, h)

module _ (F : Floats) (V : Vectors F) (H : Histogram) where
  -- Whatever the vectors of a worker hold when ResetAfterWarmup clears its counters, and whatever helpers are
  -- called after it: each vector that goes with a counter has since been moved by a row of amounts that
  -- the counter has added up as a uint64, by Inc where it counts one by one, by Add of the float64 of
  -- the count or of the seconds of the duration where it does not; and ExactlyOnceUnreconciledTotal
  -- has been incremented once for each failed ack, those that a retry has reconciled included.
  pub scraped_since_warmup :
      (w : BaseWorker H.State) (e : Exported V.Value) (cs : List Call)
      → let s = calls F V cs (record { worker = reset_after_warmup H w; exported = e }) in
        AreFed F V kinds (series e) (counters s.worker) (series s.exported)
        × (s.exported.exactly_once_unreconciled
            ≡ times F V (failed_acks cs) e.exactly_once_unreconciled)
  unfolding reset_after_warmup
  scraped_since_warmup w e cs = (
    calls-IsInStep F V (series e) cs _ (at_start F V kinds (series e) refl),
    calls_failed F V cs _,
  )
