-- ===== src/Worker/ExactlyOnce/Acks.antt =====
-- burnin/worker/exactly_once.go: the counters after a run of acks.
use kubemq_gcp_pub_sub.Base.{
  ℕ, ◌+◌, ◌<◌, ◌^◌, ◌≡◌, ◌||◌, List, [], ◌∷◌, length, arith, if◌then◌else◌, Bool-cases, inl, inr,
}
use kubemq_gcp_pub_sub.Worker.{
  BaseWorker, record_acked, record_error, record_exactly_once_ack, reconcile_exactly_once,
}
use kubemq_gcp_pub_sub.Worker.ExactlyOnce.{AckResult, confirms, ack_with_reconciliation, ack_all}

-- Messages confirmed by the first ack or by the retry, and messages whose acks both failed.
abbrev pub confirmed_in : List (AckResult × AckResult) → ℕ
confirmed_in [] = 0
confirmed_in ((first, retry) ∷ acks) =
    (if confirms first || confirms retry then 1 else 0) + confirmed_in acks

abbrev pub failed_in : List (AckResult × AckResult) → ℕ
failed_in [] = 0
failed_in ((first, retry) ∷ acks) =
    (if confirms first || confirms retry then 0 else 1) + failed_in acks

-- The counters that the acks move, with room for n more.
abbrev pub HasRoom : {Hist : Type 0} → ℕ → BaseWorker Hist → Type 0
HasRoom n w =
    (w.exactly_once_unreconciled + n < 2 ^ 64)
    × (w.exactly_once_confirmed + n < 2 ^ 64)
    × (w.acked + n < 2 ^ 64)
    × (w.errors + n < 2 ^ 64)

module _ {Hist : Type 0} where
  -- The counters after a run, in which c messages were confirmed and f were not.
  abbrev pub IsCountedBy : ℕ → ℕ → BaseWorker Hist → BaseWorker Hist → Type 0
  IsCountedBy c f w v =
      (v.exactly_once_unreconciled ≡ w.exactly_once_unreconciled + f)
      × (v.exactly_once_confirmed ≡ w.exactly_once_confirmed + c)
      × (v.acked ≡ w.acked + c)
      × (v.errors ≡ w.errors + f)

  ack_lem :
      (first retry : AckResult) (w : BaseWorker Hist)
      → HasRoom 1 w
      → IsCountedBy
          (if confirms first || confirms retry then 1 else 0)
          (if confirms first || confirms retry then 0 else 1)
          w
          (ack_with_reconciliation first retry w)
  unfolding ack_with_reconciliation record_acked record_error record_exactly_once_ack
      reconcile_exactly_once
  ack_lem first retry w room = elim (Bool-cases (confirms first)) [
    | inl good ↦ ground (arith, room, good)
    | inr bad ↦ elim (Bool-cases (confirms retry)) [
      | inl good ↦ ground (arith, room, bad, good)
      | inr worse ↦ ground (arith, room, bad, worse)
    ]
  ]

  -- While the counters cannot wrap, a run of messages leaves unreconciled exactly those whose ack
  -- and retry both failed, each with one error; every other message is confirmed and acked once.
  pub ack_all_lem :
      (acks : List (AckResult × AckResult)) (w : BaseWorker Hist)
      → HasRoom (length acks) w
      → IsCountedBy (confirmed_in acks) (failed_in acks) w (ack_all acks w)
  unfolding ack_all
  ack_all_lem [] w room = (omega arith, omega arith, omega arith, omega arith)
  ack_all_lem ((first, retry) ∷ acks) w room =
      let step = ack_lem first retry w (omega (arith, room)) in
      let rest =
        ack_all_lem acks (ack_with_reconciliation first retry w) (ground (arith, step, room)) in
      ground (arith, step, rest)
