-- ===== src/Worker/Seek/Drain.antt =====
-- burnin/worker/seek_snapshot.go: how many pulls drainAck takes.
use kubemq_gcp_pub_sub.Base.{
  ℕ, ◌+◌, ◌*◌, ◌-◌, ◌<◌, ◌≤◌, ◌^◌, ◌≡◌, refl, String, true, false, some, List, [], ◌∷◌, length, ltb,
  leb, arith, Bool-cases, inl, inr, ◌||◌,
}
use kubemq_gcp_pub_sub.Base.Words.{add64}
use kubemq_gcp_pub_sub.Base.Int.{ℤ}
use kubemq_gcp_pub_sub.Base.Codec.{Codec}
use kubemq_gcp_pub_sub.Worker.{Histogram, BaseWorker}
use kubemq_gcp_pub_sub.Worker.Seek.{
  Pull, DrainResult, drain, drain_quiescent_polls, ack_batch, consume_all,
}

-- The size of the largest batch that a pull can give.
abbrev pub IsBatched : ℕ → List Pull → Type 0
IsBatched bound [] = Unit
IsBatched bound (Pull.pulled msgs end ∷ pulls) = (length msgs ≤ bound) × IsBatched bound pulls
IsBatched bound (Pull.cancelled ∷ pulls) = IsBatched bound pulls
IsBatched bound (Pull.failed ∷ pulls) = IsBatched bound pulls

module _ (C : Codec) (H : Histogram) (age : ℤ → ℕ) (producer : String) where
  abbrev pub Ends : ℕ → List Pull → ℕ → ℕ → BaseWorker H.State → Type 0
  Ends want pulls got empties w =
      (r : DrainResult H.State) × (drain C H age producer (some want) pulls got empties w ≡ some r)

  -- However the pulls go, drainAck ends after at most six pulls for each message that it still wants:
  -- six empty pulls in a row end it, and every other pull brings a message. The count cannot wrap.
  pub drain-Ends :
      (want bound : ℕ) (pulls : List Pull) (got empties : ℕ) (w : BaseWorker H.State)
      → IsBatched bound pulls
      → want + bound < 2 ^ 64
      → empties ≤ drain_quiescent_polls
      → (want - got) * 6 ≤ length pulls + empties
      → Ends want pulls got empties w
  unfolding drain
  drain-Ends want bound [] got empties w batched room few long =
      (record { got = got; erred = false; base = w }, ground (arith, long))
  drain-Ends want bound (Pull.cancelled ∷ pulls) got empties w batched room few long = (_, refl)
  drain-Ends want bound (Pull.failed ∷ pulls) got empties w batched room few long = (_, refl)
  drain-Ends want bound (Pull.pulled [] end ∷ pulls) got empties w batched room few long =
      elim (Bool-cases (leb want got || ltb drain_quiescent_polls (empties + 1))) [
        | inl stop ↦ (record { got = got; erred = false; base = w }, ground (arith, stop))
        | inr on ↦
            let (r, ends) =
              drain-Ends want bound pulls got (empties + 1) w batched.1 room (ground (arith, on))
                (omega (arith, long)) in
            (r, ground (arith, on, ends))
      ]
  drain-Ends want bound (Pull.pulled (msg ∷ msgs) end ∷ pulls) got empties w batched room few long =
      let (acked, next) =
        ack_batch end (msg ∷ msgs) (consume_all C H age producer (msg ∷ msgs) w) in
      elim (Bool-cases (leb want got)) [
        | inl stop ↦ (record { got = got; erred = false; base = w }, ground (arith, stop))
        | inr on ↦ elim (Bool-cases acked) [
          | inr refused ↦ (
            record { got = add64 got (length (msg ∷ msgs)); erred = true; base = next },
            ground (arith, on, refused),
          )
          | inl good ↦
              let (r, ends) =
                drain-Ends want bound pulls (add64 got (length (msg ∷ msgs))) 0 next batched.1 room
                  (omega arith) (ground (arith, on, long, few, batched.0)) in
              (r, ground (arith, on, good, ends))
        ]
      ]
