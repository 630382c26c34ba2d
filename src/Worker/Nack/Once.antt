-- ===== src/Worker/Nack/Once.antt =====
-- burnin/worker/nack_redelivery.go: how often a key is nacked along a run of deliveries.
use kubemq_gcp_pub_sub.Base.{
  ℕ, ◌+◌, ◌≤◌, ◌≡◌, refl, ap, String, Bool, true, false, Option, none, some, List, [], ◌∷◌, arith,
  if◌then◌else◌, Bool-cases, inl, inr, ◌&&◌, not,
}
use kubemq_gcp_pub_sub.Base.Assoc.{eqs, eqs_iff, lookup, lookup-insert}
use kubemq_gcp_pub_sub.Worker.Nack.{
  NackState, NackWorker, Settlement, ack_and_count, settle, deliver,
}

abbrev pub is_nack : Settlement → Bool
is_nack Settlement.nack = true
is_nack Settlement.ack = false

abbrev pub is_known : Option NackState → Bool
is_known none = false
is_known (some s) = true

-- How many deliveries of a key there are.
abbrev pub deliveries_of : String → List (String × Bool) → ℕ
deliveries_of key [] = 0
deliveries_of key ((k, drawn) ∷ es) = (if eqs k key then 1 else 0) + deliveries_of key es

module _ {Hist : Type 0} where
  -- Deliveries, each with its key and whether it is drawn.
  unfoldable pub deliver_all : List (String × Bool) → NackWorker Hist → NackWorker Hist
  deliver_all [] w = w
  deliver_all ((key, drawn) ∷ es) w = deliver_all es (deliver key drawn w).1

  -- How many deliveries of a key are answered by a nack.
  unfoldable pub nacks_of : String → List (String × Bool) → NackWorker Hist → ℕ
  nacks_of key [] w = 0
  nacks_of key ((k, drawn) ∷ es) w =
      let (answer, next) = deliver k drawn w in
      (if eqs k key && is_nack answer then 1 else 0) + nacks_of key es next

  -- A delivery never forgets a key, and a nacked key becomes known by it.
  settle_known :
      (key k : String) (drawn : Bool) (o : Option NackState) (w : NackWorker Hist)
      → lookup k w.states ≡ o
      → ((is_known (lookup key w.states) ≡ true
            → (is_known (lookup key (settle o drawn k w).1.states) ≡ true)
              × ((eqs k key && is_nack (settle o drawn k w).0) ≡ false))
          × ((eqs k key && is_nack (settle o drawn k w).0) ≡ true
              → is_known (lookup key (settle o drawn k w).1.states) ≡ true))
  unfolding settle ack_and_count
  settle_known key k drawn (some NackState.nacked) w h =
      ground (arith, lookup-insert k key NackState.redelivered w.states)
  settle_known key k drawn (some NackState.redelivered) w h = ground arith
  settle_known key k true none w h = ground (
    arith,
    h,
    lookup-insert k key NackState.nacked w.states,
    eqs_iff k key,
    ap (λ i. lookup i w.states),
  )
  settle_known key k false none w h = ground arith

  nacks_of-known :
      (key : String) (es : List (String × Bool)) (w : NackWorker Hist)
      → is_known (lookup key w.states) ≡ true
      → nacks_of key es w ≡ 0
  unfolding nacks_of deliver
  nacks_of-known key [] w h = refl
  nacks_of-known key ((k, drawn) ∷ es) w h =
      let (known, silent) = (settle_known key k drawn (lookup k w.states) w refl).0 h in
      ground (arith, silent, nacks_of-known key es (deliver k drawn w).1 known)

  -- Whatever the deliveries, their order and the draws, no message is nacked more than once.
  nacks_of_lem :
      (key : String) (es : List (String × Bool)) (w : NackWorker Hist) → nacks_of key es w ≤ 1
  unfolding nacks_of deliver
  nacks_of_lem key [] w = omega arith
  nacks_of_lem key ((k, drawn) ∷ es) w =
      let step = settle_known key k drawn (lookup k w.states) w refl in
      elim (Bool-cases (eqs k key && is_nack (deliver k drawn w).0)) [
        | inl hit ↦ ground (arith, hit, nacks_of-known key es (deliver k drawn w).1 (step.1 hit))
        | inr miss ↦ ground (arith, miss, nacks_of_lem key es (deliver k drawn w).1)
      ]

  -- How many deliveries of a key are answered by an ack.
  unfoldable pub acks_of : String → List (String × Bool) → NackWorker Hist → ℕ
  acks_of key [] w = 0
  acks_of key ((k, drawn) ∷ es) w =
      let (answer, next) = deliver k drawn w in
      (if eqs k key && not (is_nack answer) then 1 else 0) + acks_of key es next

  answered :
      (key : String) (es : List (String × Bool)) (w : NackWorker Hist)
      → acks_of key es w + nacks_of key es w ≡ deliveries_of key es
  unfolding acks_of nacks_of
  answered key [] w = omega arith
  answered key ((k, drawn) ∷ es) w = ground (arith, answered key es (deliver k drawn w).1)

  -- Whatever the draws and the deliveries between: a message that is delivered again and again is acked each
  -- time but once at most, so that a second delivery is enough for an ack.
  pub redelivered_acked :
      (key : String) (es : List (String × Bool)) (w : NackWorker Hist) (n : ℕ)
      → n + 1 ≤ deliveries_of key es
      → n ≤ acks_of key es w
  redelivered_acked key es w n h = omega (arith, answered key es w, nacks_of_lem key es w)
