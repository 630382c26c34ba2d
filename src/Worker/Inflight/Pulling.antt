-- ===== src/Worker/Inflight/Pulling.antt =====
-- burnin/worker/inflight_cap.go: pullLoop beside StopProducers. The loop reads the draining flag once for a batch
-- and handles its messages one by one, and StopProducers may come at any point between. The gauge of what is
-- outstanding is left out; an empty Pull returns no messages.
use kubemq_gcp_pub_sub.Base.{
  ℕ, zero, suc, ◌≡◌, ◌∙◌, refl, sym, ap, String, Bool, true, false, not, ◌&&◌, ◌||◌, List, [], ◌∷◌,
  map, Bool-cases, inl, inr, arith,
}
use kubemq_gcp_pub_sub.Base.Int.{ℤ}
use kubemq_gcp_pub_sub.Base.Assoc.{eqs, eqs_iff}
use kubemq_gcp_pub_sub.Base.Codec.{Codec}
use kubemq_gcp_pub_sub.Worker.{Histogram, record_error}
use kubemq_gcp_pub_sub.Worker.Handling.{Message}
use kubemq_gcp_pub_sub.Worker.Reconcile.{has}
use kubemq_gcp_pub_sub.Worker.Seek.{AckEnd}
use kubemq_gcp_pub_sub.Worker.Inflight.{InflightCapWorker, handle_pulled, stop_producers, take}

pub record ReceivedMessage : Type 0 where
  pub ack_id : String
  pub message : Message

-- What the loop does next: a Pull that returns messages or fails, or the next message of the batch, at a time
-- and with the end of its Acknowledge if there is one.
pub data PullEvent : Type 0 where
  pulled : List ReceivedMessage → PullEvent
  pull_failed : PullEvent
  handled : ℕ → AckEnd → PullEvent

-- The batch in hand, and the flag that was read for it.
pub record Pulling (Hist : Type 0) : Type 0 where
  pub worker : InflightCapWorker Hist
  pub in_hand : List ReceivedMessage
  pub drain : Bool

-- StopProducers, once the publish loops have ended.
unfoldable pub stop_while_pulling : {Hist : Type 0} → ℕ → (ℕ → AckEnd) → Pulling Hist → Pulling Hist
stop_while_pulling now ends p = record p { worker = stop_producers now ends p.worker }

abbrev pub handles : List PullEvent → ℕ
handles [] = 0
handles (PullEvent.handled _ _ ∷ es) = suc (handles es)
handles (_ ∷ es) = handles es

abbrev pub ids : List ReceivedMessage → List String
ids ms = map (λ m. m.ack_id) ms

take_none : (n : ℕ) → take {A = ReceivedMessage} n [] ≡ []
take_none zero = refl
take_none (suc n) = refl

module _ (C : Codec) (H : Histogram) (age : ℤ → ℕ) where
  open H use {State}

  -- The loop pulls and fails only with no message in hand.
  unfoldable pub next_pull :
      PullEvent → List ReceivedMessage → Bool → InflightCapWorker State → Pulling State
  next_pull (PullEvent.pulled ms) [] drain w = record {
    worker = w;
    in_hand = ms;
    drain = w.draining;
  }
  next_pull PullEvent.pull_failed [] drain w = record {
    worker = record w { base = record_error w.base };
    in_hand = [];
    drain = drain;
  }
  next_pull (PullEvent.handled now end) [] drain w = record {
    worker = w;
    in_hand = [];
    drain = drain;
  }
  next_pull (PullEvent.handled now end) (m ∷ ms) drain w = record {
    worker = handle_pulled C H age drain now end m.ack_id m.message w;
    in_hand = ms;
    drain = drain;
  }
  next_pull (PullEvent.pulled _) (m ∷ ms) drain w = record {
    worker = w;
    in_hand = m ∷ ms;
    drain = drain;
  }
  next_pull PullEvent.pull_failed (m ∷ ms) drain w = record {
    worker = w;
    in_hand = m ∷ ms;
    drain = drain;
  }

  unfoldable pub pull_loop : List PullEvent → Pulling State → Pulling State
  pull_loop [] p = p
  pull_loop (e ∷ es) p = pull_loop es (next_pull e p.in_hand p.drain p.worker)

  handle_pulled_held :
      (drain : Bool) (now : ℕ) (end : AckEnd) (id asked : String) (m : Message)
      (w : InflightCapWorker State)
      → let w' = handle_pulled C H age drain now end id m w in
        (w'.draining ≡ w.draining)
        × (has asked w'.held ≡ (has asked w.held || (not drain && eqs id asked)))
  unfolding handle_pulled
  handle_pulled_held false now end id asked m w =
      let found : eqs id asked ≡ true → has asked w.held ≡ has id w.held =
        λ same. ap (λ x. has x w.held) (sym ((eqs_iff id asked).0 same)) in
      elim (Bool-cases (has id w.held)) [
        | inl old ↦ rw old (ground arith, ground (arith, found))
        | inr new ↦ rw new (ground arith, ground (arith, found))
      ]
  handle_pulled_held true now end id asked m w = (refl, ground arith)

  held_after :
      (es : List PullEvent) (asked : String) (ms : List ReceivedMessage) (drain : Bool)
      (w : InflightCapWorker State)
      → w.draining ≡ true
      → let p : Pulling State = record { worker = w; in_hand = ms; drain = drain } in
        has asked (pull_loop es p).worker.held
        ≡ (has asked w.held || (not drain && has asked (ids (take (handles es) ms))))
  unfolding pull_loop next_pull
  held_after [] asked ms drain w on = ground arith
  held_after (PullEvent.pulled new ∷ es) asked [] drain w on =
      held_after es asked new w.draining w on ∙ rw (on, take_none (handles es)) (ground arith)
  held_after (PullEvent.pulled new ∷ es) asked (m ∷ ms) drain w on =
      held_after es asked (m ∷ ms) drain w on
  held_after (PullEvent.pull_failed ∷ es) asked [] drain w on =
      held_after es asked [] drain (record w { base = record_error w.base }) on
  held_after (PullEvent.pull_failed ∷ es) asked (m ∷ ms) drain w on =
      held_after es asked (m ∷ ms) drain w on
  held_after (PullEvent.handled now end ∷ es) asked [] drain w on =
      held_after es asked [] drain w on ∙ rw (take_none (handles es)) refl
  held_after (PullEvent.handled now end ∷ es) asked (m ∷ ms) drain w on =
      let w' = handle_pulled C H age drain now end m.ack_id m.message w in
      let (kept, now_held) = handle_pulled_held drain now end m.ack_id asked m.message w in
      held_after es asked ms drain w' (kept ∙ on) ∙ ground (arith, now_held)

  -- Once StopProducers has released the held leases, whatever the loop then pulls: an ack id is held exactly when
  -- the flag of the batch in hand had been read before, and the loop has since handled a message of
  -- that batch with this id.
  pub held_after_release :
      (es : List PullEvent) (now : ℕ) (ends : ℕ → AckEnd) (p : Pulling State) (asked : String)
      → has asked (pull_loop es (stop_while_pulling now ends p)).worker.held
        ≡ (not p.drain && has asked (ids (take (handles es) p.in_hand)))
  unfolding stop_while_pulling stop_producers
  held_after_release es now ends p asked =
      held_after es asked p.in_hand p.drain (stop_producers now ends p.worker) refl
