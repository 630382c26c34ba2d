-- ===== src/Worker/Interop.antt =====
-- burnin/worker/cross_protocol_interop.go: the interop worker, which publishes over Pub/Sub and
-- consumes the native events of the mapped channel.
use kubemq_gcp_pub_sub.Base.{ℕ, String, Bool, true, false, List, [], ◌∷◌, ltb, if◌then◌else◌}
use kubemq_gcp_pub_sub.Base.Words.{add64}
use kubemq_gcp_pub_sub.Base.Int.{ℤ, pos}
use kubemq_gcp_pub_sub.Base.Codec.{Codec}
use kubemq_gcp_pub_sub.Worker.{
  Histogram, BaseWorker, reset_after_warmup, record_received, record_interop_converged,
  record_interop_diverged,
}
use kubemq_gcp_pub_sub.Worker.Attrs.{extract_meta}
use kubemq_gcp_pub_sub.Worker.Handling.{Message, observe}
use kubemq_gcp_pub_sub.Worker.Publishing.{PublishResult, count_publish}
use kubemq_gcp_pub_sub.Worker.Reconcile.{has, count_overdue}
use kubemq_gcp_pub_sub.Worker.DeadLetter.{note_published}

-- Ten seconds in nanoseconds.
abbrev pub interop_convergence_budget : ℤ
interop_convergence_budget = pos 10000000000

pub record InteropWorker (Hist : Type 0) : Type 0 where
  pub base : BaseWorker Hist
  pub seq : ℕ
  pub published : List (String × ℕ)
  pub consumed : List String

module _ {Hist : Type 0} where
  -- The first argument says that the id was consumed before.
  unfoldable pub converge_once : Bool → String → InteropWorker Hist → InteropWorker Hist
  converge_once true id w = w
  converge_once false id w = record w {
    base = record_interop_converged w.base;
    consumed = id ∷ w.consumed;
  }

  unfoldable pub reconcile_convergence : ℕ → InteropWorker Hist → InteropWorker Hist
  reconcile_convergence now w =
      let diverged = count_overdue interop_convergence_budget now w.consumed w.published in
      if ltb 0 diverged then record w { base = record_interop_diverged diverged w.base } else w

module _ (C : Codec) (H : Histogram) (age : ℤ → ℕ) (id_of : String → ℕ → String) where
  -- The tags of a native event stand for the attributes; nothing is acked.
  unfoldable pub on_native_event : Message → InteropWorker H.State → InteropWorker H.State
  on_native_event ev w =
      let m = extract_meta C ev.attributes in
      let received = record_received w.base in
      let id = id_of m.producer_id m.seq in
      let seen = record w { base = (observe C H age m.producer_id ev.body m received).1 } in
      if m.ok then converge_once (has id w.consumed) id seen else record w { base = received }

  unfoldable pub produce_interop :
      String → ℕ → PublishResult → InteropWorker H.State → InteropWorker H.State
  produce_interop producer_id now r w =
      let seq = add64 w.seq 1 in
      record w {
        seq = seq;
        published = note_published r (id_of producer_id seq) now w.published;
        base = count_publish r w.base;
      }

  unfoldable pub reset_interop : InteropWorker H.State → InteropWorker H.State
  reset_interop w = record w { base = reset_after_warmup H w.base; published = []; consumed = [] }
