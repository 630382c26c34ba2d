-- ===== src/Worker/Receiving.antt =====
-- burnin/worker/streaming_pull.go: receiveLoop, which the other workers share but for the periodic close;
-- reconnectBackoff of burnin/worker/util.go, and selectMessageSize of burnin/worker/worker.go. A pass is the
-- messages that Receive delivered and how it returned.
use kubemq_gcp_pub_sub.Base.{
  ◌+◌, ◌<◌, ◌^◌, ◌≡◌, ◌∙◌, refl, Bool, true, false, Option, none, some, List, [], ◌∷◌, length,
  arith, if◌then◌else◌,
}
use kubemq_gcp_pub_sub.Base.Int.{ℤ, pos, ltb_ℤ}
use kubemq_gcp_pub_sub.Base.Assoc.{eqs}
use kubemq_gcp_pub_sub.Config.{Config}
use kubemq_gcp_pub_sub.Worker.{
  BaseWorker, record_reconnection, record_error, record_periodic_close_observed,
}
use kubemq_gcp_pub_sub.Worker.Handling.{Message}

-- Receive returned without an error, or with one, the server's periodic close or another; or the context
-- had ended, which ends the loop.
pub data ReceiveEnd : Type 0 where
  finished periodic_close failed : ReceiveEnd

pub record Pass : Type 0 where
  pub messages : List Message
  pub end : ReceiveEnd

unfoldable pub reconnect_backoff : {Float : Type 0} → Config Float → ℤ
reconnect_backoff c =
    if ltb_ℤ (pos 0) c.reconnect_interval then c.reconnect_interval else pos 1000000000

-- `drawn` is what SelectSize gives where there is a distribution.
unfoldable pub select_message_size : {Float : Type 0} → Config Float → Option ℤ → ℤ
select_message_size c none = c.message.size_bytes
select_message_size c (some drawn) =
    if eqs c.message.size_mode "distribution" then drawn else c.message.size_bytes

module _ {Hist : Type 0} (handle : Message → BaseWorker Hist → BaseWorker Hist) where
  unfoldable pub handle_all : List Message → BaseWorker Hist → BaseWorker Hist
  handle_all [] w = w
  handle_all (m ∷ ms) w = handle_all ms (handle m w)

  unfoldable pub end_pass : ReceiveEnd → BaseWorker Hist → BaseWorker Hist
  end_pass ReceiveEnd.finished w = w
  end_pass ReceiveEnd.periodic_close w = record_error (record_periodic_close_observed w)
  end_pass ReceiveEnd.failed w = record_error w

  unfoldable pub receive_pass : Bool → Pass → BaseWorker Hist → BaseWorker Hist
  receive_pass first p w =
      end_pass p.end (handle_all p.messages (if first then w else record_reconnection w))

  -- The passes before the context ends.
  unfoldable pub receive_loop : Bool → List Pass → BaseWorker Hist → BaseWorker Hist
  receive_loop first [] w = w
  receive_loop first (p ∷ ps) w = receive_loop false ps (receive_pass first p w)

  module _
      (keeps : (m : Message) (w : BaseWorker Hist)
        → (handle m w).reconnections ≡ w.reconnections) where
    handle_all-reconnections :
        (ms : List Message) (w : BaseWorker Hist)
        → (handle_all ms w).reconnections ≡ w.reconnections
    unfolding handle_all
    handle_all-reconnections [] w = refl
    handle_all-reconnections (m ∷ ms) w = handle_all-reconnections ms (handle m w) ∙ keeps m w

    end_pass-reconnections :
        (e : ReceiveEnd) (w : BaseWorker Hist) → (end_pass e w).reconnections ≡ w.reconnections
    unfolding end_pass record_error record_periodic_close_observed
    end_pass-reconnections ReceiveEnd.finished w = refl
    end_pass-reconnections ReceiveEnd.periodic_close w = refl
    end_pass-reconnections ReceiveEnd.failed w = refl

    later_pass :
        (p : Pass) (w : BaseWorker Hist)
        → w.reconnections + 1 < 2 ^ 64
        → (receive_pass false p w).reconnections ≡ w.reconnections + 1
    unfolding receive_pass record_reconnection
    later_pass p w h =
        end_pass-reconnections p.end _ ∙ handle_all-reconnections p.messages _ ∙ omega arith

    later_passes :
        (ps : List Pass) (w : BaseWorker Hist)
        → w.reconnections + length ps < 2 ^ 64
        → (receive_loop false ps w).reconnections ≡ w.reconnections + length ps
    unfolding receive_loop
    later_passes [] w h = omega arith
    later_passes (p ∷ ps) w h =
        let step = later_pass p w (omega arith) in
        later_passes ps (receive_pass false p w) (omega (arith, step)) ∙ omega (arith, step)

    -- Every pass but the first of a loop counts one reconnection, whatever it received and however it
    -- ended, given that handling a message counts none and the counter cannot wrap.
    pub receive_loop-reconnections :
        (p : Pass) (ps : List Pass) (w : BaseWorker Hist)
        → w.reconnections + length ps < 2 ^ 64
        → (receive_loop true (p ∷ ps) w).reconnections ≡ w.reconnections + length ps
    unfolding receive_loop receive_pass
    receive_loop-reconnections p ps w h =
        let step =
          end_pass-reconnections p.end (handle_all p.messages w)
          ∙ handle_all-reconnections p.messages w in
        later_passes ps (receive_pass true p w) (omega (arith, step)) ∙ omega (arith, step)
