-- ===== src/Samples.antt =====
-- Values for the tests: float64 as thousandths, the HDR histogram as the list of its samples, and
-- the defaults of burnin/config/config.go.
pub mod Strokes
pub mod Messages
use kubemq_gcp_pub_sub.Base.{ℕ, ◌+◌, ◌*◌, ◌/◌, refl, List, [], ◌∷◌, false, ltb, leb, length, arith}
use kubemq_gcp_pub_sub.Base.Int.{pos, pos_part}
use kubemq_gcp_pub_sub.Base.Floats.{Floats}
use kubemq_gcp_pub_sub.Worker.{Histogram, BaseWorker, new_base_worker, record_sent, record_tracked}
use kubemq_gcp_pub_sub.Config.{Config}
use kubemq_gcp_pub_sub.Config.Default.{default_config}
use kubemq_gcp_pub_sub.Engine.{WorkerSnapshot}
use kubemq_gcp_pub_sub.Engine.Capture.{Percentiles, empty_snapshot}

-- Thousandths: no value is NaN.
abbrev pub milli : Floats
milli = record {
  Float = ℕ;
  of_uint = λ u. u * 1000;
  of_int = λ i. pos_part i * 1000;
  ratio = λ n d. n * 1000 / d;
  add = λ a b. a + b;
  mul = λ a b. a * b / 1000;
  div = λ a b. a * 1000 / b;
  gt = λ a b. ltb b a;
  le = λ a b. leb a b;
  is_nan = λ a. false;
  seconds = λ d. pos_part d / 1000000;
  le-not-gt = λ a b ha hb. ground arith;
  ratio-not_nan = λ n d h. refl;
  gt-not_nan = λ a b h. (refl, refl);
  percent-not_nan = λ a b h. refl;
  gt→le = λ a b h. ground arith;
  gt_trans = λ a b c h k. ground arith;
}

abbrev pub samples : Histogram
samples = record {
  State = List ℕ;
  empty = [];
  observe = λ d h. d ∷ h;
  clear = λ h. [];
  count = λ h. length h;
  clear_lem = λ h. refl;
}

abbrev pub no_percentiles : List ℕ → Percentiles ℕ
no_percentiles h = record { p50 = 0; p95 = 0; p99 = 0; p999 = 0 }

abbrev pub defaults : Config ℕ
defaults = default_config milli

-- A snapshot of nothing, and one with a tenth of the messages lost.
abbrev pub quiet : WorkerSnapshot ℕ
quiet = empty_snapshot milli samples no_percentiles

abbrev pub lossy : WorkerSnapshot ℕ
lossy = record quiet { sent = 100; received = 90; lost = 10 }

abbrev pub fresh_worker : BaseWorker (List ℕ)
fresh_worker = new_base_worker samples "fan_out" "pubsub.t" (pos 0) 128

-- A worker that has sent two messages and tracked a duplicate.
abbrev pub busy_worker : BaseWorker (List ℕ)
busy_worker =
    (record_tracked "p" 1 (record_tracked "p" 1 (record_sent (record_sent fresh_worker))).1).1
