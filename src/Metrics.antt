-- ===== src/Metrics.antt =====
-- burnin/metrics/metrics.go, its in-memory accumulators: SlidingRateWindow and PeakRateTracker.
-- The counts are int64, kept here as their bit patterns; a float64 quotient by the fixed window
-- length is kept as its numerator. The Prometheus vectors and the HDR histogram are libraries.
pub mod Ring
pub mod Rates
pub mod Exported
mod Tests
use kubemq_gcp_pub_sub.Base.{
  ℕ, ◌+◌, ◌%◌, List, replicate, get_or, set, sum, ltb, ◌==◌, if◌then◌else◌, [], ◌∷◌,
}
use kubemq_gcp_pub_sub.Base.Words.{add64, sub64}

abbrev pub sliding_window_size : ℕ
sliding_window_size = 30

pub record SlidingRateWindow : Type 0 where
  pub buckets : List ℕ
  pub idx : ℕ
  pub total : ℕ
  pub ticks : ℕ

unfoldable pub new_sliding_rate_window : SlidingRateWindow
new_sliding_rate_window = record {
  buckets = replicate sliding_window_size 0;
  idx = 0;
  total = 0;
  ticks = 0;
}

-- Record
unfoldable pub slide_record : SlidingRateWindow → SlidingRateWindow
slide_record w = record w {
  buckets = set w.buckets w.idx (add64 (get_or w.buckets w.idx 0) 1);
  total = add64 w.total 1;
}

-- Advance
unfoldable pub slide_advance : SlidingRateWindow → SlidingRateWindow
slide_advance w =
    let next = (w.idx + 1) % sliding_window_size in
    record {
      buckets = set w.buckets next 0;
      idx = next;
      total = sub64 w.total (get_or w.buckets next 0);
      ticks = w.ticks + 1;
    }

-- Rate, as numerator and denominator; a window of no ticks has the rate 0.
unfoldable pub rate : SlidingRateWindow → ℕ × ℕ
rate w =
    let window = if ltb sliding_window_size w.ticks then sliding_window_size else w.ticks in
    if window == 0 then (0, 1) else (w.total, window)

-- Reset
unfoldable pub slide_reset : SlidingRateWindow → SlidingRateWindow
slide_reset w = record { buckets = replicate sliding_window_size 0; idx = 0; total = 0; ticks = 0 }

abbrev pub peak_window_size : ℕ
peak_window_size = 10

-- `peak` is the numerator over peak_window_size.
pub record PeakRateTracker : Type 0 where
  pub buckets : List ℕ
  pub idx : ℕ
  pub peak : ℕ

unfoldable pub new_peak_rate_tracker : PeakRateTracker
new_peak_rate_tracker = record { buckets = replicate peak_window_size 0; idx = 0; peak = 0 }

unfoldable pub peak_record : PeakRateTracker → PeakRateTracker
peak_record p = record p { buckets = set p.buckets p.idx (add64 (get_or p.buckets p.idx 0) 1) }

-- `total += b` over the buckets
abbrev pub bucket_total : List ℕ → ℕ → ℕ
bucket_total [] total = total
bucket_total (b ∷ bs) total = bucket_total bs (add64 total b)

unfoldable pub peak_advance : PeakRateTracker → PeakRateTracker
peak_advance p =
    let total = bucket_total p.buckets 0 in
    let next = (p.idx + 1) % peak_window_size in
    record {
      buckets = set p.buckets next 0;
      idx = next;
      peak = if ltb p.peak total then total else p.peak;
    }
