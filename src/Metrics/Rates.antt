-- ===== src/Metrics/Rates.antt =====
-- Both rate accumulators against the history of arrivals: seconds pass (Advance) and messages are
-- recorded in any order of events.
use Prim.Native.Nat.{max, min}
use kubemq_gcp_pub_sub.Base.{
  ℕ, zero, suc, ◌+◌, ◌%◌, ◌^◌, ◌≤◌, ◌<◌, ◌≡◌, refl, List, [], ◌∷◌, length, get_or, sum, sum_first,
  sum_first-suc, get_or-replicate, ◌==◌, if◌then◌else◌, arith, ap, ◌∙◌,
}
use kubemq_gcp_pub_sub.Base.Words.{add64}
use kubemq_gcp_pub_sub.Metrics.{
  SlidingRateWindow, new_sliding_rate_window, slide_record, slide_advance, rate, PeakRateTracker,
  new_peak_rate_tracker, peak_record, peak_advance, bucket_total,
}
use kubemq_gcp_pub_sub.Metrics.Ring.{
  slot, bump, Mirrors, bump-Mirrors, turn-Mirrors, oldest, sum_first-bump,
}

pub data Event : Type 0 where
  arrival second : Event

-- The counts of the seconds, the newest first.
abbrev pub history_after : List ℕ → List Event → List ℕ
history_after h [] = h
history_after h (arrival ∷ es) = history_after (bump h) es
history_after h (second ∷ es) = history_after (0 ∷ h) es

abbrev pub slide_run : SlidingRateWindow → List Event → SlidingRateWindow
slide_run w [] = w
slide_run w (arrival ∷ es) = slide_run (slide_record w) es
slide_run w (second ∷ es) = slide_run (slide_advance w) es

abbrev pub seconds_in : List Event → ℕ
seconds_in [] = 0
seconds_in (arrival ∷ es) = seconds_in es
seconds_in (second ∷ es) = suc (seconds_in es)

get_or-le-sum : (ws : List ℕ) (i : ℕ) → get_or ws i 0 ≤ sum ws
get_or-le-sum [] i = omega arith
get_or-le-sum (w ∷ ws) zero = omega arith
get_or-le-sum (w ∷ ws) (suc i) = omega (arith, get_or-le-sum ws i)

record Slides (w : SlidingRateWindow) (h : List ℕ) : Type 0 where
  ring : Mirrors 30 w.buckets w.idx h
  counted : w.total ≡ sum w.buckets

slide_record-Slides :
    (w : SlidingRateWindow) (h : List ℕ)
    → sum_first 30 h < 2 ^ 63
    → Slides w h
    → Slides (slide_record w) (bump h)
unfolding slide_record
slide_record-Slides w h small s =
    let no_wrap : add64 (get_or w.buckets w.idx 0) 1 ≡ get_or w.buckets w.idx 0 + 1 =
      omega (arith, get_or-le-sum w.buckets w.idx, s.ring.whole) in
    let ring' = bump-Mirrors 30 w.buckets w.idx h s.ring in
    record {
      ring = rw no_wrap ring';
      counted =
          rw no_wrap (omega (arith, ring'.whole, s.ring.whole, s.counted, sum_first-bump 29 h));
    }

slide_advance-Slides :
    (w : SlidingRateWindow) (h : List ℕ)
    → sum_first 30 h < 2 ^ 63
    → Slides w h
    → Slides (slide_advance w) (0 ∷ h)
unfolding slide_advance
slide_advance-Slides w h small s =
    let next = (w.idx + 1) % 30 in
    let step : next ≡ (if w.idx == 29 then 0 else w.idx + 1) = ground (arith, s.ring.current) in
    let ring' = turn-Mirrors 29 w.buckets w.idx next h step s.ring in
    record {
      ring = ring';
      counted = omega (
        arith,
        get_or-le-sum w.buckets next,
        ring'.whole,
        s.ring.whole,
        s.counted,
        oldest 29 w.buckets w.idx next h step s.ring,
        sum_first-suc 29 h,
      );
    }

slide_run-Slides :
    (es : List Event) (w : SlidingRateWindow) (h : List ℕ)
    → sum_first 30 h + length es < 2 ^ 63
    → Slides w h
    → Slides (slide_run w es) (history_after h es)
slide_run-Slides [] w h small s = s
slide_run-Slides (arrival ∷ es) w h small s =
    slide_run-Slides es (slide_record w) (bump h) (omega (arith, sum_first-bump 29 h))
      (slide_record-Slides w h (omega arith) s)
slide_run-Slides (second ∷ es) w h small s =
    slide_run-Slides es (slide_advance w) (0 ∷ h) (omega (arith, sum_first-suc 29 h))
      (slide_advance-Slides w h (omega arith) s)

new-Slides : Slides new_sliding_rate_window []
unfolding new_sliding_rate_window
new-Slides = record {
  ring = record {
    size = refl;
    current = omega arith;
    cell = λ k h. get_or-replicate 30 (slot 30 0 k);
    whole = refl;
  };
  counted = refl;
}

-- After any events the total is the number of arrivals in the current second and the 29 before
-- it, as long as fewer than 2 ^ 63 events have passed.
pub total_recent :
    (es : List Event)
    → length es < 2 ^ 63
    → (slide_run new_sliding_rate_window es).total ≡ sum_first 30 (history_after [] es)
total_recent es few =
    let s = slide_run-Slides es new_sliding_rate_window [] (omega arith) new-Slides in
    s.counted ∙ s.ring.whole

ticks-slide_run :
    (es : List Event) (w : SlidingRateWindow) → (slide_run w es).ticks ≡ w.ticks + seconds_in es
unfolding slide_record slide_advance
ticks-slide_run [] w = omega arith
ticks-slide_run (arrival ∷ es) w = ticks-slide_run es (slide_record w)
ticks-slide_run (second ∷ es) w = omega (arith, ticks-slide_run es (slide_advance w))

new_ticks : (es : List Event) → (slide_run new_sliding_rate_window es).ticks ≡ seconds_in es
unfolding new_sliding_rate_window
new_ticks es = omega (arith, ticks-slide_run es new_sliding_rate_window)

-- The rate divides by the seconds seen, at most 30.
rate_recent :
    (es : List Event)
    → length es < 2 ^ 63
    → rate (slide_run new_sliding_rate_window es) ≡ (
        let seconds = min 30 (seconds_in es) in
        if seconds == 0 then (0, 1) else (sum_first 30 (history_after [] es), seconds))
unfolding rate
rate_recent es few = ground (arith, total_recent es few, new_ticks es)

abbrev pub peak_run : PeakRateTracker → List Event → PeakRateTracker
peak_run p [] = p
peak_run p (arrival ∷ es) = peak_run (peak_record p) es
peak_run p (second ∷ es) = peak_run (peak_advance p) es

-- The largest number of arrivals in 10 seconds, over the ends of all seconds.
abbrev pub peak_of : List ℕ → List Event → ℕ → ℕ
peak_of h [] best = best
peak_of h (arrival ∷ es) best = peak_of (bump h) es best
peak_of h (second ∷ es) best = peak_of (0 ∷ h) es (max best (sum_first 10 h))

bucket_total-sum :
    (bs : List ℕ) (total : ℕ) → total + sum bs < 2 ^ 64 → bucket_total bs total ≡ total + sum bs
bucket_total-sum [] total h = omega arith
bucket_total-sum (b ∷ bs) total h = omega (arith, bucket_total-sum bs (add64 total b) (omega arith))

peak_record-Mirrors :
    (p : PeakRateTracker) (h : List ℕ)
    → sum_first 10 h < 2 ^ 63
    → Mirrors 10 p.buckets p.idx h
    → Mirrors 10 (peak_record p).buckets (peak_record p).idx (bump h)
unfolding peak_record
peak_record-Mirrors p h small m =
    let no_wrap : add64 (get_or p.buckets p.idx 0) 1 ≡ get_or p.buckets p.idx 0 + 1 =
      omega (arith, get_or-le-sum p.buckets p.idx, m.whole) in
    rw no_wrap (bump-Mirrors 10 p.buckets p.idx h m)

peak_advance-Mirrors :
    (p : PeakRateTracker) (h : List ℕ)
    → sum_first 10 h < 2 ^ 63
    → Mirrors 10 p.buckets p.idx h
    → Mirrors 10 (peak_advance p).buckets (peak_advance p).idx (0 ∷ h)
      × ((peak_advance p).peak ≡ max p.peak (sum_first 10 h))
unfolding peak_advance
peak_advance-Mirrors p h small m =
    let next = (p.idx + 1) % 10 in
    let step : next ≡ (if p.idx == 9 then 0 else p.idx + 1) = ground (arith, m.current) in
    (
      turn-Mirrors 9 p.buckets p.idx next h step m,
      ground (arith, bucket_total-sum p.buckets 0 (omega (arith, m.whole)), m.whole),
    )

peak_run-peak_of :
    (es : List Event) (p : PeakRateTracker) (h : List ℕ)
    → sum_first 10 h + length es < 2 ^ 63
    → Mirrors 10 p.buckets p.idx h
    → (peak_run p es).peak ≡ peak_of h es p.peak
peak_run-peak_of [] p h small m = refl
peak_run-peak_of (arrival ∷ es) p h small m =
    peak_run-peak_of es (peak_record p) (bump h) (omega (arith, sum_first-bump 9 h))
      (peak_record-Mirrors p h (omega arith) m)
    ∙ ap (peak_of (bump h) es) (unfold peak_record in refl)
peak_run-peak_of (second ∷ es) p h small m =
    let (m', best) = peak_advance-Mirrors p h (omega arith) m in
    peak_run-peak_of es (peak_advance p) (0 ∷ h) (omega (arith, sum_first-suc 9 h)) m'
    ∙ ap (peak_of (0 ∷ h) es) best

-- The peak is the largest number of arrivals in any 10 seconds, over the ends of the seconds
-- passed, as long as fewer than 2 ^ 63 events have passed.
peak_largest :
    (es : List Event)
    → length es < 2 ^ 63
    → (peak_run new_peak_rate_tracker es).peak ≡ peak_of [] es 0
unfolding new_peak_rate_tracker
peak_largest es few = peak_run-peak_of es new_peak_rate_tracker [] (omega arith) (record {
  size = refl;
  current = omega arith;
  cell = λ k h. get_or-replicate 10 (slot 10 0 k);
  whole = refl;
})
