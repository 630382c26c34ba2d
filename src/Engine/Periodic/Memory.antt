-- ===== src/Engine/Periodic/Memory.antt =====
-- burnin/engine/engine.go: memoryTracker, and the last sample of shutdownWorkers. What runtime.ReadMemStats
-- and the clock give is listed sample by sample; durations are nanoseconds.
use kubemq_gcp_pub_sub.Base.{
  ℕ, ◌*◌, ◌≤◌, ◌≡◌, refl, Bool, true, false, not, ◌&&◌, List, [], ◌∷◌, ◌++◌, map, Option, none,
  some, ltb, leb, if◌then◌else◌, arith, ap, ◌∙◌, Bool-cases, inl, inr,
}
use kubemq_gcp_pub_sub.Base.Int.{ℤ, pos, ltb_ℤ}
use kubemq_gcp_pub_sub.Worker.Counting.{largest}

pub record MemoryTracker : Type 0 where
  pub baseline_rss : ℕ
  pub peak_rss : ℕ
  pub baseline_set : Bool

-- One tick: m.Sys, the time since the start, and the DurationParsed of the run's configuration if there is one.
pub record Sample : Type 0 where
  pub sys : ℕ
  pub since_start : ℕ
  pub duration : Option ℤ

-- As a run starts.
unfoldable pub new_memory_tracker : MemoryTracker
new_memory_tracker = record { baseline_rss = 0; peak_rss = 0; baseline_set = false }

unfoldable pub baseline_deadline : Option ℤ → ℕ
baseline_deadline none = 300 * 1000000000
baseline_deadline (some d) =
    if ltb_ℤ (pos 0) d && ltb_ℤ d (pos (300 * 1000000000))
    then 10 * 1000000000
    else 300 * 1000000000

unfoldable pub raise_peak : ℕ → MemoryTracker → MemoryTracker
raise_peak sys m = if ltb m.peak_rss sys then record m { peak_rss = sys } else m

unfoldable pub is_due : Sample → Bool
is_due s = leb (baseline_deadline s.duration) s.since_start

unfoldable pub track_sample : Sample → MemoryTracker → MemoryTracker
track_sample s m =
    let m' = raise_peak s.sys m in
    if not m'.baseline_set && is_due s
    then record m' { baseline_rss = s.sys; baseline_set = true }
    else m'

unfoldable pub track_memory : List Sample → MemoryTracker → MemoryTracker
track_memory [] m = m
track_memory (s ∷ ss) m = track_memory ss (track_sample s m)

-- The first sample at or past its deadline, or none.
abbrev pub first_due : List Sample → ℕ → ℕ
first_due [] none_due = none_due
first_due (s ∷ ss) none_due = if is_due s then s.sys else first_due ss none_due

-- The growth is measured against the first sample after the deadline: it never moves again.
track_memory_keeps :
    (s : Sample) (m : MemoryTracker)
    → m.baseline_set ≡ true
    → ((track_sample s m).baseline_rss ≡ m.baseline_rss) × ((track_sample s m).baseline_set ≡ true)
unfolding track_sample raise_peak
track_memory_keeps s m h = ground (arith, h)

track_memory_peak :
    (ss : List Sample) (m : MemoryTracker)
    → (track_memory ss m).peak_rss ≡ largest (map (λ s. s.sys) ss) m.peak_rss
unfolding track_memory track_sample raise_peak
track_memory_peak [] m = refl
track_memory_peak (s ∷ ss) m =
    track_memory_peak ss (track_sample s m) ∙ ap (largest (map (λ s. s.sys) ss)) (ground arith)

track_memory_baseline :
    (ss : List Sample) (m : MemoryTracker)
    → m.baseline_rss ≤ m.peak_rss
    → let m' = track_memory ss m in
      (m'.baseline_rss ≡ (if m.baseline_set then m.baseline_rss else first_due ss m.baseline_rss))
      × (m'.baseline_rss ≤ m'.peak_rss)
unfolding track_memory track_sample raise_peak
track_memory_baseline [] m h = (ground arith, h)
track_memory_baseline (s ∷ ss) m h =
    let (rest, low) = track_memory_baseline ss (track_sample s m) (ground arith) in
    (rest ∙ ground arith, low)

largest_last :
    (vs : List ℕ) (v m : ℕ)
    → largest (vs ++ v ∷ []) m ≡ (if ltb (largest vs m) v then v else largest vs m)
largest_last [] v m = refl
largest_last (w ∷ vs) v m = largest_last vs v (if ltb m w then w else m)

-- After the samples of a run and the one at its shutdown: the peak is the largest of all of them, the
-- baseline is the first sample of the run at or past its deadline, or 0, and the peak is not below
-- the baseline.
pub track_memory_lem :
    (ss : List Sample) (last : ℕ)
    → let m = raise_peak last (track_memory ss new_memory_tracker) in
      (m.peak_rss ≡ largest (map (λ s. s.sys) ss ++ last ∷ []) 0)
      × (m.baseline_rss ≡ first_due ss 0)
      × (m.baseline_rss ≤ m.peak_rss)
unfolding raise_peak new_memory_tracker
track_memory_lem ss last =
    let m = track_memory ss new_memory_tracker in
    let top = track_memory_peak ss new_memory_tracker in
    let (first, low) = track_memory_baseline ss new_memory_tracker (omega arith) in
    let whole = largest_last (map (λ s. s.sys) ss) last 0 in
    elim (Bool-cases (ltb m.peak_rss last)) [
      | inl up ↦ rw up (ground (arith, top, whole), first, ground arith)
      | inr down ↦ rw down (ground (arith, top, whole), first, low)
    ]
