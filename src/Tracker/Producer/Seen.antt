-- ===== src/Tracker/Producer/Seen.antt =====
-- What a producer's state says of each sequence number, and the invariant that Record keeps.
use kubemq_gcp_pub_sub.Base.{
  ℕ, ◌+◌, ◌-◌, ◌*◌, ◌^◌, ◌≤◌, ◌<◌, ◌≡◌, List, Bool, true, false, not, length, leb, if◌then◌else◌,
}
use kubemq_gcp_pub_sub.Base.Words.{u64}
use kubemq_gcp_pub_sub.Tracker.Window.{get_bit}
use kubemq_gcp_pub_sub.Tracker.Window.Laws.{AreWords}
use kubemq_gcp_pub_sub.Tracker.Pending.{mem, Distinct}
use kubemq_gcp_pub_sub.Tracker.Producer.{ProducerState}

-- At or below the watermark a number counts as seen unless it is a suspected loss; above it, if
-- its position in the window is set.
abbrev pub seen_at : ℕ → List ℕ → List ℕ → ℕ → Bool
seen_at high window pending n =
    if leb n high then not (mem n pending) else get_bit window (n - high - 1)

abbrev pub seen : ProducerState → ℕ → Bool
seen ps n = seen_at ps.high_contiguous ps.window ps.pending_lost n

-- The window holds no position at or past the reorder window, and none that stands for a number
-- past the largest uint64.
pub record Fits (reorder_window high : ℕ) (window : List ℕ) : Type 0 where
  pub words : AreWords window
  pub high_word : high < 2 ^ 64
  pub wide : reorder_window ≤ length window * 64
  pub inside : (p : ℕ) → reorder_window ≤ p → get_bit window p ≡ false
  pub room : (p : ℕ) → get_bit window p ≡ true → high + 1 + p < 2 ^ 64

pub record IsValid (reorder_window : ℕ) (ps : ProducerState) : Type 0 where
  pub fits : Fits reorder_window ps.high_contiguous ps.window
  pub settled : get_bit ps.window 0 ≡ false
  pub pending_low : (n : ℕ) → mem n ps.pending_lost ≡ true → n ≤ ps.high_contiguous
  pub distinct : Distinct ps.pending_lost
  pub counted : ps.confirmed_lost ≡ u64 (length ps.pending_lost)
