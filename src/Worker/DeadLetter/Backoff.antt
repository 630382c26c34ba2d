-- ===== src/Worker/DeadLetter/Backoff.antt =====
-- burnin/worker/dead_letter.go: growingGaps and the polls of retryBackoffProbe. A poll is its time and
-- whether the pull gave the message; a pull that fails is no poll. Times are in nanoseconds.
use kubemq_gcp_pub_sub.Base.{
  ℕ, ◌-◌, ◌*◌, ◌/◌, ◌≡◌, ◌<◌, refl, Bool, true, false, ◌&&◌, ◌||◌, Option, none, some, List, [],
  ◌∷◌, ◌++◌, length, ltb, leb, arith, if◌then◌else◌,
}
use kubemq_gcp_pub_sub.Worker.{BaseWorker, record_retry_backoff_observed}

-- Fewer than two gaps never grow.
unfoldable pub growing_gaps : List ℕ → Bool
growing_gaps [] = false
growing_gaps (g ∷ []) = false
growing_gaps (g ∷ h ∷ gs) = leb (g * 3 / 2) h || growing_gaps (h ∷ gs)

pub record Sightings : Type 0 where
  pub visible : Bool
  pub last_seen : ℕ
  pub last_boundary : Option ℕ
  pub gaps : List ℕ

unfoldable pub no_sightings : Sightings
no_sightings = record { visible = false; last_seen = 0; last_boundary = none; gaps = [] }

unfoldable pub add_gap : Option ℕ → ℕ → List ℕ → List ℕ
add_gap none now gaps = gaps
add_gap (some last) now gaps = gaps ++ (now - last) ∷ []

-- A boundary is a sighting after a poll at which the message was not visible.
unfoldable pub sight : ℕ → Bool → Sightings → Sightings
sight now true s = record {
  visible = true;
  last_seen = now;
  last_boundary = if s.visible then s.last_boundary else some now;
  gaps = if s.visible then s.gaps else add_gap s.last_boundary now s.gaps;
}
sight now false s =
    if s.visible && ltb 1500000000 (now - s.last_seen) then record s { visible = false } else s

-- One gap is never growth.
pub one_gap_is_silent : (gaps : List ℕ) → length gaps < 2 → growing_gaps gaps ≡ false
unfolding growing_gaps
one_gap_is_silent [] h = refl
one_gap_is_silent (g ∷ []) h = refl
one_gap_is_silent (g ∷ k ∷ gaps) h = absurd (omega arith)

module _ {Hist : Type 0} where
  -- The polls before the deadline; the probe ends with the first gaps that grow.
  unfoldable pub poll : List (ℕ × Bool) → Sightings → BaseWorker Hist → BaseWorker Hist
  poll [] s w = w
  poll ((now, got) ∷ polls) s w =
      let rest = poll polls (sight now got s) w in
      if growing_gaps (sight now got s).gaps then record_retry_backoff_observed w else rest
