-- ===== src/Tracker/Producer.antt =====
-- burnin/tracker/tracker.go: the state of one producer, Record on it, advanceContiguous and
-- slideWindow. Counters are uint64 and wrap. The reorder window is a Go `int`, which the
-- configuration keeps at 100 or more, and so is a number.
pub mod Seen
pub mod Advance
pub mod Slide
pub mod Placement
pub mod Arrival
pub mod Losses
pub mod First
pub mod Runs
use kubemq_gcp_pub_sub.Base.{
  ℕ, zero, suc, ◌+◌, ◌*◌, ◌/◌, List, [], ◌∷◌, Bool, true, false, length, replicate, ltb, leb,
  if◌then◌else◌,
}
use kubemq_gcp_pub_sub.Base.Words.{u64, add64, sub64}
use kubemq_gcp_pub_sub.Tracker.Window.{set_bit, get_bit, shift_left}
use kubemq_gcp_pub_sub.Tracker.Pending.{mem, put, delete}

pub record ProducerState : Type 0 where
  pub high_contiguous : ℕ
  pub window : List ℕ
  pub received : ℕ
  pub duplicates : ℕ
  pub out_of_order : ℕ
  pub confirmed_lost : ℕ
  pub pending_lost : List ℕ
  pub last_reported_lost : ℕ
  pub last_seen : ℕ

-- The loop of advanceContiguous over its two variables. Every round shifts the window once, so as
-- many rounds as the window has positions empty it.
unfoldable pub advance : ℕ → ℕ → List ℕ → ℕ × List ℕ
advance zero high window = (high, window)
advance (suc fuel) high window = elim (get_bit window 0) [
  | true ↦ advance fuel (add64 high 1) (shift_left window)
  | false ↦ (high, window)
]

unfoldable pub advance_contiguous : ProducerState → ProducerState
advance_contiguous ps =
    let (high, window) = advance (suc (length ps.window * 64)) ps.high_contiguous ps.window in
    record ps { high_contiguous = high; window = window }

-- The loop that records as pending what leaves the window unseen: `rounds` more, from offset i on.
unfoldable pub evict : ℕ → ℕ → ℕ → List ℕ → List ℕ → List ℕ
evict zero i high window pending = pending
evict (suc rounds) i high window pending =
    evict rounds (suc i) high window
      (if get_bit window i then pending else put (add64 (add64 high 1) i) pending)

unfoldable pub shift_times : ℕ → List ℕ → List ℕ
shift_times zero window = window
shift_times (suc rounds) window = shift_times rounds (shift_left window)

-- `if int(offset) < t.reorderWindow { setBit(ps.window, int(offset)) }`
unfoldable pub mark : ℕ → ℕ → List ℕ → List ℕ
mark reorder_window offset window =
    if ltb offset reorder_window then set_bit window offset else window

-- The part of slideWindow after its early return: the watermark moves to new_high.
unfoldable pub slide_to : ℕ → ProducerState → ℕ → ℕ → ProducerState
slide_to reorder_window ps new_seq new_high =
    let dist = sub64 new_high ps.high_contiguous in
    let slide_dist = if ltb reorder_window dist then reorder_window else dist in
    let pending = evict slide_dist 0 ps.high_contiguous ps.window ps.pending_lost in
    let offset = sub64 (sub64 new_seq new_high) 1 in
    advance_contiguous (record ps {
      pending_lost = pending;
      confirmed_lost = u64 (length pending);
      high_contiguous = new_high;
      window = mark reorder_window offset (shift_times slide_dist ps.window);
    })

unfoldable pub slide_window : ℕ → ProducerState → ℕ → ProducerState
slide_window reorder_window ps new_seq =
    let new_high = sub64 (sub64 new_seq reorder_window) 1 in
    let offset = sub64 (sub64 new_seq ps.high_contiguous) 1 in
    if leb new_high ps.high_contiguous
    then record ps { window = mark reorder_window offset ps.window }
    else slide_to reorder_window ps new_seq new_high

-- Record for a producer that is not in the map yet.
unfoldable pub new_producer : ℕ → ℕ → ProducerState
new_producer reorder_window seq = advance_contiguous (record {
  high_contiguous = sub64 seq 1;
  window = set_bit (replicate ((reorder_window + 63) / 64) 0) 0;
  received = 1;
  duplicates = 0;
  out_of_order = 0;
  confirmed_lost = 0;
  pending_lost = [];
  last_reported_lost = 0;
  last_seen = seq;
})

-- Record counts every arrival, and notes one that is below the previous arrival.
unfoldable pub count_arrival : ProducerState → ℕ → ProducerState
count_arrival ps seq = record ps {
  received = add64 ps.received 1;
  out_of_order = if ltb seq ps.last_seen then add64 ps.out_of_order 1 else ps.out_of_order;
  last_seen = seq;
}

abbrev pub count_duplicate : ProducerState → ProducerState
count_duplicate ps = record ps { duplicates = add64 ps.duplicates 1 }

-- The branches of Record for a counted arrival: the new state, and whether it is a duplicate.
unfoldable pub place : ℕ → ProducerState → ℕ → ProducerState × Bool
place reorder_window ps seq =
    let kept = delete seq ps.pending_lost in
    let offset = sub64 (sub64 seq ps.high_contiguous) 1 in
    if leb seq ps.high_contiguous
    then (if mem seq ps.pending_lost
        then (record ps { pending_lost = kept; confirmed_lost = u64 (length kept) }, false)
        else (count_duplicate ps, true))
    else (if leb reorder_window offset
        then (slide_window reorder_window ps seq, false)
        else (if get_bit ps.window offset
            then (count_duplicate ps, true)
            else (advance_contiguous (record ps { window = set_bit ps.window offset }), false)))

-- Record for a producer in the map: the new state, isDuplicate and isOutOfOrder.
unfoldable pub record_known : ℕ → ProducerState → ℕ → ProducerState × Bool × Bool
record_known reorder_window ps seq =
    let (placed, is_duplicate) = place reorder_window (count_arrival ps seq) seq in
    (placed, is_duplicate, ltb seq ps.last_seen)
