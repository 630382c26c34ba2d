-- ===== src/Tracker/Producer/Placement.antt =====
-- The branches of Record on a producer's state: a set of numbers to which an arrival is added.
use kubemq_gcp_pub_sub.Base.{
  ℕ, ◌+◌, ◌-◌, ◌^◌, ◌≤◌, ◌<◌, ◌≡◌, refl, Bool, true, false, length, leb, ◌==◌, ◌||◌, if◌then◌else◌,
  arith, Bool-cases, inl, inr,
}
use kubemq_gcp_pub_sub.Base.Words.{u64, sub64}
use kubemq_gcp_pub_sub.Tracker.Window.{get_bit, set_bit}
use kubemq_gcp_pub_sub.Tracker.Window.Laws.{get_bit-set_bit, length-set_bit, set_bit-AreWords}
use kubemq_gcp_pub_sub.Tracker.Pending.{mem, delete, mem-delete, delete-Distinct}
use kubemq_gcp_pub_sub.Tracker.Producer.{
  ProducerState, slide_window, advance_contiguous, count_duplicate, place,
}
use kubemq_gcp_pub_sub.Tracker.Producer.Seen.{seen, Fits, IsValid}
use kubemq_gcp_pub_sub.Tracker.Producer.Slide.{skipped, unmarked, slide_to-IsValid, slide_to-seen}

-- The numbers that an arrival makes seen: itself, if it lies below the end of the reorder window;
-- otherwise the ones that the window's move jumps over, and not itself.
abbrev pub absorbed : ℕ → ProducerState → ℕ → ℕ → Bool
absorbed r ps seq n =
    if leb (ps.high_contiguous + r + 1) seq
    then skipped r ps.high_contiguous (seq - r - 1) n
    else seq == n

module _ (r : ℕ) (ps : ProducerState) (seq : ℕ) (v : IsValid r ps) (word : seq < 2 ^ 64) where
  -- Past the window's end: slideWindow.
  module _ (past : ps.high_contiguous + r + 1 ≤ seq) where
    new_high : sub64 (sub64 seq r) 1 ≡ seq - r - 1
    new_high = omega (arith, v.fits.high_word)

    pub slide_window-IsValid : IsValid r (slide_window r ps seq)
    unfolding slide_window
    slide_window-IsValid = rw new_high (elim (Bool-cases (leb (seq - r - 1) ps.high_contiguous)) [
      | inl stay ↦
          let offset : sub64 (sub64 seq ps.high_contiguous) 1 ≡ r = ground arith in
          rw (stay, offset, unmarked) v
      | inr move ↦ rw move (
          slide_to-IsValid r ps seq (seq - r - 1) v.fits v.pending_low (omega arith) (ground arith)
            word v.distinct)
    ])

    pub slide_window-seen :
        (n : ℕ)
        → seen (slide_window r ps seq) n ≡ seen ps n || skipped r ps.high_contiguous (seq - r - 1) n
    unfolding slide_window
    slide_window-seen n = rw new_high (elim (Bool-cases (leb (seq - r - 1) ps.high_contiguous)) [
      | inl stay ↦
          let offset : sub64 (sub64 seq ps.high_contiguous) 1 ≡ r = ground arith in
          rw (stay, offset, unmarked) (ground arith)
      | inr move ↦ rw move (
          slide_to-seen r ps seq (seq - r - 1) v.fits v.pending_low (omega arith) (ground arith)
            word n)
    ])

  -- Within the window, at a position that is not set.
  module _ (above : ps.high_contiguous < seq) (within : seq < ps.high_contiguous + r + 1) where
    abbrev pub marked : ProducerState
    marked = record ps { window = set_bit ps.window (seq - ps.high_contiguous - 1) }

    get_bit-marked :
        (p : ℕ)
        → get_bit marked.window p ≡ (seq - ps.high_contiguous - 1 == p) || get_bit ps.window p
    get_bit-marked p =
        ground (arith, get_bit-set_bit ps.window (seq - ps.high_contiguous - 1) p, v.fits.wide)

    pub marked-Fits : Fits r ps.high_contiguous marked.window
    marked-Fits = record {
      words = set_bit-AreWords ps.window _ v.fits.words;
      high_word = v.fits.high_word;
      wide = omega (arith, v.fits.wide, length-set_bit ps.window (seq - ps.high_contiguous - 1));
      inside = λ p h. ground (arith, get_bit-marked p, v.fits.inside p);
      room = λ p h. ground (arith, get_bit-marked p, v.fits.room p);
    }

    pub marked-seen : (n : ℕ) → seen marked n ≡ seen ps n || seq == n
    marked-seen n = elim (Bool-cases (leb n ps.high_contiguous)) [
      | inl below ↦ rw below (ground arith)
      | inr over ↦ rw over (ground (arith, get_bit-marked (n - ps.high_contiguous - 1)))
    ]

  -- A suspected loss arrives.
  abbrev pub recovered : ProducerState
  recovered =
      let kept = delete seq ps.pending_lost in
      record ps { pending_lost = kept; confirmed_lost = u64 (length kept) }

  pub recovered-IsValid : IsValid r recovered
  recovered-IsValid = record {
    fits = v.fits;
    settled = v.settled;
    pending_low = λ n h. v.pending_low n (ground (arith, mem-delete n seq ps.pending_lost));
    distinct = delete-Distinct seq ps.pending_lost v.distinct;
    counted = refl;
  }

  -- Each branch of `place`, with the values that its tests have.
  pub data Branch : ProducerState × Bool → Type 0 where
    late : seq ≤ ps.high_contiguous → mem seq ps.pending_lost ≡ true → Branch (recovered, false)
    repeated : seen ps seq ≡ true → Branch (count_duplicate ps, true)
    slides : ps.high_contiguous + r + 1 ≤ seq → Branch (slide_window r ps seq, false)
    fresh :
        (above : ps.high_contiguous < seq) (within : seq < ps.high_contiguous + r + 1)
        → get_bit ps.window (seq - ps.high_contiguous - 1) ≡ false
        → Branch (advance_contiguous (marked above within), false)

  pub place-Branch : Branch (place r ps seq)
  unfolding place
  place-Branch = elim (Bool-cases (leb seq ps.high_contiguous)) [
    | inl below ↦ elim (Bool-cases (mem seq ps.pending_lost)) [
      | inl p ↦ rw (below, p) (late (ground arith) p)
      | inr p ↦ rw (below, p) (repeated (rw (below, p)))
    ]
    | inr above ↦
        let offset : sub64 (sub64 seq ps.high_contiguous) 1 ≡ seq - ps.high_contiguous - 1 =
          ground arith in
        elim (Bool-cases (leb r (seq - ps.high_contiguous - 1))) [
          | inl past ↦ rw (above, offset, past) (slides (ground arith))
          | inr within ↦ elim (Bool-cases (get_bit ps.window (seq - ps.high_contiguous - 1))) [
            | inl b ↦ rw (above, offset, within, b) (repeated (rw (above, b)))
            | inr b ↦ rw (above, offset, within, b) (fresh (ground arith) (ground arith) b)
          ]
        ]
  ]
