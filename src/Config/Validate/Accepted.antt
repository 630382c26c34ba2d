-- ===== src/Config/Validate/Accepted.antt =====
-- burnin/config/config.go: which configurations Validate accepts.
use kubemq_gcp_pub_sub.Base.{
  ◌≡◌, refl, ◌∙◌, sym, String, List, [], ◌∷◌, ◌++◌, Bool, true, false, not, ◌&&◌, ◌||◌, Option,
  none, some, any, check, ◌==◌, arith,
}
use kubemq_gcp_pub_sub.Base.Int.{pos, ltb_ℤ}
use kubemq_gcp_pub_sub.Base.Floats.{Floats}
use kubemq_gcp_pub_sub.Config.{Config, WorkerConfig}
use kubemq_gcp_pub_sub.Config.Names.{all_worker_names}
use kubemq_gcp_pub_sub.Config.Lookup.{get_worker_config}
use kubemq_gcp_pub_sub.Config.Validate.{
  ConfigError, is_warning, gcp_errors, worker_errors, Tally, tally_worker, tally_workers,
  message_errors, threshold_errors, validate, rejected,
}

-- Some error of the list is no warning.
unfoldable pub has_hard : List ConfigError → Bool
has_hard es = any (λ e. not (is_warning e)) es

pub has_hard-++ : (es fs : List ConfigError) → has_hard (es ++ fs) ≡ (has_hard es || has_hard fs)
unfolding has_hard
has_hard-++ [] fs = refl
has_hard-++ (e ∷ es) fs = ground (arith, has_hard-++ es fs)

has_hard-none : (b : Bool) → has_hard (check b ConfigError.none_enabled) ≡ b
unfolding has_hard is_warning
has_hard-none true = refl
has_hard-none false = refl

has_hard-many : (b : Bool) → has_hard (check b ConfigError.high_worker_count) ≡ false
unfolding has_hard is_warning
has_hard-many true = refl
has_hard-many false = refl

validated :
    (es : List ConfigError) (none_on : Bool) (ms ts : List ConfigError) (many : Bool)
    → has_hard (
        es
        ++ check none_on ConfigError.none_enabled
        ++ ms
        ++ ts
        ++ check many ConfigError.high_worker_count)
      ≡ (has_hard es || none_on || has_hard ms || has_hard ts)
validated es none_on ms ts many =
    grind (arith, has_hard-++, has_hard-none none_on, has_hard-many many)

module _ (F : Floats) (c : Config F.Float) where
  open F use {Float, gt, le, ratio, is_nan}

  -- An enabled worker whose own fields are out of range.
  unfoldable pub is_bad : String → Option WorkerConfig → Bool
  is_bad name none = false
  is_bad name (some wc) = wc.enabled && has_hard (worker_errors F c name wc)

  unfoldable pub is_enabled : Option WorkerConfig → Bool
  is_enabled none = false
  is_enabled (some wc) = wc.enabled

  unfoldable pub some_bad : List String → Bool
  some_bad names = any (λ name. is_bad name (get_worker_config c name)) names

  unfoldable pub some_enabled : List String → Bool
  some_enabled names = any (λ name. is_enabled (get_worker_config c name)) names

  tally_worker-errors :
      (name : String) (o : Option WorkerConfig) (t : Tally F)
      → has_hard (tally_worker F c name o t).errors ≡ (has_hard t.errors || is_bad name o)
  unfolding tally_worker is_bad
  tally_worker-errors name none t = ground arith
  tally_worker-errors name (some wc) t =
      ground (arith, has_hard-++ t.errors (worker_errors F c name wc))

  tally_workers-errors :
      (names : List String) (t : Tally F)
      → has_hard (tally_workers F c names t).errors ≡ (has_hard t.errors || some_bad names)
  unfolding tally_workers some_bad
  tally_workers-errors [] t = ground arith
  tally_workers-errors (name ∷ names) t =
      let o = get_worker_config c name in
      ground (
        arith,
        tally_workers-errors names (tally_worker F c name o t),
        tally_worker-errors name o t,
      )

  tally_worker-enabled :
      (name : String) (o : Option WorkerConfig) (t : Tally F)
      → ((tally_worker F c name o t).enabled_count == 0)
        ≡ (t.enabled_count == 0 && not (is_enabled o))
  unfolding tally_worker is_enabled
  tally_worker-enabled name none t = ground arith
  tally_worker-enabled name (some wc) t = ground arith

  tally_workers-enabled :
      (names : List String) (t : Tally F)
      → ((tally_workers F c names t).enabled_count == 0)
        ≡ (t.enabled_count == 0 && not (some_enabled names))
  unfolding tally_workers some_enabled
  tally_workers-enabled [] t = ground arith
  tally_workers-enabled (name ∷ names) t =
      let o = get_worker_config c name in
      ground (
        arith,
        tally_workers-enabled names (tally_worker F c name o t),
        tally_worker-enabled name o t,
      )

  -- What decides, among the errors of Validate.
  pub rejected_lem : rejected F c ≡ (
      has_hard (gcp_errors F c)
      || some_bad all_worker_names
      || not (some_enabled all_worker_names)
      || has_hard (message_errors F c)
      || has_hard (threshold_errors F c))
  unfolding rejected validate has_hard
  rejected_lem =
      let start : Tally F = record {
        errors = gcp_errors F c;
        enabled_count = 0;
        total_workers = pos 0;
      } in
      let t = tally_workers F c all_worker_names start in
      validated t.errors (t.enabled_count == 0) (message_errors F c) (threshold_errors F c)
        (ltb_ℤ (pos 1000) t.total_workers)
      ∙ ground (
        arith,
        tally_workers-errors all_worker_names start,
        tally_workers-enabled all_worker_names start,
      )

  p99_checked :
      has_hard (threshold_errors F c) ≡ false
      → le c.thresholds.max_p99_latency_ms (ratio 0 1) ≡ false
  unfolding threshold_errors has_hard is_warning
  p99_checked h = ground (arith, h)

  -- An accepted configuration whose p99 latency threshold is a number has one above 0.
  pub accepted_p99 :
      rejected F c ≡ false
      → is_nan c.thresholds.max_p99_latency_ms ≡ false
      → gt c.thresholds.max_p99_latency_ms (ratio 0 1) ≡ true
  accepted_p99 h number =
      let ok = p99_checked (ground (arith, sym rejected_lem ∙ h)) in
      ground (
        arith,
        ok,
        F.le-not-gt c.thresholds.max_p99_latency_ms (ratio 0 1) number
            (F.ratio-not_nan 0 1 (omega arith)),
      )
