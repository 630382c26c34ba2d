-- ===== src/Config/Durations.antt =====
-- burnin/config/config.go: parseDuration and parseDurations. strings.HasSuffix with TrimSuffix,
-- strconv.Atoi and time.ParseDuration are parameters; a duration is in nanoseconds.
use kubemq_gcp_pub_sub.Base.{
  ◌≡◌, String, Bool, true, false, ◌&&◌, ◌||◌, Option, none, some, ◌⊎◌, inl, inr, if◌then◌else◌,
  arith,
}
use kubemq_gcp_pub_sub.Base.Int.{ℤ, pos, mul_int}
use kubemq_gcp_pub_sub.Base.Assoc.{eqs}
use kubemq_gcp_pub_sub.Config.{Config}

-- The field that an error names.
pub data DurationField : Type 0 where
  duration warmup_duration report_interval disconnect_interval disconnect_duration : DurationField
  reconnect_interval reconnect_max_interval max_duration : DurationField

module _ (trim_days : String → Option String) (atoi : String → Option ℤ)
    (parse_standard : String → Option ℤ) where
  unfoldable pub in_days : Option ℤ → Option ℤ
  in_days none = none
  in_days (some days) = some (mul_int (mul_int days (pos 24)) (pos 3600000000000))

  -- `trim_days` is the text before a final "d".
  unfoldable pub parse_duration : String → Option ℤ
  parse_duration s = elim (trim_days s) [ none ↦ parse_standard s | some n ↦ in_days (atoi n) ]

  -- A text that is not set keeps the old value; "0" counts as not set where `zero_unset` says so.
  unfoldable pub parse_field : Bool → String → ℤ → Option ℤ
  parse_field zero_unset text old =
      if eqs text "" || zero_unset && eqs text "0" then some old else parse_duration text

  module _ {Float : Type 0} where
    -- One block of parseDurations after the others: an error before it stays.
    unfoldable pub and_then :
        DurationField ⊎ Config Float
        → DurationField
        → (Config Float → Option ℤ)
        → (ℤ → Config Float → Config Float)
        → DurationField ⊎ Config Float
    and_then (inl e) field parse write = inl e
    and_then (inr c) field parse write = elim (parse c) [
      | none ↦ inl field
      | some d ↦ inr (write d c)
    ]

    unfoldable pub parse_durations : Config Float → DurationField ⊎ Config Float
    parse_durations c =
        let a =
          and_then (inr c) DurationField.duration
            (λ k. parse_field true k.duration k.duration_parsed)
            (λ d k. record k { duration_parsed = d }) in
        let b =
          and_then a DurationField.warmup_duration
            (λ k. parse_field false k.warmup_duration k.warmup_duration_parsed)
            (λ d k. record k { warmup_duration_parsed = d }) in
        let e =
          and_then b DurationField.report_interval
            (λ k. parse_field false k.metrics.report_interval k.report_interval_parsed)
            (λ d k. record k { report_interval_parsed = d }) in
        let f =
          and_then e DurationField.disconnect_interval
            (λ k. parse_field true k.forced_disconnect.interval k.forced_disconn_interval)
            (λ d k. record k { forced_disconn_interval = d }) in
        let g =
          and_then f DurationField.disconnect_duration
            (λ k. parse_field false k.forced_disconnect.duration k.forced_disconn_duration)
            (λ d k. record k { forced_disconn_duration = d }) in
        let h =
          and_then g DurationField.reconnect_interval
            (λ k. parse_field false k.recovery.reconnect_interval k.reconnect_interval)
            (λ d k. record k { reconnect_interval = d }) in
        let i =
          and_then h DurationField.reconnect_max_interval
            (λ k. parse_field false k.recovery.reconnect_max_interval k.reconnect_max_interval)
            (λ d k. record k { reconnect_max_interval = d }) in
        and_then i DurationField.max_duration
          (λ k. parse_field false k.thresholds.max_duration k.max_duration_parsed)
          (λ d k. record k { max_duration_parsed = d })

    -- What parse_durations gives, each text parsed for itself.
    abbrev pub IsParsed : Config Float → Config Float → Type 0
    IsParsed c p =
        (parse_field true c.duration c.duration_parsed ≡ some p.duration_parsed)
        × (parse_field false c.warmup_duration c.warmup_duration_parsed
            ≡ some p.warmup_duration_parsed)
        × (parse_field false c.metrics.report_interval c.report_interval_parsed
            ≡ some p.report_interval_parsed)
        × (parse_field true c.forced_disconnect.interval c.forced_disconn_interval
            ≡ some p.forced_disconn_interval)
        × (parse_field false c.forced_disconnect.duration c.forced_disconn_duration
            ≡ some p.forced_disconn_duration)
        × (parse_field false c.recovery.reconnect_interval c.reconnect_interval
            ≡ some p.reconnect_interval)
        × (parse_field false c.recovery.reconnect_max_interval c.reconnect_max_interval
            ≡ some p.reconnect_max_interval)
        × (parse_field false c.thresholds.max_duration c.max_duration_parsed
            ≡ some p.max_duration_parsed)

    -- An accepted configuration has every duration parsed from its own text: a text that does not
    -- parse is never passed over.
    parse_durations_lem : (c p : Config Float) → parse_durations c ≡ inr p → IsParsed c p
    unfolding parse_durations and_then
    parse_durations_lem c p h = ground (arith, h)
