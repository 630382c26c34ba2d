-- ===== src/Config/Tests.antt =====
-- Runs of the configuration checks on the default configuration.
use kubemq_gcp_pub_sub.Base.{ℕ, ◌≡◌, refl, none, some, false, true, not, all, any, ◌&&◌}
use kubemq_gcp_pub_sub.Base.Int.{pos}
use kubemq_gcp_pub_sub.Config.{Config}
use kubemq_gcp_pub_sub.Config.Names.{all_worker_names}
use kubemq_gcp_pub_sub.Config.Lookup.{get_worker_config, total_channel_count}
use kubemq_gcp_pub_sub.Config.Default.{default_config, default_workers}
use kubemq_gcp_pub_sub.Config.Validate
use kubemq_gcp_pub_sub.Config.Validate.{rejected}
use kubemq_gcp_pub_sub.Config.Validate.Ranges.{
  gcp_fits, message_fits, thresholds_fit, worker_fits, is_on, rejected_ranges,
}
use kubemq_gcp_pub_sub.Samples.{milli}

abbrev defaults : Config ℕ
defaults = default_config milli

default_accepted : rejected milli defaults ≡ false
unfolding rejected Validate.validate Validate.tally_workers Validate.tally_worker get_worker_config
    kubemq_gcp_pub_sub.Config.Lookup.get_worker default_config default_workers Validate.gcp_errors
    Validate.outside Validate.worker_errors Validate.message_errors Validate.threshold_errors
    Validate.outside_pct kubemq_gcp_pub_sub.Base.Int.add_int kubemq_gcp_pub_sub.Base.Int.mul_int
    Validate.consumers
default_accepted = refl

rejected_ranges_example :
    rejected milli defaults
    ≡ not (
        gcp_fits milli defaults
        && message_fits milli defaults
        && thresholds_fit milli defaults
        && all
            (λ name. worker_fits milli defaults name (get_worker_config defaults name))
            all_worker_names
        && any (λ name. is_on milli defaults (get_worker_config defaults name)) all_worker_names)
rejected_ranges_example = rejected_ranges milli defaults

-- Every text parses as 7 nanoseconds, and none is in days.
abbrev parsed : Config ℕ
parsed = record defaults {
  duration_parsed = pos 7;
  report_interval_parsed = pos 7;
  forced_disconn_duration = pos 7;
  reconnect_interval = pos 7;
  reconnect_max_interval = pos 7;
  max_duration_parsed = pos 7;
}
