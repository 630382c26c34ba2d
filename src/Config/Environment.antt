-- ===== src/Config/Environment.antt =====
-- burnin/config/config.go: applyEnvOverrides and FindConfigFile. The environment, strconv.Atoi and
-- os.Stat are parameters; an unset variable reads as the empty text.
use kubemq_gcp_pub_sub.Base.{
  ◌≡◌, refl, String, Bool, not, ◌||◌, Option, none, some, List, [], ◌∷◌, if◌then◌else◌,
}
use kubemq_gcp_pub_sub.Base.Int.{ℤ}
use kubemq_gcp_pub_sub.Base.Assoc.{eqs}
use kubemq_gcp_pub_sub.Config.{Config, WorkerConfig, WorkersConfig}
use kubemq_gcp_pub_sub.Config.Names.{
  worker_publish_pull_round_trip, worker_streaming_pull, worker_ordering_keys, worker_exactly_once,
  worker_dead_letter, worker_fan_out, worker_cross_protocol, worker_nack_redelivery,
  worker_filtering, worker_schema_enforce, worker_seek_snapshot, worker_inflight_cap,
}
use kubemq_gcp_pub_sub.Config.Lookup.{get_worker, set_worker}

unfoldable pub env_names : List (String × String)
env_names =
    (worker_publish_pull_round_trip, "PUBLISH_PULL_ROUND_TRIP")
    ∷ (worker_streaming_pull, "STREAMING_PULL")
    ∷ (worker_ordering_keys, "ORDERING_KEYS")
    ∷ (worker_exactly_once, "EXACTLY_ONCE")
    ∷ (worker_dead_letter, "DEAD_LETTER")
    ∷ (worker_fan_out, "FAN_OUT")
    ∷ (worker_cross_protocol, "CROSS_PROTOCOL_INTEROP")
    ∷ (worker_nack_redelivery, "NACK_REDELIVERY")
    ∷ (worker_filtering, "FILTERING")
    ∷ (worker_schema_enforce, "SCHEMA_ENFORCE")
    ∷ (worker_seek_snapshot, "SEEK_SNAPSHOT")
    ∷ (worker_inflight_cap, "INFLIGHT_CAP")
    ∷ []

-- The path from the command line, then the two places of the search order.
unfoldable pub find_config_file : (String → Bool) → String → String
find_config_file exists cli_path =
    if not (eqs cli_path "")
    then cli_path
    else if exists "./burnin-config.yaml"
    then "./burnin-config.yaml"
    else if exists "/etc/burnin/config.yaml"
    then "/etc/burnin/config.yaml"
    else ""

unfoldable pub or_value : Option ℤ → ℤ → ℤ
or_value none old = old
or_value (some n) old = n

-- `variable env suffix` is "BURNIN_" + env + suffix.
module _ (getenv : String → String) (atoi : String → Option ℤ)
    (variable : String → String → String) where
  -- A variable that is set replaces the value.
  unfoldable pub override : String → String → String
  override name old = let v = getenv name in if eqs v "" then old else v

  -- A number that does not parse is passed over.
  unfoldable pub override_number : String → ℤ → ℤ
  override_number name old = let v = getenv name in if eqs v "" then old else or_value (atoi v) old

  unfoldable pub override_flag : String → Bool → Bool
  override_flag name old =
      let v = getenv name in if eqs v "" then old else eqs v "true" || eqs v "1"

  unfoldable pub override_worker : String → WorkerConfig → WorkerConfig
  override_worker env wc = record wc {
    rate = override_number (variable env "_RATE") wc.rate;
    channels = override_number (variable env "_CHANNELS") wc.channels;
    enabled = override_flag (variable env "_ENABLED") wc.enabled;
  }

  unfoldable pub override_found :
      String → String → Option WorkerConfig → WorkersConfig → WorkersConfig
  override_found name env none ws = ws
  override_found name env (some wc) ws = set_worker ws name (override_worker env wc)

  -- The loop over the map; Go takes its entries in any order.
  unfoldable pub override_workers : List (String × String) → WorkersConfig → WorkersConfig
  override_workers [] ws = ws
  override_workers ((name, env) ∷ names) ws =
      override_workers names (override_found name env (get_worker ws name) ws)

  module _ {Float : Type 0} where
    unfoldable pub apply_env_overrides : Config Float → Config Float
    apply_env_overrides c = record c {
      broker = record c.broker {
        address =
            override "PUBSUB_EMULATOR_HOST" (override "KUBEMQ_BROKER_ADDRESS" c.broker.address);
        grpc_address = override "KUBEMQ_GRPC_ADDRESS" c.broker.grpc_address;
      };
      workers = override_workers env_names c.workers;
    }

    -- Whatever order Go takes the workers in, the result has each worker's own variables applied: here,
    -- for the block of fan_out.
    pub override_workers-fan_out :
        (c : Config Float)
        → (apply_env_overrides c).workers.fan_out ≡ override_worker "FAN_OUT" c.workers.fan_out
    unfolding apply_env_overrides override_workers env_names override_found get_worker set_worker
    override_workers-fan_out c = refl
