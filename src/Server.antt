-- ===== src/Server.antt =====
-- burnin/server/server.go: the answers of the run handlers, and StartRun and StopRun behind them. The body of
-- a request is left to the JSON decoder.
mod Guards
pub mod Status
mod Tests
use kubemq_gcp_pub_sub.Base.{
  ℕ, String, Bool, true, false, not, ◌&&◌, ◌||◌, Option, none, some, if◌then◌else◌,
}
use kubemq_gcp_pub_sub.Base.Assoc.{eqs}
use kubemq_gcp_pub_sub.Engine.Lifecycle.{RunState}

abbrev pub method_not_allowed : ℕ
method_not_allowed = 405

abbrev pub conflict : ℕ
conflict = 409

abbrev pub internal_server_error : ℕ
internal_server_error = 500

abbrev pub accepted : ℕ
accepted = 202

abbrev pub not_found : ℕ
not_found = 404

abbrev pub okay : ℕ
okay = 200

unfoldable pub state_name : RunState → String
state_name RunState.idle = "idle"
state_name RunState.starting = "starting"
state_name RunState.running = "running"
state_name RunState.stopping = "stopping"
state_name RunState.stopped = "stopped"
state_name RunState.error = "error"

-- The guard on the state's name; `started` is whether the controller's StartRun gave no error.
unfoldable pub handle_run_start : Bool → String → Bool → ℕ
handle_run_start is_post state started =
    if not is_post
    then method_not_allowed
    else if not (eqs state "idle") && not (eqs state "stopped") && not (eqs state "error")
    then conflict
    else if not started
    then internal_server_error
    else accepted

unfoldable pub handle_run_stop : Bool → Bool → ℕ
handle_run_stop is_post stopped =
    if not is_post then method_not_allowed else if not stopped then conflict else accepted

-- `present` is whether there is a configuration, or a report with its verdict.
unfoldable pub handle_run_config : Bool → ℕ
handle_run_config present = if present then okay else not_found

unfoldable pub handle_run_report : Bool → Bool → ℕ
handle_run_report has_summary has_verdict =
    if not has_summary || not has_verdict then not_found else okay
