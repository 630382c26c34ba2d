-- ===== src/Engine/Verdict/Gates.antt =====
-- burnin/engine/verdict.go: which gates a snapshot can fail, and the exemptions.
use kubemq_gcp_pub_sub.Base.{
  ℕ, ◌≡◌, refl, String, List, [], ◌∷◌, ◌++◌, Bool, true, false, not, ◌&&◌, ltb, check, arith,
}
use kubemq_gcp_pub_sub.Base.Int.{ℤ}
use kubemq_gcp_pub_sub.Base.Floats.{Floats}
use kubemq_gcp_pub_sub.Config.{Config}
use kubemq_gcp_pub_sub.Config.Names.{is_latency_gate_exempt, is_duplication_gate_exempt}
use kubemq_gcp_pub_sub.Engine.{WorkerSnapshot, Gate}
use kubemq_gcp_pub_sub.Engine.Verdict.{
  percent, gates, rate_gates, fidelity_gates, boundary_loss_pct,
}
use kubemq_gcp_pub_sub.Engine.Verdict.Decision.{is_empty}

pub is_empty-++ : (gs hs : List Gate) → is_empty (gs ++ hs) ≡ (is_empty gs && is_empty hs)
is_empty-++ [] hs = refl
is_empty-++ (g ∷ gs) hs = refl

pub is_empty-check : (b : Bool) (g : Gate) → is_empty (check b g) ≡ not b
is_empty-check true g = refl
is_empty-check false g = refl

and_false : (b : Bool) → (b && false) ≡ false
and_false true = refl
and_false false = refl

module _ (F : Floats) (c : Config F.Float) (d : ℤ) (name : String)
    (snap : WorkerSnapshot F.Float) where
  open F use {gt, of_uint}

  -- No worker is exempt from the loss gate: a snapshot whose loss is above both bounds is not
  -- clean, whatever the worker's name.
  pub loss_gate :
      (ltb 0 snap.sent
          && gt (percent F (of_uint snap.lost) (of_uint snap.sent)) c.thresholds.max_loss_pct
          && gt (percent F (of_uint snap.lost) (of_uint snap.sent)) (boundary_loss_pct F))
        ≡ true
      → is_empty (gates F c d name snap) ≡ false
  unfolding gates rate_gates
  loss_gate h = ground (arith, h)

  -- No gate looks at the latencies of a worker that is exempt from the latency gates, nor at the
  -- duplicates of a worker that is exempt from the duplication gate.
  pub exempt_ignored :
      (p50 p95 p99 p999 : F.Float) (dups : ℕ)
      → is_latency_gate_exempt name ≡ true
      → is_duplication_gate_exempt name ≡ true
      → gates F c d name (record snap {
        latency_p50 = p50;
        latency_p95 = p95;
        latency_p99 = p99;
        latency_p999 = p999;
        duplicated = dups;
      })
        ≡ gates F c d name snap
  unfolding gates rate_gates fidelity_gates
  exempt_ignored p50 p95 p99 p999 dups hl hd = simp (hl, hd, and_false)

  -- A probe that did not run cannot fail a run: with every flag down and no violation counted, no
  -- gate on events or probes fails, given that no dead letter was republished.
  unprobed_passes :
      (snap.flow_control_violations ≡ 0)
      → (snap.batch_atomicity_violations ≡ 0)
      → (snap.ordering_violations ≡ 0)
      → (snap.exactly_once_unreconciled ≡ 0)
      → (snap.dead_letter_lost ≡ 0)
      → (snap.fanout_dropped ≡ 0)
      → (snap.interop_diverged ≡ 0)
      → (snap.filter_mismatch ≡ 0)
      → (snap.schema_reject_violations ≡ 0)
      → (snap.seek_replay_mismatch ≡ 0)
      → (snap.inflight_cap_lost ≡ 0)
      → (snap.dead_letter_republished ≡ 0)
      → (snap.invalid_ack_probe_ran ≡ false)
      → (snap.confirmations_probe_ran ≡ false)
      → (snap.cross_stream_ack_probe_ran ≡ false)
      → (snap.lease_extend_probe_ran ≡ false)
      → (snap.schema_enforce_probe_ran ≡ false)
      → fidelity_gates F c d name snap ≡ []
  unfolding fidelity_gates
  unprobed_passes a b e f g h i j k l m n o p q r s =
      simp (a, b, e, f, g, h, i, j, k, l, m, n, o, p, q, r, s, and_false)
