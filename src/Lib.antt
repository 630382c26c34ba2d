-- ===== src/Lib.antt =====
-- The burn-in harness for the Google Cloud Pub/Sub connector of KubeMQ (burnin/). Workers
-- publish and receive numbered messages; each feeds what it receives to a sequence tracker and
-- counts what it sees; the engine starts the workers, freezes their counters in snapshots when
-- the producers have stopped, and judges the snapshots against the thresholds of the
-- configuration; the report judges rollups of the same snapshots, and its verdict is reconciled
-- with that of the engine.
--
-- - Base: Boolean tests, lists, 64-bit words, bit operations, signed integers, the interface of
--   float64 (Base.Floats), association lists for Go maps, and what the code uses of strconv and
--   the checksum (Base.Codec).
-- - Config: burnin/config/config.go: the records, DefaultConfig (Config.Default), the worker
--   names and exemptions (Config.Names), GetWorkerConfig and its relatives (Config.Lookup),
--   Validate (Config.Validate), applyEnvOverrides (Config.Environment), parseDurations
--   (Config.Durations).
-- - Payload: burnin/payload/payload.go: ParseDistribution and SelectSize, the draw of rand.IntN
--   an argument.
-- - Metrics: burnin/metrics/metrics.go: SlidingRateWindow and PeakRateTracker as ring buffers.
-- - Tracker: burnin/tracker/tracker.go: setBit, getBit and shiftLeft (Tracker.Window), the map
--   pendingLost (Tracker.Pending), Record for one producer (Tracker.Producer), the methods of
--   Tracker (Tracker).
-- - Worker: burnin/worker/worker.go: the state of BaseWorker and its counter helpers;
--   burnin/worker/ordering_keys.go: checkOrdering (Worker.Ordering).
-- - Worker.Attrs, Worker.Handling, Worker.Publishing: burnin/worker/attrs.go, and what the
--   workers share: stampAttrs and extractMeta, handleMessage, and the passes of produceLoop,
--   for streaming_pull.go, fan_out.go, ordering_keys.go and filtering.go.
-- - Worker.DeadLetter, Worker.Interop, Worker.Reconcile: burnin/worker/dead_letter.go and
--   cross_protocol_interop.go, with the count of overdue messages that both use.
-- - Worker.Nack, Worker.ExactlyOnce, Worker.Inflight, Worker.Seek, Worker.Schema, Worker.Batch,
--   Worker.Probes: burnin/worker/nack_redelivery.go, exactly_once.go, inflight_cap.go,
--   seek_snapshot.go, schema_enforce.go, publish_pull_round_trip.go, the probes of
--   streaming_pull.go, and burnin/transport/apiv1_ops.go (Worker.Probes.Clamp,
--   Worker.ExactlyOnce.Answers).
-- - Engine: burnin/engine/engine.go: captureWorkerSnapshots (Engine.Capture), the steps of a
--   run (Engine.Lifecycle), the setup of runLoop with warmup and burnin/engine/worker_group.go
--   (Engine.Setup), drainToQuiescence (Engine.Drain), shutdownWorkers (Engine.Shutdown),
--   GracefulShutdown and the exit code of burnin/main.go (Engine.Exit);
--   burnin/engine/verdict.go: computeVerdict (Engine.Verdict).
-- - Report: burnin/report/report.go: GenerateVerdict; burnin/main.go: the rollups and the
--   reconciliation of RunReport.
-- - Worker.Start: Start of every worker, as the steps that burnin/engine/worker_group.go makes
--   it take, with the configurations that burnin/transport builds for them.
-- - Worker.Receiving: the receive loop of streaming_pull.go, reconnectBackoff of
--   burnin/worker/util.go and selectMessageSize of burnin/worker/worker.go.
-- - Server: burnin/server/server.go: the answers of the handlers that start, stop and report a
--   run; RunStatus and RunSnapshot of burnin/main.go (Server.Status).
-- - Tools: burnin/cmd/verify/main.go and burnin/cmd/cleanup/main.go.
-- - Disconnect: burnin/disconnect/disconnect.go.
-- - Engine.Periodic: the periodic tasks of burnin/engine/engine.go: a tick of gapDetector and
--   rateAdvancer, logStatus (Engine.Periodic.Status), memoryTracker (Engine.Periodic.Memory).
-- - Worker.Exporting: the counter helpers of burnin/worker/worker.go with the vectors of
--   burnin/metrics/metrics.go (Metrics.Exported).
-- - Transport: burnin/transport/resources.go: addresses, resource names and idempotent
--   creation.
-- - Samples: concrete values for the runs in the modules named Tests, each of which belongs to
--   the part it stands in.
--
-- A method under a mutex, and an atomic operation, is one function from state to state; a
-- sequence of them is a list of events. A uint64 is a native number with its remainder by 2 ^
-- 64 written out, an int of the configuration is a signed integer. A float64 is a value of an
-- interface that states what IEEE 754 says of comparisons and of percentages of counters. What
-- Inc, Add and Set of the Prometheus library make of a value is a parameter (Vectors in
-- Metrics.Exported). A Go map is an association list, and where its order of iteration could
-- matter the order is a parameter of the theorem or shown not to matter. A text that is only
-- printed is a constructor.
--
-- What the Pub/Sub client answers, the clock and the random draws are arguments or events, so
-- that a theorem holds for every answer. A worker's goroutines are sequences of passes through
-- their loops; where producers share a counter, taking a number and publishing it are two steps
-- (Worker.Publishing), while a pass is one step in Worker.Batch, Worker.DeadLetter,
-- Worker.Interop and Worker.Inflight. The close of a run's channel is a step apart from the
-- section under the mutex that reads it (Engine.Lifecycle).
--
-- The loops of the tracker that the code bounds by the window run on a fuel: advanceContiguous
-- on the number of bits of the window, which suffices since a shift empties one position each
-- time (Tracker.Producer.Advance); drainToQuiescence runs on a fuel of polls, and enough of
-- them are given where each takes the poll interval (Engine.Drain); ackMany on the number of
-- ids, of which each chunk takes one at least (Worker.Inflight); every other loop is
-- structural, over the events or pulls that the run meets.
--
-- Not modelled: the Pub/Sub and gRPC clients (burnin/transport), the Prometheus library, the
-- HDR histogram (an interface in Worker), the HTTP transport and JSON of the server, the
-- printed and written report, and the examples.
pub mod Base
pub mod Config
pub mod Payload
pub mod Metrics
pub mod Tracker
pub mod Worker
pub mod Engine
pub mod Report
pub mod Disconnect
pub mod Samples
pub mod Server
pub mod Tools
pub mod Transport
