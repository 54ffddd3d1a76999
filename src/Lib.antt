-- ===== src/Lib.antt =====
-- AlphaExchange, a platform that loads contestants' order books with bots, checks their fills
-- against a reference engine and ranks them: a model of its Go services and what holds of it.
--
-- The parts and how they meet. Contestants' uploads become containers (submission-api,
-- build-worker); the orchestrator drives a test through its states and tells the bot fleet to
-- begin; the bots send orders, form their own expectations and emit telemetry; the telemetry
-- ingester orders the events, replays them through the authoritative book and aggregates; the
-- leaderboard scores and fans out.
--
-- Base             shared names, lists, key sets of Go maps, dictionaries, the stable sort and what
--                  it keeps (Sorted), texts as code points, and the interface Float of float64.
-- Ingester.Book    services/telemetry-ingester/shadowbook/order_book.go: `process_order` is
--                  ProcessOrder, `match_market`, `match_limit`, `insert`, `cancel` its methods.
--                  Children: Fill (the inner loop), Sweep (the outer loops), Depth, Place
--                  (insertion), Removal (cancellation), Valid (the invariant), Grid (the amounts
--                  that float64 holds exactly), Outcomes and Fills (what an order is told), Queue
--                  (price-time priority and the refinement).
-- Ingester.Validator  services/telemetry-ingester/shadowbook/correctness_validator.go over
--                  Ingester.Book: `validate_batch` is ValidateBatch, `compare` is compare. Children:
--                  Verdicts, Replay.
-- Ingester.Histogram, Ingester.SlidingWindow
--                  services/telemetry-ingester/latency: hdr_histogram.go with Counts and Ranks,
--                  sliding_window.go with Window.
-- Ingester.Tps, Ingester.Aggregator
--                  services/telemetry-ingester/metrics: tps_counter.go with Rates, aggregator.go
--                  with Snapshots.
-- Ingester.Reorder, Ingester.Pipeline
--                  services/telemetry-ingester: reorder_buffer.go with Batches, pipeline.go with
--                  Counting, over the validator and the aggregators.
-- Ingester.Offsets  services/telemetry-ingester/kafka/offset_tracker.go, with Marks.
-- Reference        services/shadow-orderbook/orderbook.go, and its agreement with Ingester.Book.
-- BotFleet         services/bot-fleet: bots/shadow_book.go with its agreement,
--                  client/circuit_breaker.go with Trips (the invariant) and Cooldown; FillCheck is
--                  ValidateFill, with Passing. Runner is test_runner.go's assignPersonas, with Shares;
--                  Consumer is consumer.go, with Entries and Conservation; Telemetry is telemetry/producer.go
--                  as a step relation, with Losses and Draining.
-- Leaderboard.Hub  services/leaderboard-api/hub/websocket_hub.go: `handle` is one turn of Run.
-- Leaderboard.Scorer  services/leaderboard-api/scorer/scorer.go, with Ranks and Scores (its scores
--                  and those of Orchestrator.Scorer); Predictor is prediction.go, with History.
-- Leaderboard.Commentary  services/leaderboard-api/commentary/generator.go, with Decimals (itoa) and
--                  Repeats.
-- SubmissionApi    services/submission-api: Errors is apierrors and security/validator.go, Create is
--                  CreateTest of handlers/test.go. Children of Create: Accepted, Exclusive (one
--                  test at a time), Bots (what the bot fleet makes of the event). Board is
--                  handlers/leaderboard.go, with Agreement.
-- BuildWorker      services/build-worker. Containers is container_manager.go and cleanup_job.go,
--                  with Cleanup, Pruning and Tracking; Pipeline is worker.go, with Outcomes,
--                  Probing (the health probe) and Leftover.
-- Security         services/build-worker/zipbomb.go and
--                  services/submission-api/security/zip_bomb.go, with Bombs.
-- Orchestrator     services/orchestrator: state_machine.go over the statements of db.go. Children
--                  of StateMachine: Transition, Lifecycle (starting), Ending (stopping, failing).
--                  Dispatch is consumer.go, with Starts; Recovery is crash_recovery.go, with Passes;
--                  Scorer is scorer.go, with Single.
-- Tests            the results at concrete inputs: Boards, Book, Builds, Fleet, Ingester,
--                  Orchestrator, Recovery, Services.
--
-- Numbers. Prices and quantities of orders are natural numbers of billionths with exact sums. The
-- code adds and subtracts quantities as float64, which is exact on the multiples of 1/512 that stay
-- below 2 ^ 44 together (Ingester.Book.Grid); elsewhere it rounds, so that 0.8 against 0.1 and 0.7
-- is a partial fill in the code. What is said of amounts (Fills) is said on the exact ones; the
-- refinement by queues and the agreement of the engines compare two computations of the same sums
-- in the same order. The scores are computed over any arithmetic, and stand in hundredths at their end.
-- Loops are structural recursions: a level that keeps orders ends a match, since the incoming
-- order is served then. Only the health probe runs on fuel, sixteen rounds of two seconds for
-- its thirty. Clocks are arguments. The sums of zip sizes wrap around as int64; counts of
-- events, which stay far below 2 ^ 63, do not. A percentile's rank, a float product cut to an
-- integer, is a parameter.
--
-- Faults. Whether a statement, a DEL, a query or Produce succeeds whose error the code ignores or
-- only logs is an argument: of the state machine in `Race`, of the recovery in its `Setting`, of a
-- build in `Environment`, of the cleanup a Boolean. The order in which a loop over a Go map meets
-- its keys is an argument of the leaderboard's `compute`.
--
-- Not modelled: the image builds and their options, the bots' random orders, uploads, webhooks,
-- anomaly detection, the regression of the predictor, networking, HTTP routing, Kafka, Redis and
-- Postgres clients beyond the statements named, Docker, logging, Prometheus gauges, the
-- frontend.
pub mod Base
pub mod BotFleet
pub mod BuildWorker
pub mod Ingester
pub mod Leaderboard
pub mod Orchestrator
pub mod Reference
pub mod Security
pub mod SubmissionApi
pub mod Tests
