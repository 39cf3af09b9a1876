-- ===== src/Lib.antt =====
-- The statusengine worker reads the events of a monitoring core from a message broker, writes them to
-- MySQL in batches and passes them on to websocket clients. This library models its core.
--
-- A consumer gives each payload of a queue to the handler of that queue. The handler decodes it,
-- publishes the events to the websocket hub and enqueues each of them on the bulk inserter of its
-- table; only a payload whose handler returns no error is acknowledged. A bulk inserter collects
-- rows in a goroutine of its own and writes a batch with one statement. Downtimes are no batches:
-- their handler runs the statements of a message one by one.
--
-- The parts, and the files of the repository they stand for:
--   Bulk       internal/db/db.go: options, statements, `Enqueue`, the select loop of `Run`, flushes and
--              retries. One constructor of `Input` is one case of the select.
--   Hub        internal/websocket/hub.go and client.go: the state of the hub, `Publish` and the select
--              loop of `Run`. What the read pump of a client sends to the hub, and the frames that
--              its write pump takes from its channel, are inputs between the rounds.
--   Queue      internal/queue/router.go and registry.go: the handlers of the queues. A handler is a
--              function from the payload and the state to an error, or none, and the state. Repair is
--              internal/queue/utf8.go; Consume is the loop of internal/queue/rabbitmq.go over the
--              deliveries of a queue; Shared is `Enqueue` on an inserter that others work on at the
--              same time; Restart is the handler of core restarts, on two bulk inserters.
--   Gearman    internal/queue/gearman.go: the goroutines of the consumer of a Gearman job server. A
--              step is what one of them does between two points at which another may go on.
--   Events     internal/types/events.go and internal/queue/decode.go: payloads and their decoding.
--   Tables     internal/queue/registry.go and processor.go: tables, columns, row functions and the
--              inserters of `NewRouter`.
--   Downtime   internal/queue/downtime_processor.go, registry.go and internal/db/downtime.go: the
--              downtime handler, down to the statements.
--   Perfdata   internal/queue/perfdata.go and processor.go: the parser of perf_data, graphite paths and
--              the perfdata handler.
--   Graphite   internal/graphite/graphite.go: the client of Carbon. One constructor of `Input` is one
--              case of the select of `Run`; the dials, writes and closings are a list.
--   Command    internal/command/validate.go, handler.go, auth.go and publisher.go: the HTTP API that
--              publishes external commands. A response is its status and its count.
--   Cleanup    internal/cleanup/cleanup.go: the deletion of old rows, table after table, in batches.
--   Metrics    the counters that the other parts tick. A tick is prepended to a list.
--
-- Go's `int` and `int64` of the events are integers. The counters of an inserter, of
-- the hub and of a consumer are ℕ modulo 2 ^ 64. Text of a statement and frames are lists of bytes.
--
-- What is not code of the repository is a parameter: json.Marshal and json.Unmarshal, float64 and
-- its truncation, the answers of MySQL, which an execution gets one by one, for downtimes the
-- effect that the documentation of MySQL gives each statement, and for old rows what a DELETE
-- with a limit removes; Windows-1252; the outcomes of the dials and writes of the graphite
-- client; for the command API the upper case of characters beyond ASCII, and what the client
-- libraries of the brokers return. An execution that has used up its answers still waits, and no
-- theorem takes a result from that. The loops over the bytes of a payload have its length for
-- fuel, of which every round takes at least one. The loop over the batches of a table has fuel,
-- and how much is enough is a theorem.
--
-- The clock, the context and the order in which goroutines run are inputs. What counts as one
-- step: a round of the `Run` of an inserter, of the hub or of the graphite client, between which
-- the theorems on them allow any calls; in Gearman, what its steps say, where the start of a new
-- worker's `Work` and its supervisor's way back are one; for a handler on the bulk inserter, one
-- turn, so that its calls of `Enqueue` block while others go on; a call of `WithPaused` has its
-- flush and its pause apart, with rounds and calls before, between and during them. The theorems
-- on handlers with `Enqueue` as a parameter, and those on downtimes and the cleanup, are about
-- one call, with nobody else at work on the state that it is given.
--
-- Not modelled: logging, the connections of the RabbitMQ consumer and how it stops, the failures
-- of `Start` of the gearman consumer, the websocket connections and the check of a client's key,
-- closing the command publishers, the channel of an inserter or of the graphite client being
-- closed, which nothing does, configuration, and the programs under cmd/.
pub mod Prelude
pub mod Metrics
pub mod Hub
pub mod Bulk
pub mod Queue
pub mod Downtime
pub mod Events
pub mod Tables
pub mod Perfdata
pub mod Command
pub mod Cleanup
pub mod Graphite
pub mod Gearman
