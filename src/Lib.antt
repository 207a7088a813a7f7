-- ===== src/Lib.antt =====
-- The inventory-storage service: stock units in bins, revocable reservations against their usable
-- quantity, and the use cases that a warehouse calls.
--
-- The parts, and the files that model them (paths from the repository's root):
--   * Shared (internal/domain/shared): SKUs, bin ids, quantities and domain events. Shared/Int is
--     Go's `int`, a 64-bit pattern below 2 ^ 64 in two's complement; a number below 2 ^ 63 is itself.
--   * Stock (internal/domain/stock): the stock unit, its stages, its invariant and its lifecycle.
--   * Location (internal/domain/location): the bin and its capacity rule.
--   * Reservation (internal/domain/reservation): the reservation's state machine.
--   * Product (internal/domain/product): handling tags, temperature and DOT hazard classes, and the
--     matrix of classes that must not share a bin.
--   * Store (internal/adapters/outbound/postgres): the tables, what a method with a context does to
--     them (World), the repositories and the outbox publisher (Repos), and the unit of work. Store/Keeps
--     has Hoare rules for these methods, Store/Runs what a successful run has done, Store/Clock
--     that the calls are numbered upwards, Store/Versions the optimistic-concurrency guard. Store/Relay is one pass of the outbox relay
--     (outbox_relay.go), on a table of its own.
--   * UseCases (internal/application/usecases): one module for each use case, named for it, with
--     `execute` for its `Execute`; Expiry is reservation_expiry.go and Allocate the `allocate` of
--     reserve_stock.go. The theorems that concern several use cases stand in Wellformed, Conservation,
--     Settled, Resolving and Picking. Settled/Due is about what expireIfDue writes, and
--     Reserve/Failures about a reservation that cannot be recorded after Reserve/Saved, its stock.
--   * Http (internal/adapters/inbound/http): Errors and Agreement are the status and the problem of an
--     error (errors.go), Response and Handlers the DTOs, the writers and the handlers (dto.go,
--     server.go, readiness.go), Routes the table of routes, and Idempotency the middleware of
--     idempotency.go: Idempotency/Entries says what it promises, Ledger that it keeps it, and Retries
--     what that means for a client that asks again.
--   * Facility (internal/adapters/outbound/facilitycache): Cache is the two maps, the application of
--     an event and the lookup, with Log, what the events say, Maps, how they change the maps, and
--     Lookup, that the lookup is what they say. Replay is the consumer with its readiness, and
--     Replay/DeadLetter the dead-letter publication.
--     Client is internal/adapters/outbound/facilitylayout.
--   * Analytics: Store is the read model in memory and Projection the one on Postgres
--     (internal/adapters/outbound/analyticsstore, internal/analytics/report), and Consumer is
--     internal/adapters/inbound/kafka/analytics_consumer.go. Http/Reports is reports_handler.go.
--   * Kafka (internal/adapters/outbound/kafka): Encode is what the publishers make of an event, and
--     Encode/Delivered what the analytics consumer reads of it. CloudEvents is the envelope
--     (internal/adapters/kafka/cloudevents), and Fanout the publishers of
--     internal/adapters/outbound/events.
--   * Mcp (internal/adapters/inbound/mcp): Tools is tools.go and mapping.go, Reports report_tool.go, and
--     Occupancy compares the occupancy of a bin with what an allocation can draw.
--   * Resilience: Breaker is internal/resilience, and BootRetry internal/adapters/outbound/bootretry.
--
-- A method that may fail takes a `World` and returns a `Result` and the world after it. Each call
-- that leaves the process has a number; `Env` says which calls fail, and gives the UUIDs, the clock,
-- the order of rows and the answers of facility-layout, which are code outside the repository. So a
-- theorem for every `Env` holds whichever calls fail. A time is a number of nanoseconds since the
-- epoch. The loops of the modelled code run over lists, and so need no fuel, but for two: `writeDLQ`
-- and the boot retry recurse on the passes that are left, which start at the source's own bounds, 40
-- and 5.
--
-- What is decoded comes decoded: a handler takes the DTO that `json.Decoder` made of the body, and a
-- consumer the CloudEvent and its data, `none` where decoding failed. A response's body stands for the
-- JSON that is written. A hash and the JSON of headers are parameters of the middleware.
--
-- A transaction is run alone: what two transactions do to each other is modelled only by the version
-- column, and by the primary key of idempotency_keys, on which a second insert waits for the first.
-- Left out of the store: a panic of a use case within a transaction, a COMMIT whose answer is lost, and
-- the constraints of the schema other than the keys, the versions and the ranges of the columns.
-- Not modelled: the writers of Kafka, the in-memory repositories, metrics and spans, and the wiring in
-- cmd: they serialise, call clients, or are for tests.
pub mod Prelude
pub mod Shared
pub mod Stock
pub mod Location
pub mod Reservation
pub mod Product
pub mod Store
pub mod UseCases
pub mod Http
pub mod Facility
pub mod Resilience
pub mod Analytics
pub mod Kafka
pub mod Mcp
pub mod Tests
