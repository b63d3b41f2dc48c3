-- ===== src/Lib.antt =====
-- The order service of the repository, services/order-service: an orchestrated saga of an order's
-- stock, payment and points over MongoDB and RabbitMQ. `POST /api/order` stores an order and a saga,
-- reserves the stock and leaves a command in the saga's outbox; a relay publishes the commands, the
-- replies of the payment and auth services drive the saga through its states, a sweep takes up the
-- sagas whose deadline is past, and a payment callback settles orders of the older flow. Every
-- transition is one conditional update of one document, which is how concurrent consumers, workers and
-- instances are meant to stay apart.
--
-- The files, by the part of services/order-service that they are about:
--
--   Domain, Domain/{Money,OrderItem,Order}  src/domain: the constructors and the order's transitions,
--                  each a `Result`. Domain/Totals has their theorems.
--   Saga/State, Saga/State/Path  src/saga/SagaState.js: the states, the table, and paths through it.
--   Saga/Contracts  src/saga/sagaContracts.js: queues, messages, steps.
--   Saga/Orchestrator, Saga/Orchestrator/{Documents,Placement,Success,Compensation}
--                  src/saga/SagaOrchestrator.js: start_order is `startOrder`, handle_reply
--                  `handleReply`, handle_timeout `handleTimeout`, on_payment_failed
--                  `_onPaymentFailed`, and so on. What a handler does after an `if` is a function of
--                  its own, by clauses on what was tested.
--   Models         models/*.js: the documents.
--   Persistence/{Sagas,Orders,Inventory}  src/infrastructure/persistence: cas is the database operation
--                  of `compareAndAdvance`, retry_cas that of `retryCompensation`, try_reserve and
--                  already_reserved those of `reserve`, set_status that of `updateStatus`,
--                  once mongoose has cast the order's id, which or_cast_error stands for.
--   Messaging/{OutboxRelay,TimeoutSweep,ReplyConsumer}  src/infrastructure/messaging: the ticks of the
--                  two workers, and the callback of the consumer with its ack or nack.
--   Messaging/{Timers,Polling}, Messaging/ReplyConsumer/Restart  the timers that the workers hold: start
--                  and stop, and the consumer's restarts, as a relation on its state.
--   Messaging/Connection  src/infrastructure/messaging/RabbitMQConnection.js: the cached channel, as a
--                  relation on the connection's state.
--   Messaging/Publishers  src/infrastructure/messaging/SagaCommandPublisher.js and producer.js.
--   Infrastructure/Consul  infrastructure/consulRegistrar.js: the registration with its retries, the
--                  deregistration, and the shutdown.
--   Infrastructure/CircuitBreaker, Infrastructure/CircuitBreaker/Answers  circuitBreaker.js: the call of
--                  the auth service through a breaker of opossum, which with axios is a parameter.
--   Infrastructure/Metrics  src/infrastructure/metrics.js: the middleware, the labels, the gauge.
--   Bootstrap, Bootstrap/Workers  index.js and src/saga/sagaConfig.js: the start of the process, its
--                  settings, the workers that it starts and the shutdown's clean-up.
--   Driver, Driver/Run  a library that may refuse a call: the calls made are logged, and which are
--                  granted is a parameter.
--   Application/OrderService  src/application/OrderService.js.
--   Interfaces/OrderRoutes  src/interfaces/routes/orderRoutes.js: the routes' statuses. `Flow` says
--                  whether an orchestrator was injected, so POST /api/order goes to `startOrder` or to
--                  `createOrder`.
--   Utils/CorrelationId, Utils/CorrelationId/Pattern  src/utils/correlationId.js, and what its pattern
--                  matches.
--   Errors         the errors thrown, without their texts.
--   Async, Async/*  `async` functions: a computation returns, throws or awaits one operation on the
--                  shared state. Async/Logic has the rules for what a computation keeps whatever comes
--                  in at its awaits, Async/Schedule pools of computations and their schedules, in
--                  which a computation may also stop for good at any await (a crash, or a rejected
--                  promise), Async/Run runs that nothing comes into.
--   Mongo, Mongo/*  a collection as a record of operations with the laws that the driver documents.
--   Backend        the world: three collections, a clock, uuids that never repeat, the broker.
--   System/*       the invariant of the world between any two operations, that every handler keeps it,
--                  requests of every kind in any interleaving, and what this guarantees. The invariant is
--                  put together in System/Invariant; System/Standing has its part on an item's document
--                  and the sagas, System/Balance and System/Listing those on the stock that is taken,
--                  System/Commands that on a saga's outbox, and System/Growth what no step takes back.
--                  System/Guarantees/{Stock,Commands} have what follows for the inventory and for the
--                  commands that were ever left in an outbox. System/Moves
--                  is the abstract specification of a saga's document, as a relation of the moves that
--                  it may make, System/History what follows from it, and System/Attempts the bound
--                  on the retries.
--   Operations/*   what single operations and handlers do, branch by branch, run on their own:
--                  routes and placement (Ordering, OrderQueue, Outcome), the success and the
--                  compensation of a saga, and what the sweep does (Resumption, Timeouts).
--   Tests/*        collections as lists, a shop, runs of it, and the theorems at concrete inputs.
--
-- Amounts and quantities are integers here; the program's are JavaScript numbers, and it checks
-- nothing but their sign. MongoDB is a parameter: each operation is atomic on one document, which
-- its unique key picks, and a filter or update document is written as the function that it denotes.
-- An order's key is an ObjectId's text: what mongoose casts the id of a query to is a parameter, which
-- may reject it with CastError, as it does a text that is no ObjectId; an order is stored under a text
-- that is cast to itself. The fields of a request are texts and numbers, as the program expects them.
-- The broker is a parameter that may refuse a message. Loops are over the lists that a query
-- returns, or over the rounds left, as the five attempts of a registration are, so that nothing
-- runs out of fuel. Reading a document and writing it are steps of their own wherever the source
-- awaits in between.
--
-- Not modelled: the handlers of circuitBreaker.js that log a breaker's events; the wiring of
-- Express; the rendering of metrics, which is prom-client's; texts of log lines and errors;
-- documents' timestamps; contents of messages to RabbitMQ. The other services of the repository are
-- other programs, and what they answer is any reply at any time.
pub mod Application
pub mod Async
pub mod Backend
pub mod Bootstrap
pub mod Domain
pub mod Driver
pub mod Errors
pub mod Infrastructure
pub mod Interfaces
pub mod Messaging
pub mod Models
pub mod Mongo
pub mod Operations
pub mod Persistence
pub mod Prelude
pub mod Saga
pub mod System
pub mod Tests
pub mod Utils
