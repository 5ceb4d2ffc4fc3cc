-- ===== src/Lib.antt =====
-- s3mer: an S3 proxy that writes to one of several backends and replicates to the others.
--
-- The proxy classifies an HTTP request into an operation, prepares its body, and runs the operation
-- by a strategy on a pool of backends: a read asks the backends in turn, a write goes to the first
-- backend that accepts it and is then handed to Kafka for the others. A worker consumes the
-- messages, copies each object from the source to its targets, and retries or gives up. Each
-- backend may have a circuit breaker, which takes it off the lists of candidates for a while.
--
-- Base, Dict, Value and Exec hold what the modules share: native numbers and Boolean tests, lists,
-- dictionaries in insertion order, the dynamic values of the S3 client library, and computations
-- that change a state and may raise. Their state comes back after an exception too.
--
-- Operations: s3mer/routing/operations.py.
-- Errors: s3mer/common/error_registry.py and the classifier of s3mer/common/errors.py. An
--   exception is its class, the response of a botocore error and its text.
-- Breaker: s3mer/backends/circuit_breaker.py. The clock is an argument, in whole ticks.
-- Streaming: s3mer/common/streaming.py. Reader is ASGIStreamReader over the list of messages that
--   `receive` will give, Buffered is BufferedStreamReader over the list of chunks of its source with
--   the contents and the position of its spooled file, Decoder is AWSChunkedDecoder. Its loops run
--   on fuel: the filling of the raw buffer takes a byte in each round, so the bytes left in the
--   reader bound it; the loop of a read is bounded by a measure of what is left to decode. Hex reads
--   a number as `int(s, 16)` does. The decoder's read(-1) is left out.
--   Shared is MultiSyncBodyBuffer with AsyncBytesReader and ConcurrentFileStream: a temporary file is
--   its content, and the number of such files is passed along.
-- Routing: s3mer/routing/classifier.py. The query is a dictionary, as `parse_qsl` of the standard
--   library gives it; texts of the path are lists of code points.
-- Pool: s3mer/backends/pool.py. A client is referred to by its name; the breakers stand beside them.
-- Message, Env and Node: the messages (s3mer/kafka/messages.py and dlq.py); what the program uses
--   and does not implement, as the fields of a record over an unknown world (the S3 client library,
--   the broker, the consumer, the clocks, uuid4); and the state of a process. Node.execute is
--   S3BackendClient.execute of s3mer/backends/client.py. Durations in metrics and log lines are
--   left out.
-- Strategies: s3mer/backends/strategies.py. A streamed body is a list of chunks, wrapped and
--   rewound as the code does; a backend reads it in pieces that the environment chooses.
-- Replication: s3mer/kafka/manager.py and s3mer/kafka/publisher.py. The payload of a publication is
--   the record and not its JSON text.
-- Worker: s3mer/kafka/dlq.py, message_validation.py, replication_executor.py, retry_scheduler.py
--   (Retry for one backend, BatchRetry for a batch) and subscribers.py (Subscriber and
--   BatchSubscriber). Skips says what a recorded skip and a pass over the targets leave. The loop of a retry runs on fuel, and one round more than the configured retries
--   is enough for one backend while the consumer's calls succeed.
-- Sessions: s3mer/state/protocol.py and s3mer/state/memory.py; a lock orders the operations.
-- Sync: s3mer/backends/sync_executor.py and multisync_strategies.py. Gather runs the calls of
--   asyncio.gather as tasks of three stages, in an order that the environment chooses; what that
--   order leaves is completed in turn. Gather.Calls has the calls and the notes of their answers as events,
--   of which a run makes those of its tasks and no other. Writes holds the base class with the simple and the quorum
--   strategy, Distributed the multipart requests over the store of Sessions. One request runs at a
--   time; a body whose reading fails is modelled in Streaming.Shared alone.
-- Settings: s3mer/config/settings.py, as far as it chooses the write strategy, with
--   s3mer/backends/write_factory.py in Factory; pydantic's reading of the environment comes as a record.
--   Pool.Built is what the pool makes of the configured backends.
-- Responses: S3ErrorResponse, OperationNotSupportedError and _xml_escape of s3mer/common/errors.py; the
--   new identifier of a request is an argument.
-- Memory: s3mer/backends/memory_backend.py; Values has the calls with what they take from outside (the
--   digits of uuid4, the time, how a body can be read), Backend the store and the operations. Described says apart
--   from that code what a put leaves.
-- Examples: concrete states on which the theorems are applied.
--
-- Not modelled: the handlers, the dispatcher, the XML of successful answers, the Valkey store, the
-- prober, the settings that only carry defaults, logging, the sending of responses and the wiring
-- of the applications.
pub mod Base
pub mod Dict
pub mod Value
pub mod Operations
pub mod Errors
pub mod Exec
pub mod Breaker
pub mod Streaming
pub mod Pool
pub mod Message
pub mod Env
pub mod Node
pub mod Strategies
pub mod Replication
pub mod Worker
pub mod Routing
pub mod Sessions
pub mod Sync
pub mod Settings
pub mod Responses
pub mod Memory
pub mod Examples
