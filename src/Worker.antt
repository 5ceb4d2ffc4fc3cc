-- ===== src/Worker.antt =====
-- The worker, which copies what the proxy has written to the other backends (src/s3mer/kafka/).
pub mod Skips
pub mod DeadLetters
pub mod Executor
pub mod Retry
pub mod BatchRetry
pub mod Subscriber
pub mod BatchSubscriber
