-- ===== src/Streaming.antt =====
-- Body streams (src/s3mer/common/streaming.py).
pub mod Bytes
pub mod Receive
pub mod Reader
pub mod Buffered
pub mod Shared
pub mod Hex
pub mod Encoding
pub mod Decoder
