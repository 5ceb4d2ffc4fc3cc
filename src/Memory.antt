-- ===== src/Memory.antt =====
-- The backend that keeps its objects in memory (src/s3mer/backends/memory_backend.py): Values has
-- its calls and what it keeps of them, Backend the store and the operations, Described what a put leaves.
pub mod Values
pub mod Backend
pub mod Kept
pub mod Described
pub mod Changes
pub mod Effects
pub mod Objects
