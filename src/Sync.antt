-- ===== src/Sync.antt =====
-- 04-threading-concurrency-primitives: the bounded buffer and the reader-writer lock.
pub mod Semaphore
pub mod BoundedBuffer
pub mod RwLock
mod Tests
