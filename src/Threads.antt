-- ===== src/Threads.antt =====
-- The queues, the latch, the pool of threads and the thread itself of src/base.
pub mod BoundedQueue
pub mod BlockQueue
pub mod Latch
pub mod Pool
pub mod Thread
