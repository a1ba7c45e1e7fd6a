-- ===== src/Workers.antt =====
-- src/system/workers: what one tick of each worker does.
pub mod RequeueWorker
pub mod GcWorker
pub mod Ticks
