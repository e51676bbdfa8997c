-- ===== src/Async.antt =====
-- src/lib/async_service.cpp: the thread pool that runs blocking calls off the main thread.
pub mod Service
pub mod System
pub mod Open
pub mod Threads
pub mod Index
pub mod Ledger
pub mod Shutdown
pub mod Drain
pub mod Stages
pub mod Calls
mod Tests
