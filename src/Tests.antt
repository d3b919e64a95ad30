-- ===== src/Tests.antt =====
-- Test data, runs of the model on it, and one use of each theorem at a concrete input.
pub mod Hopscotch
pub mod Device
pub mod BigKv
pub mod Requests
pub mod Queue
pub mod CondLock
pub mod Handler
pub mod Wire
pub mod Master
pub mod Keygen
pub mod Client
pub mod Store
pub mod Aio
