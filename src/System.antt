-- ===== src/System.antt =====
-- The parts together: a server's accept loop and the threads that it starts for its clients.
pub mod Broker
pub mod Echo
pub mod Descriptors
pub mod Shutdown
pub mod Plain
pub mod Threads
pub mod Accounts
pub mod Ledger
pub mod Interleaved
pub mod Sessions
pub mod Receiving
pub mod Traces
pub mod Alone
pub mod PlainThreads
pub mod PlainAlone
pub mod PlainBounds
pub mod PlainSteps
pub mod Unleaked
pub mod SecondClose
pub mod Lifetimes
pub mod PlainEcho
pub mod SetUp
pub mod Starting
mod Tests
