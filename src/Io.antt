-- ===== src/Io.antt =====
-- src/NetUtils/IOHelper.h and IOHelper.cpp, one module for each function.
pub mod Run
pub mod Send
pub mod Recv
pub mod RoundTrip
pub mod Hexdump
mod Tests
