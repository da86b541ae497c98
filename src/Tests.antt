-- ===== src/Tests.antt =====
-- The theorems at concrete inputs, with every parameter instantiated.
pub mod Audio
pub mod Pushes
pub mod SpeechPath
pub mod Files
pub mod Media
pub mod Messages
pub mod Peers
pub mod Replies
pub mod Run
pub mod Samples
pub mod Services
pub mod SocketLife
pub mod Startup
pub mod Threads
pub mod Unopened
