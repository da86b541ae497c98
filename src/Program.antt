-- ===== src/Program.antt =====
-- rtc_server_node/RTCServerNodeExec and rtc_server_node_controller: the program around the node.
pub mod Config
pub mod Main
pub mod Controller
pub mod Ending
pub mod Moved
pub mod Signalled
pub mod Over
pub mod Reading
pub mod Address
pub mod Asking
pub mod Again
