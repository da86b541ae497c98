-- ===== src/Socket.antt =====
-- rtc_server_node/RTCServerNode/signaling_session/RTCWebSocketClient: the connection to the
-- signaling server.
pub mod Messages
pub mod Client
pub mod Fragments
pub mod Ring
pub mod Order
pub mod Lifetime
pub mod Memory
pub mod Pointers
pub mod Balance
pub mod Freed
pub mod WholeLife
