-- ===== src/Signaling.antt =====
-- rtc_server_node/RTCServerNode/rtc_server_node: the session with the signaling server.
pub mod Json
pub mod Attributes
pub mod IceServers
pub mod Outgoing
pub mod Session
pub mod RoundTrip
pub mod Received
pub mod Servers
pub mod Understood
pub mod Needs
