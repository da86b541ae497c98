-- ===== src/Speech.antt =====
-- rtc_server_node/RTCServerNode/rtc_zmq_client: the client of the speech server.
pub mod Client
pub mod Order
pub mod States
pub mod Stopping
pub mod Returns
pub mod Resources
pub mod Calls
