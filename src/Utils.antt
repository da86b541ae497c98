-- ===== src/Utils.antt =====
-- rtc_server_node/RTCServerNode/utils.
pub mod Files
pub mod Samples
