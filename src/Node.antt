-- ===== src/Node.antt =====
-- rtc_server_node/RTCServerNode/rtc_server_node and rtc_peer: the node and its peers.
pub mod Peers
pub mod ServerNode
pub mod Requests
pub mod Peer
pub mod Lifecycle
pub mod Audio
