-- ===== src/System/Calls.antt =====
-- The calls between the node and its session, which post a message to the other's looper:
-- RTCSignalingNodeSessionListener as RTCServerNode.cc implements it (OnSignalingNodeSessionOpened to
-- OnPeerCandidate), the methods of RTCSignalingNodeSession.cc that the node calls (Open to
-- SendCandidate), and RTCWebSocketClientListener as the session implements it (onWSConnected to
-- onWSMessage).
use text.Mathlib.Text.{◌==◌ as str_eq}
use aone_webrtc_stt.Base.{none, some, List, [], ◌∷◌, if◌then◌else◌}
use aone_webrtc_stt.Signaling.Session.{SessionMsg, SessionEffect}
use aone_webrtc_stt.Node.ServerNode.{NodeMsg, NodeEffect}

-- What an effect of the session posts to the node.
unfoldable pub node_messages : {A : Type 0} → SessionEffect A → List NodeMsg
node_messages SessionEffect.on_opened = NodeMsg.signaling_opened ∷ []
node_messages SessionEffect.on_closed = NodeMsg.signaling_closed ∷ []
node_messages SessionEffect.on_error = NodeMsg.signaling_error ∷ []
node_messages (SessionEffect.on_add_peer rid) = NodeMsg.add_peer_req rid ∷ []
node_messages (SessionEffect.on_remove_peer id) = NodeMsg.remove_peer_req id ∷ []
node_messages (SessionEffect.on_peer_sdp id sdp) = NodeMsg.peer_sdp id sdp ∷ []
node_messages (SessionEffect.on_peer_candidate id mline_idx mid candidate) =
    NodeMsg.peer_candidate id mline_idx mid candidate ∷ []
node_messages (SessionEffect.ws_open host port path) = []
node_messages SessionEffect.ws_close = []
node_messages (SessionEffect.ws_send text) = []
node_messages (SessionEffect.post m) = []

-- What an effect of the session posts to the session itself.
unfoldable pub own_session_messages : {A : Type 0} → SessionEffect A → List (SessionMsg A)
own_session_messages (SessionEffect.post m) = m ∷ []
own_session_messages (SessionEffect.ws_send text) = []
own_session_messages _ = []

-- What an effect of the node posts to its session.
unfoldable pub session_messages : {A P : Type 0} → NodeEffect P → List (SessionMsg A)
session_messages (NodeEffect.session_open host port path) =
    SessionMsg.open_msg host port (if str_eq path "" then none else some path) ∷ []
session_messages NodeEffect.session_close = SessionMsg.close_msg ∷ []
session_messages (NodeEffect.send_command_res cmd id result) =
    SessionMsg.send_command_res cmd id result ∷ []
session_messages (NodeEffect.send_sdp id sdp) = SessionMsg.send_sdp id sdp ∷ []
session_messages (NodeEffect.send_candidate id index_line mid candidate) =
    SessionMsg.send_candidate id index_line mid candidate ∷ []
session_messages _ = []

-- What an effect of the node posts to the node itself.
unfoldable pub own_node_messages : {P : Type 0} → NodeEffect P → List NodeMsg
own_node_messages (NodeEffect.post m) = m ∷ []
own_node_messages NodeEffect.session_close = []
own_node_messages _ = []

-- The calls of the web socket client.
pub data WsCall (A : Type 0) : Type 0 where
  connected disconnected error : WsCall A
  message : A → WsCall A

unfoldable pub ws_message : {A : Type 0} → WsCall A → SessionMsg A
ws_message WsCall.connected = SessionMsg.ws_connected
ws_message WsCall.disconnected = SessionMsg.ws_disconnected
ws_message WsCall.error = SessionMsg.ws_error
ws_message (WsCall.message text) = SessionMsg.ws_message text
