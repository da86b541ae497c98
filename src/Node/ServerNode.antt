-- ===== src/Node/ServerNode.antt =====
-- rtc_server_node/RTCServerNode.h and .cc, and RTCServerNodeListener.h: the node, which keeps a peer for
-- each client. A message of its looper is a value; handling one gives the new state, its status where
-- the code has one, and what the node does: calls of its session, its peers, its speech client and
-- its listener, and messages that it posts to itself. A null pointer that is used is a fault.
-- The outcome of creating a peer and of the peer's calls are parameters (the peer is RTCPeer, below).
use aone_webrtc_stt.Base.{
  ℤ, String, Bool, true, false, Option, none, some, List, [], ◌∷◌, ◌++◌, if◌then◌else◌, ◌>>=◌, ◌>>◌,
  require, Status, ok, invalid_operation,
}
use aone_webrtc_stt.Voice.Pcm.{ABuffer}
use aone_webrtc_stt.Signaling.IceServers.{IceServerInfo}
use aone_webrtc_stt.Node.Peers.{find, assign, erase}

pub data SignalState : Type 0 where
  signal_init signal_opened signal_closed signal_error : SignalState

-- The messages of the looper, with their entries.
pub data NodeMsg : Type 0 where
  init_msg : NodeMsg
  start_msg : String → ℤ → NodeMsg
  stop_msg signaling_opened signaling_closed signaling_error : NodeMsg
  add_peer_req remove_peer_req : String → NodeMsg
  peer_sdp : String → String → NodeMsg
  peer_candidate : String → ℤ → String → String → NodeMsg

-- RTCPeerFactory::CreateRTCPeer, which gives a null pointer where it fails, and RTCPeerInterface.
pub record PeerApi : Type 1 where
  pub Peer : Type 0
  pub create_rtc_peer : String → List IceServerInfo → Option Peer
  pub create_voice_client : Peer → Status
  pub set_sdp : Peer → String → Status
  pub set_candidate : Peer → ℤ → String → String → Status

pub data NodeEffect (Peer : Type 0) : Type 0 where
  zmq_start zmq_stop reply_ok session_created session_close : NodeEffect Peer
  session_open : String → ℤ → String → NodeEffect Peer
  send_command_res : String → String → String → NodeEffect Peer
  send_sdp : String → String → NodeEffect Peer
  send_candidate : String → ℤ → String → String → NodeEffect Peer
  send_vad_pcm : String → ABuffer → NodeEffect Peer
  on_signal_state : SignalState → NodeEffect Peer
  post : NodeMsg → NodeEffect Peer
  peer_set_sdp : Peer → String → NodeEffect Peer
  peer_set_candidate : Peer → ℤ → String → String → NodeEffect Peer
  peer_close : Peer → NodeEffect Peer

pub record ServerNode (Peer : Type 0) : Type 0 where
  -- The servers of _node_session, where there is one.
  pub node_session : Option (List IceServerInfo)
  pub signal_state : SignalState
  pub peers : List (String × Peer)
  pub has_vad_zmq_client : Bool

module _ (api : PeerApi) where
  open api use {Peer, create_rtc_peer, create_voice_client, set_sdp, set_candidate}

  abbrev pub Done : Type 0
  Done = Option (ServerNode Peer × List (NodeEffect Peer))

  abbrev pub Answered : Type 0
  Answered = ServerNode Peer × Status × List (NodeEffect Peer)

  -- The constructor and _init, which posts the first message.
  unfoldable pub create_node : Bool → ServerNode Peer × List (NodeEffect Peer)
  create_node has_vad_zmq_client = (
    record {
      node_session = none;
      signal_state = signal_init;
      peers = [];
      has_vad_zmq_client = has_vad_zmq_client;
    },
    post init_msg ∷ [],
  )

  unfoldable pub zmq_call : ServerNode Peer → NodeEffect Peer → List (NodeEffect Peer)
  zmq_call n call = if n.has_vad_zmq_client then call ∷ [] else []

  -- `created` is what RTCSignalingNodeSession::Create gives (a new session has no servers), and
  -- `opened` the status of its Open.
  unfoldable pub start_m : Bool → Status → ServerNode Peer → String → ℤ → Answered
  unfolding zmq_call
  start_m false opened n host port = (
    record n { node_session = none },
    invalid_operation,
    zmq_call n zmq_start ++ post signaling_error ∷ [],
  )
  start_m true ok n host port = (
    record n { node_session = some [] },
    ok,
    zmq_call n zmq_start ++ session_created ∷ session_open host port "node" ∷ [],
  )
  start_m true invalid_operation n host port = (
    record n { node_session = none },
    invalid_operation,
    zmq_call n zmq_start
        ++ session_created ∷ session_open host port "node" ∷ post signaling_error ∷ [],
  )

  unfoldable pub stop_m : ServerNode Peer → List (NodeEffect Peer)
  unfolding zmq_call
  stop_m n = elim n.node_session [
    | none ↦ zmq_call n zmq_stop
    | some _ ↦ zmq_call n zmq_stop ++ session_close ∷ []
  ]

  -- A peer that was created, and the status of its CreateVoiceClient.
  unfoldable pub keep_peer : ServerNode Peer → String → Peer → Status → ServerNode Peer × Status
  keep_peer n id peer ok = (record n { peers = assign id peer n.peers }, ok)
  keep_peer n id peer invalid_operation = (n, invalid_operation)

  unfoldable pub add_peer_with : ServerNode Peer → String → Option Peer → ServerNode Peer × Status
  unfolding keep_peer
  add_peer_with n id none = (n, invalid_operation)
  add_peer_with n id (some peer) = keep_peer n id peer (create_voice_client peer)

  unfoldable pub add_peer_m : ServerNode Peer → String → Option (ServerNode Peer × Status)
  unfolding add_peer_with
  add_peer_m n id =
      n.node_session >>= λ ice_infos. some (add_peer_with n id (create_rtc_peer id ice_infos))

  unfoldable pub remove_peer_m : ServerNode Peer → String → Answered
  remove_peer_m n id = elim (find id n.peers) [
    | none ↦ (n, invalid_operation, [])
    | some peer ↦ (record n { peers = erase id n.peers }, ok, peer_close peer ∷ [])
  ]

  unfoldable pub on_peer_sdp_m : ServerNode Peer → String → String → Answered
  on_peer_sdp_m n id sdp = elim (find id n.peers) [
    | none ↦ (n, invalid_operation, [])
    | some peer ↦ (n, set_sdp peer sdp, peer_set_sdp peer sdp ∷ [])
  ]

  unfoldable pub on_peer_candidate_m : ServerNode Peer → String → ℤ → String → String → Answered
  on_peer_candidate_m n id mline_idx mid candidate = elim (find id n.peers) [
    | none ↦ (n, invalid_operation, [])
    | some peer ↦ (
      n,
      set_candidate peer mline_idx mid candidate,
      peer_set_candidate peer mline_idx mid candidate ∷ [],
    )
  ]

  unfoldable pub enter : ServerNode Peer → SignalState → Done
  enter n state = some (record n { signal_state = state }, on_signal_state state ∷ [])

  unfoldable pub result_text : Status → String
  result_text ok = "success"
  result_text invalid_operation = "fail"

  -- `created` and `opened` are the outcomes that start_m takes.
  unfoldable pub on_node_message : Bool → Status → ServerNode Peer → NodeMsg → Done
  unfolding start_m stop_m add_peer_m remove_peer_m on_peer_sdp_m on_peer_candidate_m enter
      result_text
  on_node_message created opened n init_msg = enter n signal_init
  on_node_message created opened n (start_msg host port) =
      let (n', _, out) = start_m created opened n host port in some (n', out)
  on_node_message created opened n stop_msg = some (n, stop_m n ++ reply_ok ∷ [])
  on_node_message created opened n signaling_opened = enter n signal_opened
  on_node_message created opened n signaling_closed = enter n signal_closed
  on_node_message created opened n signaling_error = enter n signal_error
  on_node_message created opened n (add_peer_req id) = add_peer_m n id >>= λ (n', status).
      some (n', send_command_res "add_peer_res" id (result_text status) ∷ [])
  on_node_message created opened n (remove_peer_req id) =
      let (n', _, out) = remove_peer_m n id in
      n.node_session >>= λ _. some (n', out ++ send_command_res "remove_peer_res" id "success" ∷ [])
  on_node_message created opened n (peer_sdp id sdp) =
      let (n', _, out) = on_peer_sdp_m n id sdp in some (n', out)
  on_node_message created opened n (peer_candidate id mline_idx mid candidate) =
      let (n', _, out) = on_peer_candidate_m n id mline_idx mid candidate in some (n', out)

  -- RTCPeerListener: what a peer tells the node.
  unfoldable pub on_sdp : ServerNode Peer → String → String → Done
  on_sdp n id sdp = n.node_session >>= λ _. some (n, send_sdp id sdp ∷ [])

  unfoldable pub on_candidate : ServerNode Peer → String → ℤ → String → String → Done
  on_candidate n id mline_idx mid candidate =
      n.node_session >>= λ _. some (n, send_candidate id mline_idx mid candidate ∷ [])

  unfoldable pub on_voice_activity : ServerNode Peer → String → ABuffer → Done
  on_voice_activity n id buffer =
      require n.has_vad_zmq_client >> some (n, send_vad_pcm id buffer ∷ [])
