-- ===== src/System/Turns.antt =====
-- The turns of the two loopers. A post to a looper appends to its queue (ALooper delivers messages
-- in order); a new session takes the place of the old, whose messages are dropped with it. The node
-- reads the servers of its session where its handlers take them (GetIceInfos). Create of a session
-- never fails in the source, and its Open always returns OK.
use aone_webrtc_stt.Base.{
  ℤ, String, Bool, true, false, ◌&&◌, Option, none, some, List, [], ◌∷◌, ◌++◌, if◌then◌else◌, ◌>>=◌,
  Status, ok,
}
use aone_webrtc_stt.Signaling.Json.{JsonApi}
use aone_webrtc_stt.Signaling.IceServers.{IceServerInfo}
use aone_webrtc_stt.Signaling.Session.{
  SessionMsg, SessionEffect, Session, create_session, on_session_message,
}
use aone_webrtc_stt.Node.ServerNode.{
  NodeMsg, NodeEffect, ServerNode, PeerApi, create_node, on_node_message,
}
use aone_webrtc_stt.System.Calls.{
  node_messages, own_session_messages, session_messages, own_node_messages, WsCall, ws_message,
}

pub record SystemOf (Text Peer : Type 0) : Type 0 where
  pub node : ServerNode Peer
  pub session : Option Session
  pub node_queue : List NodeMsg
  pub session_queue : List (SessionMsg Text)

-- The servers of the session that the node has.
unfoldable pub servers_of : Option Session → Option (List IceServerInfo)
servers_of none = none
servers_of (some session) = some session.ice_infos

module _ {Text Peer : Type 0} where
  unfoldable pub do_node_effect : SystemOf Text Peer → NodeEffect Peer → SystemOf Text Peer
  unfolding session_messages own_node_messages
  do_node_effect s NodeEffect.session_created = record s {
    session = some (create_session true);
    session_queue = [];
  }
  do_node_effect s effect = record s {
    node_queue = s.node_queue ++ own_node_messages effect;
    session_queue = s.session_queue ++ session_messages effect;
  }

  unfoldable pub do_node_effects : SystemOf Text Peer → List (NodeEffect Peer) → SystemOf Text Peer
  unfolding do_node_effect
  do_node_effects s [] = s
  do_node_effects s (effect ∷ effects) = do_node_effects (do_node_effect s effect) effects

  unfoldable pub do_session_effects :
      SystemOf Text Peer → List (SessionEffect Text) → SystemOf Text Peer
  unfolding node_messages own_session_messages
  do_session_effects s [] = s
  do_session_effects s (effect ∷ effects) =
      do_session_effects
        (record s {
          node_queue = s.node_queue ++ node_messages effect;
          session_queue = s.session_queue ++ own_session_messages effect;
        })
        effects

-- The messages whose handling calls Send of the web socket client.
abbrev pub sends : {A : Type 0} → SessionMsg A → Bool
sends SessionMsg.ws_connected = true
sends (SessionMsg.send_command_res cmd id result) = true
sends (SessionMsg.send_sdp id sdp) = true
sends (SessionMsg.send_candidate id idx mid candidate) = true
sends (SessionMsg.send_ice_state id state desc) = true
sends _ = false

abbrev pub next_sends : {A : Type 0} → List (SessionMsg A) → Bool
next_sends [] = false
next_sends (m ∷ ms) = sends m

module _ (json : JsonApi) (peers : PeerApi) where
  abbrev pub System : Type 0
  System = SystemOf json.Text peers.Peer

  -- A handler of the node, on the node with the servers of its session.
  unfoldable pub run_node :
      System
      → (ServerNode peers.Peer → Option (ServerNode peers.Peer × List (NodeEffect peers.Peer)))
      → Option System
  unfolding do_node_effects servers_of
  run_node s handler =
      handler (record s.node { node_session = servers_of s.session }) >>= λ (n, out).
      some (do_node_effects (record s { node = n }) out)

  unfoldable pub node_turn_of : System → List NodeMsg → Option System
  unfolding run_node
  node_turn_of s [] = some s
  node_turn_of s (m ∷ queue) =
      run_node (record s { node_queue = queue }) (λ n. on_node_message peers true ok n m)

  unfoldable pub node_turn : System → Option System
  unfolding node_turn_of
  node_turn s = node_turn_of s s.node_queue

  -- `opened` is the status of RTCWebSocketClient::Open, where the message opens one.
  unfoldable pub session_turn_of :
      Status → System → Option Session → List (SessionMsg json.Text) → Option System
  unfolding do_session_effects
  session_turn_of opened s none queue = some s
  session_turn_of opened s (some session) [] = some s
  session_turn_of opened s (some session) (m ∷ queue) =
      on_session_message json opened session m >>= λ (t, _, out).
      some (do_session_effects (record s { session = some t; session_queue = queue }) out)

  unfoldable pub session_turn : Status → System → Option System
  unfolding session_turn_of
  session_turn opened s = session_turn_of opened s s.session s.session_queue

  -- A turn of the session with what Send finds in the web socket client: `lost` where its connection is
  -- null, of which a Send that is accepted is a fault.
  unfoldable pub session_turn_with : Bool → Status → System → Option System
  unfolding session_turn
  session_turn_with lost opened s =
      if lost && next_sends s.session_queue then none else session_turn opened s

  -- RTCServerNode::Start and Stop post to the node, and the callbacks of the web socket to the session.
  unfoldable pub stop_call : System → System
  stop_call s = record s { node_queue = s.node_queue ++ NodeMsg.stop_msg ∷ [] }

  unfoldable pub ws_call : System → WsCall json.Text → System
  unfolding ws_message
  ws_call s call = record s { session_queue = s.session_queue ++ ws_message call ∷ [] }

  unfoldable pub start_call : System → String → ℤ → System
  start_call s host port = record s {
    node_queue = s.node_queue ++ NodeMsg.start_msg host port ∷ [];
  }

  -- RTCServerNode::Create, then Start.
  unfoldable pub start_system : Bool → String → ℤ → System
  unfolding create_node own_node_messages start_call
  start_system has_vad_zmq_client host port =
      let (n, out) = create_node peers has_vad_zmq_client in
      start_call
        (do_node_effects (record { node = n; session = none; node_queue = []; session_queue = [] })
          out)
        host port
