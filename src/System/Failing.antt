-- ===== src/System/Failing.antt =====
-- A web socket that cannot be opened, where lws calls no CLIENT_CONNECTION_ERROR back: the steps of the node and its session then, and what holds of the
-- two.
use aone_webrtc_stt.Voice.Pcm.{ABuffer}
use aone_webrtc_stt.Node.Peers.{find}
use aone_webrtc_stt.System.Calls.{WsCall}
use aone_webrtc_stt.Signaling.Json.{JsonApi}
use aone_webrtc_stt.Signaling.Session.{SessionMsg, Session}
use aone_webrtc_stt.Node.ServerNode.{
  NodeMsg, PeerApi, signal_init, on_sdp, on_candidate, on_voice_activity,
}
use aone_webrtc_stt.Base.{
  All, All-append, ℤ, String, ◌≡◌, true, false, Option, none, some, List, [], ◌++◌,
  invalid_operation,
}
use aone_webrtc_stt.System.Turns.{System, node_turn, session_turn, stop_call, ws_call, run_node}

-- The messages that the node has without an answer of its session, and the session without a client.
abbrev pub IsOwnCall : NodeMsg → Type 0
IsOwnCall NodeMsg.init_msg = Unit
IsOwnCall (NodeMsg.start_msg host port) = Unit
IsOwnCall NodeMsg.stop_msg = Unit
IsOwnCall _ = ⊥

abbrev pub IsControl : {A : Type 0} → SessionMsg A → Type 0
IsControl (SessionMsg.open_msg host port path) = Unit
IsControl SessionMsg.close_msg = Unit
IsControl SessionMsg.error_msg = Unit
IsControl _ = ⊥

abbrev pub HasNoClient : Option Session → Type 0
HasNoClient none = Unit
HasNoClient (some x) = x.has_ws_client ≡ false

module _ (json : JsonApi) (peers : PeerApi) where
  -- A step of the node, of its session whose web socket does not open, and of those that call them.
  pub data FailingStep (s : System json peers) : Option (System json peers) → Type 0 where
    node_turns : FailingStep s (node_turn json peers s)
    session_turns : FailingStep s (session_turn json peers invalid_operation s)
    stop_called : FailingStep s (some (stop_call json peers s))
    web_socket_called :
        (x : Session) (call : WsCall json.Text)
        → s.session ≡ some x
        → x.has_ws_client ≡ true
        → FailingStep s (some (ws_call json peers s call))
    voice_called :
        (id : String) (buffer : ABuffer) (peer : peers.Peer)
        → find id s.node.peers ≡ some peer
        → FailingStep s (run_node json peers s (λ n. on_voice_activity peers n id buffer))
    sdp_called :
        (id sdp : String) (peer : peers.Peer)
        → find id s.node.peers ≡ some peer
        → FailingStep s (run_node json peers s (λ n. on_sdp peers n id sdp))
    candidate_called :
        (id : String) (mline_idx : ℤ) (mid candidate : String) (peer : peers.Peer)
        → find id s.node.peers ≡ some peer
        → FailingStep s
            (run_node json peers s (λ n. on_candidate peers n id mline_idx mid candidate))

  pub data FailingReach (s : System json peers) : System json peers → Type 0 where
    here : FailingReach s s
    next :
        {t u : System json peers} {o : Option (System json peers)}
        → FailingReach s t
        → FailingStep t o
        → o ≡ some u
        → FailingReach s u

  pub record IsSilent (s : System json peers) : Type 0 where
    pub state : s.node.signal_state ≡ signal_init
    pub no_peers : s.node.peers ≡ []
    pub node_queue : All IsOwnCall s.node_queue
    pub no_client : HasNoClient s.session
    pub session_queue : All IsControl s.session_queue

  pub calm :
      (s : System json peers) (ms : List (SessionMsg json.Text))
      → All IsControl ms
      → IsSilent s
      → IsSilent
          (record s { node_queue = s.node_queue ++ []; session_queue = s.session_queue ++ ms })
  calm s ms h v = record {
    state = v.state;
    no_peers = v.no_peers;
    node_queue = All-append IsOwnCall s.node_queue [] v.node_queue tt;
    no_client = v.no_client;
    session_queue = All-append IsControl s.session_queue ms v.session_queue h;
  }

  -- What an outcome leaves, if it is no fault.
  abbrev pub Stays : Option (System json peers) → Type 0
  Stays o = (t : System json peers) → o ≡ some t → IsSilent t
