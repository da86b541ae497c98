-- ===== src/System/Phases.antt =====
-- The phases that the node and its session go through when the node is started once.
use aone_webrtc_stt.Base.{
  All, All-append, ℕ, suc, ◌+◌, ◌≤◌, ◌≡◌, true, false, Option, none, some, List, [], ◌∷◌, ◌++◌,
  arith,
}
use aone_webrtc_stt.Signaling.Json.{JsonApi}
use aone_webrtc_stt.Signaling.Session.{SessionMsg, Session}
use aone_webrtc_stt.Node.ServerNode.{NodeMsg, PeerApi}
use aone_webrtc_stt.System.Turns.{System}

-- The messages to start the node, and to open the session.
unfoldable pub starts : List NodeMsg → ℕ
starts [] = 0
starts (NodeMsg.start_msg host port ∷ ms) = suc (starts ms)
starts (NodeMsg.stop_msg ∷ ms) = starts ms
starts (_ ∷ ms) = starts ms

unfoldable pub opens : {A : Type 0} → List (SessionMsg A) → ℕ
opens [] = 0
opens (SessionMsg.open_msg host port path ∷ ms) = suc (opens ms)
opens (SessionMsg.close_msg ∷ ms) = opens ms
opens (_ ∷ ms) = opens ms

pub starts-append : (ms ns : List NodeMsg) → starts (ms ++ ns) ≡ starts ms + starts ns
unfolding starts
starts-append [] ns = omega arith
starts-append (NodeMsg.start_msg host port ∷ ms) ns = omega (arith, starts-append ms ns)
starts-append (NodeMsg.stop_msg ∷ ms) ns = starts-append ms ns
starts-append (_ ∷ ms) ns = starts-append ms ns

pub opens-append :
    {A : Type 0} (ms ns : List (SessionMsg A)) → opens (ms ++ ns) ≡ opens ms + opens ns
unfolding opens
opens-append [] ns = omega arith
opens-append (SessionMsg.open_msg host port path ∷ ms) ns = omega (arith, opens-append ms ns)
opens-append (SessionMsg.close_msg ∷ ms) ns = opens-append ms ns
opens-append (_ ∷ ms) ns = opens-append ms ns

-- The messages of the node that no peer is needed for.
abbrev pub IsEarly : NodeMsg → Type 0
IsEarly (NodeMsg.add_peer_req id) = ⊥
IsEarly (NodeMsg.remove_peer_req id) = ⊥
IsEarly (NodeMsg.peer_sdp id sdp) = ⊥
IsEarly (NodeMsg.peer_candidate id idx mid candidate) = ⊥
IsEarly _ = Unit

-- The messages of a session that has no web socket client.
abbrev pub IsCalm : {A : Type 0} → SessionMsg A → Type 0
IsCalm (SessionMsg.open_msg host port path) = Unit
IsCalm SessionMsg.close_msg = Unit
IsCalm SessionMsg.error_msg = Unit
IsCalm SessionMsg.ws_error = Unit
IsCalm _ = ⊥

module _ (json : JsonApi) (peers : PeerApi) where
  -- Before the start: no session, no peer, no request.
  pub record IsUnstarted (s : System json peers) : Type 0 where
    pub no_session : s.session ≡ none
    pub early : All IsEarly s.node_queue
    pub once : starts s.node_queue ≤ 1
    pub no_peers : s.node.peers ≡ []

  -- Started, and the session's web socket is not open, or could not be opened.
  pub record IsWaiting (s : System json peers) (x : Session) : Type 0 where
    pub session : s.session ≡ some x
    pub listener : x.has_listener ≡ true
    pub no_client : x.has_ws_client ≡ false
    pub early : All IsEarly s.node_queue
    pub started : starts s.node_queue ≡ 0
    pub calm : All IsCalm s.session_queue
    pub once : opens s.session_queue ≤ 1
    pub no_peers : s.node.peers ≡ []

  -- The session has a web socket client.
  pub record IsLive (s : System json peers) (x : Session) : Type 0 where
    pub session : s.session ≡ some x
    pub listener : x.has_listener ≡ true
    pub client : x.has_ws_client ≡ true
    pub started : starts s.node_queue ≡ 0
    pub opened : opens s.session_queue ≡ 0

  pub data Phase (s : System json peers) : Type 0 where
    unstarted : IsUnstarted s → Phase s
    waiting : (x : Session) → IsWaiting s x → Phase s
    live : (x : Session) → IsLive s x → Phase s

  -- A turn without a fault, and the phase behind it.
  abbrev pub Turns : Option (System json peers) → Type 0
  Turns done = (t : System json peers) × (done ≡ some t) × Phase t

  -- More messages at the ends of the queues.
  abbrev pub posted :
      System json peers → List NodeMsg → List (SessionMsg json.Text) → System json peers
  posted s ns ms = record s {
    node_queue = s.node_queue ++ ns;
    session_queue = s.session_queue ++ ms;
  }

  pub IsUnstarted-posted :
      (s : System json peers) (ns : List NodeMsg) (ms : List (SessionMsg json.Text))
      → All IsEarly ns
      → starts ns ≡ 0
      → IsUnstarted s
      → IsUnstarted (posted s ns ms)
  IsUnstarted-posted s ns ms e n v = record {
    no_session = v.no_session;
    early = All-append IsEarly s.node_queue ns v.early e;
    once = omega (arith, starts-append s.node_queue ns, v.once);
    no_peers = v.no_peers;
  }

  pub IsWaiting-posted :
      (s : System json peers) (x : Session) (ns : List NodeMsg) (ms : List (SessionMsg json.Text))
      → All IsEarly ns
      → starts ns ≡ 0
      → All IsCalm ms
      → opens ms ≡ 0
      → IsWaiting s x
      → IsWaiting (posted s ns ms) x
  IsWaiting-posted s x ns ms e n c o v = record {
    session = v.session;
    listener = v.listener;
    no_client = v.no_client;
    early = All-append IsEarly s.node_queue ns v.early e;
    started = omega (arith, starts-append s.node_queue ns, v.started);
    calm = All-append IsCalm s.session_queue ms v.calm c;
    once = omega (arith, opens-append s.session_queue ms, v.once);
    no_peers = v.no_peers;
  }

  pub IsLive-posted :
      (s : System json peers) (x : Session) (ns : List NodeMsg) (ms : List (SessionMsg json.Text))
      → starts ns ≡ 0
      → opens ms ≡ 0
      → IsLive s x
      → IsLive (posted s ns ms) x
  IsLive-posted s x ns ms n o v = record {
    session = v.session;
    listener = v.listener;
    client = v.client;
    started = omega (arith, starts-append s.node_queue ns, v.started);
    opened = omega (arith, opens-append s.session_queue ms, v.opened);
  }
