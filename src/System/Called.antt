-- ===== src/System/Called.antt =====
-- The calls of the node and its session from outside keep the phase that the two are in.
use mathlib.Core.Path.{subst}
use aone_webrtc_stt.Base.{
  String, ◌≡◌, refl, sym, ap, ◌∙◌, true, Option, some, List, [], ◌∷◌, ◌++◌, append-nil, some_inj,
}
use aone_webrtc_stt.Signaling.Json.{JsonApi}
use aone_webrtc_stt.Signaling.IceServers.{IceServerInfo}
use aone_webrtc_stt.Signaling.Session.{Session, SessionMsg}
use aone_webrtc_stt.Node.Peers.{find}
use aone_webrtc_stt.Node.ServerNode.{PeerApi, NodeMsg, NodeEffect, ServerNode}
use aone_webrtc_stt.System.Calls.{WsCall, ws_message}
use aone_webrtc_stt.System.Turns.{System, do_node_effects, servers_of, run_node, stop_call, ws_call}
use aone_webrtc_stt.System.Phases.{
  Turns, starts, opens, IsEarly, IsLive, Phase, unstarted, waiting, live, posted,
  IsUnstarted-posted, IsLive-posted, IsWaiting-posted,
}
use aone_webrtc_stt.System.NodeEffects.{IsGood, effects-IsLive}

module _ (json : JsonApi) (peers : PeerApi) where
  -- More messages in one of the queues only.
  node_posted :
      (s : System json peers) (ns : List NodeMsg)
      → Phase json peers (posted json peers s ns [])
      → Phase json peers (record s { node_queue = s.node_queue ++ ns })
  node_posted s ns p =
      subst
        (λ q. Phase json peers (record s { node_queue = s.node_queue ++ ns; session_queue = q }))
        (append-nil s.session_queue) p

  session_posted :
      (s : System json peers) (ms : List (SessionMsg json.Text))
      → Phase json peers (posted json peers s [] ms)
      → Phase json peers (record s { session_queue = s.session_queue ++ ms })
  session_posted s ms p =
      subst
        (λ q. Phase json peers (record s { node_queue = q; session_queue = s.session_queue ++ ms }))
        (append-nil s.node_queue) p

  early-Phase :
      (s : System json peers) (m : NodeMsg)
      → IsEarly m
      → starts (m ∷ []) ≡ 0
      → Phase json peers s
      → Phase json peers (posted json peers s (m ∷ []) [])
  unfolding opens
  early-Phase s m e n (unstarted v) =
      unstarted (IsUnstarted-posted json peers s (m ∷ []) [] (e, tt) n v)
  early-Phase s m e n (waiting x v) =
      waiting x (IsWaiting-posted json peers s x (m ∷ []) [] (e, tt) n tt refl v)
  early-Phase s m e n (live x v) = live x (IsLive-posted json peers s x (m ∷ []) [] n refl v)

  pub stop-Phase :
      (s : System json peers) → Phase json peers s → Phase json peers (stop_call json peers s)
  unfolding stop_call starts
  stop-Phase s p = node_posted s (NodeMsg.stop_msg ∷ []) (early-Phase s NodeMsg.stop_msg tt refl p)

  opens-ws_message : (call : WsCall json.Text) → opens (ws_message call ∷ []) ≡ 0
  unfolding ws_message opens
  opens-ws_message WsCall.connected = refl
  opens-ws_message WsCall.disconnected = refl
  opens-ws_message WsCall.error = refl
  opens-ws_message (WsCall.message text) = refl

  pub call-Phase :
      (s : System json peers) (x : Session) (call : WsCall json.Text)
      → s.session ≡ some x
      → x.has_ws_client ≡ true
      → Phase json peers s
      → Phase json peers (ws_call json peers s call)
  unfolding ws_call starts
  call-Phase s x call e client (unstarted v) = cc (sym v.no_session ∙ e)
  call-Phase s x call e client (waiting y v) =
      let same = some_inj (sym v.session ∙ e) in cc (v.no_client, same, client)
  call-Phase s x call e client (live y v) = session_posted s (ws_message call ∷ []) (
      live y
        (IsLive-posted json peers s y [] (ws_message call ∷ []) refl (opens-ws_message call) v))

  pub failed-Phase :
      (s : System json peers) (x : Session)
      → s.session ≡ some x
      → Phase json peers s
      → Phase json peers (ws_call json peers s WsCall.error)
  unfolding ws_call ws_message starts opens
  failed-Phase s x e (unstarted v) = cc (sym v.no_session ∙ e)
  failed-Phase s x e (waiting y v) = session_posted s (SessionMsg.ws_error ∷ []) (
      waiting y
        (IsWaiting-posted json peers s y [] (SessionMsg.ws_error ∷ []) tt refl (tt, tt) refl v))
  failed-Phase s x e (live y v) =
      session_posted s (SessionMsg.ws_error ∷ [])
        (live y (IsLive-posted json peers s y [] (SessionMsg.ws_error ∷ []) refl refl v))

  -- A call of a peer that the node has.
  pub peer_call-Turns :
      (s : System json peers) (id : String) (peer : peers.Peer) (e : NodeEffect peers.Peer)
      (handler : ServerNode peers.Peer
        → Option (ServerNode peers.Peer × List (NodeEffect peers.Peer)))
      → ((n : ServerNode peers.Peer) (infos : List IceServerInfo)
          → n.node_session ≡ some infos
          → n.has_vad_zmq_client ≡ s.node.has_vad_zmq_client
          → handler n ≡ some (n, e ∷ []))
      → IsGood json peers e
      → find id s.node.peers ≡ some peer
      → Phase json peers s
      → Turns json peers (run_node json peers s handler)
  unfolding run_node servers_of find
  peer_call-Turns s id peer e handler does good there (unstarted v) =
      cc (sym there ∙ ap (find id) v.no_peers)
  peer_call-Turns s id peer e handler does good there (waiting x v) =
      cc (sym there ∙ ap (find id) v.no_peers)
  peer_call-Turns s id peer e handler does good there (live x v) =
      let n : ServerNode peers.Peer = record s.node { node_session = servers_of s.session } in
      let t : System json peers = record s { node = n } in
      let base : IsLive json peers t x = record {
        session = v.session;
        listener = v.listener;
        client = v.client;
        started = v.started;
        opened = v.opened;
      } in
      (
        do_node_effects t (e ∷ []),
        rw (does n x.ice_infos (ap servers_of v.session) refl),
        live x (effects-IsLive json peers (e ∷ []) t x (good, tt) base),
      )
