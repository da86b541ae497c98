-- ===== src/System/Media.antt =====
-- From a text of the signaling server to the voice client of a peer: the session, the node and the
-- peer, each on the messages that the one before posts.
use aone_webrtc_stt.Base.{
  String, ◌≡◌, ap, true, Option, some, List, [], ◌∷◌, ◌++◌, map, ◌>>=◌, bind-eq, ok,
}
use aone_webrtc_stt.Signaling.Attributes.{command_attr, id_attr, sdp_attr, offer_msg}
use aone_webrtc_stt.Signaling.IceServers.{string_at}
use aone_webrtc_stt.Signaling.Session.{
  dispatch, on_offer_msg, notify, on_peer_sdp, Session, received_msg,
}
use aone_webrtc_stt.Node.ServerNode.{
  on_peer_sdp_m, PeerApi, NodeMsg, NodeEffect, ServerNode, on_node_message,
}
use aone_webrtc_stt.Node.Peer.{
  set_offer_description_m, described, on_peer_message, VoiceClientApi, RtcPeer, PeerMsg, PeerEffect,
  set_remote_description, remote_candidate, close_msg, voice_set_remote_description,
}
use aone_webrtc_stt.Signaling.Json.{JsonApi}
use aone_webrtc_stt.Node.Peers.{find}
use aone_webrtc_stt.System.Calls.{node_messages}

-- RTCPeer::SetSDP, SetCandidate and Close, which post to the looper of the peer that is called.
unfoldable pub peer_messages : {P : Type 0} → NodeEffect P → List (P × PeerMsg)
peer_messages (NodeEffect.peer_set_sdp p sdp) = (p, set_remote_description sdp) ∷ []
peer_messages (NodeEffect.peer_set_candidate p mline_idx mid candidate) =
    (p, remote_candidate mline_idx mid candidate) ∷ []
peer_messages (NodeEffect.peer_close p) = (p, close_msg) ∷ []
peer_messages NodeEffect.session_close = []
peer_messages _ = []

unfoldable pub all_messages : {A B : Type 0} → (A → List B) → List A → List B
all_messages f [] = []
all_messages f (x ∷ xs) = f x ++ all_messages f xs

module _ (peers : PeerApi) where
  unfoldable pub run_node_messages :
      ServerNode peers.Peer
      → List NodeMsg
      → Option (ServerNode peers.Peer × List (NodeEffect peers.Peer))
  unfolding on_node_message
  run_node_messages n [] = some (n, [])
  run_node_messages n (m ∷ ms) = on_node_message peers true ok n m >>= λ (n', out).
      run_node_messages n' ms >>= λ (n'', rest). some (n'', out ++ rest)

module _ (json : JsonApi) (peers : PeerApi) (voice : VoiceClientApi) where
  -- What each peer does with its messages, as the messages of one text are handled.
  unfoldable pub peers_do :
      (peers.Peer → RtcPeer) → List (peers.Peer × PeerMsg) → List (peers.Peer × PeerEffect)
  unfolding on_peer_message
  peers_do state_of [] = []
  peers_do state_of ((peer, m) ∷ ms) =
      map (λ e. (peer, e)) (on_peer_message voice (state_of peer) m).1 ++ peers_do state_of ms

  -- What the peers do for a text that the session receives: `state_of` has the peer behind each pointer.
  unfoldable pub media_path :
      Session
      → ServerNode peers.Peer
      → (peers.Peer → RtcPeer)
      → json.Text
      → Option (List (peers.Peer × PeerEffect))
  unfolding all_messages node_messages peer_messages peers_do
  media_path s n state_of text = do
    (t, status, out) ← received_msg json s text
    (n', calls) ← run_node_messages peers n (all_messages node_messages out)
    some (peers_do state_of (all_messages peer_messages calls))

  description_run :
      (state_of : peers.Peer → RtcPeer) (peer : peers.Peer) (sdp : String)
      → (state_of peer).has_voice_client ≡ true
      → voice.set_remote_description_status sdp ≡ ok
      → peers_do state_of ((peer, set_remote_description sdp) ∷ [])
        ≡ (peer, voice_set_remote_description sdp) ∷ []
  unfolding peers_do on_peer_message set_offer_description_m described
  description_run state_of peer sdp client taken = simp (client, taken)

  offer_read :
      (s : Session) (text : json.Text) (j : json.Json) (id sdp : String)
      → s.has_listener ≡ true
      → json.json_loads text (json.strlen text) ≡ some j
      → string_at json j command_attr ≡ some offer_msg
      → string_at json j id_attr ≡ some id
      → string_at json j sdp_attr ≡ some sdp
      → received_msg json s text ≡ some (s, ok, on_peer_sdp id sdp ∷ [])
  unfolding received_msg dispatch on_offer_msg notify
  offer_read s text j id sdp listens loads cmd peer_id offer =
      rw (loads, received_msg)
        (bind-eq _ _ cmd (bind-eq _ _ peer_id (bind-eq _ _ offer (simp listens))))

  -- An offer of the signaling server, for an identifier that stands for a peer with a voice client
  -- that takes the description: the voice client of that peer is given the description as it is, once,
  -- and nothing else is done to any peer.
  pub media_path-offer :
      (s : Session) (n : ServerNode peers.Peer) (state_of : peers.Peer → RtcPeer)
      (peer : peers.Peer) (text : json.Text) (j : json.Json) (id sdp : String)
      → s.has_listener ≡ true
      → json.json_loads text (json.strlen text) ≡ some j
      → string_at json j command_attr ≡ some offer_msg
      → string_at json j id_attr ≡ some id
      → string_at json j sdp_attr ≡ some sdp
      → find id n.peers ≡ some peer
      → (state_of peer).has_voice_client ≡ true
      → voice.set_remote_description_status sdp ≡ ok
      → media_path s n state_of text ≡ some ((peer, voice_set_remote_description sdp) ∷ [])
  unfolding media_path run_node_messages on_node_message node_messages peer_messages all_messages
  media_path-offer s n state_of peer text j id sdp listens loads cmd peer_id offer there client
        taken =
      bind-eq _ _ (offer_read s text j id sdp listens loads cmd peer_id offer)
        (rw (there, on_peer_sdp_m) (ap some (description_run state_of peer sdp client taken)))
