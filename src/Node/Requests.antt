-- ===== src/Node/Requests.antt =====
-- Requests for peers: the map of peers behind them, and the answer to each.
use text.Mathlib.Text.{◌==◌ as str_eq}
use text.Mathlib.TextEquality.{eq_iff}
use aone_webrtc_stt.Base.{
  String, ◌≡◌, refl, ◌⊎◌, inl, inr, Bool, Option, none, some, List, [], ◌∷◌, arith, if◌then◌else◌,
  Option-cases, Status, ok, invalid_operation,
}
use aone_webrtc_stt.Signaling.IceServers.{IceServerInfo}
use aone_webrtc_stt.Node.Peers.{find, assign, erase, find-assign, find-erase}
use aone_webrtc_stt.Node.ServerNode.{
  PeerApi, ServerNode, NodeEffect, send_command_res, peer_close, add_peer_req, remove_peer_req,
  remove_peer_m, on_node_message,
}

module _ (api : PeerApi) where
  open api use {Peer, create_rtc_peer, create_voice_client, set_sdp, set_candidate}

  -- The peers after a request, and the answer.
  pub record Answer (n : ServerNode Peer) (id : String) (kept : Option Peer) (result : String)
      (r : ServerNode Peer × List (NodeEffect Peer)) : Type 0 where
    pub peers : (j : String) → find j r.0.peers ≡ (if str_eq id j then kept else find j n.peers)
    pub answer : r.1 ≡ send_command_res "add_peer_res" id result ∷ []
    pub session : r.0.node_session ≡ n.node_session

  pub add_peer_success :
      (n : ServerNode Peer) (id : String) (infos : List IceServerInfo) (peer : Peer)
      (created : Bool) (opened : Status)
      → n.node_session ≡ some infos
      → create_rtc_peer id infos ≡ some peer
      → create_voice_client peer ≡ ok
      → (r : ServerNode Peer × List (NodeEffect Peer)) × (on_node_message api created opened n
            (add_peer_req id)
          ≡ some r)
        × Answer n id (some peer) "success" r
  unfolding on_node_message
  add_peer_success n id infos peer created opened s c v = (
    (
      record n { peers = assign id peer n.peers },
      send_command_res "add_peer_res" id "success" ∷ [],
    ),
    rw (s, c, v),
    record { peers = λ j. find-assign id j peer n.peers; answer = refl; session = refl },
  )

  -- Where either fails, the answer is "fail" and the node stays as it was.
  pub add_peer_fail :
      (n : ServerNode Peer) (id : String) (infos : List IceServerInfo) (created : Bool)
      (opened : Status)
      → n.node_session ≡ some infos
      → (create_rtc_peer id infos ≡ none)
        ⊎ ((peer : Peer) × (create_rtc_peer id infos ≡ some peer)
            × (create_voice_client peer ≡ invalid_operation))
      → on_node_message api created opened n (add_peer_req id)
        ≡ some (n, send_command_res "add_peer_res" id "fail" ∷ [])
  unfolding on_node_message
  add_peer_fail n id infos created opened s (inl c) = rw (s, c)
  add_peer_fail n id infos created opened s (inr (peer, c, v)) = rw (s, c, v)

  -- With a session, a request to remove a peer is answered "success" once, whether or not there is
  -- such a peer. The identifier stands for no peer then, and every other for what it stood for; a
  -- peer that was there is closed, before the answer.
  pub remove_peer_lem :
      (n : ServerNode Peer) (id : String) (infos : List IceServerInfo) (created : Bool)
      (opened : Status)
      → n.node_session ≡ some infos
      → (r : ServerNode Peer × List (NodeEffect Peer)) × (on_node_message api created opened n
            (remove_peer_req id)
          ≡ some r)
        × ((j : String) → find j r.0.peers ≡ (if str_eq id j then none else find j n.peers))
        × (((find id n.peers ≡ none) × (r.1 ≡ send_command_res "remove_peer_res" id "success" ∷ []))
            ⊎ ((peer : Peer) × (find id n.peers ≡ some peer)
                × (r.1 ≡ peer_close peer ∷ send_command_res "remove_peer_res" id "success" ∷ [])))
  unfolding on_node_message
  remove_peer_lem n id infos created opened s = elim (Option-cases (find id n.peers)) [
    | inl missing ↦ (
      (n, send_command_res "remove_peer_res" id "success" ∷ []),
      simp (s, remove_peer_m, missing),
      (λ j. ground (arith, eq_iff id j, missing)),
      inl (missing, refl),
    )
    | inr (peer, there) ↦ (
      (
        record n { peers = erase id n.peers },
        peer_close peer ∷ send_command_res "remove_peer_res" id "success" ∷ [],
      ),
      simp (s, remove_peer_m, there),
      (λ j. find-erase id j n.peers),
      inr (peer, there, refl),
    )
  ]
