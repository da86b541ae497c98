-- ===== src/System/NodeHandled.antt =====
-- The handlers of the node, by what their effects post.
use aone_webrtc_stt.Base.{
  All, All-append, ℤ, String, ◌≡◌, refl, inl, inr, true, some, List, [], ◌∷◌, ◌++◌, arith,
  Option-cases, ok,
}
use aone_webrtc_stt.Signaling.Json.{JsonApi}
use aone_webrtc_stt.Signaling.IceServers.{IceServerInfo}
use aone_webrtc_stt.Node.Peers.{find}
use aone_webrtc_stt.Node.ServerNode.{
  PeerApi, NodeMsg, NodeEffect, ServerNode, signal_init, signal_opened, signal_closed, signal_error,
  on_node_message, add_peer_m, add_peer_with, remove_peer_m, on_peer_sdp_m, on_peer_candidate_m,
  enter, result_text,
}
use aone_webrtc_stt.System.Calls.{session_messages, own_node_messages}
use aone_webrtc_stt.System.Phases.{starts, opens, IsEarly}
use aone_webrtc_stt.System.NodeEffects.{IsGood, IsQuiet, state-IsQuiet, stop-IsQuiet, quiet-IsGood}

module _ (json : JsonApi) (peers : PeerApi) where
  open peers use {Peer}

  -- The messages that need no peer: what the node does is quiet, and its peers stay.
  pub record IsCareful (n : ServerNode Peer) (r : ServerNode Peer × List (NodeEffect Peer))
      : Type 0 where
    pub peers_kept : r.0.peers ≡ n.peers
    pub quiet : All (IsQuiet json peers) r.1

  pub early_handled :
      (n : ServerNode Peer) (m : NodeMsg)
      → IsEarly m
      → starts (m ∷ []) ≡ 0
      → (r : ServerNode Peer × List (NodeEffect Peer)) × (on_node_message peers true ok n m
          ≡ some r)
        × IsCareful n r
  unfolding on_node_message enter starts
  early_handled n NodeMsg.init_msg h s =
      (_, refl, record { peers_kept = refl; quiet = (state-IsQuiet json peers signal_init, tt) })
  early_handled n (NodeMsg.start_msg host port) h s = absurd (omega arith)
  early_handled n NodeMsg.stop_msg h s =
      (_, refl, record { peers_kept = refl; quiet = stop-IsQuiet json peers n })
  early_handled n NodeMsg.signaling_opened h s =
      (_, refl, record { peers_kept = refl; quiet = (state-IsQuiet json peers signal_opened, tt) })
  early_handled n NodeMsg.signaling_closed h s =
      (_, refl, record { peers_kept = refl; quiet = (state-IsQuiet json peers signal_closed, tt) })
  early_handled n NodeMsg.signaling_error h s =
      (_, refl, record { peers_kept = refl; quiet = (state-IsQuiet json peers signal_error, tt) })
  early_handled n (NodeMsg.add_peer_req id) h s = elim h [ ]
  early_handled n (NodeMsg.remove_peer_req id) h s = elim h [ ]
  early_handled n (NodeMsg.peer_sdp id sdp) h s = elim h [ ]
  early_handled n (NodeMsg.peer_candidate id idx mid candidate) h s = elim h [ ]

  res-IsGood :
      (cmd id result : String)
      → All (IsGood json peers) (NodeEffect.send_command_res cmd id result ∷ [])
  unfolding own_node_messages session_messages starts opens
  res-IsGood cmd id result = (record { no_session = tt; none_starts = refl; none_opens = refl }, tt)

  -- The call of a peer posts nothing to the node or the session.
  abbrev IsPeerCall : NodeEffect Peer → Type 0
  IsPeerCall (NodeEffect.peer_close p) = Unit
  IsPeerCall (NodeEffect.peer_set_sdp p sdp) = Unit
  IsPeerCall (NodeEffect.peer_set_candidate p idx mid candidate) = Unit
  IsPeerCall NodeEffect.session_close = ⊥
  IsPeerCall _ = ⊥

  peer_call-IsGood : (e : NodeEffect Peer) → IsPeerCall e → IsGood json peers e
  unfolding own_node_messages session_messages starts opens
  peer_call-IsGood (NodeEffect.peer_close p) h = record {
    no_session = tt;
    none_starts = refl;
    none_opens = refl;
  }
  peer_call-IsGood (NodeEffect.peer_set_sdp p sdp) h = record {
    no_session = tt;
    none_starts = refl;
    none_opens = refl;
  }
  peer_call-IsGood (NodeEffect.peer_set_candidate p idx mid candidate) h = record {
    no_session = tt;
    none_starts = refl;
    none_opens = refl;
  }
  peer_call-IsGood NodeEffect.session_close h = elim h [ ]
  peer_call-IsGood _ h = elim h [ ]

  remove_handled :
      (n : ServerNode Peer) (id : String) → All (IsGood json peers) (remove_peer_m peers n id).2
  unfolding remove_peer_m
  remove_handled n id = elim (Option-cases (find id n.peers)) [
    | inl e ↦ rw (e, remove_peer_m) tt
    | inr (p, e) ↦ rw (e, remove_peer_m) (peer_call-IsGood (NodeEffect.peer_close p) tt, tt)
  ]

  sdp_handled :
      (n : ServerNode Peer) (id sdp : String)
      → All (IsGood json peers) (on_peer_sdp_m peers n id sdp).2
  unfolding on_peer_sdp_m
  sdp_handled n id sdp = elim (Option-cases (find id n.peers)) [
    | inl e ↦ rw (e, on_peer_sdp_m) tt
    | inr (p, e) ↦ rw (e, on_peer_sdp_m) (peer_call-IsGood (NodeEffect.peer_set_sdp p sdp) tt, tt)
  ]

  candidate_handled :
      (n : ServerNode Peer) (id : String) (idx : ℤ) (mid candidate : String)
      → All (IsGood json peers) (on_peer_candidate_m peers n id idx mid candidate).2
  unfolding on_peer_candidate_m
  candidate_handled n id idx mid candidate = elim (Option-cases (find id n.peers)) [
    | inl e ↦ rw (e, on_peer_candidate_m) tt
    | inr (p, e) ↦
        rw (e, on_peer_candidate_m)
          (peer_call-IsGood (NodeEffect.peer_set_candidate p idx mid candidate) tt, tt)
  ]

  pub live_handled :
      (n : ServerNode Peer) (infos : List IceServerInfo) (m : NodeMsg)
      → n.node_session ≡ some infos
      → starts (m ∷ []) ≡ 0
      → (r : ServerNode Peer × List (NodeEffect Peer)) × (on_node_message peers true ok n m
          ≡ some r)
        × All (IsGood json peers) r.1
  unfolding on_node_message add_peer_m
  live_handled n infos (NodeMsg.add_peer_req id) e s = (
    (
      (add_peer_with peers n id (peers.create_rtc_peer id infos)).0,
      NodeEffect.send_command_res "add_peer_res" id
            (result_text peers (add_peer_with peers n id (peers.create_rtc_peer id infos)).1)
          ∷ [],
    ),
    rw e,
    res-IsGood "add_peer_res" id _,
  )
  live_handled n infos (NodeMsg.remove_peer_req id) e s =
      let removed = remove_peer_m peers n id in
      (
        (removed.0, removed.2 ++ NodeEffect.send_command_res "remove_peer_res" id "success" ∷ []),
        rw e,
        All-append (IsGood json peers) removed.2 _ (remove_handled n id)
            (res-IsGood "remove_peer_res" id "success"),
      )
  live_handled n infos (NodeMsg.peer_sdp id sdp) e s = (_, refl, sdp_handled n id sdp)
  live_handled n infos (NodeMsg.peer_candidate id idx mid candidate) e s =
      (_, refl, candidate_handled n id idx mid candidate)
  live_handled n infos m e s =
      let (r, done, c) = early_handled n m tt s in (r, done, quiet-IsGood json peers r.1 c.quiet)
