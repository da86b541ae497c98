-- ===== src/System/FailingTurn.antt =====
-- A web socket that cannot be opened: a turn of the node keeps what holds of the two then.
use mathlib.Core.Path.{subst}
use aone_webrtc_stt.System.Calls.{own_node_messages, session_messages}
use aone_webrtc_stt.Signaling.Json.{JsonApi}
use aone_webrtc_stt.Signaling.Session.{SessionMsg, create_session}
use aone_webrtc_stt.Node.ServerNode.{
  NodeMsg, PeerApi, NodeEffect, on_node_message, signal_init, zmq_call, ServerNode, stop_m,
}
use aone_webrtc_stt.Base.{
  All, All-append, ◌≡◌, refl, sym, ◌∙◌, inl, inr, true, some, List, [], ◌∷◌, ◌++◌, Bool-cases,
  Option-cases, bind-eq, some_inj, ok,
}
use aone_webrtc_stt.System.Turns.{
  System, do_node_effects, do_node_effect, node_turn_of, run_node, servers_of,
}
use aone_webrtc_stt.System.Failing.{IsOwnCall, IsSilent, calm, Stays}

module _ (json : JsonApi) (peers : PeerApi) where
  -- What the node does without an answer of its session.
  abbrev IsMild : NodeEffect peers.Peer → Type 0
  IsMild NodeEffect.zmq_start = Unit
  IsMild NodeEffect.zmq_stop = Unit
  IsMild NodeEffect.reply_ok = Unit
  IsMild NodeEffect.session_created = Unit
  IsMild NodeEffect.session_close = Unit
  IsMild (NodeEffect.session_open host port path) = Unit
  IsMild (NodeEffect.on_signal_state state) = Unit
  IsMild _ = ⊥

  effect-IsSilent :
      (e : NodeEffect peers.Peer) (s : System json peers)
      → IsMild e
      → IsSilent json peers s
      → IsSilent json peers (do_node_effect s e)
  unfolding do_node_effect own_node_messages session_messages create_session
  effect-IsSilent NodeEffect.session_created s m v = record {
    state = v.state;
    no_peers = v.no_peers;
    node_queue = v.node_queue;
    no_client = refl;
    session_queue = tt;
  }
  effect-IsSilent NodeEffect.zmq_start s m v = calm json peers s [] tt v
  effect-IsSilent NodeEffect.zmq_stop s m v = calm json peers s [] tt v
  effect-IsSilent NodeEffect.reply_ok s m v = calm json peers s [] tt v
  effect-IsSilent NodeEffect.session_close s m v =
      calm json peers s (SessionMsg.close_msg ∷ []) (tt, tt) v
  effect-IsSilent (NodeEffect.session_open host port path) s m v = calm json peers s _ (tt, tt) v
  effect-IsSilent (NodeEffect.on_signal_state state) s m v = calm json peers s [] tt v
  effect-IsSilent (NodeEffect.send_command_res cmd id result) s m v = absurd m
  effect-IsSilent (NodeEffect.send_sdp id sdp) s m v = absurd m
  effect-IsSilent (NodeEffect.send_candidate id idx mid candidate) s m v = absurd m
  effect-IsSilent (NodeEffect.send_vad_pcm id b) s m v = absurd m
  effect-IsSilent (NodeEffect.post n) s m v = absurd m
  effect-IsSilent (NodeEffect.peer_set_sdp p sdp) s m v = absurd m
  effect-IsSilent (NodeEffect.peer_set_candidate p idx mid candidate) s m v = absurd m
  effect-IsSilent (NodeEffect.peer_close p) s m v = absurd m

  effects-IsSilent :
      (es : List (NodeEffect peers.Peer)) (s : System json peers)
      → All IsMild es
      → IsSilent json peers s
      → IsSilent json peers (do_node_effects s es)
  unfolding do_node_effects
  effects-IsSilent [] s h v = v
  effects-IsSilent (e ∷ es) s (m, h) v =
      effects-IsSilent es (do_node_effect s e) h (effect-IsSilent e s m v)

  -- What a handler of such a message leaves.
  record IsMildly (n : ServerNode peers.Peer)
      (r : ServerNode peers.Peer × List (NodeEffect peers.Peer)) : Type 0 where
    state : n.signal_state ≡ signal_init → r.0.signal_state ≡ signal_init
    same_peers : r.0.peers ≡ n.peers
    mild : All IsMild r.1

  zmq_call-IsMild :
      (n : ServerNode peers.Peer) (e : NodeEffect peers.Peer)
      → IsMild e
      → All IsMild (zmq_call peers n e)
  unfolding zmq_call
  zmq_call-IsMild n e m = elim (Bool-cases n.has_vad_zmq_client) [
    | inl there ↦ rw there (m, tt)
    | inr missing ↦ rw missing tt
  ]

  stop_m-IsMild : (n : ServerNode peers.Peer) → All IsMild (stop_m peers n)
  unfolding stop_m
  stop_m-IsMild n = elim (Option-cases n.node_session) [
    | inl missing ↦ rw missing (zmq_call-IsMild n NodeEffect.zmq_stop tt)
    | inr (infos, there) ↦ rw there (
        All-append IsMild (zmq_call peers n NodeEffect.zmq_stop) (NodeEffect.session_close ∷ [])
          (zmq_call-IsMild n NodeEffect.zmq_stop tt) (tt, tt))
  ]

  own_call-IsMildly :
      (n : ServerNode peers.Peer) (m : NodeMsg)
      → IsOwnCall m
      → (r : ServerNode peers.Peer × List (NodeEffect peers.Peer)) × (on_node_message peers true ok
            n m
          ≡ some r)
        × IsMildly n r
  unfolding on_node_message
  own_call-IsMildly n NodeMsg.init_msg own = (
    (record n { signal_state = signal_init }, NodeEffect.on_signal_state signal_init ∷ []),
    refl,
    record { state = λ _. refl; same_peers = refl; mild = (tt, tt) },
  )
  own_call-IsMildly n (NodeMsg.start_msg host port) own = (
    (
      record n { node_session = some [] },
      zmq_call peers n NodeEffect.zmq_start
          ++ NodeEffect.session_created ∷ NodeEffect.session_open host port "node" ∷ [],
    ),
    refl,
    record {
      state = λ e. e;
      same_peers = refl;
      mild =
          All-append IsMild (zmq_call peers n NodeEffect.zmq_start) _
            (zmq_call-IsMild n NodeEffect.zmq_start tt) (tt, (tt, tt));
    },
  )
  own_call-IsMildly n NodeMsg.stop_msg own = (
    (n, stop_m peers n ++ NodeEffect.reply_ok ∷ []),
    refl,
    record {
      state = λ e. e;
      same_peers = refl;
      mild = All-append IsMild (stop_m peers n) _ (stop_m-IsMild n) (tt, tt);
    },
  )
  own_call-IsMildly n NodeMsg.signaling_opened own = absurd own
  own_call-IsMildly n NodeMsg.signaling_closed own = absurd own
  own_call-IsMildly n NodeMsg.signaling_error own = absurd own
  own_call-IsMildly n (NodeMsg.add_peer_req id) own = absurd own
  own_call-IsMildly n (NodeMsg.remove_peer_req id) own = absurd own
  own_call-IsMildly n (NodeMsg.peer_sdp id sdp) own = absurd own
  own_call-IsMildly n (NodeMsg.peer_candidate id idx mid c) own = absurd own

  pub node_turn-Stays :
      (s : System json peers) (queue : List NodeMsg)
      → s.node_queue ≡ queue
      → IsSilent json peers s
      → Stays json peers (node_turn_of json peers s queue)
  unfolding node_turn_of run_node
  node_turn-Stays s [] e v t done = subst (IsSilent json peers) (some_inj done) v
  node_turn-Stays s (m ∷ queue) e v t done =
      let n : ServerNode peers.Peer = record s.node { node_session = servers_of s.session } in
      let own = subst (All IsOwnCall) e v.node_queue in
      let (r, handled, mildly) = own_call-IsMildly n m own.0 in
      subst (IsSilent json peers) (some_inj (sym (bind-eq _ _ handled refl) ∙ done)) (
        effects-IsSilent r.1 _ mildly.mild (record {
          state = mildly.state v.state;
          no_peers = mildly.same_peers ∙ v.no_peers;
          node_queue = own.1;
          no_client = v.no_client;
          session_queue = v.session_queue;
        }))
