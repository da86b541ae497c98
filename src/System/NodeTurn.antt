-- ===== src/System/NodeTurn.antt =====
-- A turn of the node's looper, by the phase that the system is in.
use mathlib.Core.Path.{subst}
use aone_webrtc_stt.Base.{
  All, All-append, ℤ, suc, ◌+◌, ◌≤◌, String, ◌≡◌, refl, sym, ap, ◌∙◌, ◌⊎◌, inl, inr, true, List, [],
  ◌∷◌, ◌++◌, arith, Bool-cases,
}
use aone_webrtc_stt.Signaling.Json.{JsonApi}
use aone_webrtc_stt.Signaling.Session.{Session, create_session}
use aone_webrtc_stt.Node.ServerNode.{
  PeerApi, NodeMsg, NodeEffect, ServerNode, on_node_message, zmq_call, start_m,
}
use aone_webrtc_stt.System.Calls.{session_messages, own_node_messages}
use aone_webrtc_stt.System.Turns.{
  System, do_node_effect, do_node_effects, servers_of, run_node, node_turn_of, node_turn,
}
use aone_webrtc_stt.System.Phases.{
  starts, opens, starts-append, IsEarly, IsUnstarted, IsWaiting, IsLive, Phase, unstarted, waiting,
  live,
}
use aone_webrtc_stt.System.NodeEffects.{effects-IsLive, effects-IsWaiting, effects-IsUnstarted}
use aone_webrtc_stt.System.NodeHandled.{early_handled, live_handled}
use aone_webrtc_stt.System.Phases.{Turns}

Starting-cases :
    (m : NodeMsg)
    → ((host : String) × (port : ℤ) × (m ≡ NodeMsg.start_msg host port)) ⊎ (starts (m ∷ []) ≡ 0)
unfolding starts
Starting-cases (NodeMsg.start_msg host port) = inl (host, port, refl)
Starting-cases NodeMsg.stop_msg = inr refl
Starting-cases _ = inr refl

module _ (json : JsonApi) (peers : PeerApi) where
  open peers use {Peer}

  -- A node with the servers of its session.
  abbrev seen : System json peers → ServerNode Peer
  seen s = record s.node { node_session = servers_of s.session }

  live_turn :
      (s : System json peers) (x : Session) (m : NodeMsg) (queue : List NodeMsg)
      → s.node_queue ≡ m ∷ queue
      → IsLive json peers s x
      → Turns json peers (node_turn_of json peers s (m ∷ queue))
  unfolding node_turn_of run_node servers_of
  live_turn s x m queue e v =
      let none_starts : starts (m ∷ []) + starts queue ≡ 0 =
        sym (starts-append (m ∷ []) queue) ∙ ap starts (sym e) ∙ v.started in
      let (r, done, good) =
        live_handled json peers (seen s) x.ice_infos m (ap servers_of v.session) (omega arith) in
      let t : System json peers = record s { node_queue = queue; node = r.0 } in
      let base : IsLive json peers t x = record {
        session = v.session;
        listener = v.listener;
        client = v.client;
        started = omega arith;
        opened = v.opened;
      } in
      (do_node_effects t r.1, rw done, live x (effects-IsLive json peers r.1 t x good base))

  waiting_turn :
      (s : System json peers) (x : Session) (m : NodeMsg) (queue : List NodeMsg)
      → s.node_queue ≡ m ∷ queue
      → IsWaiting json peers s x
      → Turns json peers (node_turn_of json peers s (m ∷ queue))
  unfolding node_turn_of run_node servers_of
  waiting_turn s x m queue e v =
      let (first, rest) = subst (All IsEarly) e v.early in
      let none_starts : starts (m ∷ []) + starts queue ≡ 0 =
        sym (starts-append (m ∷ []) queue) ∙ ap starts (sym e) ∙ v.started in
      let (r, done, c) = early_handled json peers (seen s) m first (omega arith) in
      let t : System json peers = record s { node_queue = queue; node = r.0 } in
      let base : IsWaiting json peers t x = record {
        session = v.session;
        listener = v.listener;
        no_client = v.no_client;
        early = rest;
        started = omega arith;
        calm = v.calm;
        once = v.once;
        no_peers = c.peers_kept ∙ v.no_peers;
      } in
      (
        do_node_effects t r.1,
        rw done,
        waiting x (effects-IsWaiting json peers r.1 t x c.quiet base),
      )

  -- The start: a new session, whose opening is in its queue.
  abbrev starting : String → ℤ → List (NodeEffect Peer)
  starting host port = NodeEffect.session_created ∷ NodeEffect.session_open host port "node" ∷ []

  starting-IsWaiting :
      (t : System json peers) (host : String) (port : ℤ)
      → All IsEarly t.node_queue
      → starts t.node_queue ≡ 0
      → t.node.peers ≡ []
      → IsWaiting json peers (do_node_effects t (starting host port)) (create_session true)
  unfolding do_node_effects own_node_messages session_messages starts opens create_session
  starting-IsWaiting t host port early none_starts no_peers = record {
    session = refl;
    listener = refl;
    no_client = refl;
    early = All-append IsEarly t.node_queue [] early tt;
    started = omega (arith, starts-append t.node_queue [], none_starts);
    calm = (tt, tt);
    once = omega arith;
    no_peers = no_peers;
  }

  start_effects :
      (t : System json peers) (n : ServerNode Peer) (host : String) (port : ℤ)
      → All IsEarly t.node_queue
      → starts t.node_queue ≡ 0
      → t.node.peers ≡ []
      → Phase json peers
          (do_node_effects t (zmq_call peers n NodeEffect.zmq_start ++ starting host port))
  unfolding zmq_call do_node_effects own_node_messages session_messages starts
  start_effects t n host port early none_starts no_peers = elim (Bool-cases n.has_vad_zmq_client) [
    | inl e ↦
        rw (zmq_call, e)
          (waiting (create_session true) (
            starting-IsWaiting (do_node_effect t NodeEffect.zmq_start) host port
              (All-append IsEarly t.node_queue [] early tt)
              (omega (arith, starts-append t.node_queue [], none_starts)) no_peers))
    | inr e ↦
        rw (zmq_call, e)
          (waiting (create_session true)
            (starting-IsWaiting t host port early none_starts no_peers))
  ]

  start_turn :
      (s : System json peers) (host : String) (port : ℤ) (queue : List NodeMsg)
      → s.node_queue ≡ NodeMsg.start_msg host port ∷ queue
      → IsUnstarted json peers s
      → Turns json peers (node_turn_of json peers s (NodeMsg.start_msg host port ∷ queue))
  unfolding node_turn_of run_node on_node_message start_m starts
  start_turn s host port queue e v =
      let (_, rest) = subst (All IsEarly) e v.early in
      let few : suc (starts queue) ≤ 1 = subst (λ k. k ≤ 1) (ap starts e) v.once in
      (_, refl, start_effects _ (seen s) host port rest (omega arith) v.no_peers)

  unstarted_turn :
      (s : System json peers) (m : NodeMsg) (queue : List NodeMsg)
      → s.node_queue ≡ m ∷ queue
      → IsUnstarted json peers s
      → Turns json peers (node_turn_of json peers s (m ∷ queue))
  unfolding node_turn_of run_node servers_of
  unstarted_turn s m queue e v = elim (Starting-cases m) [
    | inl (host, port, start) ↦
        subst (λ m'. Turns json peers (node_turn_of json peers s (m' ∷ queue))) (sym start)
          (start_turn s host port queue (e ∙ ap (λ m'. m' ∷ queue) start) v)
    | inr other ↦
        let (first, rest) = subst (All IsEarly) e v.early in
        let few : starts (m ∷ []) + starts queue ≤ 1 =
          subst (λ k. k ≤ 1) (ap starts e ∙ starts-append (m ∷ []) queue) v.once in
        let (r, done, c) = early_handled json peers (seen s) m first other in
        let t : System json peers = record s { node_queue = queue; node = r.0 } in
        let base : IsUnstarted json peers t = record {
          no_session = v.no_session;
          early = rest;
          once = omega arith;
          no_peers = c.peers_kept ∙ v.no_peers;
        } in
        (
          do_node_effects t r.1,
          rw done,
          unstarted (effects-IsUnstarted json peers r.1 t c.quiet base),
        )
  ]

  turn_of :
      (s : System json peers) (queue : List NodeMsg)
      → s.node_queue ≡ queue
      → Phase json peers s
      → Turns json peers (node_turn_of json peers s queue)
  unfolding node_turn_of
  turn_of s [] e p = (s, refl, p)
  turn_of s (m ∷ queue) e (unstarted v) = unstarted_turn s m queue e v
  turn_of s (m ∷ queue) e (waiting x v) = waiting_turn s x m queue e v
  turn_of s (m ∷ queue) e (live x v) = live_turn s x m queue e v

  pub node_turn-Phase :
      (s : System json peers) → Phase json peers s → Turns json peers (node_turn json peers s)
  unfolding node_turn
  node_turn-Phase s p = turn_of s s.node_queue refl p
