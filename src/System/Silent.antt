-- ===== src/System/Silent.antt =====
-- A web socket that cannot be opened: the node tells the program of nothing, and its wait for the end
-- does not end.
use aone_webrtc_stt.Program.Main.{node_state_callback, on_rtc_server_node_signal_state}
use mathlib.Core.Path.{subst}
use aone_webrtc_stt.Node.Peers.{find}
use aone_webrtc_stt.System.Calls.{node_messages, own_session_messages}
use aone_webrtc_stt.Signaling.Json.{JsonApi}
use aone_webrtc_stt.Signaling.Session.{SessionMsg, Session, on_session_message, SessionEffect}
use aone_webrtc_stt.Node.ServerNode.{NodeMsg, PeerApi, SignalState, create_node}
use aone_webrtc_stt.Base.{
  All, All-append, ℤ, String, ◌≡◌, refl, sym, ap, ◌∙◌, Bool, false, Option, none, some, List, [],
  ◌∷◌, some_inj, invalid_operation,
}
use aone_webrtc_stt.System.Turns.{
  System, node_turn, do_node_effects, do_node_effect, session_turn, stop_call, session_turn_of,
  do_session_effects, start_system,
}
use aone_webrtc_stt.System.Failing.{
  voice_called, FailingStep, FailingReach, IsSilent, Stays, calm, IsControl, IsOwnCall, HasNoClient,
  node_turns, session_turns, stop_called, web_socket_called, sdp_called, candidate_called, here,
  next,
}
use aone_webrtc_stt.System.FailingTurn.{node_turn-Stays}

module _ (json : JsonApi) (peers : PeerApi) where
  -- The session behind its message.
  session-IsSilent :
      (s : System json peers) (x : Session) (queue : List (SessionMsg json.Text))
      → x.has_ws_client ≡ false
      → All IsControl queue
      → IsSilent json peers s
      → IsSilent json peers (record s { session = some x; session_queue = queue })
  session-IsSilent s x queue client control v = record {
    state = v.state;
    no_peers = v.no_peers;
    node_queue = v.node_queue;
    no_client = client;
    session_queue = control;
  }

  -- Open fails: the session posts itself its error.
  failed-IsSilent :
      (s : System json peers) (x : Session) (queue : List (SessionMsg json.Text))
      (host path : String) (port : ℤ)
      → All IsControl queue
      → IsSilent json peers s
      → IsSilent json peers (
          do_session_effects
            (record s {
              session = some (record x { has_ws_client = false });
              session_queue = queue;
            })
            (SessionEffect.ws_open host port path ∷ SessionEffect.post SessionMsg.error_msg ∷ []))
  unfolding do_session_effects node_messages own_session_messages
  failed-IsSilent s x queue host path port control v =
      let failed = session-IsSilent s (record x { has_ws_client = false }) queue refl control v in
      calm json peers _ (SessionMsg.error_msg ∷ []) (tt, tt) (calm json peers _ [] tt failed)

  session_turn-Stays :
      (s : System json peers) (session : Option Session) (queue : List (SessionMsg json.Text))
      → s.session ≡ session
      → s.session_queue ≡ queue
      → IsSilent json peers s
      → Stays json peers (session_turn_of json peers invalid_operation s session queue)
  unfolding session_turn_of on_session_message do_session_effects
  session_turn-Stays s none queue e q v t done = subst (IsSilent json peers) (some_inj done) v
  session_turn-Stays s (some x) [] e q v t done = subst (IsSilent json peers) (some_inj done) v
  session_turn-Stays s (some x) (m ∷ queue) e q v t done =
      let client = subst HasNoClient e v.no_client in
      let control = subst (All IsControl) q v.session_queue in control_turn m client control done
    where
      control_turn :
          (m : SessionMsg json.Text)
          → x.has_ws_client ≡ false
          → All IsControl (m ∷ queue)
          → session_turn_of json peers invalid_operation s (some x) (m ∷ queue) ≡ some t
          → IsSilent json peers t
      control_turn SessionMsg.close_msg client control done =
          subst (IsSilent json peers) (some_inj (rw client at done))
            (session-IsSilent s (record x { has_ws_client = false }) queue refl control.1 v)
      control_turn SessionMsg.error_msg client control done =
          subst (IsSilent json peers) (some_inj done)
            (session-IsSilent s x queue client control.1 v)
      control_turn (SessionMsg.open_msg host port none) client control done =
          subst (IsSilent json peers) (some_inj done)
            (failed-IsSilent s x queue host "" port control.1 v)
      control_turn (SessionMsg.open_msg host port (some path)) client control done =
          subst (IsSilent json peers) (some_inj done)
            (failed-IsSilent s x queue host path port control.1 v)
      control_turn _ client control done = absurd control.0

  step-Stays :
      (s : System json peers) (o : Option (System json peers))
      → FailingStep json peers s o
      → IsSilent json peers s
      → Stays json peers o
  unfolding node_turn session_turn stop_call find
  step-Stays s _ node_turns v t done = node_turn-Stays json peers s s.node_queue refl v t done
  step-Stays s _ session_turns v t done =
      session_turn-Stays s s.session s.session_queue refl refl v t done
  step-Stays s _ stop_called v t done = subst (IsSilent json peers) (some_inj done) (record {
    state = v.state;
    no_peers = v.no_peers;
    node_queue = All-append IsOwnCall s.node_queue (NodeMsg.stop_msg ∷ []) v.node_queue (tt, tt);
    no_client = v.no_client;
    session_queue = v.session_queue;
  })
  step-Stays s _ (web_socket_called x call there client) v t done =
      cc (subst HasNoClient there v.no_client, client)
  step-Stays s _ (voice_called id buffer peer there) v t done =
      cc (sym there ∙ ap (find id) v.no_peers)
  step-Stays s _ (sdp_called id sdp peer there) v t done = cc (sym there ∙ ap (find id) v.no_peers)
  step-Stays s _ (candidate_called id idx mid candidate peer there) v t done =
      cc (sym there ∙ ap (find id) v.no_peers)

  reach-IsSilent :
      (s t : System json peers)
      → IsSilent json peers s
      → FailingReach json peers s t
      → IsSilent json peers t
  reach-IsSilent s t v here = v
  reach-IsSilent s t v (next r step e) = step-Stays _ _ step (reach-IsSilent s _ v r) t e

  start-IsSilent :
      (has_vad_zmq_client : Bool) (host : String) (port : ℤ)
      → IsSilent json peers (start_system json peers has_vad_zmq_client host port)
  unfolding start_system create_node do_node_effects do_node_effect
  start-IsSilent has_vad_zmq_client host port = record {
    state = refl;
    no_peers = refl;
    node_queue = (tt, (tt, tt));
    no_client = tt;
    session_queue = tt;
  }

-- The flag of the program behind a call of its state callback, for the state that a node has told.
abbrev pub is_closed_behind : SignalState → Bool
is_closed_behind state = node_state_callback false (on_rtc_server_node_signal_state state).0

-- A node that is created and started, in any interleaving of its turns and of those of its session,
-- where every Open of the web socket gives an error and the listener is told of none before (there is
-- no context, or the connection fails at once without a CLIENT_CONNECTION_ERROR of lws), with any
-- calls of Stop, and of the callbacks of an open web socket and of peers, where there are any: the
-- state of the node, which it told the program last, is none that raises the flag for which the
-- program waits at its end.
pub failed_open-never_closed :
    (json : JsonApi) (peers : PeerApi) (has_vad_zmq_client : Bool) (host : String) (port : ℤ)
    (t : System json peers)
    → FailingReach json peers (start_system json peers has_vad_zmq_client host port) t
    → is_closed_behind t.node.signal_state ≡ false
unfolding node_state_callback on_rtc_server_node_signal_state
failed_open-never_closed json peers has_vad_zmq_client host port t r =
    rw
      (reach-IsSilent json peers _ t (start-IsSilent json peers has_vad_zmq_client host port)
        r).state
