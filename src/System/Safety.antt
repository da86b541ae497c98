-- ===== src/System/Safety.antt =====
-- The node and its session, started once: the steps of the two and of those that call them, and the
-- faults that a step can meet.
use aone_webrtc_stt.Base.{
  ℤ, String, ◌≡◌, ◌⊎◌, Bool, true, false, Option, none, some, List, ◌∷◌, Status,
}
use aone_webrtc_stt.Signaling.Json.{JsonApi}
use aone_webrtc_stt.Signaling.Session.{Session, SessionMsg}
use aone_webrtc_stt.Node.Peers.{find}
use aone_webrtc_stt.Node.ServerNode.{PeerApi, on_sdp, on_candidate, on_voice_activity}
use aone_webrtc_stt.System.Calls.{WsCall}
use aone_webrtc_stt.System.Turns.{
  System, run_node, node_turn, session_turn_with, sends, stop_call, ws_call,
}
use aone_webrtc_stt.System.Phases.{Turns}
use aone_webrtc_stt.Voice.Pcm.{ABuffer}
use aone_webrtc_stt.System.SessionTurn.{Misunderstood}

module _ (json : JsonApi) (peers : PeerApi) where
  -- One step, and what it leaves: a turn of either looper, the program's Stop, a callback of the web
  -- socket of a session that has one, or of a peer that the node has. `none` is a fault.
  pub data Step (s : System json peers) : Option (System json peers) → Type 0 where
    node_turns : Step s (node_turn json peers s)
    session_turns :
        (lost : Bool) (opened : Status) → Step s (session_turn_with json peers lost opened s)
    stop_called : Step s (some (stop_call json peers s))
    web_socket_called :
        (x : Session) (call : WsCall json.Text)
        → s.session ≡ some x
        → x.has_ws_client ≡ true
        → Step s (some (ws_call json peers s call))
    -- A connection that fails calls back before Open gives its error.
    connection_failed :
        (x : Session) → s.session ≡ some x → Step s (some (ws_call json peers s WsCall.error))
    voice_called :
        (id : String) (buffer : ABuffer) (peer : peers.Peer)
        → find id s.node.peers ≡ some peer
        → Step s (run_node json peers s (λ n. on_voice_activity peers n id buffer))
    sdp_called :
        (id sdp : String) (peer : peers.Peer)
        → find id s.node.peers ≡ some peer
        → Step s (run_node json peers s (λ n. on_sdp peers n id sdp))
    candidate_called :
        (id : String) (mline_idx : ℤ) (mid candidate : String) (peer : peers.Peer)
        → find id s.node.peers ≡ some peer
        → Step s (run_node json peers s (λ n. on_candidate peers n id mline_idx mid candidate))

  -- Any number of steps without a fault.
  pub data Reach (s : System json peers) : System json peers → Type 0 where
    here : Reach s s
    next :
        {t u : System json peers} {o : Option (System json peers)}
        → Reach s t
        → Step t o
        → o ≡ some u
        → Reach s u

  -- The steps that may have a fault: the session's next message is a text that is not understood, or
  -- one that sends; or a peer calls with voice, and there is no client of the speech server.
  abbrev pub IsSend : System json peers → Type 0
  IsSend s =
      (m : SessionMsg json.Text) × (rest : List (SessionMsg json.Text)) × (s.session_queue
        ≡ m ∷ rest)
      × (sends m ≡ true)

  -- Why a step has a fault.
  pub data Excuse (s : System json peers)
      : (o : Option (System json peers)) → Step s o → Type 0 where
    misunderstood :
        {lost : Bool} {opened : Status}
        → Misunderstood json peers s
        → Excuse s _ (session_turns lost opened)
    lost_send : {opened : Status} → IsSend s → Excuse s _ (session_turns true opened)
    no_speech_client :
        {id : String} {buffer : ABuffer} {peer : peers.Peer}
        {there : find id s.node.peers ≡ some peer}
        → s.node.has_vad_zmq_client ≡ false
        → Excuse s _ (voice_called id buffer peer there)

  abbrev Meets : (s : System json peers) {o : Option (System json peers)} → Step s o → Type 0
  Meets s {o} step = Turns json peers o ⊎ (o ≡ none) × Excuse s o step
