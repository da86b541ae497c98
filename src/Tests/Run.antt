-- ===== src/Tests/Run.antt =====
-- The node and its session at a concrete run: started, opened, and sent a message without a command.
use aone_webrtc_stt.Base.{pos, ◌≡◌, refl, true, none, some, [], ◌∷◌}
use aone_webrtc_stt.Signaling.Session.{SessionMsg, Session, create_session}
use aone_webrtc_stt.Node.ServerNode.{on_node_message, start_msg, signal_init}
use aone_webrtc_stt.System.Turns.{System, start_system, node_turn}
use aone_webrtc_stt.Tests.Messages.{object, trees}
use aone_webrtc_stt.Tests.Peers.{named}

abbrev pub created : System trees named
created = start_system trees named true "127.0.0.1" (pos 9000)

-- The messages before the opening are handled, the web socket is open, and a text was received.
abbrev pub first : System trees named
first = record {
  node = record {
    node_session = none;
    signal_state = signal_init;
    peers = [];
    has_vad_zmq_client = true;
  };
  session = none;
  node_queue = start_msg "127.0.0.1" (pos 9000) ∷ [];
  session_queue = [];
}

abbrev pub waiting : System trees named
waiting = record first {
  node = record first.node { node_session = some [] };
  session = some (create_session true);
  node_queue = [];
  session_queue = SessionMsg.open_msg "127.0.0.1" (pos 9000) (some "node") ∷ [];
}

abbrev client : Session
client = record (create_session true) { has_ws_client = true }

abbrev opened : System trees named
opened = record waiting { session = some client; session_queue = [] }

abbrev received : System trees named
received = record opened { session_queue = SessionMsg.ws_message object ∷ [] }

pub first_turn : node_turn trees named created ≡ some first
unfolding node_turn start_system on_node_message
first_turn = refl

pub start_turn : node_turn trees named first ≡ some waiting
unfolding node_turn on_node_message
start_turn = refl
