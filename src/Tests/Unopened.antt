-- ===== src/Tests/Unopened.antt =====
-- A node whose web socket cannot be opened, and a Stop of the program.
use aone_webrtc_stt.Node.ServerNode.{NodeMsg}
use aone_webrtc_stt.Tests.Peers.{named}
use aone_webrtc_stt.Signaling.Session.{on_session_message, create_session, error_msg}
use aone_webrtc_stt.Tests.Messages.{trees}
use aone_webrtc_stt.System.Turns.{session_turn, System, stop_call}
use aone_webrtc_stt.Base.{pos, ◌≡◌, refl, true, false, some, [], ◌∷◌, invalid_operation}
use aone_webrtc_stt.System.Silent.{failed_open-never_closed, is_closed_behind}
use aone_webrtc_stt.System.Failing.{
  FailingReach, here, next, node_turns, session_turns, stop_called,
}
use aone_webrtc_stt.Tests.Run.{created, waiting, first_turn, start_turn}

abbrev failed : System trees named
failed = record waiting { session_queue = error_msg ∷ [] }

fail_turn : session_turn trees named invalid_operation waiting ≡ some failed
unfolding session_turn on_session_message create_session
fail_turn = refl

-- The node is stopped, and its session closed.
abbrev stopping : System trees named
stopping = record failed { node_queue = NodeMsg.stop_msg ∷ [] }

stop_reach : FailingReach trees named created stopping
unfolding stop_call
stop_reach =
    next
      (next (next (next here node_turns first_turn) node_turns start_turn) session_turns fail_turn)
      stop_called refl

failed_open-never_closed_example : is_closed_behind stopping.node.signal_state ≡ false
failed_open-never_closed_example =
    failed_open-never_closed trees named true "127.0.0.1" (pos 9000) stopping stop_reach
