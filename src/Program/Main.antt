-- ===== src/Program/Main.antt =====
-- RTCServerNodeExec.cc and rtc_server_node_controller/RTCServerNodeController.h and .cc: the states of
-- the node as the program sees them, and the loop over the operator's commands. The listener's call is
-- made on a thread of its own; the model has the call. The signal handler is in Program.Ending. Behind
-- the end of the input the loop reads keys that do nothing, for ever.
use aone_webrtc_stt.Base.{
  ℤ, ℕ, String, ◌≡◌, refl, ◌⊎◌, inl, inr, Bool, true, false, List, [], ◌∷◌, ◌++◌, arith, ◌==◌,
  if◌then◌else◌,
}
use aone_webrtc_stt.Node.ServerNode.{
  SignalState, signal_init, signal_opened, signal_closed, signal_error,
}

-- RTCServerNodeController::NodeSignalState.
pub data NodeSignalState : Type 0 where
  node_signal_init node_signal_opened node_signal_closed node_signal_error : NodeSignalState

-- OnRTCServerNodeSignalState: what the state callback is called with.
unfoldable pub on_rtc_server_node_signal_state : SignalState → NodeSignalState × String
on_rtc_server_node_signal_state signal_init = (node_signal_init, "NodeState_Signal_Init")
on_rtc_server_node_signal_state signal_opened = (node_signal_opened, "NodeState_Signal_Opened")
on_rtc_server_node_signal_state signal_closed = (node_signal_closed, "NodeState_Signal_Closed")
on_rtc_server_node_signal_state signal_error = (node_signal_error, "NodeState_Signal_Error")

-- node_state_callback: the flag behind a call.
unfoldable pub node_state_callback : Bool → NodeSignalState → Bool
node_state_callback is_closed node_signal_closed = true
node_state_callback is_closed node_signal_error = true
node_state_callback is_closed _ = is_closed

pub data MainEffect : Type 0 where
  node_start : List ℕ → ℤ → MainEffect
  node_stop : MainEffect

pub record MainState : Type 0 where
  pub is_start : Bool
  pub is_end : Bool

abbrev pub main_state : MainState
main_state = record { is_start = false; is_end = false }

-- One turn of the loop of main, behind its choice of a command.
unfoldable pub on_command : List ℕ → ℤ → MainState → ℕ → MainState × List MainEffect
on_command ip_addr port s cmd =
    if cmd == b's'
    then (if s.is_start
        then (s, [])
        else (record s { is_start = true }, node_start ip_addr port ∷ []))
    else if cmd == b'e'
    then (record s { is_start = false; is_end = true }, if s.is_start then node_stop ∷ [] else [])
    else (s, [])

-- The turns of the loop on the commands of getchar, until its end or that of the commands.
unfoldable pub main_loop : List ℕ → ℤ → MainState → List ℕ → MainState × List MainEffect
unfolding on_command
main_loop ip_addr port s [] = (s, [])
main_loop ip_addr port s (command ∷ commands) =
    let (q, out) = on_command ip_addr port s command in
    let (r, rest) = main_loop ip_addr port q commands in
    if q.is_end then (q, out) else (r, out ++ rest)

-- The whole loop: its first turn has the command s, and reads none.
unfoldable pub run_main : List ℕ → ℤ → List ℕ → MainState × List MainEffect
unfolding main_loop
run_main ip_addr port commands =
    let (q, out) = on_command ip_addr port main_state b's' in
    let (r, rest) = main_loop ip_addr port q commands in (r, out ++ rest)

started_loop :
    (ip : List ℕ) (port : ℤ) (commands : List ℕ)
    → let r = main_loop ip port (record { is_start = true; is_end = false }) commands in
      (r.1 ≡ []) ⊎ ((r.1 ≡ node_stop ∷ []) × (r.0.is_end ≡ true))
unfolding main_loop on_command
started_loop ip port [] = inl refl
started_loop ip port (c ∷ commands) = ground (arith, started_loop ip port commands)

-- Whatever the operator types, the node is started once, with the configured address and port,
-- before anything else, and stopped at most once, and the loop has ended then.
pub run_main_lem :
    (ip : List ℕ) (port : ℤ) (commands : List ℕ)
    → let r = run_main ip port commands in
      (r.1 ≡ node_start ip port ∷ [])
      ⊎ ((r.1 ≡ node_start ip port ∷ node_stop ∷ []) × (r.0.is_end ≡ true))
unfolding run_main on_command
run_main_lem ip port commands = elim (started_loop ip port commands) [
  | inl e ↦ inl (rw e)
  | inr (e, ended) ↦ inr (rw e, ended)
]
