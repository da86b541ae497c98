-- ===== src/Program/Ending.antt =====
-- RTCServerNodeExec.cc: how the program ends. The keys of the operator, the states that the node tells
-- and SIGINT come in any order; signal_handler and main wait for is_closed, which the state callback
-- raises. SIGINT is blocked while its handler runs. A call of Stop,
-- which waits for the looper of the node, is taken to return. The end of the input is a key that does nothing.
use aone_webrtc_stt.Base.{
  ℤ, ℕ, Bool, true, false, ◌&&◌, ◌||◌, List, [], ◌∷◌, ◌++◌, ◌==◌, if◌then◌else◌,
}
use aone_webrtc_stt.Program.Main.{
  NodeSignalState, node_signal_closed, node_signal_error, node_state_callback, MainEffect,
  node_stop, MainState, main_state, on_command,
}

pub data ProgramEvent : Type 0 where
  key : ℕ → ProgramEvent
  told : NodeSignalState → ProgramEvent
  sigint : ProgramEvent

-- main with its globals: `in_handler` while signal_handler waits, `is_over` behind the return of main or
-- exit.
pub record ProgramState : Type 0 where
  pub main : MainState
  pub has_server_node : Bool
  pub is_closed : Bool
  pub in_handler : Bool
  pub is_over : Bool

-- `while (!is_closed) usleep(...)`, at the end of main and in the handler.
unfoldable pub wait_closed : ProgramState → ProgramState
wait_closed s = record s { is_over = s.is_over || ((s.main.is_end || s.in_handler) && s.is_closed) }

unfoldable pub signal_handler : ProgramState → ProgramState × List MainEffect
unfolding wait_closed
signal_handler s =
    if s.has_server_node
    then (wait_closed (record s { in_handler = true }), node_stop ∷ [])
    else (record s { is_over = true }, [])

unfoldable pub on_key : List ℕ → ℤ → ProgramState → ℕ → ProgramState × List MainEffect
unfolding on_command wait_closed
on_key ip_addr port s c =
    let (m, out) = on_command ip_addr port s.main c in
    if s.main.is_end || s.in_handler then (s, []) else (wait_closed (record s { main = m }), out)

unfoldable pub on_event : List ℕ → ℤ → ProgramState → ProgramEvent → ProgramState × List MainEffect
unfolding on_key node_state_callback signal_handler
on_event ip_addr port s (key c) = if s.is_over then (s, []) else on_key ip_addr port s c
on_event ip_addr port s (told state) =
    (wait_closed (record s { is_closed = node_state_callback s.is_closed state }), [])
on_event ip_addr port s sigint = if s.is_over || s.in_handler then (s, []) else signal_handler s

unfoldable pub run_events :
    List ℕ → ℤ → ProgramState → List ProgramEvent → ProgramState × List MainEffect
unfolding on_event
run_events ip_addr port s [] = (s, [])
run_events ip_addr port s (e ∷ es) =
    let (t, out) = on_event ip_addr port s e in
    let (u, rest) = run_events ip_addr port t es in (u, out ++ rest)

-- The program before the first turn of its loop, with the node or without it yet.
unfoldable pub unstarted_program : Bool → ProgramState
unstarted_program has_server_node = record {
  main = main_state;
  has_server_node = has_server_node;
  is_closed = false;
  in_handler = false;
  is_over = false;
}

-- The program behind the first turn of its loop, which starts the node.
unfoldable pub started_program : List ℕ → ℤ → ProgramState × List MainEffect
unfolding on_command unstarted_program
started_program ip_addr port =
    let (m, out) = on_command ip_addr port main_state b's' in
    (record (unstarted_program true) { main = m }, out)

-- Where SIGINT comes before the start: before Create, or in the dialog behind it.
pub data EarlySignal : Type 0 where
  no_early_signal before_create before_start : EarlySignal

unfoldable pub started_or_signalled : List ℕ → ℤ → EarlySignal → ProgramState × List MainEffect
unfolding started_program signal_handler unstarted_program
started_or_signalled ip_addr port no_early_signal = started_program ip_addr port
started_or_signalled ip_addr port before_create = signal_handler (unstarted_program false)
started_or_signalled ip_addr port before_start = signal_handler (unstarted_program true)

unfoldable pub run_executable :
    List ℕ → ℤ → EarlySignal → List ProgramEvent → ProgramState × List MainEffect
unfolding started_or_signalled run_events
run_executable ip_addr port early es =
    let (s, out) = started_or_signalled ip_addr port early in
    let (t, rest) = run_events ip_addr port s es in (t, out ++ rest)

-- The events that ask for the end, and those that tell that the node has none to wait for.
unfoldable pub asks : List ProgramEvent → Bool
asks [] = false
asks (key c ∷ es) = (c == b'e') || asks es
asks (told state ∷ es) = asks es
asks (sigint ∷ es) = true

unfoldable pub closes : List ProgramEvent → Bool
closes [] = false
closes (told node_signal_closed ∷ es) = true
closes (told node_signal_error ∷ es) = true
closes (_ ∷ es) = closes es
