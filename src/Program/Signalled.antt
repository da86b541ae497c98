-- ===== src/Program/Signalled.antt =====
-- RTCServerNodeExec.cc: a program that is over, or whose handler of SIGINT waits.
use aone_webrtc_stt.Base.{
  ℤ, ℕ, ◌≡◌, refl, ap, ◌∙◌, ◌++◌, Bool, true, false, ◌&&◌, ◌||◌, List, [], ◌∷◌, arith,
  if◌then◌else◌,
}
use aone_webrtc_stt.Program.Main.{
  NodeSignalState, node_signal_closed, node_signal_error, node_state_callback, MainEffect,
  on_command,
}
use aone_webrtc_stt.Program.Ending.{
  ProgramEvent, key, told, sigint, ProgramState, wait_closed, signal_handler, on_key, on_event,
  run_events, closes,
}

-- What is still to come of a program that is over, or whose handler of SIGINT waits: it does nothing
-- more, and is over as soon as the flag is raised.
abbrev pub IsDone : Bool → ProgramState × List MainEffect → Type 0
IsDone over r = (r.0.is_over ≡ over) × (r.1 ≡ [])

step-IsDone :
    (ip : List ℕ) (port : ℤ) (es : List ProgramEvent) (over : Bool) (s t : ProgramState)
    (e : ProgramEvent)
    → on_event ip port s e ≡ (t, [])
    → IsDone over (run_events ip port t es)
    → IsDone over (run_events ip port s (e ∷ es))
unfolding run_events
step-IsDone ip port es over s t e done (ends, none_more) = (
  ap (λ r. (run_events ip port r.0 es).0.is_over) done ∙ ends,
  ap (λ r. r.1 ++ (run_events ip port r.0 es).1) done ∙ none_more,
)

over_still :
    (ip : List ℕ) (port : ℤ) (s : ProgramState) (e : ProgramEvent)
    → s.is_over ≡ true
    → (t : ProgramState) × (t.is_over ≡ true) × (on_event ip port s e ≡ (t, []))
unfolding on_event wait_closed
over_still ip port s (key c) over =
    (s, over, ap (λ b. if b then (s, []) else on_key ip port s c) over)
over_still ip port s (told state) over = (
  _,
  ap (λ b. b || ((s.main.is_end || s.in_handler) && node_state_callback s.is_closed state)) over,
  refl,
)
over_still ip port s sigint over =
    (s, over, ap (λ b. if b || s.in_handler then (s, []) else signal_handler s) over)

pub over-IsDone :
    (ip : List ℕ) (port : ℤ) (es : List ProgramEvent) (s : ProgramState)
    → s.is_over ≡ true
    → IsDone true (run_events ip port s es)
unfolding run_events
over-IsDone ip port [] s over = (over, refl)
over-IsDone ip port (e ∷ es) s over =
    let (t, still, done) = over_still ip port s e over in
    step-IsDone ip port es true s t e done (over-IsDone ip port es t still)

key_waits :
    (ip : List ℕ) (port : ℤ) (s : ProgramState) (c : ℕ)
    → s.in_handler ≡ true
    → on_key ip port s c ≡ (s, [])
unfolding on_key
key_waits ip port s c waits =
    let asked : s.main.is_end || s.in_handler ≡ true = ground (arith, waits) in
    ap
      (λ b. if b then (s, []) else (
        wait_closed (record s { main = (on_command ip port s.main c).0 }),
        (on_command ip port s.main c).1,
      ))
      asked

sigint_waits :
    (ip : List ℕ) (port : ℤ) (s : ProgramState)
    → s.in_handler ≡ true
    → on_event ip port s sigint ≡ (s, [])
unfolding on_event
sigint_waits ip port s waits =
    let busy : s.is_over || s.in_handler ≡ true = ground (arith, waits) in
    ap (λ b. if b then (s, []) else signal_handler s) busy

-- The handler waits, and the flag is not raised yet.
pub handler-IsDone :
    (ip : List ℕ) (port : ℤ) (es : List ProgramEvent) (s : ProgramState)
    → s.in_handler ≡ true
    → s.is_closed ≡ false
    → s.is_over ≡ false
    → IsDone (closes es) (run_events ip port s es)
unfolding run_events closes on_event on_key wait_closed node_state_callback
handler-IsDone ip port [] s waits low not_over = (not_over, refl)
handler-IsDone ip port (key c ∷ es) s waits low not_over =
    step-IsDone ip port es (closes es) s s (key c)
      (ap (λ b. if b then (s, []) else on_key ip port s c) not_over ∙ key_waits ip port s c waits)
      (handler-IsDone ip port es s waits low not_over)
handler-IsDone ip port (told node_signal_closed ∷ es) s waits low not_over =
    over-IsDone ip port es (on_event ip port s (told node_signal_closed)).0
      (ground (arith, waits, low, not_over))
handler-IsDone ip port (told node_signal_error ∷ es) s waits low not_over =
    over-IsDone ip port es (on_event ip port s (told node_signal_error)).0
      (ground (arith, waits, low, not_over))
handler-IsDone ip port (told NodeSignalState.node_signal_init ∷ es) s waits low not_over =
    handler-IsDone ip port es (on_event ip port s (told NodeSignalState.node_signal_init)).0 waits
      low (ground (arith, waits, low, not_over))
handler-IsDone ip port (told NodeSignalState.node_signal_opened ∷ es) s waits low not_over =
    handler-IsDone ip port es (on_event ip port s (told NodeSignalState.node_signal_opened)).0 waits
      low (ground (arith, waits, low, not_over))
handler-IsDone ip port (sigint ∷ es) s waits low not_over =
    step-IsDone ip port es (closes es) s s sigint (sigint_waits ip port s waits)
      (handler-IsDone ip port es s waits low not_over)
