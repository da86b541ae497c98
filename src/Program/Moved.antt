-- ===== src/Program/Moved.antt =====
-- RTCServerNodeExec.cc: what the events of a program that was started make of it.
use aone_webrtc_stt.Base.{
  replicate, replicate_add, ℤ, ℕ, ◌+◌, ◌≡◌, refl, Bool, true, false, ◌&&◌, ◌||◌, List, [], ◌∷◌,
  arith, ◌==◌, if◌then◌else◌,
}
use aone_webrtc_stt.Program.Main.{
  NodeSignalState, node_signal_closed, node_signal_error, node_state_callback, MainEffect,
  node_stop, on_command,
}
use aone_webrtc_stt.Program.Ending.{
  ProgramEvent, key, told, sigint, ProgramState, wait_closed, signal_handler, on_key, on_event,
  run_events, asks, closes,
}

-- A program that was started, and is over just when it was asked to end and the flag is raised.
pub record IsConsistent (s : ProgramState) : Type 0 where
  pub node : s.has_server_node ≡ true
  pub start : s.main.is_end ≡ false → s.main.is_start ≡ true
  pub over : s.is_over ≡ (s.main.is_end || s.in_handler) && s.is_closed

abbrev pub asked : ProgramState → Bool
asked s = s.main.is_end || s.in_handler

abbrev pub as_number : Bool → ℕ
as_number b = if b then 1 else 0

-- How often the node was stopped.
abbrev pub stops : ProgramState → ℕ
stops s = as_number s.main.is_end + as_number s.in_handler

-- What the events es make of a program.
pub record Moved (s : ProgramState) (es : List ProgramEvent) (r : ProgramState × List MainEffect)
    : Type 0 where
  pub consistent : IsConsistent r.0
  pub asking : asked r.0 ≡ asked s || asks es
  pub closing : r.0.is_closed ≡ s.is_closed || closes es
  pub more : ℕ
  pub stopping : r.1 ≡ replicate more node_stop
  pub counted : stops s + more ≡ stops r.0

key-Moved :
    (ip : List ℕ) (port : ℤ) (s : ProgramState) (c : ℕ)
    → IsConsistent s
    → Moved s (key c ∷ []) (on_event ip port s (key c))
unfolding on_event on_key on_command wait_closed asks closes
key-Moved ip port s c v =
    let out = (on_event ip port s (key c)).1 in
    record {
      consistent = record {
        node = ground (arith, v.node);
        start = λ e. ground (arith, v.start);
        over = ground (arith, v.over);
      };
      asking = ground (arith, v.over);
      closing = ground (arith, v.over);
      more = if s.is_over || asked s then 0 else as_number (c == b'e');
      stopping = ground (arith, v.over, v.start);
      counted = ground (arith, v.over);
    }

callback_lem :
    (b : Bool) (state : NodeSignalState)
    → node_state_callback b state ≡ b || closes (told state ∷ [])
unfolding node_state_callback closes
callback_lem true NodeSignalState.node_signal_init = refl
callback_lem true NodeSignalState.node_signal_opened = refl
callback_lem true node_signal_closed = refl
callback_lem true node_signal_error = refl
callback_lem false NodeSignalState.node_signal_init = refl
callback_lem false NodeSignalState.node_signal_opened = refl
callback_lem false node_signal_closed = refl
callback_lem false node_signal_error = refl

told-Moved :
    (ip : List ℕ) (port : ℤ) (s : ProgramState) (state : NodeSignalState)
    → IsConsistent s
    → Moved s (told state ∷ []) (on_event ip port s (told state))
unfolding on_event wait_closed asks
told-Moved ip port s state v = record {
  consistent = record {
    node = v.node;
    start = v.start;
    over = ground (arith, v.over, callback_lem s.is_closed state);
  };
  asking = ground arith;
  closing = callback_lem s.is_closed state;
  more = 0;
  stopping = refl;
  counted = omega arith;
}

sigint-Moved :
    (ip : List ℕ) (port : ℤ) (s : ProgramState)
    → IsConsistent s
    → Moved s (sigint ∷ []) (on_event ip port s sigint)
unfolding on_event signal_handler wait_closed asks closes
sigint-Moved ip port s v = record {
  consistent = record {
    node = ground (arith, v.node);
    start = λ e. ground (arith, v.start);
    over = ground (arith, v.over, v.node);
  };
  asking = ground (arith, v.over, v.node);
  closing = ground (arith, v.over, v.node);
  more = if s.is_over || s.in_handler then 0 else 1;
  stopping = ground (arith, v.over, v.node);
  counted = ground (arith, v.over, v.node);
}

event-Moved :
    (ip : List ℕ) (port : ℤ) (s : ProgramState) (e : ProgramEvent)
    → IsConsistent s
    → Moved s (e ∷ []) (on_event ip port s e)
event-Moved ip port s (key c) v = key-Moved ip port s c v
event-Moved ip port s (told state) v = told-Moved ip port s state v
event-Moved ip port s sigint v = sigint-Moved ip port s v

asks-cons : (e : ProgramEvent) (es : List ProgramEvent) → asks (e ∷ es) ≡ asks (e ∷ []) || asks es
unfolding asks
asks-cons (key c) es = ground arith
asks-cons (told state) es = refl
asks-cons sigint es = refl

closes-cons :
    (e : ProgramEvent) (es : List ProgramEvent) → closes (e ∷ es) ≡ closes (e ∷ []) || closes es
unfolding closes
closes-cons (told node_signal_closed) es = refl
closes-cons (told node_signal_error) es = refl
closes-cons (told NodeSignalState.node_signal_init) es = refl
closes-cons (told NodeSignalState.node_signal_opened) es = refl
closes-cons (key c) es = refl
closes-cons sigint es = refl

pub run_events-Moved :
    (ip : List ℕ) (port : ℤ) (es : List ProgramEvent) (s : ProgramState)
    → IsConsistent s
    → Moved s es (run_events ip port s es)
unfolding run_events asks closes
run_events-Moved ip port [] s v = record {
  consistent = v;
  asking = ground arith;
  closing = ground arith;
  more = 0;
  stopping = refl;
  counted = omega arith;
}
run_events-Moved ip port (e ∷ es) s v =
    let m = event-Moved ip port s e v in
    let t = (on_event ip port s e).0 in
    let r = run_events-Moved ip port es t m.consistent in
    record {
      consistent = r.consistent;
      asking = ground (arith, r.asking, m.asking, asks-cons e es);
      closing = ground (arith, r.closing, m.closing, closes-cons e es);
      more = m.more + r.more;
      stopping = rw (m.stopping, r.stopping) (replicate_add m.more r.more node_stop);
      counted = omega (arith, m.counted, r.counted);
    }
