-- ===== src/Program/Over.antt =====
-- RTCServerNodeExec.cc: the program is over just when it was asked to end and the node told that it is
-- closed or failed.
use aone_webrtc_stt.Base.{
  replicate, ℤ, ℕ, ◌≤◌, ◌≡◌, refl, ap, true, false, ◌&&◌, List, [], ◌∷◌, arith, leb,
}
use aone_webrtc_stt.Program.Main.{MainEffect, node_stop, on_command, node_start}
use aone_webrtc_stt.Program.Ending.{
  ProgramEvent, ProgramState, wait_closed, signal_handler, started_program, run_executable, asks,
  closes, EarlySignal, no_early_signal, before_create, before_start, unstarted_program,
  started_or_signalled,
}
use aone_webrtc_stt.Program.Moved.{run_events-Moved}
use aone_webrtc_stt.Program.Signalled.{IsDone, over-IsDone, handler-IsDone}

-- How a run ends, by where SIGINT comes before the start.
abbrev pub Ends :
    List ℕ → ℤ → List ProgramEvent → EarlySignal → ProgramState × List MainEffect → Type 0
Ends ip port es before_create r = IsDone true r
Ends ip port es before_start r = (r.0.is_over ≡ closes es) × (r.1 ≡ node_stop ∷ [])
Ends ip port es no_early_signal r =
    (r.0.is_over ≡ asks es && closes es)
    × ((n : ℕ) × (r.1 ≡ node_start ip port ∷ replicate n node_stop) × (n ≤ 2) × (leb 1 n ≡ asks es))

started-Ends :
    (ip : List ℕ) (port : ℤ) (es : List ProgramEvent)
    → Ends ip port es no_early_signal (run_executable ip port no_early_signal es)
unfolding run_executable started_or_signalled unstarted_program started_program on_command
started-Ends ip port es =
    let s = (started_program ip port).0 in
    let m =
      run_events-Moved ip port es s (record { node = refl; start = λ e. refl; over = refl }) in
    (
      ground (arith, m.consistent.over, m.asking, m.closing),
      (
        m.more,
        ap (λ l. node_start ip port ∷ l) m.stopping,
        ground (arith, m.counted),
        ground (arith, m.counted, m.asking),
      ),
    )

-- Where each call of Stop returns, whatever the operator types, the node tells and the signals are: where
-- SIGINT comes before Create, the program is over, and has done nothing; where it comes behind Create
-- and before the start, the node is stopped once and never started, and the program is over just when
-- the node tells that it is closed or failed; and where no SIGINT comes before the start, the program
-- is over just when it was asked to end, by the key or by SIGINT, and the node told that it is closed
-- or failed, in whichever order; the node is started once, before anything else, and then only
-- stopped, at most twice, and at least once just where the program was asked to end.
pub run_executable-over :
    (ip : List ℕ) (port : ℤ) (early : EarlySignal) (es : List ProgramEvent)
    → Ends ip port es early (run_executable ip port early es)
unfolding run_executable started_or_signalled unstarted_program signal_handler wait_closed
run_executable-over ip port no_early_signal es = started-Ends ip port es
run_executable-over ip port before_create es =
    over-IsDone ip port es (signal_handler (unstarted_program false)).0 refl
run_executable-over ip port before_start es =
    let (ends, nothing) =
      handler-IsDone ip port es (signal_handler (unstarted_program true)).0 refl refl refl in
    (ends, ap (λ out. node_stop ∷ out) nothing)
