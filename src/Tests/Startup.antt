-- ===== src/Tests/Startup.antt =====
-- The configuration of the program at concrete lines of the operator.
use aone_webrtc_stt.Program.Over.{Ends, run_executable-over}
use aone_webrtc_stt.Program.Ending.{
  ProgramEvent, no_early_signal, run_executable, key, told, sigint,
}
use aone_webrtc_stt.Base.{
  ℤ, pos, codes, decimal, is_digit, value_from, ℕ, ◌≡◌, refl, ◌⊎◌, true, none, some, List, [], ◌∷◌,
  ◌++◌,
}
use aone_webrtc_stt.Program.Config.{
  is_valid_ip, is_numeric, ask_listen_config, config_text, read_or_create_listen_config,
}
use aone_webrtc_stt.Program.Asking.{IsAnswer, ask_listen_config-ends}
use aone_webrtc_stt.Program.Main.{run_main, NodeSignalState}
use aone_webrtc_stt.Program.Controller.{
  node_created, log_level_set, node_started, node_stopped, run_program, run_program_lem,
}
use aone_webrtc_stt.Program.Again.{read_or_create_twice}

abbrev address : List ℕ
address = codes "10.0.0.1"

address_valid : is_valid_ip address ≡ true
unfolding is_valid_ip is_digit
address_valid = refl

port_numeric : is_numeric (codes "9000") ≡ some (pos 9000)
unfolding is_numeric value_from is_digit
port_numeric = refl

abbrev typed_lines : List (List ℕ)
typed_lines = codes "10.0.0" ∷ address ∷ codes "9000" ∷ []

ask_listen_config-ends_example :
    (r : List ℕ × ℤ) × (ask_listen_config none typed_lines ≡ some r) × IsAnswer typed_lines r
ask_listen_config-ends_example =
    ask_listen_config-ends (codes "10.0.0" ∷ []) address (codes "9000") [] (pos 9000) address_valid
      port_numeric

abbrev text : List ℕ
text = codes "10.0.0.1" ++ (10 ∷ (codes "9000" ++ (10 ∷ [])))

first_start :
    read_or_create_listen_config true none (address ∷ codes "9000" ∷ [])
    ≡ some ((address, pos 9000), some text)
unfolding read_or_create_listen_config is_digit value_from decimal config_text
first_start = refl

read_or_create_twice_example :
    read_or_create_listen_config true (some text) [] ≡ some ((address, pos 9000), some text)
read_or_create_twice_example =
    read_or_create_twice true none (address ∷ codes "9000" ∷ []) [] (address, pos 9000) text
      first_start

run_program_lem_example :
    let created = node_created ∷ log_level_set ∷ node_started address (pos 9000) ∷ [] in
    (run_program address (pos 9000) (b'x' ∷ b'e' ∷ []) ≡ created)
    ⊎ (run_program address (pos 9000) (b'x' ∷ b'e' ∷ []) ≡ created ++ node_stopped ∷ [])
run_program_lem_example = run_program_lem address (pos 9000) (b'x' ∷ b'e' ∷ [])

program_stopped :
    run_program address (pos 9000) (b'x' ∷ b'e' ∷ [])
    ≡ node_created ∷ log_level_set ∷ node_started address (pos 9000) ∷ node_stopped ∷ []
unfolding run_program run_main
program_stopped = refl

-- The node fails, and the signal comes later.
abbrev program_events : List ProgramEvent
program_events = key b'x' ∷ told NodeSignalState.node_signal_error ∷ sigint ∷ []

run_executable-over_example :
    Ends
      (codes "10.0.0.1")
      (pos 8080)
      program_events
      no_early_signal
      (run_executable (codes "10.0.0.1") (pos 8080) no_early_signal program_events)
run_executable-over_example =
    run_executable-over (codes "10.0.0.1") (pos 8080) no_early_signal program_events

program_over :
    (run_executable (codes "10.0.0.1") (pos 8080) no_early_signal program_events).0.is_over ≡ true
unfolding run_executable
program_over = refl
