-- ===== src/Tests/Services.antt =====
-- The clients of the speech server and of the web socket, and the program, at concrete inputs.
use aone_webrtc_stt.Base.{
  length, take, drop, replicate, pos, codes, is_digit, ℕ, String, ◌≡◌, refl, sym, ◌↔◌, Bool, true,
  false, some, List, [], ◌∷◌, ◌++◌, map, arith, some_inj,
}
use aone_webrtc_stt.Voice.Pcm.{ABuffer}
use aone_webrtc_stt.Speech.Client.{
  ProcessorThread, Frame, ClientMsg, start_msg, stop_msg, send_vad_pcm, create_client, send_voice,
}
use aone_webrtc_stt.Speech.Order.{
  push, turn, Step, run_thread, messages, message_of, pushed, run_thread-messages,
  run_thread-drains,
}
use aone_webrtc_stt.Speech.States.{IsValid, run_client, run_client-IsValid}
use aone_webrtc_stt.Socket.Messages.{LwsRing, WsMsg}
use aone_webrtc_stt.Socket.Client.{
  client_writeable, send, insert_ring_buffer, WebSocketClientOf, ws_open, run_callbacks,
}
use aone_webrtc_stt.Socket.Fragments.{
  Message, more_payload, more_fragments, all_events, told, run_callbacks-all_events,
}
use aone_webrtc_stt.Program.Config.{is_valid_ip, read_listen_config, config_text}
use aone_webrtc_stt.Program.Reading.{read_listen_config-config_text}
use aone_webrtc_stt.Socket.Ring.{
  front, rest, payloads, RingLaws, IoStep, send_call, callback, run_io, unwritten,
}
use aone_webrtc_stt.Socket.Order.{run_io-order}
use aone_webrtc_stt.Program.Address.{IsAddress, is_valid_ip-IsAddress}

abbrev pub voice : String → List ℕ → ABuffer
voice label bytes = record {
  capacity = 1920;
  bytes = bytes;
  meta_enum = some label;
  meta_id = some "ann";
}

abbrev ready : ProcessorThread
ready = record {
  active_voices = voice "start" (1 ∷ 2 ∷ []) ∷ [];
  is_stoping = false;
  has_ctx = true;
  has_socket = true;
}

abbrev steps : List Step
steps = turn ∷ push (voice "end" []) ∷ []

abbrev left : ProcessorThread × List Frame
left =
    (record ready { active_voices = voice "end" [] ∷ [] }, send_voice (voice "start" (1 ∷ 2 ∷ [])))

steps_run : run_thread ready steps ≡ some left
unfolding run_thread
steps_run = refl

run_thread-messages_example :
    messages [] left.1 ++ map message_of left.0.active_voices
    ≡ map message_of (ready.active_voices ++ pushed steps)
run_thread-messages_example = run_thread-messages steps ready left refl refl steps_run

run_thread-drains_example :
    (out : List Frame) × (run_thread ready (replicate (length ready.active_voices) turn)
      ≡ some (record ready { active_voices = [] }, out))
    × (messages [] out ≡ map message_of ready.active_voices)
run_thread-drains_example = run_thread-drains ready refl refl

abbrev client_messages : List (Bool × ClientMsg)
client_messages =
    (true, start_msg) ∷ (true, send_vad_pcm (voice "start" [])) ∷ (true, stop_msg) ∷ []

run_client-IsValid_example : IsValid (run_client create_client client_messages)
run_client-IsValid_example = run_client-IsValid client_messages

-- A ring without a bound.
abbrev ring : LwsRing
ring = record {
  Ring = List WsMsg;
  waiting = λ ms. ms;
  count_free_elements = λ ms. 1024;
  insert = λ ms m. some (ms ++ m ∷ []);
  get_element = front;
  consume_single_tail = rest;
  retired = take 1;
  count_waiting_elements = length;
  consume = λ ms n. drop n ms;
  destroyed = λ ms. ms;
}

abbrev socket : WebSocketClientOf (List WsMsg)
socket = record {
  recv_msg = [];
  ring = [];
  write_consume_pending = false;
  has_thread = true;
  has_wsc = true;
  has_wsi = true;
  host = "10.0.0.1";
  path = "/";
  state = ws_open;
}

abbrev received : List Message
received = (more_payload 1 [] 3 true ∷ more_fragments 2 [] 0 ∷ [], 3, []) ∷ ([], 4, []) ∷ []

run_callbacks-all_events_example :
    run_callbacks ring socket (all_events received) ≡ (socket, told received)
run_callbacks-all_events_example = run_callbacks-all_events ring received socket refl

address_valid : is_valid_ip (codes "10.0.0.255") ≡ true
unfolding is_valid_ip is_digit
address_valid = refl

read_listen_config-config_text_example :
    read_listen_config (config_text (codes "10.0.0.255") (pos 8080))
    ≡ some (codes "10.0.0.255", pos 8080)
read_listen_config-config_text_example =
    read_listen_config-config_text (codes "10.0.0.255") (pos 8080) address_valid (ground arith)

ring_laws : RingLaws ring
ring_laws = record {
  insert_lem = λ r m r' e. sym (some_inj e);
  get_element_lem = λ r. refl;
  consume_lem = λ r. refl;
}

-- Two texts are sent, and the first is written whole.
abbrev io_steps : List IoStep
io_steps =
    send_call (104 ∷ [])
    ∷ send_call (105 ∷ [])
    ∷ callback (client_writeable (pos 1))
    ∷ callback (client_writeable (pos 1))
    ∷ []

run_io-order_example :
    let r = run_io ring socket io_steps in
    payloads r.2 ++ payloads (unwritten ring r.0) ≡ payloads (ring.waiting socket.ring) ++ r.1
run_io-order_example = run_io-order ring io_steps socket ring_laws refl

io_steps_written : (run_io ring socket io_steps).1 ≡ (104 ∷ []) ∷ (105 ∷ []) ∷ []
unfolding run_io send insert_ring_buffer
io_steps_written = refl

is_valid_ip-IsAddress_example :
    (is_valid_ip (codes "10.0.0.255") ≡ true) ↔ IsAddress (codes "10.0.0.255")
is_valid_ip-IsAddress_example = is_valid_ip-IsAddress (codes "10.0.0.255")

-- The last part may be empty.
last_part_empty : is_valid_ip (codes "1.2.3.") ≡ true
unfolding is_valid_ip is_digit
last_part_empty = refl
