-- ===== src/Speech/Client.antt =====
-- rtc_zmq_client/RTCVADZmqClient.h and .cc: speech goes to the speech server over a ZeroMQ socket, as
-- multipart messages that a thread takes from a queue. libzmq is a parameter: whether its context and
-- its socket are made and connected, and whether the thread can be run; a frame is what zmq_msg_send
-- is given, with its ZMQ_SNDMORE. A use of the front of an empty queue is a fault.
use text.Mathlib.Text.{◌==◌ as str_eq}
use aone_webrtc_stt.Base.{
  codes, ℕ, String, Bool, true, false, not, Option, none, some, List, [], ◌∷◌, ◌++◌, if◌then◌else◌,
  is_ok, Status, ok, invalid_operation,
}
use aone_webrtc_stt.Voice.Pcm.{ABuffer}

pub data ClientState : Type 0 where
  client_uninit client_init client_start client_error : ClientState

pub data ClientMsg : Type 0 where
  start_msg stop_msg : ClientMsg
  send_vad_pcm : ABuffer → ClientMsg

pub record ZmqApi : Type 0 where
  pub ctx_new : Bool
  pub socket_new : Bool
  pub connect : Bool

-- A frame, and whether more of its message follow.
pub record Frame : Type 0 where
  pub content : List ℕ
  pub more : Bool

-- ProcessorThread: its members. `has_socket` says that the pointer is not null.
pub record ProcessorThread : Type 0 where
  pub active_voices : List ABuffer
  pub is_stoping : Bool
  pub has_ctx : Bool
  pub has_socket : Bool

abbrev pub new_thread : ProcessorThread
new_thread = record { active_voices = []; is_stoping = false; has_ctx = false; has_socket = false }

-- The calls of libzmq that make and give back its context and its socket.
pub data ZmqCall : Type 0 where
  ctx_new_call ctx_destroy_call socket_call close_call setsockopt_linger : ZmqCall

unfoldable pub ready_to_run : ZmqApi → ProcessorThread → ProcessorThread × Status × List ZmqCall
ready_to_run zmq t =
    let unconnected = record t { has_ctx = false; has_socket = false } in
    if not zmq.ctx_new
    then (record t { has_ctx = false }, invalid_operation, [])
    else if not zmq.socket_new
    then (unconnected, invalid_operation, ctx_new_call ∷ ctx_destroy_call ∷ [])
    else if not zmq.connect
    then (
      unconnected,
      invalid_operation,
      ctx_new_call ∷ socket_call ∷ setsockopt_linger ∷ close_call ∷ ctx_destroy_call ∷ [],
    )
    else (
      record t { has_ctx = true; has_socket = true },
      ok,
      ctx_new_call ∷ socket_call ∷ setsockopt_linger ∷ [],
    )

-- The destructor.
unfoldable pub destroy_thread : ProcessorThread → List ZmqCall
destroy_thread t =
    (if t.has_socket then close_call ∷ [] else [])
    ++ (if t.has_ctx then ctx_destroy_call ∷ [] else [])

unfoldable pub stop : ProcessorThread → ProcessorThread
stop t = record t { is_stoping = true }

unfoldable pub push_vad_pcm_buffer : ProcessorThread → ABuffer → ProcessorThread
push_vad_pcm_buffer t activity_buffer = record t {
  active_voices = t.active_voices ++ activity_buffer ∷ [];
}

-- findString, which leaves the AString empty where there is no such entry.
unfoldable pub find_string : Option String → String
find_string (some s) = s
find_string none = ""

unfoldable pub send_voice : ABuffer → List Frame
unfolding find_string
send_voice voice =
    let id = find_string voice.meta_id in
    let senum = find_string voice.meta_enum in
    if not (str_eq senum "end")
    then record { content = codes id; more = true }
      ∷ record { content = codes senum; more = true }
      ∷ record { content = voice.bytes; more = false }
      ∷ []
    else record { content = codes id; more = true }
      ∷ record { content = codes senum; more = false }
      ∷ []

-- The voice at the front, taken from the queue; the frames go to the socket, if there is one.
unfoldable pub take_voice : ProcessorThread → List ABuffer → Option (ProcessorThread × List Frame)
unfolding send_voice
take_voice t [] = none
take_voice t (voice ∷ rest) =
    some (record t { active_voices = rest }, if t.has_socket then send_voice voice else [])

-- threadLoop, behind its wait.
unfoldable pub thread_loop : ProcessorThread → Option (ProcessorThread × List Frame)
unfolding take_voice
thread_loop t =
    let taken = take_voice t t.active_voices in if t.is_stoping then some (t, []) else taken

-- The client. `run` says whether Thread::run succeeds; the thread is there while the client runs it.
pub record VadZmqClient : Type 0 where
  pub thread : Option ProcessorThread
  pub state : ClientState

-- Create: the constructor and _init.
abbrev pub create_client : VadZmqClient
create_client = record { thread = none; state = client_uninit }

unfoldable pub start_m : Bool → VadZmqClient → VadZmqClient × Status
start_m run c =
    if run
    then (record c { thread = some new_thread }, ok)
    else (record c { thread = none }, invalid_operation)

-- requestExitAndWait returns when the thread has ended.
unfoldable pub stop_m : VadZmqClient → VadZmqClient × Status
stop_m c = (record c { thread = none }, ok)

abbrev pub push_to : ABuffer → Option ProcessorThread → Option ProcessorThread
push_to voice (some t) = some (push_vad_pcm_buffer t voice)
push_to voice none = none

unfoldable pub on_start : Bool → VadZmqClient → ClientState → VadZmqClient × Option Status
unfolding start_m
on_start run c client_start = (c, some ok)
on_start run c _ =
    let (d, ret) = start_m run c in
    (record d { state = if is_ok ret then client_start else client_error }, some ret)

unfoldable pub on_stop : VadZmqClient → ClientState → VadZmqClient × Option Status
unfolding stop_m
on_stop c client_start =
    let (d, ret) = stop_m c in
    (record d { state = if is_ok ret then client_init else client_error }, some ret)
on_stop c _ = (c, some invalid_operation)

unfoldable pub on_send : VadZmqClient → ABuffer → ClientState → VadZmqClient × Option Status
unfolding push_vad_pcm_buffer
on_send c voice client_start = (record c { thread = push_to voice c.thread }, none)
on_send c voice _ = (c, none)

-- onMessageReceived: the client behind a message, and the status that it replies with, if it replies.
unfoldable pub on_client_message : Bool → VadZmqClient → ClientMsg → VadZmqClient × Option Status
unfolding on_start on_stop on_send
on_client_message run c start_msg = on_start run c c.state
on_client_message run c stop_msg = on_stop c c.state
on_client_message run c (send_vad_pcm voice) = on_send c voice c.state

-- SendVADPCM: the name of the speaker goes into the meta data.
unfoldable pub send_vad_pcm_to : String → ABuffer → ClientMsg
send_vad_pcm_to id active_buffer = send_vad_pcm (record active_buffer { meta_id = some id })
