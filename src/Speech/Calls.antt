-- ===== src/Speech/Calls.antt =====
-- RTCVADZmqClient::Start and Stop: a message to the looper, whose reply is waited for. `posted` is
-- the status of postAndAwaitResponse; where it is not OK, the handler has not run.
use aone_webrtc_stt.Base.{◌≡◌, refl, Bool, true, false, Option, none, Status, ok, invalid_operation}
use aone_webrtc_stt.Utils.Files.{post_and_await_response}
use aone_webrtc_stt.Speech.Client.{
  VadZmqClient, on_client_message, start_msg, stop_msg, client_start, client_init, on_start,
  on_stop, start_m, stop_m, ClientState,
}

abbrev pub awaited : Status → VadZmqClient → VadZmqClient × Option Status → VadZmqClient × Status
awaited ok c (d, reply) = (d, post_and_await_response ok reply)
awaited invalid_operation c (d, reply) = (c, post_and_await_response invalid_operation none)

unfoldable pub start : Status → Bool → VadZmqClient → VadZmqClient × Status
unfolding on_client_message post_and_await_response
start posted run c = awaited posted c (on_client_message run c start_msg)

unfoldable pub stop : Status → VadZmqClient → VadZmqClient × Status
unfolding on_client_message post_and_await_response
stop posted c = awaited posted c (on_client_message true c stop_msg)

abbrev IsStarted : VadZmqClient → Type 0
IsStarted c = c.state ≡ client_start

on_start-ok :
    (run : Bool) (c : VadZmqClient) (state : ClientState)
    → c.state ≡ state
    → (awaited ok c (on_start run c state)).1 ≡ ok
    → IsStarted (awaited ok c (on_start run c state)).0
unfolding on_start start_m post_and_await_response
on_start-ok run c client_start e done = e
on_start-ok true c ClientState.client_uninit e done = refl
on_start-ok true c client_init e done = refl
on_start-ok true c ClientState.client_error e done = refl
on_start-ok false c ClientState.client_uninit e done = cc
on_start-ok false c client_init e done = cc
on_start-ok false c ClientState.client_error e done = cc

-- A Start that gives OK leaves a started client.
start-ok :
    (posted : Status) (run : Bool) (c : VadZmqClient)
    → (start posted run c).1 ≡ ok
    → IsStarted (start posted run c).0
unfolding start
start-ok ok run c done = on_start-ok run c c.state refl done
start-ok invalid_operation run c done = cc

on_stop-ok :
    (c : VadZmqClient) (state : ClientState)
    → (awaited ok c (on_stop c state)).1 ≡ ok
    → (awaited ok c (on_stop c state)).0 ≡ record { thread = none; state = client_init }
unfolding on_stop stop_m post_and_await_response
on_stop-ok c client_start done = refl
on_stop-ok c ClientState.client_uninit done = cc
on_stop-ok c client_init done = cc
on_stop-ok c ClientState.client_error done = cc

-- A Stop that gives OK leaves a client without a thread, which can be started again.
stop-ok :
    (posted : Status) (c : VadZmqClient)
    → (stop posted c).1 ≡ ok
    → (stop posted c).0 ≡ record { thread = none; state = client_init }
unfolding stop
stop-ok ok c done = on_stop-ok c c.state done
stop-ok invalid_operation c done = cc
