-- ===== src/Speech/States.antt =====
-- The states of the client of the speech server.
use aone_webrtc_stt.Base.{◌≡◌, refl, ◌≢◌, Bool, true, false, Option, none, some, List, [], ◌∷◌}
use aone_webrtc_stt.Voice.Pcm.{ABuffer}
use aone_webrtc_stt.Speech.Client.{
  VadZmqClient, ClientState, ClientMsg, client_uninit, client_init, client_start, client_error,
  start_msg, stop_msg, send_vad_pcm, create_client, push_to, start_m, stop_m, ProcessorThread,
  on_start, on_stop, on_send, on_client_message,
}

-- The thread is there just while the client is started.
pub data IsValid : VadZmqClient → Type 0 where
  stopped : {c : VadZmqClient} → c.thread ≡ none → c.state ≢ client_start → IsValid c
  started : {c : VadZmqClient} → c.thread ≢ none → c.state ≡ client_start → IsValid c

-- The client behind the messages, each with whether a thread could be run then.
unfoldable pub run_client : VadZmqClient → List (Bool × ClientMsg) → VadZmqClient
unfolding on_client_message
run_client c [] = c
run_client c ((run, m) ∷ ms) = run_client (on_client_message run c m).0 ms

on_start-IsValid :
    (run : Bool) (c : VadZmqClient) (s : ClientState) → IsValid c → IsValid (on_start run c s).0
unfolding on_start start_m
on_start-IsValid run c client_start v = v
on_start-IsValid true c client_uninit v = started (λ e. cc) refl
on_start-IsValid true c client_init v = started (λ e. cc) refl
on_start-IsValid true c client_error v = started (λ e. cc) refl
on_start-IsValid false c client_uninit v = stopped refl (λ e. cc)
on_start-IsValid false c client_init v = stopped refl (λ e. cc)
on_start-IsValid false c client_error v = stopped refl (λ e. cc)

on_stop-IsValid : (c : VadZmqClient) (s : ClientState) → IsValid c → IsValid (on_stop c s).0
unfolding on_stop stop_m
on_stop-IsValid c client_start v = stopped refl (λ e. cc)
on_stop-IsValid c client_uninit v = v
on_stop-IsValid c client_init v = v
on_stop-IsValid c client_error v = v

push_to_lem : (b : ABuffer) (o : Option ProcessorThread) → o ≢ none → push_to b o ≢ none
push_to_lem b none there = there
push_to_lem b (some t) there = λ e. cc

on_send-IsValid :
    (c : VadZmqClient) (b : ABuffer) (s : ClientState)
    → c.state ≡ s
    → IsValid c
    → IsValid (on_send c b s).0
unfolding on_send
on_send-IsValid c b client_start e (stopped p q) = absurd (q e)
on_send-IsValid c b client_start e (started p q) = started (push_to_lem b c.thread p) q
on_send-IsValid c b client_uninit e v = v
on_send-IsValid c b client_init e v = v
on_send-IsValid c b client_error e v = v

step-IsValid :
    (run : Bool) (c : VadZmqClient) (m : ClientMsg)
    → IsValid c
    → IsValid (on_client_message run c m).0
unfolding on_client_message
step-IsValid run c start_msg v = on_start-IsValid run c c.state v
step-IsValid run c stop_msg v = on_stop-IsValid c c.state v
step-IsValid run c (send_vad_pcm b) v = on_send-IsValid c b c.state refl v

run_client_from-IsValid :
    (ms : List (Bool × ClientMsg)) (c : VadZmqClient) → IsValid c → IsValid (run_client c ms)
unfolding run_client
run_client_from-IsValid [] c v = v
run_client_from-IsValid ((run, m) ∷ ms) c v =
    run_client_from-IsValid ms (on_client_message run c m).0 (step-IsValid run c m v)

-- From a new client, after any messages, whatever becomes of the threads, the thread is there just
-- while the client is started.
pub run_client-IsValid : (ms : List (Bool × ClientMsg)) → IsValid (run_client create_client ms)
run_client-IsValid ms = run_client_from-IsValid ms create_client (stopped refl (λ e. cc))
