-- ===== src/Tests/Threads.antt =====
-- The thread of the speech client: its life, and its end.
use aone_webrtc_stt.Tests.Audio.{value}
use aone_webrtc_stt.Base.{◌≡◌, refl, true, false, some, List, [], ◌∷◌}
use aone_webrtc_stt.Speech.Stopping.{StoppedThread, in_wait, stop_m_returns}
use aone_webrtc_stt.Speech.Resources.{thread_life, thread_life-gives_back, zmq_run, nothing_held}
use aone_webrtc_stt.Speech.Order.{Step, push, turn}
use aone_webrtc_stt.Speech.Client.{new_thread, ZmqApi, ZmqCall, Frame}
use aone_webrtc_stt.Tests.Services.{voice}

abbrev waiting : StoppedThread
waiting = record { thread = new_thread; place = in_wait false; exit_pending = false }

hangs : stop_m_returns 2 5 waiting ≡ some false
unfolding stop_m_returns
hangs = refl

returns : stop_m_returns 1 5 waiting ≡ some true
unfolding stop_m_returns
returns = refl

abbrev connected : ZmqApi
connected = record { ctx_new = true; socket_new = true; connect = true }

abbrev steps : List Step
steps = turn ∷ push (voice "end" []) ∷ turn ∷ []

abbrev lived : List ZmqCall × List Frame
lived = value (thread_life connected (voice "start" (1 ∷ []) ∷ []) steps 2) ([], [])

lives : thread_life connected (voice "start" (1 ∷ []) ∷ []) steps 2 ≡ some lived
unfolding thread_life
lives = refl

thread_life-gives_back_example : zmq_run nothing_held lived.0 ≡ some nothing_held
thread_life-gives_back_example =
    thread_life-gives_back connected (voice "start" (1 ∷ []) ∷ []) steps 2 lived lives
