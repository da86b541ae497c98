-- ===== src/Speech/Returns.antt =====
-- RTCVADZmqClient::_stop_m: whether it returns depends on the turns that the thread has between stop()
-- and requestExitAndWait().
use aone_webrtc_stt.Base.{ℕ, suc, ◌≡◌, refl, Bool, not, ◌||◌, some, ltb}
use aone_webrtc_stt.Speech.Client.{ProcessorThread, stop}
use aone_webrtc_stt.Speech.Stopping.{
  ThreadPlace, before_loop, StoppedThread, patience, is_empty, stop_m_returns, behind_wait,
}

abbrev placed : ProcessorThread → ThreadPlace → Bool → StoppedThread
placed t place exit_pending = record { thread = t; place = place; exit_pending = exit_pending }

-- A thread that is stopping gives its turn back, and keeps its queue.
behind_wait-stopping :
    (t : ProcessorThread) (place : ThreadPlace) (e : Bool)
    → behind_wait (placed (stop t) place e) ≡ some (placed (stop t) before_loop e)
unfolding behind_wait stop
behind_wait-stopping t place e = refl

abbrev Returns : ℕ → ℕ → StoppedThread → Type 0
Returns n m s =
    stop_m_returns n (suc (suc m)) s
    ≡ some (not (is_empty s.thread.active_voices) || ltb n (patience s.place))
