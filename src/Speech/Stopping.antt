-- ===== src/Speech/Stopping.antt =====
-- RTCVADZmqClient::_stop_m against the thread that it stops: stop() raises the flag and signals, and
-- requestExitAndWait makes the exit pending and waits for the end of the thread. Thread, which is not
-- of this code, calls threadLoop again until the exit is pending; a signal that no thread waits for is
-- lost, and a thread that waits is woken by a signal only.
use aone_webrtc_stt.Base.{
  ℕ, zero, suc, ◌≡◌, Bool, true, false, Option, some, List, [], ◌∷◌, if◌then◌else◌, ◌>>=◌,
}
use aone_webrtc_stt.Voice.Pcm.{ABuffer}
use aone_webrtc_stt.Speech.Client.{ProcessorThread, stop, thread_loop}

-- Where the thread is: before a call of threadLoop, in its wait, with whether it was signalled, or
-- ended.
pub data ThreadPlace : Type 0 where
  before_loop ended : ThreadPlace
  in_wait : Bool → ThreadPlace

pub record StoppedThread : Type 0 where
  pub thread : ProcessorThread
  pub place : ThreadPlace
  pub exit_pending : Bool

abbrev pub is_empty : List ABuffer → Bool
is_empty [] = true
is_empty (v ∷ vs) = false

-- threadLoop behind its wait.
unfoldable pub behind_wait : StoppedThread → Option StoppedThread
unfolding thread_loop
behind_wait s =
    thread_loop s.thread >>= λ (t, _). some (record s { thread = t; place = before_loop })

-- A turn of the thread: up to its wait, from its wait to the end of threadLoop, or both.
unfoldable pub thread_turn_at : StoppedThread → ThreadPlace → Option StoppedThread
unfolding behind_wait
thread_turn_at s ended = some s
thread_turn_at s (in_wait signalled) = if signalled then behind_wait s else some s
thread_turn_at s before_loop =
    if s.exit_pending
    then some (record s { place = ended })
    else if is_empty s.thread.active_voices
    then some (record s { place = in_wait false })
    else behind_wait s

unfoldable pub thread_turns : ℕ → StoppedThread → Option StoppedThread
unfolding thread_turn_at
thread_turns zero s = some s
thread_turns (suc n) s = thread_turn_at s s.place >>= λ t. thread_turns n t

abbrev signalled_place : ThreadPlace → ThreadPlace
signalled_place (in_wait signalled) = in_wait true
signalled_place place = place

-- ProcessorThread::stop, and requestExitAndWait up to its wait.
unfoldable pub stop_thread : StoppedThread → StoppedThread
unfolding stop
stop_thread s = record s { thread = stop s.thread; place = signalled_place s.place }

unfoldable pub request_exit : StoppedThread → StoppedThread
request_exit s = record s { exit_pending = true }

abbrev is_ended : ThreadPlace → Bool
is_ended ended = true
is_ended _ = false

-- _stop_m, with the turns that the thread has between its two calls, and behind them: whether the
-- thread has ended, and _stop_m returns.
unfoldable pub stop_m_returns : ℕ → ℕ → StoppedThread → Option Bool
unfolding stop_thread thread_turns request_exit
stop_m_returns between behind s = thread_turns between (stop_thread s) >>= λ t.
    thread_turns behind (request_exit t) >>= λ u. some (is_ended u.place)

-- The turns that a thread may have between the two calls.
abbrev pub patience : ThreadPlace → ℕ
patience before_loop = 1
patience (in_wait signalled) = 2
patience ended = 0

-- A running thread without a pending exit, which waits only while its queue is empty, and was not
-- signalled.
pub data IsRunning (s : StoppedThread) : Type 0 where
  loops : s.place ≡ before_loop → s.exit_pending ≡ false → IsRunning s
  waits :
      s.place ≡ in_wait false → s.thread.active_voices ≡ [] → s.exit_pending ≡ false → IsRunning s
