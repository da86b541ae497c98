-- ===== src/Speech/Resources.antt =====
-- RTCVADZmqClient::ProcessorThread from its constructor to its destructor: what it makes of libzmq it
-- gives back.
use aone_webrtc_stt.Voice.Pcm.{ABuffer}
use mathlib.Core.Path.{subst}
use aone_webrtc_stt.Base.{
  replicate, ℕ, ◌≡◌, refl, sym, ◌∙◌, inl, inr, Bool, true, false, not, ◌&&◌, Option, none, some,
  List, [], ◌∷◌, ◌++◌, map, arith, if◌then◌else◌, Bool-cases, ◌>>=◌, bind-some, some_inj, is_ok,
}
use aone_webrtc_stt.Speech.Client.{
  ZmqApi, ZmqCall, ctx_new_call, ctx_destroy_call, socket_call, close_call, setsockopt_linger,
  ProcessorThread, new_thread, ready_to_run, destroy_thread, stop, push_vad_pcm_buffer, thread_loop,
  take_voice, Frame,
}
use aone_webrtc_stt.Speech.Order.{Step, push, turn, run_thread}

-- What the thread has of libzmq, as libzmq sees it; a call of something that is not there is an
-- error, and so is the end of a context that has a socket.
pub record ZmqHeld : Type 0 where
  pub context : Bool
  pub socket : Bool

abbrev pub nothing_held : ZmqHeld
nothing_held = record { context = false; socket = false }

unfoldable pub zmq_step : ZmqHeld → ZmqCall → Option ZmqHeld
zmq_step h ctx_new_call = if h.context then none else some (record h { context = true })
zmq_step h socket_call =
    if h.context && not h.socket then some (record h { socket = true }) else none
zmq_step h setsockopt_linger = if h.socket then some h else none
zmq_step h close_call = if h.socket then some (record h { socket = false }) else none
zmq_step h ctx_destroy_call =
    if h.context && not h.socket then some (record h { context = false }) else none

unfoldable pub zmq_run : ZmqHeld → List ZmqCall → Option ZmqHeld
unfolding zmq_step
zmq_run h [] = some h
zmq_run h (c ∷ cs) = zmq_step h c >>= λ h'. zmq_run h' cs

-- The life of a thread: what is pushed to it before it runs, readyToRun, and, where that gives OK, its
-- turns among pushes, up to stop(), and its turns behind it, while the looper waits for its end.
unfoldable pub thread_life :
    ZmqApi → List ABuffer → List Step → ℕ → Option (List ZmqCall × List Frame)
unfolding ready_to_run run_thread stop destroy_thread
thread_life zmq early steps late = run_thread new_thread (map push early) >>= λ (t, _).
    let (u, ret, calls) = ready_to_run zmq t in
    let ended = run_thread u steps >>= λ (v, out).
    run_thread (stop v) (replicate late turn) >>= λ (w, rest).
    some (calls ++ destroy_thread w, out ++ rest) in
    if is_ok ret then ended else some (calls ++ destroy_thread u, [])

abbrev KeepsZmq : ProcessorThread → ProcessorThread × List Frame → Type 0
KeepsZmq t r = (r.0.has_ctx ≡ t.has_ctx) × (r.0.has_socket ≡ t.has_socket)

take-KeepsZmq :
    (t : ProcessorThread) (voices : List ABuffer) (r : ProcessorThread × List Frame)
    → take_voice t voices ≡ some r
    → KeepsZmq t r
unfolding take_voice
take-KeepsZmq t [] r e = cc
take-KeepsZmq t (v ∷ voices) r e = subst (KeepsZmq t) (some_inj e) (refl, refl)

going_loop :
    (t : ProcessorThread) → t.is_stoping ≡ false → thread_loop t ≡ take_voice t t.active_voices
unfolding thread_loop
going_loop t off = rw off

loop-KeepsZmq :
    (t : ProcessorThread) (r : ProcessorThread × List Frame) → thread_loop t ≡ some r → KeepsZmq t r
unfolding thread_loop
loop-KeepsZmq t r e = elim (Bool-cases t.is_stoping) [
  | inl on ↦ subst (KeepsZmq t) (some_inj (rw on at e)) (refl, refl)
  | inr off ↦ take-KeepsZmq t t.active_voices r (sym (going_loop t off) ∙ e)
]

run-KeepsZmq :
    (steps : List Step) (t : ProcessorThread) (r : ProcessorThread × List Frame)
    → run_thread t steps ≡ some r
    → KeepsZmq t r
unfolding run_thread push_vad_pcm_buffer
run-KeepsZmq [] t r e = subst (KeepsZmq t) (some_inj e) (refl, refl)
run-KeepsZmq (push v ∷ steps) t r e = run-KeepsZmq steps (push_vad_pcm_buffer t v) r e
run-KeepsZmq (turn ∷ steps) t r e =
    let (q, looped, e') = bind-some (thread_loop t) _ e in
    let (w, ran, result) = bind-some (run_thread q.0 steps) _ e' in
    let (c, s) = loop-KeepsZmq t q looped in
    let (c', s') = run-KeepsZmq steps q.0 w ran in
    subst (KeepsZmq t) (some_inj result) (c' ∙ c, s' ∙ s)

-- readyToRun, and the destructor behind whatever keeps its context and its socket.
ready_gives_back :
    (zmq : ZmqApi) (t w : ProcessorThread)
    → t.has_socket ≡ false
    → let u = ready_to_run zmq t in
      w.has_ctx ≡ u.0.has_ctx
      → w.has_socket ≡ u.0.has_socket
      → zmq_run nothing_held (u.2 ++ destroy_thread w) ≡ some nothing_held
unfolding ready_to_run destroy_thread zmq_run
ready_gives_back zmq t w none_yet c s = ground arith

-- Whatever libzmq gives, and whatever is pushed and sent without a fault: the calls of libzmq over the
-- life of a thread are accepted, each of something that is there, the context ended only behind its
-- socket; and the thread leaves neither a context nor a socket.
pub thread_life-gives_back :
    (zmq : ZmqApi) (early : List ABuffer) (steps : List Step) (late : ℕ)
    (r : List ZmqCall × List Frame)
    → thread_life zmq early steps late ≡ some r
    → zmq_run nothing_held r.0 ≡ some nothing_held
unfolding thread_life
thread_life-gives_back zmq early steps late r e =
    let (t, pushed, e') = bind-some (run_thread new_thread (map push early)) _ e in
    let (c, s) = run-KeepsZmq (map push early) new_thread t pushed in
    elim (Bool-cases (is_ok (ready_to_run zmq t.0).1)) [
      | inr failed ↦
          subst (λ (r : List ZmqCall × List Frame). zmq_run nothing_held r.0 ≡ some nothing_held)
            (some_inj (rw failed at e'))
            (ready_gives_back zmq t.0 (ready_to_run zmq t.0).0 s refl refl)
      | inl ready ↦
          let e'' = rw ready at e' in
          let (v, ran, rest) = bind-some (run_thread (ready_to_run zmq t.0).0 steps) _ e'' in
          let (w, ended, result) = bind-some (run_thread (stop v.0) (replicate late turn)) _ rest in
          let (c', s') = run-KeepsZmq steps _ v ran in
          let (c'', s'') = run-KeepsZmq (replicate late turn) (stop v.0) w ended in
          subst (λ (r : List ZmqCall × List Frame). zmq_run nothing_held r.0 ≡ some nothing_held)
            (some_inj result) (ready_gives_back zmq t.0 w.0 s (c'' ∙ c') (s'' ∙ s'))
    ]
