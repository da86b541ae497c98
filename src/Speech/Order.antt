-- ===== src/Speech/Order.antt =====
-- What the speech server receives is what was queued, in order and in whole messages, however the
-- looper's pushes and the thread's turns interleave.
use text.Mathlib.Text.{◌==◌ as str_eq}
use mathlib.Core.Path.{subst}
use aone_webrtc_stt.Base.{
  length, replicate, codes, ℕ, ◌≡◌, refl, sym, ap, ◌∙◌, inl, inr, Bool, true, false, Option, some,
  List, [], ◌∷◌, ◌++◌, map, append-nil, append_assoc, if◌then◌else◌, Bool-cases, ◌>>=◌, bind-some,
  some_inj,
}
use aone_webrtc_stt.Voice.Pcm.{ABuffer}
use aone_webrtc_stt.Speech.Client.{
  Frame, ProcessorThread, push_vad_pcm_buffer, send_voice, thread_loop, find_string,
}

-- The messages that the frames on the wire make, as the receiver of a socket sees them; the
-- frames of a message that is not complete come last.
unfoldable pub messages : List (List ℕ) → List Frame → List (List (List ℕ))
messages open_frames [] = []
messages open_frames (f ∷ fs) =
    let whole = open_frames ++ f.content ∷ [] in
    if f.more then messages whole fs else whole ∷ messages [] fs

-- What the speech server is to receive for a voice.
unfoldable pub message_of : ABuffer → List (List ℕ)
unfolding find_string
message_of voice =
    let id = codes (find_string voice.meta_id) in
    let senum = find_string voice.meta_enum in
    if str_eq senum "end" then id ∷ codes senum ∷ [] else id ∷ codes senum ∷ voice.bytes ∷ []

messages-send_voice :
    (voice : ABuffer) (fs : List Frame)
    → messages [] (send_voice voice ++ fs) ≡ message_of voice ∷ messages [] fs
unfolding messages send_voice message_of
messages-send_voice voice fs = elim (Bool-cases (str_eq (find_string voice.meta_enum) "end")) [
  | inl e ↦ rw e
  | inr e ↦ rw e
]

-- A push by the looper, or a turn of the thread behind its wait.
pub data Step : Type 0 where
  push : ABuffer → Step
  turn : Step

unfoldable pub pushed : List Step → List ABuffer
pushed [] = []
pushed (push v ∷ steps) = v ∷ pushed steps
pushed (turn ∷ steps) = pushed steps

unfoldable pub run_thread : ProcessorThread → List Step → Option (ProcessorThread × List Frame)
unfolding push_vad_pcm_buffer thread_loop
run_thread t [] = some (t, [])
run_thread t (push v ∷ steps) = run_thread (push_vad_pcm_buffer t v) steps
run_thread t (turn ∷ steps) =
    thread_loop t >>= λ (u, out). run_thread u steps >>= λ (w, rest). some (w, out ++ rest)

-- A thread with a socket that is not stopping.
abbrev live : List ABuffer → Bool → ProcessorThread
live voices ctx = record {
  active_voices = voices;
  is_stoping = false;
  has_ctx = ctx;
  has_socket = true;
}

live_lem :
    (t : ProcessorThread)
    → t.has_socket ≡ true
    → t.is_stoping ≡ false
    → live t.active_voices t.has_ctx ≡ t
live_lem t socket going = λ i. record {
  active_voices = t.active_voices;
  is_stoping = sym going i;
  has_ctx = t.has_ctx;
  has_socket = sym socket i;
}

abbrev Delivers : List ABuffer → ProcessorThread × List Frame → Type 0
Delivers voices r = messages [] r.1 ++ map message_of r.0.active_voices ≡ map message_of voices

live-Delivers :
    (steps : List Step) (voices : List ABuffer) (ctx : Bool) (r : ProcessorThread × List Frame)
    → run_thread (live voices ctx) steps ≡ some r
    → Delivers (voices ++ pushed steps) r
unfolding run_thread pushed messages
live-Delivers [] voices ctx r e =
    subst (Delivers (voices ++ [])) (some_inj e) (rw (append-nil voices))
live-Delivers (push v ∷ steps) voices ctx r e =
    subst (λ vs. Delivers vs r) (append_assoc voices (v ∷ []) (pushed steps))
      (live-Delivers steps (voices ++ v ∷ []) ctx r e)
live-Delivers (turn ∷ steps) [] ctx r e = cc
live-Delivers (turn ∷ steps) (v ∷ voices) ctx r e =
    let (q, rest, result) = bind-some (run_thread (live voices ctx) steps) _ e in
    subst (Delivers (v ∷ voices ++ pushed steps)) (some_inj result)
      (rw (messages-send_voice v q.1, live-Delivers steps voices ctx q rest))

live_drains :
    (voices : List ABuffer) (ctx : Bool)
    → (out : List Frame) × (run_thread (live voices ctx) (replicate (length voices) turn)
        ≡ some (live [] ctx, out))
      × (messages [] out ≡ map message_of voices)
unfolding run_thread messages
live_drains [] ctx = ([], refl, refl)
live_drains (v ∷ voices) ctx =
    let (out, ran, sent) = live_drains voices ctx in
    (send_voice v ++ out, rw ran, rw (messages-send_voice v out, sent))

-- For a thread with a socket that is not stopping: whatever pushes and turns follow, as long as no
-- turn finds an empty queue, the messages on the wire and those of the voices still queued are,
-- in order, those of the voices queued before and of the voices pushed: none is lost, doubled,
-- reordered or mixed with another.
pub run_thread-messages :
    (steps : List Step) (t : ProcessorThread) (r : ProcessorThread × List Frame)
    → t.has_socket ≡ true
    → t.is_stoping ≡ false
    → run_thread t steps ≡ some r
    → messages [] r.1 ++ map message_of r.0.active_voices
      ≡ map message_of (t.active_voices ++ pushed steps)
run_thread-messages steps t r socket going e =
    live-Delivers steps t.active_voices t.has_ctx r
      (ap (λ u. run_thread u steps) (live_lem t socket going) ∙ e)

-- A thread with a socket that is not stopping sends all that is queued in as many turns, without a
-- fault: the messages on the wire are those of the queue.
pub run_thread-drains :
    (t : ProcessorThread)
    → t.has_socket ≡ true
    → t.is_stoping ≡ false
    → (out : List Frame) × (run_thread t (replicate (length t.active_voices) turn)
        ≡ some (record t { active_voices = [] }, out))
      × (messages [] out ≡ map message_of t.active_voices)
run_thread-drains t socket going =
    let (out, ran, sent) = live_drains t.active_voices t.has_ctx in
    (
      out,
      ap (λ u. run_thread u (replicate (length t.active_voices) turn))
            (sym (live_lem t socket going))
          ∙ ran
          ∙ ap (λ u. some (record u { active_voices = [] }, out)) (live_lem t socket going),
      sent,
    )
