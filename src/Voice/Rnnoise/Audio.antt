-- ===== src/Voice/Rnnoise/Audio.antt =====
-- RTCRNNoiseVad::pushPCM: no audio of speech is lost, doubled or reordered on its way to the peer.
use mathlib.Core.Path.{subst}
use aone_webrtc_stt.Base.{
  ℤ, ℕ, ◌≡◌, refl, sym, ap, ◌∙◌, Bool, true, false, Option, none, some, List, [], ◌∷◌, ◌++◌,
  append-nil, append_assoc, ◌>>=◌, bind-some, some_inj,
}
use aone_webrtc_stt.Voice.Pcm.{VadEffect, voices, voices-append, dumped, dumped-append, new_buffer}
use aone_webrtc_stt.Voice.Stt.{SttState, filling}
use aone_webrtc_stt.Voice.Sending.{pending_bytes, payloads, payloads-append}
use aone_webrtc_stt.Voice.Resampler.{ResamplerApi}
use aone_webrtc_stt.Voice.Rnnoise.{RnnoiseApi, RnnoiseVadOf, push_with, push_rnnoise_pcm}
use aone_webrtc_stt.Voice.Rnnoise.Phase.{Phase, silent, starting, speaking}
use aone_webrtc_stt.Voice.Rnnoise.Hears.{Hears, unchanged-Hears, push_with-Hears}
use aone_webrtc_stt.Voice.Rnnoise.Segments.{push_with-Behind}

module _ (na : RnnoiseApi) (ra : ResamplerApi) where
  -- A run of pushes, with all that they do.
  unfoldable pub run_pushes :
      RnnoiseVadOf na ra → List (List ℤ × ℕ) → Option (RnnoiseVadOf na ra × List VadEffect)
  run_pushes v [] = some (v, [])
  run_pushes v ((pcm, samples) ∷ calls) = push_rnnoise_pcm na ra v pcm samples >>= λ (w, out).
      run_pushes w calls >>= λ (u, rest). some (u, out ++ rest)

  Hears-append :
      (v : RnnoiseVadOf na ra) (r q : RnnoiseVadOf na ra × List VadEffect)
      → Hears na ra v r
      → Hears na ra r.0 q
      → Hears na ra v (q.0, r.1 ++ q.1)
  Hears-append v r q h k =
      rw
        (
          voices-append r.1 q.1,
          payloads-append (voices r.1) (voices q.1),
          dumped-append r.1 q.1,
          append_assoc (payloads (voices r.1)) (payloads (voices q.1)) (pending_bytes q.0.stt),
          k,
          ← append_assoc (payloads (voices r.1)) (pending_bytes r.0.stt) (dumped q.1),
          h,
          append_assoc (pending_bytes v.stt) (dumped r.1) (dumped q.1),
        )
        refl

  -- The audio and the phase behind the pushes.
  abbrev BehindAll : RnnoiseVadOf na ra → RnnoiseVadOf na ra × List VadEffect → Type 0
  BehindAll v r = Hears na ra v r × (b : Bool) × Phase r.0.is_speech r.0.stt b

  run_pushes-Hears :
      (calls : List (List ℤ × ℕ)) (b : Bool) (v : RnnoiseVadOf na ra)
      (r : RnnoiseVadOf na ra × List VadEffect)
      → v.is_send_stt ≡ true
      → Phase v.is_speech v.stt b
      → run_pushes v calls ≡ some r
      → BehindAll v r
  unfolding run_pushes push_rnnoise_pcm
  run_pushes-Hears [] b v r on phase e =
      subst (BehindAll v) (some_inj e) (unchanged-Hears na ra v v refl, b, phase)
  run_pushes-Hears ((pcm, samples) ∷ calls) b v r on phase e =
      let (p, first, e') = bind-some (push_with na ra v.ds_ctx v pcm samples) _ e in
      let (q, rest, result) = bind-some (run_pushes p.0 calls) _ e' in
      let h = push_with-Behind na ra b v.ds_ctx v pcm samples p on phase first in
      let (heard, b', ph) = run_pushes-Hears calls h.segment p.0 q h.sending h.phase rest in
      subst (BehindAll v) (some_inj result)
        (Hears-append v p q (push_with-Hears na ra v.ds_ctx v pcm samples p on first) heard, b', ph)

  silent-pending :
      (is_speech b : Bool) (s : SttState)
      → Phase is_speech s b
      → is_speech ≡ false
      → pending_bytes s ≡ []
  unfolding pending_bytes filling new_buffer
  silent-pending is_speech _ s (silent off p) e = rw p
  silent-pending is_speech _ s (starting on up p) e = cc
  silent-pending is_speech _ s (speaking on down) e = cc

  -- From a detector that sends, is silent and has nothing pending, any pushes that do not fault: the
  -- bytes of the buffers given out and those still pending are, in order, the bytes appended to the
  -- debug files; and where the detector is silent then, all of them are given out.
  pub run_pushes-audio :
      (v : RnnoiseVadOf na ra) (calls : List (List ℤ × ℕ)) (r : RnnoiseVadOf na ra × List VadEffect)
      → v.is_send_stt ≡ true
      → v.is_speech ≡ false
      → v.stt.pending_buffer ≡ none
      → run_pushes v calls ≡ some r
      → (payloads (voices r.1) ++ pending_bytes r.0.stt ≡ dumped r.1)
        × (r.0.is_speech ≡ false → payloads (voices r.1) ≡ dumped r.1)
  unfolding pending_bytes filling new_buffer
  run_pushes-audio v calls r on off empty e =
      let (heard, b, phase) = run_pushes-Hears calls false v r on (silent off empty) e in
      let all : payloads (voices r.1) ++ pending_bytes r.0.stt ≡ dumped r.1 = rw empty at heard in
      (
        all,
        λ quiet.
            sym (append-nil (payloads (voices r.1)))
            ∙ ap (λ bs. payloads (voices r.1) ++ bs)
                (sym (silent-pending r.0.is_speech b r.0.stt phase quiet))
            ∙ all,
      )
