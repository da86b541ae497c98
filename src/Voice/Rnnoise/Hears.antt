-- ===== src/Voice/Rnnoise/Hears.antt =====
-- RTCRNNoiseVad::pushPCM: what one push gives to the peer of the audio that it finds to be speech.
use mathlib.Core.Path.{subst}
use aone_webrtc_stt.Base.{
  take, read, ℤ, ℕ, ◌+◌, ◌*◌, ◌/◌, ◌%◌, ◌^◌, ◌≡◌, refl, sym, ap, ◌∙◌, inl, inr, Bool, true, false,
  Option, none, some, List, [], ◌∷◌, ◌++◌, map, append-nil, arith, ltb, Bool-cases, bind-some,
  some_inj,
}
use aone_webrtc_stt.Voice.Pcm.{
  VadEffect, voices, voices-map, voices-append, dumped, dumped-append, dumped-voices, dump_file,
  pcm_bytes, sampling_16khz_10ms, VadSpeechingState, state_start, state_speeching, new_buffer,
  non_speech_threshold, voice_active,
}
use aone_webrtc_stt.Voice.Stt.{SttState, send_stt_pcm, send_speech, send_end, filling}
use aone_webrtc_stt.Voice.Sending.{pending_bytes, payloads, send_speech_bytes, send_end_bytes}
use aone_webrtc_stt.Voice.Resampler.{ResamplerApi}
use aone_webrtc_stt.Voice.Rnnoise.{
  RnnoiseApi, RnnoiseVadOf, preprocess, send_if_enabled, send_speech_frames, next_dump_file,
  on_speech, on_noise, on_level, push_with,
}
use aone_webrtc_stt.Voice.Rnnoise.Phase.{
  preprocess-Keeps, quiet, started, frames_go_on, frames_start,
}
use aone_webrtc_stt.Voice.Rnnoise.Segments.{
  counted, noise_after_silence, noise_in_speech, noise_ends_speech,
}

read_front_some : (xs : List ℤ) (n : ℕ) (ys : List ℤ) → read xs 0 n ≡ some ys → ys ≡ take n xs
unfolding read
read_front_some xs n ys e = ground arith

module _ (na : RnnoiseApi) (ra : ResamplerApi) where
  -- The bytes given out and those pending are the ones that were pending, and then these.
  abbrev pub Gives : SttState → List ℕ → RnnoiseVadOf na ra × List VadEffect → Type 0
  Gives s bytes r = payloads (voices r.1) ++ pending_bytes r.0.stt ≡ pending_bytes s ++ bytes

  sent-Gives :
      (v : RnnoiseVadOf na ra) (m : ℕ) (state : VadSpeechingState)
      (r : RnnoiseVadOf na ra × List VadEffect)
      → v.is_send_stt ≡ true
      → send_stt_pcm v.stt v.pcm_16_mono m state ≡ send_speech v.stt v.pcm_16_mono m
      → send_if_enabled na ra v v.pcm_16_mono m state ≡ some r
      → Gives v.stt (pcm_bytes (take m v.pcm_16_mono)) r × (dumped r.1 ≡ [])
  unfolding send_if_enabled
  sent-Gives v m state r on same e =
      let e' = rw (on, same) at e in
      let (q, sent, result) = bind-some (send_speech v.stt v.pcm_16_mono m) _ e' in
      subst
        (λ (r : RnnoiseVadOf na ra × List VadEffect).
          Gives v.stt (pcm_bytes (take m v.pcm_16_mono)) r × (dumped r.1 ≡ []))
        (some_inj result)
        (rw (voices-map q.1) (send_speech_bytes v.stt v.pcm_16_mono m q sent), dumped-voices q.1)

  send_speech_frames-Gives :
      (v : RnnoiseVadOf na ra) (n : ℕ) (r : RnnoiseVadOf na ra × List VadEffect)
      → v.is_send_stt ≡ true
      → send_speech_frames na ra v n ≡ some r
      → Gives v.stt (pcm_bytes (take (sampling_16khz_10ms * n) v.pcm_16_mono)) r × (dumped r.1 ≡ [])
  unfolding send_stt_pcm next_dump_file pending_bytes filling new_buffer
  send_speech_frames-Gives v n r on e = elim (Bool-cases v.is_speech) [
    | inl speech ↦
        sent-Gives (quiet na ra v) (sampling_16khz_10ms * n) state_speeching r on refl
          (sym (frames_go_on na ra v n speech) ∙ e)
    | inr silence ↦
        let (q, sent, result) =
          bind-some
            (send_if_enabled na ra (started na ra v) v.pcm_16_mono (sampling_16khz_10ms * n)
              state_start)
            _ (sym (frames_start na ra v n silence) ∙ e) in
        subst
          (λ (r : RnnoiseVadOf na ra × List VadEffect).
            Gives v.stt (pcm_bytes (take (sampling_16khz_10ms * n) v.pcm_16_mono)) r
            × (dumped r.1 ≡ []))
          (some_inj result)
          (sent-Gives (started na ra v) (sampling_16khz_10ms * n) state_start q on refl sent)
  ]

  -- What was pending and what was written to the debug files is given out, or still pending.
  abbrev pub Hears : RnnoiseVadOf na ra → RnnoiseVadOf na ra × List VadEffect → Type 0
  Hears v r = Gives v.stt (dumped r.1) r

  speech-Hears :
      (v : RnnoiseVadOf na ra) (n : ℕ) (r : RnnoiseVadOf na ra × List VadEffect)
      → v.is_send_stt ≡ true
      → on_speech na ra v n ≡ some r
      → Hears v r
  unfolding on_speech voices dumped
  speech-Hears v n r on e =
      let (q, sent, e') = bind-some (send_speech_frames na ra v n) _ e in
      let (frames, taken, result) =
        bind-some (read v.pcm_16_mono 0 (sampling_16khz_10ms * n)) _ e' in
      let file = dump_file q.0.debug_dump_file (pcm_bytes frames) ∷ [] in
      let (gives, none_dumped) = send_speech_frames-Gives v n q on sent in
      subst (Hears v) (some_inj result) (
        rw
          (
            voices-append q.1 file,
            append-nil (voices q.1),
            dumped-append q.1 file,
            none_dumped,
            append-nil (pcm_bytes frames),
            read_front_some v.pcm_16_mono (sampling_16khz_10ms * n) frames taken,
          )
          gives)

  pub unchanged-Hears : (v w : RnnoiseVadOf na ra) → w.stt ≡ v.stt → Hears v (w, [])
  unfolding voices dumped payloads
  unchanged-Hears v w e = ap pending_bytes e ∙ sym (append-nil (pending_bytes v.stt))

  ended-Hears :
      (v w : RnnoiseVadOf na ra)
      → w.stt ≡ (send_end v.stt).0
      → Hears v (w, map voice_active (send_end v.stt).1)
  ended-Hears v w e =
      rw (voices-map (send_end v.stt).1, dumped-voices (send_end v.stt).1, e)
        (rw ((send_end_bytes v.stt).0, (send_end_bytes v.stt).1) refl)

  noise-Hears :
      (v : RnnoiseVadOf na ra) (r : RnnoiseVadOf na ra × List VadEffect)
      → v.is_send_stt ≡ true
      → on_noise na ra v ≡ some r
      → Hears v r
  noise-Hears v r on e =
      let becomes =
        λ (q : RnnoiseVadOf na ra × List VadEffect) (step : on_noise na ra v ≡ some q)
            (h : Hears v q).
          subst (Hears v) (some_inj (sym step ∙ e)) h in
      let passives = (v.continuity_passives + 1) % 2 ^ 32 in
      elim (Bool-cases v.is_speech) [
        | inr off ↦ becomes (v, []) (noise_after_silence na ra v off) (unchanged-Hears v v refl)
        | inl speech ↦ elim (Bool-cases (ltb (non_speech_threshold / 2) passives)) [
          | inr more ↦
              becomes (counted na ra v, []) (noise_in_speech na ra v speech more)
                (unchanged-Hears v (counted na ra v) refl)
          | inl over ↦ becomes _ (noise_ends_speech na ra v on speech over) (
              ended-Hears v
                (record (counted na ra v) { is_speech = false; stt = (send_end v.stt).0 }) refl)
        ]
      ]

  level-Hears :
      (level : Bool) (v : RnnoiseVadOf na ra) (n : ℕ) (r : RnnoiseVadOf na ra × List VadEffect)
      → v.is_send_stt ≡ true
      → on_level na ra level v n ≡ some r
      → Hears v r
  unfolding on_level
  level-Hears true v n r on e = speech-Hears v n r on e
  level-Hears false v n r on e = noise-Hears v r on e

  pub push_with-Hears :
      (d : Option na.DenoiseState) (v : RnnoiseVadOf na ra) (pcm : List ℤ) (samples : ℕ)
      (r : RnnoiseVadOf na ra × List VadEffect)
      → v.is_send_stt ≡ true
      → push_with na ra d v pcm samples ≡ some r
      → Hears v r
  unfolding push_with
  push_with-Hears none v pcm samples r on e =
      subst (Hears v) (some_inj e) (unchanged-Hears v v refl)
  push_with-Hears (some d) v pcm samples r on e =
      let (q, prepared, e') = bind-some (preprocess na ra v d pcm samples) _ e in
      let k = preprocess-Keeps na ra v d pcm samples q prepared in
      subst (λ s. Gives s (dumped r.1) r) k.stt
        (level-Hears (na.is_speech_level q.1) q.0 q.2 r (k.is_send_stt ∙ on) e')
