-- ===== src/Voice/Rnnoise/Ready.antt =====
-- RTCRNNoiseVad::pushPCM: one push that has no fault, where the frames of a push fill the pending
-- buffer exactly.
use mathlib.Core.Path.{subst}
use aone_webrtc_stt.Base.{
  length, read-eq, ℤ, ℕ, ◌+◌, ◌*◌, ◌/◌, ◌%◌, ◌^◌, ◌≤◌, ◌≡◌, refl, sym, ap, ◌∙◌, inl, inr, Bool,
  true, false, Option, none, some, List, [], ◌∷◌, ◌++◌, map, arith, ltb, Bool-cases, bind-eq,
}
use aone_webrtc_stt.Voice.Pcm.{
  dump_file, pcm_bytes, VadSpeechingState, state_start, state_speeching, VadEffect, voice_active,
  max_pcm_pending_size, non_speech_threshold, VadSpeechingState, max_pcm_buffer,
  sampling_16khz_10ms,
}
use aone_webrtc_stt.Voice.Stt.{send_stt_pcm, send_speech, send_end, SttState}
use aone_webrtc_stt.Voice.Sending.{pending_bytes}
use aone_webrtc_stt.Voice.Rnnoise.Phase.{quiet, started, frames_go_on, frames_start}
use aone_webrtc_stt.Voice.Chunks.{IsAligned, send_end-IsAligned, send_speech-IsAligned}
use aone_webrtc_stt.Voice.Resampler.{ResamplerApi}
use aone_webrtc_stt.Voice.Rnnoise.{
  RnnoiseApi, RnnoiseVadOf, on_noise, send_if_enabled, send_speech_frames, next_dump_file,
  on_speech, on_level, push_with,
}
use aone_webrtc_stt.Voice.Rnnoise.Frames.{HasArrays, preprocess_total}

module _ (na : RnnoiseApi) (ra : ResamplerApi) (n k : ℕ)
    (whole : k * (320 * n) ≡ max_pcm_pending_size) where
  -- Whole chunks of n frames are pending, and the arrays have their sizes.
  pub record IsReady (v : RnnoiseVadOf na ra) : Type 0 where
    pub aligned : IsAligned (320 * n) k v.stt
    pub arrays : HasArrays na ra v

  abbrev pub Goes : ℕ → Option (RnnoiseVadOf na ra × List VadEffect) → Type 0
  Goes rate done =
      (r : RnnoiseVadOf na ra × List VadEffect) × (done ≡ some r)
      × IsReady r.0
      × (r.0.in_sampling_rate ≡ rate)

  same_arrays :
      (v w : RnnoiseVadOf na ra)
      → HasArrays na ra v
      → w.tmp_pcm_mono_buffer ≡ v.tmp_pcm_mono_buffer
      → w.tmp_pcm_float_buffer ≡ v.tmp_pcm_float_buffer
      → w.pcm_16_mono ≡ v.pcm_16_mono
      → HasArrays na ra w
  same_arrays v w a mono floats pcm = record {
    mono_length = ap length mono ∙ a.mono_length;
    floats_length = ap length floats ∙ a.floats_length;
    pcm_length = ap length pcm ∙ a.pcm_length;
  }

  noise-Goes : (v : RnnoiseVadOf na ra) → IsReady v → Goes v.in_sampling_rate (on_noise na ra v)
  unfolding on_noise send_stt_pcm
  noise-Goes v h =
      let passives = (v.continuity_passives + 1) % 2 ^ 32 in
      let counted : RnnoiseVadOf na ra = record v { continuity_passives = passives } in
      let arrays = λ (w : RnnoiseVadOf na ra). same_arrays v w h.arrays in
      elim (Bool-cases v.is_speech) [
        | inr quiet ↦ ((v, []), rw quiet, h, refl)
        | inl speech ↦ elim (Bool-cases (ltb (non_speech_threshold / 2) passives)) [
          | inr more ↦ (
            (counted, []),
            rw (speech, more),
            record { aligned = h.aligned; arrays = arrays counted refl refl refl },
            refl,
          )
          | inl over ↦ elim (Bool-cases v.is_send_stt) [
            | inr off ↦ (
              (record counted { is_speech = false }, []),
              rw (speech, over, off),
              record { aligned = h.aligned; arrays = arrays _ refl refl refl },
              refl,
            )
            | inl on ↦ (
              (
                record counted { is_speech = false; stt = (send_end v.stt).0 },
                map voice_active (send_end v.stt).1,
              ),
              rw (speech, over, on),
              record {
                aligned = send_end-IsAligned (320 * n) k v.stt h.aligned;
                arrays = arrays _ refl refl refl;
              },
              refl,
            )
          ]
        ]
      ]

  -- The speech of a push is sent, as a start or as more.
  sent-Goes :
      (w : RnnoiseVadOf na ra) (state : VadSpeechingState)
      → 160 * n ≤ max_pcm_buffer
      → HasArrays na ra w
      → IsAligned (320 * n) k w.stt
      → send_stt_pcm w.stt w.pcm_16_mono (sampling_16khz_10ms * n) state
        ≡ send_speech w.stt w.pcm_16_mono (sampling_16khz_10ms * n)
      → Goes w.in_sampling_rate
          (send_if_enabled na ra w w.pcm_16_mono (sampling_16khz_10ms * n) state)
  unfolding send_if_enabled
  sent-Goes w state room arrays aligned speech = elim (Bool-cases w.is_send_stt) [
    | inr off ↦ ((w, []), rw off, record { aligned = aligned; arrays = arrays }, refl)
    | inl on ↦
        let (r, sent, a) =
          send_speech-IsAligned (320 * n) k (sampling_16khz_10ms * n) whole (omega arith) w.stt
            w.pcm_16_mono (omega (arith, arrays.pcm_length)) aligned in
        (
          (record w { stt = r.0 }, map voice_active r.1),
          rw (on, speech ∙ sent),
          record { aligned = a; arrays = same_arrays w _ arrays refl refl refl },
          refl,
        )
  ]

  raised-IsAligned :
      (s : SttState)
      → IsAligned (320 * n) k s
      → IsAligned (320 * n) k (record s { is_start_vad = true })
  unfolding pending_bytes
  raised-IsAligned s a = record {
    room = a.room;
    filled = a.filled;
    filled_bytes = a.filled_bytes;
    filled_lt = a.filled_lt;
  }

  speech_frames-Goes :
      (v : RnnoiseVadOf na ra)
      → 160 * n ≤ max_pcm_buffer
      → IsReady v
      → Goes v.in_sampling_rate (send_speech_frames na ra v n)
  unfolding send_stt_pcm next_dump_file
  speech_frames-Goes v room h = elim (Bool-cases v.is_speech) [
    | inl speech ↦
        let w = quiet na ra v in
        let (r, sent, ready, rate) =
          sent-Goes w state_speeching room (same_arrays v w h.arrays refl refl refl) h.aligned
            refl in
        (r, frames_go_on na ra v n speech ∙ sent, ready, rate)
    | inr silence ↦
        let w = started na ra v in
        let (r, sent, ready, rate) =
          sent-Goes w state_start room (same_arrays v w h.arrays refl refl refl)
            (raised-IsAligned v.stt h.aligned) refl in
        (
          (next_dump_file na ra r.0, r.1),
          frames_start na ra v n silence ∙ bind-eq _ _ sent refl,
          record {
            aligned = ready.aligned;
            arrays = same_arrays r.0 _ ready.arrays refl refl refl;
          },
          rate,
        )
  ]

  speech-Goes :
      (v : RnnoiseVadOf na ra)
      → 160 * n ≤ max_pcm_buffer
      → IsReady v
      → Goes v.in_sampling_rate (on_speech na ra v n)
  unfolding on_speech
  speech-Goes v room h =
      let (r, sent, ready, rate) = speech_frames-Goes v room h in
      let (frames, taken, _) =
        read-eq v.pcm_16_mono 0 (sampling_16khz_10ms * n)
          (omega (arith, h.arrays.pcm_length, room)) in
      (
        (r.0, r.1 ++ dump_file r.0.debug_dump_file (pcm_bytes frames) ∷ []),
        bind-eq _ _ sent (bind-eq _ _ taken refl),
        ready,
        rate,
      )

  level-Goes :
      (level : Bool) (v : RnnoiseVadOf na ra)
      → 160 * n ≤ max_pcm_buffer
      → IsReady v
      → Goes v.in_sampling_rate (on_level na ra level v n)
  unfolding on_level
  level-Goes true v room h = speech-Goes v room h
  level-Goes false v room h = noise-Goes v h

  pub push-Goes :
      (v : RnnoiseVadOf na ra) (pcm : List ℤ) (samples : ℕ) (d : Option na.DenoiseState)
      → 100 ≤ v.in_sampling_rate
      → na.frame_size ≤ v.in_sampling_rate / 100
      → samples ≤ max_pcm_buffer
      → samples / (v.in_sampling_rate / 100) ≡ n
      → 160 * n ≤ max_pcm_buffer
      → samples * 2 ≤ length pcm
      → ((f : na.Float) → (x : ℤ) × (na.int32_of f ≡ some x))
      → IsReady v
      → Goes v.in_sampling_rate (push_with na ra d v pcm samples)
  unfolding push_with
  push-Goes v pcm samples none rate frame few is room whole_pcm in_range h =
      ((v, []), refl, h, refl)
  push-Goes v pcm samples (some d) rate frame few is room whole_pcm in_range h =
      let (w, fmax, prepared, p) =
        preprocess_total na ra v d pcm samples h.arrays rate frame few (omega (arith, is)) whole_pcm
          in_range in
      let ready : IsReady w = record {
        aligned = subst (IsAligned (320 * n) k) (sym p.stt) h.aligned;
        arrays = p.arrays;
      } in
      let (r, done, after, same) = level-Goes (na.is_speech_level fmax) w room ready in
      (
        r,
        bind-eq _ _ prepared (ap (λ m. on_level na ra (na.is_speech_level fmax) w m) is ∙ done),
        after,
        same ∙ p.rate,
      )
