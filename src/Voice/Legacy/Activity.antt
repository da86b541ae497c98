-- ===== src/Voice/Legacy/Activity.antt =====
-- RTCLegacyVad::_process_16khz_10ms at a frame that is active: it is sent, and written to the debug
-- file.
use aone_webrtc_stt.Base.{
  length, take, All, read, ℤ, ℕ, ◌+◌, ◌≤◌, ◌≡◌, refl, ◌∙◌, inl, inr, Bool, true, false, some, List,
  [], ◌∷◌, ◌++◌, map, append-nil, arith, le→leb, Bool-cases, ◌>>=◌,
}
use aone_webrtc_stt.Voice.Pcm.{
  VadEffect, voice_active, dump_file, pcm_bytes, sampling_16khz_10ms, VadSpeechingState,
  state_start, state_speeching, voices, voices-append, voices-map, new_buffer, dumped,
  dumped-append, dumped-voices,
}
use aone_webrtc_stt.Voice.Stt.{send_speech, send_stt_pcm, filling}
use aone_webrtc_stt.Voice.Sending.{pending_bytes, payloads}
use aone_webrtc_stt.Voice.Labels.{labels}
use aone_webrtc_stt.Voice.Resampler.{ResamplerApi}
use aone_webrtc_stt.Voice.Legacy.{
  LegacyVadApi, LegacyVad, send_if_enabled, next_dump_file, on_active, send_active,
}
use aone_webrtc_stt.Voice.Legacy.Outcome.{IsStartOrEnd, send_frame, IsValid, OutcomeOf}

read_front : (xs : List ℤ) (n : ℕ) → n ≤ length xs → read xs 0 n ≡ some (take n xs)
unfolding read
read_front xs n h = rw (le→leb (0 + n) (length xs) (omega arith))

module _ (va : LegacyVadApi) (ra : ResamplerApi) where
  open va use {Vad}
  open ra use {Resampler}

  -- The frame that is sent, and the members that sending leaves alone.
  record Active (on : Bool) (pending frame : List ℕ) (r : LegacyVad Vad Resampler × List VadEffect)
      : Type 0 where
    valid : IsValid r.0
    labelled : All IsStartOrEnd (labels (voices r.1))
    audio : on ≡ true → payloads (voices r.1) ++ pending_bytes r.0.stt ≡ pending ++ frame
    silent : dumped r.1 ≡ []
    sending : r.0.is_send_stt ≡ on

  send_if_enabled-Active :
      (v : LegacyVad Vad Resampler) (pcm : List ℤ) (state : VadSpeechingState)
      → send_stt_pcm v.stt pcm sampling_16khz_10ms state ≡ send_speech v.stt pcm sampling_16khz_10ms
      → sampling_16khz_10ms ≤ length pcm
      → v.stt.is_start_vad ≡ true
      → IsValid v
      → (r : LegacyVad Vad Resampler × List VadEffect) × (send_if_enabled va ra v pcm
            sampling_16khz_10ms state
          ≡ some r)
        × Active v.is_send_stt (pending_bytes v.stt) (pcm_bytes (take sampling_16khz_10ms pcm)) r
  unfolding send_if_enabled voices dumped
  send_if_enabled-Active v pcm state speech h raised valid = elim (Bool-cases v.is_send_stt) [
    | inl on ↦
        let (r, sent, s) = send_frame v.stt pcm h raised valid.aligned in
        (
          (record v { stt = r.0 }, map voice_active r.1),
          rw (on, speech, sent),
          record {
            valid = record {
              aligned = s.aligned;
              flagged = s.flagged;
              mono_length = valid.mono_length;
              pcm_length = valid.pcm_length;
            };
            labelled = rw (voices-map r.1) s.labelled;
            audio = λ _. rw (voices-map r.1) s.audio;
            silent = dumped-voices r.1;
            sending = refl;
          },
        )
    | inr off ↦ (
      (v, []),
      rw off,
      record { valid = valid; labelled = tt; audio = λ on. cc; silent = refl; sending = refl },
    )
  ]

  abbrev quiet : LegacyVad Vad Resampler → LegacyVad Vad Resampler
  quiet v = record v { continuity_passives = 0 }

  abbrev started : LegacyVad Vad Resampler → LegacyVad Vad Resampler
  started v = record (quiet v) { is_speech = true; stt = record v.stt { is_start_vad = true } }

  send_active_up :
      (v : LegacyVad Vad Resampler) (pcm : List ℤ)
      → v.stt.is_start_vad ≡ true
      → send_active va ra v pcm
        ≡ send_if_enabled va ra (quiet v) pcm sampling_16khz_10ms state_speeching
  unfolding send_active
  send_active_up v pcm up = rw up

  send_active_down :
      (v : LegacyVad Vad Resampler) (pcm : List ℤ)
      → v.stt.is_start_vad ≡ false
      → send_active va ra v pcm ≡ (
          send_if_enabled va ra (started v) pcm sampling_16khz_10ms state_start >>= λ (w, out).
          some (next_dump_file va ra w, out))
  unfolding send_active
  send_active_down v pcm down = rw down

  send_active-Active :
      (v : LegacyVad Vad Resampler) (pcm : List ℤ)
      → sampling_16khz_10ms ≤ length pcm
      → IsValid v
      → (r : LegacyVad Vad Resampler × List VadEffect) × (send_active va ra v pcm ≡ some r)
        × Active v.is_send_stt (pending_bytes v.stt) (pcm_bytes (take sampling_16khz_10ms pcm)) r
  unfolding send_stt_pcm pending_bytes filling new_buffer next_dump_file
  send_active-Active v pcm h valid = elim (Bool-cases v.stt.is_start_vad) [
    | inl up ↦
        let (r, sent, a) = send_if_enabled-Active (quiet v) pcm state_speeching refl h up (record {
          aligned = valid.aligned;
          flagged = valid.flagged;
          mono_length = valid.mono_length;
          pcm_length = valid.pcm_length;
        }) in
        (r, send_active_up v pcm up ∙ sent, a)
    | inr down ↦
        let (r, sent, a) = send_if_enabled-Active (started v) pcm state_start refl h refl (record {
          aligned = record {
            room = valid.aligned.room;
            filled = valid.aligned.filled;
            filled_bytes = valid.aligned.filled_bytes;
            filled_lt = valid.aligned.filled_lt;
          };
          flagged = inr refl;
          mono_length = valid.mono_length;
          pcm_length = valid.pcm_length;
        }) in
        (
          (next_dump_file va ra r.0, r.1),
          send_active_down v pcm down ∙ rw sent,
          record {
            valid = record {
              aligned = a.valid.aligned;
              flagged = a.valid.flagged;
              mono_length = a.valid.mono_length;
              pcm_length = a.valid.pcm_length;
            };
            labelled = a.labelled;
            audio = a.audio;
            silent = a.silent;
            sending = a.sending;
          },
        )
  ]

  pub on_active-Outcome :
      (v : LegacyVad Vad Resampler) (pcm : List ℤ)
      → sampling_16khz_10ms ≤ length pcm
      → IsValid v
      → (r : LegacyVad Vad Resampler × List VadEffect) × (on_active va ra v pcm ≡ some r)
        × OutcomeOf v r
  unfolding on_active voices dumped
  on_active-Outcome v pcm h valid =
      let (r, sent, a) = send_active-Active v pcm h valid in
      let frame = pcm_bytes (take sampling_16khz_10ms pcm) in
      let file = dump_file r.0.debug_dump_file frame ∷ [] in
      (
        (r.0, r.1 ++ file),
        rw (sent, read_front pcm sampling_16khz_10ms h),
        record {
          valid = a.valid;
          labelled = rw (voices-append r.1 file, append-nil (voices r.1)) a.labelled;
          audio = λ on.
              rw
                (
                  voices-append r.1 file,
                  append-nil (voices r.1),
                  dumped-append r.1 file,
                  a.silent,
                  append-nil frame,
                )
                (a.audio on);
          sending = a.sending;
        },
      )
