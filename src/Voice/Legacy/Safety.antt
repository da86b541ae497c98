-- ===== src/Voice/Legacy/Safety.antt =====
-- RTCLegacyVad::pushPCM has no fault, and loses no active audio.
use native.Mathlib.Nat.{div-add-mod'}
use aone_webrtc_stt.Base.{
  length, read-eq, write-eq, ℤ, ℕ, zero, suc, ◌+◌, ◌*◌, ◌/◌, ◌%◌, ◌^◌, ◌≤◌, ◌≡◌, refl, ◌∙◌, inl,
  inr, false, some, List, [], ◌++◌, map, append-nil, arith, ltb, lt→ltb, le→leb, Bool-cases,
}
use aone_webrtc_stt.Voice.Pcm.{
  VadEffect, voice_active, max_pcm_buffer, sampling_16khz, sampling_16khz_10ms,
  non_speech_threshold, voices, voices-map, dumped, dumped-voices,
}
use aone_webrtc_stt.Voice.Stt.{send_end, send_stt_pcm}
use aone_webrtc_stt.Voice.Sending.{pending_bytes, payloads}
use aone_webrtc_stt.Voice.Resampler.{ResamplerApi}
use aone_webrtc_stt.Voice.Legacy.{
  VadActivity, passive, active, error, LegacyVadApi, LegacyVad, on_passive, on_activity,
  process_16khz_10ms, legacy_frame, legacy_frames, push_legacy_pcm, stereo_channel,
}
use aone_webrtc_stt.Voice.Legacy.Outcome.{send_end-Sent, IsValid, OutcomeOf, Outcome-append}
use aone_webrtc_stt.Voice.Legacy.Activity.{on_active-Outcome}

module _ (va : LegacyVadApi) (ra : ResamplerApi) where
  open va use {Vad}
  open ra use {Resampler}

  -- Nothing is given out, and nothing pending changes.
  unchanged :
      (v w : LegacyVad Vad Resampler)
      → IsValid v
      → w.stt ≡ v.stt
      → length w.tmp_mono_buffer ≡ max_pcm_buffer
      → length w.pcm_16_mono ≡ max_pcm_buffer
      → w.is_send_stt ≡ v.is_send_stt
      → OutcomeOf v (w, [])
  unfolding voices dumped payloads
  unchanged v w valid same mono pcm sending = record {
    valid = record {
      aligned = rw same valid.aligned;
      flagged = rw same valid.flagged;
      mono_length = mono;
      pcm_length = pcm;
    };
    labelled = tt;
    audio = λ _. rw (same, append-nil (pending_bytes v.stt));
    sending = sending;
  }

  send_end-Outcome :
      (v w : LegacyVad Vad Resampler)
      → IsValid v
      → w.stt ≡ (send_end v.stt).0
      → length w.tmp_mono_buffer ≡ max_pcm_buffer
      → length w.pcm_16_mono ≡ max_pcm_buffer
      → w.is_send_stt ≡ v.is_send_stt
      → OutcomeOf v (w, map voice_active (send_end v.stt).1)
  send_end-Outcome v w valid same mono pcm sending =
      let s = send_end-Sent v.stt valid.flagged valid.aligned in
      let out = (send_end v.stt).1 in
      record {
        valid = record {
          aligned = rw same s.aligned;
          flagged = rw same s.flagged;
          mono_length = mono;
          pcm_length = pcm;
        };
        labelled = rw (voices-map out) s.labelled;
        audio = λ _. rw (same, voices-map out, dumped-voices out) s.audio;
        sending = sending;
      }

  on_passive-Outcome :
      (v : LegacyVad Vad Resampler)
      → IsValid v
      → (r : LegacyVad Vad Resampler × List VadEffect) × (on_passive va ra v ≡ some r)
        × OutcomeOf v r
  unfolding on_passive send_stt_pcm
  on_passive-Outcome v valid =
      let passives = (v.continuity_passives + 1) % 2 ^ 32 in
      let counted : LegacyVad Vad Resampler = record v { continuity_passives = passives } in
      let same = λ (w : LegacyVad Vad Resampler). unchanged v w valid in
      elim (Bool-cases v.is_speech) [
        | inr quiet ↦ ((v, []), rw quiet, same v refl valid.mono_length valid.pcm_length refl)
        | inl speech ↦ elim (Bool-cases (ltb non_speech_threshold passives)) [
          | inr more ↦ (
            (counted, []),
            rw (speech, more),
            same counted refl valid.mono_length valid.pcm_length refl,
          )
          | inl over ↦ elim (Bool-cases v.is_send_stt) [
            | inr off ↦ (
              (record counted { is_speech = false }, []),
              rw (speech, over, off),
              same _ refl valid.mono_length valid.pcm_length refl,
            )
            | inl on ↦ (
              (
                record counted { is_speech = false; stt = (send_end v.stt).0 },
                map voice_active (send_end v.stt).1,
              ),
              rw (speech, over, on),
              send_end-Outcome v _ valid refl valid.mono_length valid.pcm_length refl,
            )
          ]
        ]
      ]

  on_activity-Outcome :
      (a : VadActivity) (v : LegacyVad Vad Resampler) (pcm : List ℤ)
      → sampling_16khz_10ms ≤ length pcm
      → IsValid v
      → (r : LegacyVad Vad Resampler × List VadEffect) × (on_activity va ra a v pcm ≡ some r)
        × OutcomeOf v r
  unfolding on_activity
  on_activity-Outcome active v pcm h valid = on_active-Outcome va ra v pcm h valid
  on_activity-Outcome passive v pcm h valid = on_passive-Outcome v valid
  on_activity-Outcome error v pcm h valid =
      ((v, []), refl, unchanged v v valid refl valid.mono_length valid.pcm_length refl)

  -- Every frame of 10 ms: whatever the test for activity says, there is no fault.
  process_16khz_10ms-Outcome :
      (v : LegacyVad Vad Resampler) (pcm : List ℤ)
      → sampling_16khz_10ms ≤ length pcm
      → IsValid v
      → (r : LegacyVad Vad Resampler × List VadEffect) × (process_16khz_10ms va ra v pcm ≡ some r)
        × OutcomeOf v r
  unfolding process_16khz_10ms
  process_16khz_10ms-Outcome v pcm h valid =
      let tested = va.voice_activity v.legacy_vad pcm sampling_16khz_10ms sampling_16khz in
      on_activity-Outcome tested.1 (record v { legacy_vad = tested.0 }) pcm h
        (record {
          aligned = valid.aligned;
          flagged = valid.flagged;
          mono_length = valid.mono_length;
          pcm_length = valid.pcm_length;
        })

  legacy_frame-Outcome :
      (v : LegacyVad Vad Resampler) (step i : ℕ)
      → step * i + step ≤ max_pcm_buffer
      → IsValid v
      → (r : LegacyVad Vad Resampler × List VadEffect) × (legacy_frame va ra v step i ≡ some r)
        × OutcomeOf v r
  unfolding legacy_frame
  legacy_frame-Outcome v step i h valid =
      let (source, taken, _) = read-eq v.tmp_mono_buffer (step * i) step (rw valid.mono_length h) in
      let out = ra.resample v.resampler source step sampling_16khz_10ms in
      let (pcm, written, kept) =
        write-eq v.pcm_16_mono 0 out.1
          (omega (arith, ra.resample_fits v.resampler source step 160, valid.pcm_length)) in
      let (r, done, o) =
        process_16khz_10ms-Outcome (record v { resampler = out.0; pcm_16_mono = pcm }) pcm
          (omega (arith, kept, valid.pcm_length))
          (record {
            aligned = valid.aligned;
            flagged = valid.flagged;
            mono_length = valid.mono_length;
            pcm_length = kept ∙ valid.pcm_length;
          }) in
      (r, rw (taken, written) done, o)

  legacy_frames-Outcome :
      (rounds step i : ℕ) (v : LegacyVad Vad Resampler)
      → (i + rounds) * step ≤ max_pcm_buffer
      → IsValid v
      → (r : LegacyVad Vad Resampler × List VadEffect) × (legacy_frames va ra rounds step i v
          ≡ some r)
        × OutcomeOf v r
  unfolding legacy_frames
  legacy_frames-Outcome zero step i v h valid =
      ((v, []), refl, unchanged v v valid refl valid.mono_length valid.pcm_length refl)
  legacy_frames-Outcome (suc rounds) step i v h valid =
      let (r, first, o) = legacy_frame-Outcome v step i (grind arith) valid in
      let (q, rest, u) = legacy_frames-Outcome rounds step (i + 1) r.0 (omega arith) o.valid in
      ((q.0, r.1 ++ q.1), rw (first, rest), Outcome-append _ _ r q o u)

  -- From a valid state, with a sampling rate of at least 100, at most as many samples as the
  -- detector's arrays hold, and stereo PCM of two values for each, a push has no fault and leaves a valid state; it gives the peer buffers
  -- that are labelled "start" or "end"; and where sending is on, the bytes given out with those then
  -- pending are those that were pending with those of the frames found active, in order.
  pub push_legacy_pcm-Outcome :
      (v : LegacyVad Vad Resampler) (pcm : List ℤ) (samples : ℕ)
      → IsValid v
      → 100 ≤ v.in_sampling_rate
      → samples ≤ max_pcm_buffer
      → samples * 2 ≤ length pcm
      → (r : LegacyVad Vad Resampler × List VadEffect) × (push_legacy_pcm va ra v pcm samples
          ≡ some r)
        × OutcomeOf v r
  unfolding push_legacy_pcm
  push_legacy_pcm-Outcome v pcm samples valid rate h whole =
      let mono = ra.downmix_interleaved_to_mono pcm samples stereo_channel in
      let (tmp, written, kept) =
        write-eq v.tmp_mono_buffer 0 mono
          (omega (arith, ra.length-downmix pcm samples 2, valid.mono_length)) in
      let step = v.in_sampling_rate / 100 in
      let (r, done, o) =
        legacy_frames-Outcome (samples / step) step 0 (record v { tmp_mono_buffer = tmp })
          (omega (arith, div-add-mod' samples step))
          (record {
            aligned = valid.aligned;
            flagged = valid.flagged;
            mono_length = kept ∙ valid.mono_length;
            pcm_length = valid.pcm_length;
          }) in
      (
        r,
        rw (le→leb (samples * 2) (length pcm) whole, written, lt→ltb 0 step (omega arith)) done,
        o,
      )
