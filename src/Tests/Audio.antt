-- ===== src/Tests/Audio.antt =====
-- The detectors at concrete audio. The resampler passes its samples on, and the voice test calls a
-- frame active if its first sample is not zero.
use aone_webrtc_stt.Base.{
  length, take, replicate, length-append, length-take, length-replicate, read, write, ℤ, pos, ℕ,
  zero, suc, ◌*◌, ◌/◌, ◌%◌, ◌≤◌, ◌≡◌, refl, ◌≢◌, inl, Bool, true, false, Option, none, some, List,
  [], ◌∷◌, ◌++◌, arith,
}
use aone_webrtc_stt.Voice.Pcm.{voices, VadEffect, ABuffer, sampling_16khz_10ms}
use aone_webrtc_stt.Voice.Stt.{send_stt_pcm, SttState, send_speech, filling}
use aone_webrtc_stt.Voice.Sending.{pending_bytes}
use aone_webrtc_stt.Voice.Overflow.{send_times, send_times_safe, fresh}
use aone_webrtc_stt.Voice.Resampler.{ResamplerApi}
use aone_webrtc_stt.Voice.Legacy.{
  VadActivity, passive, active, LegacyVadApi, LegacyVad, new_legacy_vad, set_legacy_config,
  push_legacy_pcm,
}
use aone_webrtc_stt.Voice.Legacy.Outcome.{IsValid, OutcomeOf}
use aone_webrtc_stt.Voice.Legacy.Safety.{push_legacy_pcm-Outcome}
use aone_webrtc_stt.Voice.Rnnoise.{RnnoiseApi, RnnoiseVadOf, push_rnnoise_pcm}
use aone_webrtc_stt.Voice.Labels.{labels, Follows}
use aone_webrtc_stt.Voice.Rnnoise.Segments.{push_all, push_all-segments}

unfoldable pub padded : List ℤ → ℕ → List ℤ
padded pcm frames = take frames (pcm ++ replicate frames (pos 0))

pub length-padded : (pcm : List ℤ) (frames : ℕ) → length (padded pcm frames) ≡ frames
unfolding padded
length-padded pcm frames = omega (
  arith,
  length-take frames (pcm ++ replicate frames (pos 0)),
  length-append pcm (replicate frames (pos 0)),
  length-replicate frames (pos 0),
)

abbrev pub passing : ResamplerApi
passing = record {
  Resampler = Unit {0};
  set_config = λ r from to channels. r;
  resample = λ r source n capacity. (r, take capacity source);
  downmix_interleaved_to_mono = λ pcm frames channels. padded pcm frames;
  resample_fits = λ r source n capacity. omega (arith, length-take capacity source);
  length-downmix = λ pcm frames channels. length-padded pcm frames;
}

abbrev loud : List ℤ → VadActivity
loud [] = passive
loud (pos zero ∷ pcm) = passive
loud (_ ∷ pcm) = active

abbrev pub by_loudness : LegacyVadApi
by_loudness = record {
  Vad = Unit {0};
  create_vad = λ v. v;
  voice_activity = λ v pcm samples rate. (v, loud pcm);
}

abbrev pub silence : ℕ → List ℤ
silence n = replicate n (pos 0)

abbrev legacy : LegacyVad (Unit {0}) (Unit {0})
legacy =
    set_legacy_config by_loudness passing
      (new_legacy_vad by_loudness passing tt tt (silence 2000) (silence 2000) 8000 2 true) 16000 1

legacy-IsValid : IsValid legacy
unfolding set_legacy_config new_legacy_vad filling pending_bytes
legacy-IsValid = record {
  aligned = record { room = refl; filled = 0; filled_bytes = refl; filled_lt = omega arith };
  flagged = inl refl;
  mono_length = length-replicate 2000 (pos 0);
  pcm_length = length-replicate 2000 (pos 0);
}

legacy_rate : 100 ≤ legacy.in_sampling_rate
unfolding set_legacy_config
legacy_rate = omega arith

push_legacy_pcm-Outcome_example :
    (r : LegacyVad (Unit {0}) (Unit {0}) × List VadEffect) × (push_legacy_pcm by_loudness passing
        legacy
        (replicate 320 (pos 1))
        160
      ≡ some r)
    × OutcomeOf legacy r
push_legacy_pcm-Outcome_example =
    push_legacy_pcm-Outcome by_loudness passing legacy (replicate 320 (pos 1)) 160 legacy-IsValid
      legacy_rate (omega arith) (omega arith)

send_times_safe_example :
    (6 % 4 ≡ 0
      → (times : ℕ) → send_times times fresh (silence 640) (sampling_16khz_10ms * 4) ≢ none)
    × (6 % 4 ≢ 0 → send_times (suc (6 / 4)) fresh (silence 640) (sampling_16khz_10ms * 4) ≡ none)
send_times_safe_example =
    send_times_safe 4 (silence 640) (omega arith) (omega (arith, length-replicate 640 (pos 0)))

abbrev one_sample : SttState × List ABuffer
one_sample = (
  record {
    pending_buffer =
        some (record { capacity = 1920; bytes = 1 ∷ 0 ∷ []; meta_enum = none; meta_id = none });
    is_start_vad = true;
  },
  [],
)

one_sample_sent : send_speech fresh (pos 1 ∷ []) 1 ≡ some one_sample
unfolding send_speech
one_sample_sent = refl

-- RNNoise that leaves a frame as it is and finds voice in every one.
abbrev pub noisy : RnnoiseApi
noisy = record {
  Float = ℤ;
  zero_float = pos 0;
  is_speech_level = λ f. true;
  max_float = λ f g. f;
  float_of = λ x. x;
  int32_of = λ x. some x;
  DenoiseState = Unit {0};
  create = some tt;
  frame_size = 2;
  process_frame = λ d frame. (d, pos 0, frame);
  length-process_frame = λ d frame same. same;
}

abbrev pub before_speech : RnnoiseVadOf noisy passing
before_speech = record {
  ds_ctx = some tt;
  resampler = tt;
  continuity_passives = 150;
  is_speech = false;
  is_send_stt = true;
  stt = fresh;
  in_sampling_rate = 200;
  in_channels = 1;
  tmp_pcm_mono_buffer = silence 4;
  tmp_pcm_float_buffer = silence 4;
  pcm_16_mono = silence 400;
  debug_file_idx = 1;
  debug_dump_file = [];
}

abbrev pub six_frames : List (List ℤ × ℕ)
six_frames = replicate 6 (replicate 4 (pos 1), 2)

-- What a push that has no fault leaves.
abbrev pub value : {A : Type 0} → Option A → A → A
value none a = a
value (some b) a = b

abbrev pushed_frames : RnnoiseVadOf noisy passing × List ABuffer
pushed_frames = value (push_all noisy passing before_speech six_frames) (before_speech, [])

frames_pushed : push_all noisy passing before_speech six_frames ≡ some pushed_frames
unfolding push_all push_rnnoise_pcm write padded read send_stt_pcm
frames_pushed = refl

frames_labelled : labels pushed_frames.1 ≡ some "start" ∷ []
unfolding push_all push_rnnoise_pcm write padded read send_stt_pcm voices
frames_labelled = refl

push_all-segments_example : (b : Bool) × Follows false (labels pushed_frames.1) b
push_all-segments_example =
    push_all-segments noisy passing before_speech six_frames pushed_frames refl refl refl
      frames_pushed
