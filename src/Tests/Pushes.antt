-- ===== src/Tests/Pushes.antt =====
-- The RNNoise detector with arrays of their sizes, at six pushes of one frame each.
use aone_webrtc_stt.Base.{read, write, ◌≡◌, refl, false, none, some, List, [], ◌++◌}
use aone_webrtc_stt.Voice.Pcm.{VadEffect, voices, dumped}
use aone_webrtc_stt.Voice.Stt.{send_stt_pcm}
use aone_webrtc_stt.Voice.Sending.{payloads, pending_bytes}
use aone_webrtc_stt.Voice.Rnnoise.{RnnoiseVadOf, push_rnnoise_pcm}
use aone_webrtc_stt.Voice.Rnnoise.Audio.{run_pushes, run_pushes-audio}
use aone_webrtc_stt.Tests.Audio.{noisy, passing, silence, before_speech, six_frames, value, padded}

abbrev whole_arrays : RnnoiseVadOf noisy passing
whole_arrays = record before_speech {
  stt = record { pending_buffer = none; is_start_vad = false };
  tmp_pcm_mono_buffer = silence 2000;
  tmp_pcm_float_buffer = silence 2000;
  pcm_16_mono = silence 2000;
}

abbrev heard_frames : RnnoiseVadOf noisy passing × List VadEffect
heard_frames = value (run_pushes noisy passing before_speech six_frames) (before_speech, [])

frames_heard : run_pushes noisy passing before_speech six_frames ≡ some heard_frames
unfolding run_pushes push_rnnoise_pcm write padded read send_stt_pcm
frames_heard = refl

run_pushes-audio_example :
    (payloads (voices heard_frames.1) ++ pending_bytes heard_frames.0.stt ≡ dumped heard_frames.1)
    × (heard_frames.0.is_speech ≡ false → payloads (voices heard_frames.1) ≡ dumped heard_frames.1)
run_pushes-audio_example =
    run_pushes-audio noisy passing before_speech six_frames heard_frames refl refl refl frames_heard
