-- ===== src/Voice/Rnnoise/Safety.antt =====
-- RTCRNNoiseVad::pushPCM has no fault where the frames of a push fill the pending buffer exactly.
use aone_webrtc_stt.Base.{length, ℤ, ℕ, ◌*◌, ◌/◌, ◌≤◌, ◌≡◌, List}
use aone_webrtc_stt.Voice.Pcm.{max_pcm_buffer}

-- A push of n frames of 10 ms within the arrays, with stereo PCM of two values for each sample.
abbrev pub IsPush : ℕ → ℕ → List ℤ × ℕ → Type 0
IsPush n rate (pcm, samples) =
    (samples ≤ max_pcm_buffer) × (samples / (rate / 100) ≡ n) × (samples * 2 ≤ length pcm)
