-- ===== src/Voice/Resampler.antt =====
-- aone::voice::RTCAOneResampler (rtc_server_node/RTCVoiceSdk/include/RTCAOneResampler.h), which the
-- repository holds as a binary: its operations are parameters, with what their headers say of the
-- arrays that they write. An operation gives the samples that it writes at its destination.
use aone_webrtc_stt.Base.{length, ℤ, ℕ, ◌≤◌, ◌≡◌, List}

pub record ResamplerApi : Type 1 where
  pub Resampler : Type 0
  pub set_config : Resampler → ℕ → ℕ → ℕ → Resampler
  -- Source, its length, and the capacity of the destination.
  pub resample : Resampler → List ℤ → ℕ → ℕ → Resampler × List ℤ
  -- Interleaved samples, number of frames, number of channels.
  pub downmix_interleaved_to_mono : List ℤ → ℕ → ℕ → List ℤ
  pub resample_fits :
      (r : Resampler) (source : List ℤ) (n capacity : ℕ)
      → length (resample r source n capacity).1 ≤ capacity
  pub length-downmix :
      (pcm : List ℤ) (frames channels : ℕ)
      → length (downmix_interleaved_to_mono pcm frames channels) ≡ frames
