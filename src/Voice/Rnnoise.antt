-- ===== src/Voice/Rnnoise.antt =====
-- rtc_voice_activity/RTCRNNoiseVad.h and .cc: noise suppression and the detector over RNNoise. RNNoise,
-- float and the resampler are parameters. The sampling rate and the number of samples, int32_t in the
-- source, are taken as not negative; __DUMP_STT_PCM__ is defined in the source and __DUMP_PCM__ is
-- not; the clock that the loop reads only fed a log line that is commented out.
pub mod Phase
pub mod Segments
pub mod Frames
pub mod Ready
pub mod Safety
pub mod Hears
pub mod Audio
use aone_webrtc_stt.Base.{
  length, read, write, ℤ, pos, negsuc, ltb_ℤ, to_int16, codes, decimal, ℕ, zero, suc, ◌+◌, ◌*◌, ◌/◌,
  ◌%◌, ◌^◌, ◌≡◌, Bool, true, false, Option, none, some, List, [], ◌∷◌, ◌++◌, map, ltb, leb,
  if◌then◌else◌, ◌>>=◌, ◌>>◌, require,
}
use aone_webrtc_stt.Voice.Pcm.{
  VadEffect, voice_active, dump_file, pcm_bytes, sampling_16khz, sampling_16khz_10ms,
  non_speech_threshold, mono_channel, stereo_channel, VadSpeechingState, state_start,
  state_speeching, state_end,
}
use aone_webrtc_stt.Voice.Stt.{SttState, send_stt_pcm}
use aone_webrtc_stt.Voice.Resampler.{ResamplerApi}

-- float and third_party/librnnoise/include/rnnoise.h.
pub record RnnoiseApi : Type 1 where
  pub Float : Type 0
  -- 0.0f, and whether a value is at least 0.6f.
  pub zero_float : Float
  pub is_speech_level : Float → Bool
  pub max_float : Float → Float → Float
  -- static_cast between int16_t, float and int32_t; a float outside int32_t has no defined cast.
  pub float_of : ℤ → Float
  pub int32_of : Float → Option ℤ
  pub DenoiseState : Type 0
  pub create : Option DenoiseState
  pub frame_size : ℕ
  -- The state, the probability of voice and the frame written.
  pub process_frame : DenoiseState → List Float → DenoiseState × Float × List Float
  pub length-process_frame :
      (d : DenoiseState) (frame : List Float)
      → length frame ≡ frame_size
      → length (process_frame d frame).2 ≡ frame_size

pub record RnnoiseVad (Float DenoiseState Resampler : Type 0) : Type 0 where
  pub ds_ctx : Option DenoiseState
  pub resampler : Resampler
  pub continuity_passives : ℕ
  pub is_speech : Bool
  pub is_send_stt : Bool
  -- _pending_buffer and _is_start_vad.
  pub stt : SttState
  pub in_sampling_rate : ℕ
  pub in_channels : ℕ
  pub tmp_pcm_mono_buffer : List ℤ
  pub tmp_pcm_float_buffer : List Float
  pub pcm_16_mono : List ℤ
  pub debug_file_idx : ℕ
  pub debug_dump_file : List ℕ

-- std::max(-32768, std::min(32767, x)), and the cast to int16_t.
unfoldable pub clamp_int16 : ℤ → ℤ
unfolding to_int16
clamp_int16 x =
    to_int16 (
      if ltb_ℤ (pos 32767) x then pos 32767 else if ltb_ℤ x (negsuc 32767) then negsuc 32767 else x)

module _ (na : RnnoiseApi) (ra : ResamplerApi) where
  open na use {
    Float, zero_float, is_speech_level, max_float, float_of, int32_of, DenoiseState, create,
    frame_size, process_frame,
  }
  open ra use {Resampler, set_config, resample, downmix_interleaved_to_mono}

  abbrev pub RnnoiseVadOf : Type 0
  RnnoiseVadOf = RnnoiseVad Float DenoiseState Resampler

  -- The constructor; what the source leaves without a value is a parameter.
  unfoldable pub new_rnnoise_vad :
      Resampler → List ℤ → List Float → List ℤ → ℕ → ℕ → Bool → RnnoiseVadOf
  new_rnnoise_vad resampler mono floats pcm rate channels is_send_stt = record {
    ds_ctx = none;
    resampler = resampler;
    continuity_passives = 0;
    is_speech = false;
    is_send_stt = is_send_stt;
    stt = record { pending_buffer = none; is_start_vad = false };
    in_sampling_rate = rate;
    in_channels = channels;
    tmp_pcm_mono_buffer = mono;
    tmp_pcm_float_buffer = floats;
    pcm_16_mono = pcm;
    debug_file_idx = 1;
    debug_dump_file = [];
  }

  unfoldable pub set_rnnoise_config : RnnoiseVadOf → ℕ → ℕ → RnnoiseVadOf
  set_rnnoise_config v in_sampling_rate in_channels = record v {
    in_sampling_rate = in_sampling_rate;
    in_channels = in_channels;
    resampler = set_config v.resampler in_sampling_rate sampling_16khz mono_channel;
    ds_ctx = create;
  }

  -- The rounds of rnnoise_process_frame, each in place, with the largest probability so far.
  unfoldable pub denoise :
      ℕ → ℕ → ℕ → DenoiseState → List Float → Float → Option (DenoiseState × List Float × Float)
  denoise zero step i d floats fmax = some (d, floats, fmax)
  denoise (suc rounds) step i d floats fmax = read floats (i * step) frame_size >>= λ frame.
      let (d', fret, out) = process_frame d frame in
      write floats (i * step) out >>= λ floats'.
      denoise rounds step (i + 1) d' floats' (max_float fmax fret)

  -- The rounds of the resampler.
  unfoldable pub resample_frames :
      ℕ → ℕ → ℕ → Resampler → List ℤ → List ℤ → Option (Resampler × List ℤ)
  resample_frames zero step i r mono pcm = some (r, pcm)
  resample_frames (suc rounds) step i r mono pcm = read mono (i * step) step >>= λ source.
      let (r', out) = resample r source step sampling_16khz_10ms in
      write pcm (i * sampling_16khz_10ms) out >>= λ pcm'.
      resample_frames rounds step (i + 1) r' mono pcm'

  -- static_cast<int32_t> of each value.
  unfoldable pub casts : List Float → Option (List ℤ)
  casts [] = some []
  casts (f ∷ fs) = int32_of f >>= λ x. casts fs >>= λ xs. some (x ∷ xs)

  -- From the samples to the probability of voice: what changes are the arrays, the resampler and
  -- the denoiser.
  unfoldable pub preprocess :
      RnnoiseVadOf → DenoiseState → List ℤ → ℕ → Option (RnnoiseVadOf × Float × ℕ)
  unfolding denoise resample_frames casts clamp_int16
  preprocess v d pcm samples = do
    -- The downmix reads two samples for each frame.
    require (leb (samples * 2) (length pcm))
    mono ← write v.tmp_pcm_mono_buffer 0 (downmix_interleaved_to_mono pcm samples stereo_channel)
    let samples_in_10ms = v.in_sampling_rate / 100
    require (ltb 0 samples_in_10ms)
    let n = samples / samples_in_10ms
    heard ← read mono 0 samples
    floats ← write v.tmp_pcm_float_buffer 0 (map float_of heard)
    (d', floats', fmax) ← denoise n samples_in_10ms 0 d floats zero_float
    cleaned ← read floats' 0 samples
    ints ← casts cleaned
    mono' ← write mono 0 (map clamp_int16 ints)
    (resampler, pcm16) ← resample_frames n samples_in_10ms 0 v.resampler mono' v.pcm_16_mono
    some (
      record v {
        ds_ctx = some d';
        resampler = resampler;
        tmp_pcm_mono_buffer = mono';
        tmp_pcm_float_buffer = floats';
        pcm_16_mono = pcm16;
      },
      fmax,
      n,
    )

  -- `if (_is_send_stt) _send_stt_pcm(...)`.
  unfoldable pub send_if_enabled :
      RnnoiseVadOf → List ℤ → ℕ → VadSpeechingState → Option (RnnoiseVadOf × List VadEffect)
  send_if_enabled v pcm samples state =
      if v.is_send_stt
      then (do
        (stt, out) ← send_stt_pcm v.stt pcm samples state
        some (record v { stt = stt }, map voice_active out))
      else some (v, [])

  unfoldable pub next_dump_file : RnnoiseVadOf → RnnoiseVadOf
  next_dump_file v = record v {
    debug_dump_file = codes "rnn_vad_dump_" ++ (decimal v.debug_file_idx ++ codes ".pcm");
    debug_file_idx = (v.debug_file_idx + 1) % 2 ^ 32;
  }

  unfoldable pub send_speech_frames : RnnoiseVadOf → ℕ → Option (RnnoiseVadOf × List VadEffect)
  unfolding send_if_enabled next_dump_file
  send_speech_frames v n =
      let quiet = record v { continuity_passives = 0 } in
      let started = record quiet { is_speech = true; stt = record v.stt { is_start_vad = true } } in
      if v.is_speech
      then send_if_enabled quiet v.pcm_16_mono (sampling_16khz_10ms * n) state_speeching
      else (send_if_enabled started v.pcm_16_mono (sampling_16khz_10ms * n) state_start
          >>= λ (w, out). some (next_dump_file w, out))

  -- At a speech level: the frames are sent, and appended to the debug file.
  unfoldable pub on_speech : RnnoiseVadOf → ℕ → Option (RnnoiseVadOf × List VadEffect)
  unfolding send_speech_frames
  on_speech v n = do
    (w, out) ← send_speech_frames v n
    frames ← read v.pcm_16_mono 0 (sampling_16khz_10ms * n)
    some (w, out ++ dump_file w.debug_dump_file (pcm_bytes frames) ∷ [])

  unfoldable pub on_noise : RnnoiseVadOf → Option (RnnoiseVadOf × List VadEffect)
  unfolding send_if_enabled
  on_noise v =
      let counted = record v { continuity_passives = (v.continuity_passives + 1) % 2 ^ 32 } in
      let ended = send_if_enabled (record counted { is_speech = false }) [] 0 state_end in
      if v.is_speech
      then (if ltb (non_speech_threshold / 2) counted.continuity_passives
          then ended
          else some (counted, []))
      else some (v, [])

  unfoldable pub on_level : Bool → RnnoiseVadOf → ℕ → Option (RnnoiseVadOf × List VadEffect)
  unfolding on_speech on_noise
  on_level true v n = on_speech v n
  on_level false v n = on_noise v

  unfoldable pub push_with :
      Option DenoiseState → RnnoiseVadOf → List ℤ → ℕ → Option (RnnoiseVadOf × List VadEffect)
  unfolding preprocess on_level
  push_with none v pcm samples = some (v, [])
  push_with (some d) v pcm samples =
      preprocess v d pcm samples >>= λ (w, fmax, n). on_level (is_speech_level fmax) w n

  unfoldable pub push_rnnoise_pcm :
      RnnoiseVadOf → List ℤ → ℕ → Option (RnnoiseVadOf × List VadEffect)
  unfolding push_with
  push_rnnoise_pcm v pcm samples = push_with v.ds_ctx v pcm samples
