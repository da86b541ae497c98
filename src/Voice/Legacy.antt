-- ===== src/Voice/Legacy.antt =====
-- rtc_voice_activity/RTCLegacyVad.h and .cc: the detector over WebRTC's voice activity test. The test
-- itself (aone::voice::RTCAOneLegacyVad) and the resampler are parameters. The sampling rate and the
-- number of samples, int32_t in the source, are taken as not negative; __DUMP_STT_PCM__ is defined in
-- the source and __DUMP_PCM__ is not.
pub mod Outcome
pub mod Activity
pub mod Safety
use aone_webrtc_stt.Base.{
  length, read, write, ℤ, codes, decimal, ℕ, zero, suc, ◌+◌, ◌*◌, ◌/◌, ◌%◌, ◌^◌, Bool, true, false,
  Option, none, some, List, [], ◌∷◌, ◌++◌, map, ltb, leb, if◌then◌else◌, ◌>>=◌, ◌>>◌, require,
}
use aone_webrtc_stt.Voice.Pcm.{
  VadEffect, voice_active, dump_file, pcm_bytes, sampling_16khz, sampling_16khz_10ms,
  non_speech_threshold, mono_channel, stereo_channel, VadSpeechingState, state_start,
  state_speeching, state_end,
}
use aone_webrtc_stt.Voice.Stt.{SttState, send_stt_pcm}
use aone_webrtc_stt.Voice.Resampler.{ResamplerApi}

pub data VadActivity : Type 0 where
  passive active error : VadActivity

-- aone::voice::RTCAOneLegacyVad.
pub record LegacyVadApi : Type 1 where
  pub Vad : Type 0
  pub create_vad : Vad → Vad
  -- The samples, their number and their rate.
  pub voice_activity : Vad → List ℤ → ℕ → ℕ → Vad × VadActivity

pub record LegacyVad (Vad Resampler : Type 0) : Type 0 where
  pub legacy_vad : Vad
  pub resampler : Resampler
  pub continuity_passives : ℕ
  pub is_speech : Bool
  pub is_send_stt : Bool
  -- _pending_buffer and _is_start_vad.
  pub stt : SttState
  pub in_sampling_rate : ℕ
  pub in_channels : ℕ
  pub tmp_mono_buffer : List ℤ
  pub pcm_16_mono : List ℤ
  pub debug_file_idx : ℕ
  pub debug_dump_file : List ℕ

module _ (va : LegacyVadApi) (ra : ResamplerApi) where
  open va use {Vad, create_vad, voice_activity}
  open ra use {Resampler, set_config, resample, downmix_interleaved_to_mono}

  -- The constructor; what the source leaves without a value is a parameter.
  unfoldable pub new_legacy_vad :
      Vad → Resampler → List ℤ → List ℤ → ℕ → ℕ → Bool → LegacyVad Vad Resampler
  new_legacy_vad vad resampler tmp pcm rate channels is_send_stt = record {
    legacy_vad = vad;
    resampler = resampler;
    continuity_passives = 0;
    is_speech = false;
    is_send_stt = is_send_stt;
    stt = record { pending_buffer = none; is_start_vad = false };
    in_sampling_rate = rate;
    in_channels = channels;
    tmp_mono_buffer = tmp;
    pcm_16_mono = pcm;
    debug_file_idx = 1;
    debug_dump_file = [];
  }

  unfoldable pub set_legacy_config : LegacyVad Vad Resampler → ℕ → ℕ → LegacyVad Vad Resampler
  set_legacy_config v in_sampling_rate in_channels = record v {
    in_sampling_rate = in_sampling_rate;
    in_channels = in_channels;
    legacy_vad = create_vad v.legacy_vad;
    resampler = set_config v.resampler in_sampling_rate sampling_16khz mono_channel;
  }

  -- `if (_is_send_stt) _send_stt_pcm(...)`.
  unfoldable pub send_if_enabled :
      LegacyVad Vad Resampler
      → List ℤ
      → ℕ
      → VadSpeechingState
      → Option (LegacyVad Vad Resampler × List VadEffect)
  send_if_enabled v pcm samples state =
      if v.is_send_stt
      then (do
        (stt, out) ← send_stt_pcm v.stt pcm samples state
        some (record v { stt = stt }, map voice_active out))
      else some (v, [])

  -- The name of the next debug file, and the counter.
  unfoldable pub next_dump_file : LegacyVad Vad Resampler → LegacyVad Vad Resampler
  next_dump_file v = record v {
    debug_dump_file = codes "legacy_vad_dump_" ++ (decimal v.debug_file_idx ++ codes ".pcm");
    debug_file_idx = (v.debug_file_idx + 1) % 2 ^ 32;
  }

  -- The frame is sent: as a start where the flag is down.
  unfoldable pub send_active :
      LegacyVad Vad Resampler → List ℤ → Option (LegacyVad Vad Resampler × List VadEffect)
  unfolding send_if_enabled next_dump_file
  send_active v pcm =
      let quiet = record v { continuity_passives = 0 } in
      let started = record quiet { is_speech = true; stt = record v.stt { is_start_vad = true } } in
      if v.stt.is_start_vad
      then send_if_enabled quiet pcm sampling_16khz_10ms state_speeching
      else (send_if_enabled started pcm sampling_16khz_10ms state_start >>= λ (w, out).
          some (next_dump_file w, out))

  -- An active frame is sent, and appended to the debug file.
  unfoldable pub on_active :
      LegacyVad Vad Resampler → List ℤ → Option (LegacyVad Vad Resampler × List VadEffect)
  unfolding send_active
  on_active v pcm = do
    (w, out) ← send_active v pcm
    frame ← read pcm 0 sampling_16khz_10ms
    some (w, out ++ dump_file w.debug_dump_file (pcm_bytes frame) ∷ [])

  unfoldable pub on_passive :
      LegacyVad Vad Resampler → Option (LegacyVad Vad Resampler × List VadEffect)
  unfolding send_if_enabled
  on_passive v =
      let counted = record v { continuity_passives = (v.continuity_passives + 1) % 2 ^ 32 } in
      let ended = send_if_enabled (record counted { is_speech = false }) [] 0 state_end in
      if v.is_speech
      then (if ltb non_speech_threshold counted.continuity_passives
          then ended
          else some (counted, []))
      else some (v, [])

  unfoldable pub on_activity :
      VadActivity
      → LegacyVad Vad Resampler
      → List ℤ
      → Option (LegacyVad Vad Resampler × List VadEffect)
  unfolding on_active on_passive
  on_activity active v pcm = on_active v pcm
  on_activity passive v pcm = on_passive v
  on_activity error v pcm = some (v, [])

  unfoldable pub process_16khz_10ms :
      LegacyVad Vad Resampler → List ℤ → Option (LegacyVad Vad Resampler × List VadEffect)
  unfolding on_activity
  process_16khz_10ms v pcm =
      let (vad, activity) = voice_activity v.legacy_vad pcm sampling_16khz_10ms sampling_16khz in
      on_activity activity (record v { legacy_vad = vad }) pcm

  -- Round i of the loop of pushPCM: one frame of 10 ms is resampled and processed.
  unfoldable pub legacy_frame :
      LegacyVad Vad Resampler → ℕ → ℕ → Option (LegacyVad Vad Resampler × List VadEffect)
  unfolding process_16khz_10ms
  legacy_frame v samples_in_10ms i = do
    source ← read v.tmp_mono_buffer (samples_in_10ms * i) samples_in_10ms
    let (resampler, out) = resample v.resampler source samples_in_10ms sampling_16khz_10ms
    pcm ← write v.pcm_16_mono 0 out
    process_16khz_10ms (record v { resampler = resampler; pcm_16_mono = pcm }) pcm

  unfoldable pub legacy_frames :
      ℕ → ℕ → ℕ → LegacyVad Vad Resampler → Option (LegacyVad Vad Resampler × List VadEffect)
  unfolding legacy_frame
  legacy_frames zero samples_in_10ms i v = some (v, [])
  legacy_frames (suc rounds) samples_in_10ms i v = legacy_frame v samples_in_10ms i >>= λ (w, out).
      legacy_frames rounds samples_in_10ms (i + 1) w >>= λ (u, rest). some (u, out ++ rest)

  unfoldable pub push_legacy_pcm :
      LegacyVad Vad Resampler → List ℤ → ℕ → Option (LegacyVad Vad Resampler × List VadEffect)
  unfolding legacy_frames
  push_legacy_pcm v pcm samples = do
    -- The downmix reads two samples for each frame.
    require (leb (samples * 2) (length pcm))
    mono ← write v.tmp_mono_buffer 0 (downmix_interleaved_to_mono pcm samples stereo_channel)
    let samples_in_10ms = v.in_sampling_rate / 100
    require (ltb 0 samples_in_10ms)
    legacy_frames (samples / samples_in_10ms) samples_in_10ms 0
        (record v { tmp_mono_buffer = mono })
