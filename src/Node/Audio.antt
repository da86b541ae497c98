-- ===== src/Node/Audio.antt =====
-- rtc_peer/RTCPeer.cc (_on_pcm_data) and rtc_voice_activity/RTCVadInterface.cc (CreateVad): the first
-- PCM of a peer makes its detector. The number of samples, a size_t that becomes an int32_t, is taken
-- to be one.
use aone_webrtc_stt.Base.{
  ℤ, ℕ, Bool, true, false, Option, none, some, List, [], ◌∷◌, if◌then◌else◌, ◌>>=◌,
}
use aone_webrtc_stt.Voice.Pcm.{VadEffect}
use aone_webrtc_stt.Voice.Resampler.{ResamplerApi}
use aone_webrtc_stt.Voice.Legacy.{
  LegacyVadApi, LegacyVad, new_legacy_vad, set_legacy_config, push_legacy_pcm,
}
use aone_webrtc_stt.Voice.Rnnoise.{
  RnnoiseApi, RnnoiseVad, new_rnnoise_vad, set_rnnoise_config, push_rnnoise_pcm,
}
use aone_webrtc_stt.Node.Peer.{RtcPeer, PeerEffect, voice_active}

abbrev pub is_using_legacy_vad : Bool
is_using_legacy_vad = false

-- What the constructors of the detectors leave without a value.
pub record Unset (Vad Resampler Float : Type 0) : Type 0 where
  pub vad : Vad
  pub resampler : Resampler
  pub mono : List ℤ
  pub floats : List Float
  pub pcm16 : List ℤ
  pub sampling_rate : ℕ
  pub channels : ℕ

module _ (va : LegacyVadApi) (na : RnnoiseApi) (ra : ResamplerApi) where
  open va use {Vad}
  open na use {Float, DenoiseState}
  open ra use {Resampler}

  -- RTCVadInterface, by its two classes.
  pub data VadInterface : Type 0 where
    legacy : LegacyVad Vad Resampler → VadInterface
    rnnoise : RnnoiseVad Float DenoiseState Resampler → VadInterface

  unfoldable pub create_vad : Unset Vad Resampler Float → Bool → Bool → VadInterface
  unfolding new_legacy_vad new_rnnoise_vad
  create_vad u true is_send_stt =
      legacy (
        new_legacy_vad va ra u.vad u.resampler u.mono u.pcm16 u.sampling_rate u.channels
          is_send_stt)
  create_vad u false is_send_stt = rnnoise (
      new_rnnoise_vad na ra u.resampler u.mono u.floats u.pcm16 u.sampling_rate u.channels
        is_send_stt)

  unfoldable pub set_config : VadInterface → ℕ → ℕ → VadInterface
  unfolding set_legacy_config set_rnnoise_config
  set_config (legacy v) sampling_rate channels =
      legacy (set_legacy_config va ra v sampling_rate channels)
  set_config (rnnoise v) sampling_rate channels =
      rnnoise (set_rnnoise_config na ra v sampling_rate channels)

  unfoldable pub push_pcm : VadInterface → List ℤ → ℕ → Option (VadInterface × List VadEffect)
  unfolding push_legacy_pcm push_rnnoise_pcm
  push_pcm (legacy v) pcm samples =
      push_legacy_pcm va ra v pcm samples >>= λ (w, out). some (legacy w, out)
  push_pcm (rnnoise v) pcm samples =
      push_rnnoise_pcm na ra v pcm samples >>= λ (w, out). some (rnnoise w, out)

  -- _is_first_pcm, which is raised by the first PCM, and _vad.
  pub record PeerAudio : Type 0 where
    pub is_first_pcm : Bool
    pub vad : Option VadInterface

  abbrev pub no_audio : PeerAudio
  no_audio = record { is_first_pcm = false; vad = none }

  unfoldable pub with_vad : Unset Vad Resampler Float → PeerAudio → ℕ → ℕ → PeerAudio
  unfolding create_vad set_config
  with_vad u a sample_rate channels = if a.is_first_pcm then a else record {
    is_first_pcm = true;
    vad = some (set_config (create_vad u is_using_legacy_vad true) sample_rate channels);
  }

  unfoldable pub push_to_vad :
      PeerAudio → Option VadInterface → List ℤ → ℕ → Option (PeerAudio × List VadEffect)
  unfolding push_pcm
  push_to_vad a none pcm samples = some (a, [])
  push_to_vad a (some vad) pcm samples =
      push_pcm vad pcm samples >>= λ (w, out). some (record a { vad = some w }, out)

  unfoldable pub on_pcm_data :
      Unset Vad Resampler Float
      → PeerAudio
      → List ℤ
      → ℕ
      → ℕ
      → ℕ
      → Option (PeerAudio × List VadEffect)
  unfolding with_vad push_to_vad
  on_pcm_data u a pcm samples sample_rate channels =
      let b = with_vad u a sample_rate channels in push_to_vad b b.vad pcm samples

-- The calls of the peer's listener for what a detector hands to the peer.
unfoldable pub voice_calls : RtcPeer → List VadEffect → List PeerEffect
unfolding voice_active
voice_calls p [] = []
voice_calls p (VadEffect.voice_active b ∷ out) = voice_active p b ∷ voice_calls p out
voice_calls p (VadEffect.dump_file name bytes ∷ out) = voice_calls p out
