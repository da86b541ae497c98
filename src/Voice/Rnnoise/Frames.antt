-- ===== src/Voice/Rnnoise/Frames.antt =====
-- RTCRNNoiseVad::pushPCM up to the test for speech has no fault within its arrays.
use native.Mathlib.Nat.{div-add-mod'}
use aone_webrtc_stt.Base.{
  length, length-map, read-eq, write-eq, ℤ, ℕ, zero, suc, ◌+◌, ◌*◌, ◌/◌, ◌≤◌, ◌≡◌, refl, ap, ◌∙◌,
  some, List, [], ◌∷◌, map, arith, lt→ltb, le→leb, bind-eq, require,
}
use aone_webrtc_stt.Voice.Pcm.{sampling_16khz_10ms, max_pcm_buffer, stereo_channel}
use aone_webrtc_stt.Voice.Resampler.{ResamplerApi}
use aone_webrtc_stt.Voice.Rnnoise.{
  RnnoiseApi, denoise, resample_frames, preprocess, RnnoiseVadOf, clamp_int16, casts,
}

module _ (na : RnnoiseApi) (ra : ResamplerApi) where
  open na use {Float, DenoiseState, frame_size, float_of, int32_of, zero_float}
  open ra use {Resampler}

  denoise_total :
      (rounds step i : ℕ) (d : DenoiseState) (floats : List Float) (fmax : Float)
      → frame_size ≤ step
      → (i + rounds) * step ≤ length floats
      → (r : DenoiseState × List Float × Float) × (denoise na ra rounds step i d floats fmax
          ≡ some r)
        × (length r.1 ≡ length floats)
  unfolding denoise
  denoise_total zero step i d floats fmax frame h = ((d, floats, fmax), refl, refl)
  denoise_total (suc rounds) step i d floats fmax frame h =
      let within : i * step + frame_size ≤ length floats = grind (arith, frame) in
      let (heard, taken, heard_length) = read-eq floats (i * step) frame_size within in
      let (d', fret, out) = na.process_frame d heard in
      let (floats', written, kept) =
        write-eq floats (i * step) (na.process_frame d heard).2
          (omega (arith, na.length-process_frame d heard heard_length, within)) in
      let (r, done, same) =
        denoise_total rounds step (i + 1) (na.process_frame d heard).0 floats'
          (na.max_float fmax (na.process_frame d heard).1) frame (omega (arith, kept, h)) in
      (r, rw (taken, written) done, same ∙ kept)

  resample_total :
      (rounds step i : ℕ) (r : Resampler) (mono pcm : List ℤ)
      → (i + rounds) * step ≤ length mono
      → (i + rounds) * sampling_16khz_10ms ≤ length pcm
      → (q : Resampler × List ℤ) × (resample_frames na ra rounds step i r mono pcm ≡ some q)
        × (length q.1 ≡ length pcm)
  unfolding resample_frames
  resample_total zero step i r mono pcm h room = ((r, pcm), refl, refl)
  resample_total (suc rounds) step i r mono pcm h room =
      let (source, taken, _) = read-eq mono (i * step) step (grind arith) in
      let out = ra.resample r source step sampling_16khz_10ms in
      let (pcm', written, kept) =
        write-eq pcm (i * sampling_16khz_10ms) out.1
          (omega (arith, ra.resample_fits r source step 160, room)) in
      let (q, done, same) =
        resample_total rounds step (i + 1) out.0 mono pcm' (omega (arith, h))
          (omega (arith, kept, room)) in
      (q, rw (taken, written) done, same ∙ kept)

  -- The arrays of the detector, at their sizes.
  pub record HasArrays (v : RnnoiseVadOf na ra) : Type 0 where
    pub mono_length : length v.tmp_pcm_mono_buffer ≡ max_pcm_buffer
    pub floats_length : length v.tmp_pcm_float_buffer ≡ max_pcm_buffer
    pub pcm_length : length v.pcm_16_mono ≡ max_pcm_buffer

  -- What a push prepares: the arrays keep their sizes, and the other members stay.
  pub record Prepared (v w : RnnoiseVadOf na ra) : Type 0 where
    pub arrays : HasArrays w
    pub stt : w.stt ≡ v.stt
    pub rate : w.in_sampling_rate ≡ v.in_sampling_rate

  casts_total :
      ((f : Float) → (x : ℤ) × (na.int32_of f ≡ some x))
      → (fs : List Float) → (xs : List ℤ) × (casts na ra fs ≡ some xs) × (length xs ≡ length fs)
  unfolding casts
  casts_total in_range [] = ([], refl, refl)
  casts_total in_range (f ∷ fs) =
      let (x, one) = in_range f in
      let (xs, others, size) = casts_total in_range fs in
      (x ∷ xs, bind-eq _ _ one (bind-eq _ _ others refl), ap suc size)

  pub preprocess_total :
      (v : RnnoiseVadOf na ra) (d : DenoiseState) (pcm : List ℤ) (samples : ℕ)
      → HasArrays v
      → 100 ≤ v.in_sampling_rate
      → frame_size ≤ v.in_sampling_rate / 100
      → samples ≤ max_pcm_buffer
      → samples / (v.in_sampling_rate / 100) * sampling_16khz_10ms ≤ max_pcm_buffer
      → samples * 2 ≤ length pcm
      → ((f : Float) → (x : ℤ) × (na.int32_of f ≡ some x))
      → (w : RnnoiseVadOf na ra) × (fmax : Float) × (preprocess na ra v d pcm samples
          ≡ some (w, fmax, samples / (v.in_sampling_rate / 100)))
        × Prepared v w
  unfolding preprocess
  preprocess_total v d pcm samples a rate frame h room whole in_range =
      let step = v.in_sampling_rate / 100 in
      let n = samples / step in
      let (mono, mixed, mono_kept) =
        write-eq v.tmp_pcm_mono_buffer 0 (ra.downmix_interleaved_to_mono pcm samples stereo_channel)
          (omega (arith, ra.length-downmix pcm samples 2, a.mono_length, h)) in
      let mono_size : length mono ≡ max_pcm_buffer = mono_kept ∙ a.mono_length in
      let (heard, taken, heard_size) = read-eq mono 0 samples (omega (arith, mono_size, h)) in
      let (floats, filled, floats_kept) =
        write-eq v.tmp_pcm_float_buffer 0 (map float_of heard)
          (omega (arith, length-map float_of heard, heard_size, a.floats_length, h)) in
      let floats_size : length floats ≡ max_pcm_buffer = floats_kept ∙ a.floats_length in
      let (r, denoised, same) =
        denoise_total n step 0 d floats zero_float frame
          (omega (arith, div-add-mod' samples step, floats_size, h)) in
      let (cleaned, read_back, cleaned_size) =
        read-eq r.1 0 samples (omega (arith, same, floats_size, h)) in
      let (ints, cast, ints_size) = casts_total in_range cleaned in
      let (mono', stored, stored_kept) =
        write-eq mono 0 (map clamp_int16 ints)
          (omega (arith, length-map clamp_int16 ints, ints_size, cleaned_size, mono_size, h)) in
      let (q, resampled, pcm_kept) =
        resample_total n step 0 v.resampler mono' v.pcm_16_mono
          (omega (arith, div-add-mod' samples step, stored_kept, mono_size, h))
          (omega (arith, a.pcm_length, room)) in
      (
        record v {
          ds_ctx = some r.0;
          resampler = q.0;
          tmp_pcm_mono_buffer = mono';
          tmp_pcm_float_buffer = r.1;
          pcm_16_mono = q.1;
        },
        r.2,
        bind-eq _ _ (ap require (le→leb (samples * 2) (length pcm) whole)) (
            bind-eq _ _ mixed (
              bind-eq _ _ (ap require (lt→ltb 0 step (omega arith))) (
                bind-eq _ _ taken (
                  bind-eq _ _ filled (
                    bind-eq _ _ denoised (
                      bind-eq _ _ read_back
                        (bind-eq _ _ cast (bind-eq _ _ stored (bind-eq _ _ resampled refl))))))))),
        record {
          arrays = record {
            mono_length = stored_kept ∙ mono_size;
            floats_length = same ∙ floats_size;
            pcm_length = pcm_kept ∙ a.pcm_length;
          };
          stt = refl;
          rate = refl;
        },
      )
