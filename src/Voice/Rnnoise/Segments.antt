-- ===== src/Voice/Rnnoise/Segments.antt =====
-- RTCRNNoiseVad::pushPCM: the labels of the buffers that it gives out form segments.
use mathlib.Core.Path.{subst}
use aone_webrtc_stt.Voice.Rnnoise.Phase.{
  Phase, silent, end-Continues, preprocess-Keeps, Behind, on_speech-Behind,
}
use aone_webrtc_stt.Base.{
  ℤ, ℕ, ◌+◌, ◌/◌, ◌%◌, ◌^◌, ◌≡◌, sym, ◌∙◌, inl, inr, Bool, true, false, Option, none, some, List,
  [], ◌∷◌, ◌++◌, map, ltb, Bool-cases, ◌>>=◌, bind-some, some_inj,
}
use aone_webrtc_stt.Voice.Pcm.{
  ABuffer, VadEffect, voices, voices-map, non_speech_threshold, voice_active,
}
use aone_webrtc_stt.Voice.Stt.{send_stt_pcm, send_end}
use aone_webrtc_stt.Voice.Labels.{labels, Follows, stay, labels-append, Follows-append}
use aone_webrtc_stt.Voice.Resampler.{ResamplerApi}
use aone_webrtc_stt.Voice.Rnnoise.{
  RnnoiseApi, RnnoiseVadOf, preprocess, on_noise, push_rnnoise_pcm, on_level, push_with,
}

module _ (na : RnnoiseApi) (ra : ResamplerApi) where
  abbrev pub counted : RnnoiseVadOf na ra → RnnoiseVadOf na ra
  counted v = record v { continuity_passives = (v.continuity_passives + 1) % 2 ^ 32 }

  pub noise_after_silence :
      (v : RnnoiseVadOf na ra) → v.is_speech ≡ false → on_noise na ra v ≡ some (v, [])
  unfolding on_noise
  noise_after_silence v off = rw off

  pub noise_in_speech :
      (v : RnnoiseVadOf na ra)
      → v.is_speech ≡ true
      → ltb (non_speech_threshold / 2) (counted v).continuity_passives ≡ false
      → on_noise na ra v ≡ some (counted v, [])
  unfolding on_noise
  noise_in_speech v speech more = rw (speech, more)

  pub noise_ends_speech :
      (v : RnnoiseVadOf na ra)
      → v.is_send_stt ≡ true
      → v.is_speech ≡ true
      → ltb (non_speech_threshold / 2) (counted v).continuity_passives ≡ true
      → on_noise na ra v
        ≡ some (
          record (counted v) { is_speech = false; stt = (send_end v.stt).0 },
          map voice_active (send_end v.stt).1,
        )
  unfolding on_noise send_stt_pcm
  noise_ends_speech v on speech over = rw (speech, over, on)

  end-Behind :
      (b : Bool) (v : RnnoiseVadOf na ra)
      → v.is_send_stt ≡ true
      → v.is_speech ≡ true
      → Phase v.is_speech v.stt b
      → Behind na ra b (
        record (counted v) { is_speech = false; stt = (send_end v.stt).0 },
        map voice_active (send_end v.stt).1,
      )
  end-Behind b v on speech phase =
      let (b', f, p) = end-Continues b v.stt (subst (λ x. Phase x v.stt b) speech phase) in
      record {
        segment = b';
        follows = rw (voices-map (send_end v.stt).1) f;
        phase = p;
        sending = on;
      }

  on_noise-Behind :
      (b : Bool) (v : RnnoiseVadOf na ra) (r : RnnoiseVadOf na ra × List VadEffect)
      → v.is_send_stt ≡ true
      → Phase v.is_speech v.stt b
      → on_noise na ra v ≡ some r
      → Behind na ra b r
  unfolding voices
  on_noise-Behind b v r on phase e =
      let becomes =
        λ (q : RnnoiseVadOf na ra × List VadEffect) (step : on_noise na ra v ≡ some q)
            (h : Behind na ra b q).
          subst (Behind na ra b) (some_inj (sym step ∙ e)) h in
      elim (Bool-cases v.is_speech) [
        | inr off ↦
            becomes (v, []) (noise_after_silence v off)
              (record { segment = b; follows = stay; phase = phase; sending = on })
        | inl speech ↦
            elim (Bool-cases (ltb (non_speech_threshold / 2) (counted v).continuity_passives)) [
              | inr more ↦
                  becomes (counted v, []) (noise_in_speech v speech more)
                    (record { segment = b; follows = stay; phase = phase; sending = on })
              | inl over ↦
                  becomes _ (noise_ends_speech v on speech over) (end-Behind b v on speech phase)
            ]
      ]

  on_level-Behind :
      (level b : Bool) (v : RnnoiseVadOf na ra) (n : ℕ) (r : RnnoiseVadOf na ra × List VadEffect)
      → v.is_send_stt ≡ true
      → Phase v.is_speech v.stt b
      → on_level na ra level v n ≡ some r
      → Behind na ra b r
  unfolding on_level
  on_level-Behind true b v n r on phase e = on_speech-Behind na ra b v n r on phase e
  on_level-Behind false b v n r on phase e = on_noise-Behind b v r on phase e

  pub push_with-Behind :
      (b : Bool) (d : Option na.DenoiseState) (v : RnnoiseVadOf na ra) (pcm : List ℤ) (samples : ℕ)
      (r : RnnoiseVadOf na ra × List VadEffect)
      → v.is_send_stt ≡ true
      → Phase v.is_speech v.stt b
      → push_with na ra d v pcm samples ≡ some r
      → Behind na ra b r
  unfolding push_with voices
  push_with-Behind b none v pcm samples r on phase e =
      subst (Behind na ra b) (some_inj e)
        (record { segment = b; follows = stay; phase = phase; sending = on })
  push_with-Behind b (some d) v pcm samples r on phase e =
      let (q, prepared, e') = bind-some (preprocess na ra v d pcm samples) _ e in
      let k = preprocess-Keeps na ra v d pcm samples q prepared in
      on_level-Behind (na.is_speech_level q.1) b q.0 q.2 r (k.is_send_stt ∙ on)
        (subst (λ x. Phase x q.0.stt b) (sym k.is_speech)
          (subst (λ s. Phase v.is_speech s b) (sym k.stt) phase))
        e'

  -- A run of pushes, with all that they give out.
  unfoldable pub push_all :
      RnnoiseVadOf na ra → List (List ℤ × ℕ) → Option (RnnoiseVadOf na ra × List ABuffer)
  push_all v [] = some (v, [])
  push_all v ((pcm, samples) ∷ calls) = push_rnnoise_pcm na ra v pcm samples >>= λ (w, out).
      push_all w calls >>= λ (u, rest). some (u, voices out ++ rest)

  push_all-Follows :
      (calls : List (List ℤ × ℕ)) (b : Bool) (v : RnnoiseVadOf na ra)
      (r : RnnoiseVadOf na ra × List ABuffer)
      → v.is_send_stt ≡ true
      → Phase v.is_speech v.stt b
      → push_all v calls ≡ some r
      → (b' : Bool) × Follows b (labels r.1) b' × Phase r.0.is_speech r.0.stt b'
  unfolding push_all push_rnnoise_pcm
  push_all-Follows [] b v r on phase e =
      subst
        (λ (q : RnnoiseVadOf na ra × List ABuffer).
          (b' : Bool) × Follows b (labels q.1) b' × Phase q.0.is_speech q.0.stt b')
        (some_inj e) (b, stay, phase)
  push_all-Follows ((pcm, samples) ∷ calls) b v r on phase e =
      let (p, first, e') = bind-some (push_with na ra v.ds_ctx v pcm samples) _ e in
      let (q, rest, result) = bind-some (push_all p.0 calls) _ e' in
      let h = push_with-Behind b v.ds_ctx v pcm samples p on phase first in
      let (b', f, ph) = push_all-Follows calls h.segment p.0 q h.sending h.phase rest in
      subst
        (λ (q : RnnoiseVadOf na ra × List ABuffer).
          (b' : Bool) × Follows b (labels q.1) b' × Phase q.0.is_speech q.0.stt b')
        (some_inj result) (b', rw (labels-append (voices p.1) q.1) (Follows-append h.follows f), ph)

  -- From a detector that sends, is silent and has nothing pending, any pushes that do not fault
  -- give the peer segments: a "start", any number of "speeching", and an "end". The last segment
  -- may still be open.
  pub push_all-segments :
      (v : RnnoiseVadOf na ra) (calls : List (List ℤ × ℕ)) (r : RnnoiseVadOf na ra × List ABuffer)
      → v.is_send_stt ≡ true
      → v.is_speech ≡ false
      → v.stt.pending_buffer ≡ none
      → push_all v calls ≡ some r
      → (b : Bool) × Follows false (labels r.1) b
  push_all-segments v calls r on off empty e =
      let (b, f, _) = push_all-Follows calls false v r on (silent off empty) e in (b, f)
