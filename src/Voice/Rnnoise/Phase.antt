-- ===== src/Voice/Rnnoise/Phase.antt =====
-- RTCRNNoiseVad::pushPCM: the flags of the detector say whether a segment is open; sending speech
-- and the end of speech keep that.
use aone_webrtc_stt.Voice.Sending.{send_speech-inv, appended}
use mathlib.Core.Path.{subst}
use aone_webrtc_stt.Base.{
  read, ℤ, ℕ, ◌*◌, ◌≡◌, refl, sym, ap, ◌∙◌, ◌≢◌, inl, inr, Bool, true, false, not, none, some, List,
  [], ◌∷◌, append-nil, arith, Bool-cases, ◌>>=◌, bind-some, some_inj,
}
use aone_webrtc_stt.Voice.Pcm.{
  ABuffer, VadEffect, voices, VadSpeechingState, voices-map, sampling_16khz_10ms, state_start,
  state_speeching, dump_file, pcm_bytes, voices-append,
}
use aone_webrtc_stt.Voice.Stt.{send_stt_pcm, SttState, send_end, send_speech}
use aone_webrtc_stt.Voice.Labels.{
  labels, Follows, stay, open_segment, go_on, close_segment, Speaks, gathers, emits,
  send_end-labels, after_append-Speaks,
}
use aone_webrtc_stt.Voice.Resampler.{ResamplerApi}
use aone_webrtc_stt.Voice.Rnnoise.{
  RnnoiseApi, RnnoiseVadOf, preprocess, send_if_enabled, send_speech_frames, on_speech,
  next_dump_file,
}

-- Whether a segment is open for the peer, by the detector's two flags and its pending buffer.
pub data Phase (is_speech : Bool) (s : SttState) : Bool → Type 0 where
  silent : is_speech ≡ false → s.pending_buffer ≡ none → Phase is_speech s false
  starting :
      is_speech ≡ true → s.is_start_vad ≡ true → s.pending_buffer ≢ none → Phase is_speech s false
  speaking : is_speech ≡ true → s.is_start_vad ≡ false → Phase is_speech s true

-- What one call leaves: labels that go on from the segment, and the phase behind them.
abbrev pub Continues : Bool → Bool → SttState × List ABuffer → Type 0
Continues b is_speech r = (b' : Bool) × Follows b (labels r.1) b' × Phase is_speech r.0 b'

pub speech-Continues :
    (b : Bool) (s : SttState) (r : SttState × List ABuffer)
    → b ≡ not s.is_start_vad
    → Speaks s r
    → Continues b true r
speech-Continues b s r flag spoken = elim (Bool-cases s.is_start_vad) [
  | inl up ↦ first spoken up (flag ∙ ap not up)
  | inr down ↦ later spoken down (flag ∙ ap not down)
]
  where
    first : Speaks s r → s.is_start_vad ≡ true → b ≡ false → Continues b true r
    first (gathers e f p) up c = (false, rw (e, c) stay, starting refl (f ∙ up) p)
    first (emits x e l f p) up c = (true, rw (e, c, l, up) (open_segment stay), speaking refl f)

    later : Speaks s r → s.is_start_vad ≡ false → b ≡ true → Continues b true r
    later (gathers e f p) down c = (true, rw (e, c) stay, speaking refl (f ∙ down))
    later (emits x e l f p) down c = (true, rw (e, c, l, down) (go_on stay), speaking refl f)

pub end-Continues : (b : Bool) (s : SttState) → Phase true s b → Continues b false (send_end s)
end-Continues _ s (silent e p) = cc
end-Continues _ s (starting e up p) = elim (send_end-labels s) [
  | inl (q, _, _) ↦ absurd (p q)
  | inr (_, l, _, q) ↦ (false, rw (l, up) (open_segment (close_segment stay)), silent refl q)
]
end-Continues _ s (speaking e down) = elim (send_end-labels s) [
  | inl (q, l, same) ↦ (false, rw l (close_segment stay), silent refl (rw same q))
  | inr (_, l, _, q) ↦ (false, rw (l, down) (go_on (close_segment stay)), silent refl q)
]

module _ (na : RnnoiseApi) (ra : ResamplerApi) where
  -- The members that the segments depend on.
  pub record Keeps (v w : RnnoiseVadOf na ra) : Type 0 where
    pub stt : w.stt ≡ v.stt
    pub is_speech : w.is_speech ≡ v.is_speech
    pub is_send_stt : w.is_send_stt ≡ v.is_send_stt

  pub preprocess-Keeps :
      (v : RnnoiseVadOf na ra) (d : na.DenoiseState) (pcm : List ℤ) (samples : ℕ)
      (r : RnnoiseVadOf na ra × na.Float × ℕ)
      → preprocess na ra v d pcm samples ≡ some r
      → Keeps v r.0
  unfolding preprocess
  preprocess-Keeps v d pcm samples r e = ground arith

  -- The state and the segment behind a call.
  pub record Behind (b : Bool) (r : RnnoiseVadOf na ra × List VadEffect) : Type 0 where
    pub segment : Bool
    pub follows : Follows b (labels (voices r.1)) segment
    pub phase : Phase r.0.is_speech r.0.stt segment
    pub sending : r.0.is_send_stt ≡ true

  speech_sent :
      (b : Bool) (v : RnnoiseVadOf na ra) (m : ℕ) (state : VadSpeechingState)
      (r : RnnoiseVadOf na ra × List VadEffect)
      → v.is_send_stt ≡ true
      → v.is_speech ≡ true
      → b ≡ not v.stt.is_start_vad
      → send_stt_pcm v.stt v.pcm_16_mono m state ≡ send_speech v.stt v.pcm_16_mono m
      → send_if_enabled na ra v v.pcm_16_mono m state ≡ some r
      → Behind b r
  unfolding send_if_enabled
  speech_sent b v m state r on speech flag same e =
      let e' = rw (on, same) at e in
      let (q, sent, result) = bind-some (send_speech v.stt v.pcm_16_mono m) _ e' in
      let spoken : Speaks v.stt q =
        rw (send_speech-inv v.stt v.pcm_16_mono m q sent)
          (after_append-Speaks v.stt (appended v.stt v.pcm_16_mono m)) in
      let (b', f, p) = speech-Continues b v.stt q flag spoken in
      subst (Behind b) (some_inj result) (record {
        segment = b';
        follows = rw (voices-map q.1) f;
        phase = rw speech p;
        sending = refl;
      })

  abbrev pub quiet : RnnoiseVadOf na ra → RnnoiseVadOf na ra
  quiet v = record v { continuity_passives = 0 }

  abbrev pub started : RnnoiseVadOf na ra → RnnoiseVadOf na ra
  started v = record (quiet v) { is_speech = true; stt = record v.stt { is_start_vad = true } }

  pub frames_go_on :
      (v : RnnoiseVadOf na ra) (n : ℕ)
      → v.is_speech ≡ true
      → send_speech_frames na ra v n
        ≡ send_if_enabled na ra (quiet v) v.pcm_16_mono (sampling_16khz_10ms * n) state_speeching
  unfolding send_speech_frames
  frames_go_on v n speech = rw speech

  pub frames_start :
      (v : RnnoiseVadOf na ra) (n : ℕ)
      → v.is_speech ≡ false
      → send_speech_frames na ra v n ≡ (
          send_if_enabled na ra (started v) v.pcm_16_mono (sampling_16khz_10ms * n) state_start
          >>= λ (w, out). some (next_dump_file na ra w, out))
  unfolding send_speech_frames
  frames_start v n silence = rw silence

  next_dump_file-Behind :
      (b : Bool) (r : RnnoiseVadOf na ra × List VadEffect)
      → Behind b r
      → Behind b (next_dump_file na ra r.0, r.1)
  unfolding next_dump_file
  next_dump_file-Behind b r h = record {
    segment = h.segment;
    follows = h.follows;
    phase = h.phase;
    sending = h.sending;
  }

  send_speech_frames-Behind :
      {b : Bool} (v : RnnoiseVadOf na ra) (n : ℕ) (r : RnnoiseVadOf na ra × List VadEffect)
      → v.is_send_stt ≡ true
      → Phase v.is_speech v.stt b
      → send_speech_frames na ra v n ≡ some r
      → Behind b r
  unfolding send_stt_pcm
  send_speech_frames-Behind v n r on (silent off p) e =
      let (q, sent, result) =
        bind-some
          (send_if_enabled na ra (started v) v.pcm_16_mono (sampling_16khz_10ms * n) state_start) _
          (sym (frames_start v n off) ∙ e) in
      subst (Behind false) (some_inj result) (
        next_dump_file-Behind false q
          (speech_sent false (started v) _ state_start q on refl refl refl sent))
  send_speech_frames-Behind v n r on (starting speech up p) e =
      speech_sent false (quiet v) _ state_speeching r on speech (ap not (sym up)) refl
        (sym (frames_go_on v n speech) ∙ e)
  send_speech_frames-Behind v n r on (speaking speech down) e =
      speech_sent true (quiet v) _ state_speeching r on speech (ap not (sym down)) refl
        (sym (frames_go_on v n speech) ∙ e)

  pub on_speech-Behind :
      (b : Bool) (v : RnnoiseVadOf na ra) (n : ℕ) (r : RnnoiseVadOf na ra × List VadEffect)
      → v.is_send_stt ≡ true
      → Phase v.is_speech v.stt b
      → on_speech na ra v n ≡ some r
      → Behind b r
  unfolding on_speech voices
  on_speech-Behind b v n r on phase e =
      let (q, sent, e') = bind-some (send_speech_frames na ra v n) _ e in
      let (frames, _, result) = bind-some (read v.pcm_16_mono 0 (sampling_16khz_10ms * n)) _ e' in
      let h = send_speech_frames-Behind v n q on phase sent in
      let file = dump_file q.0.debug_dump_file (pcm_bytes frames) ∷ [] in
      subst (Behind b) (some_inj result) (record {
        segment = h.segment;
        follows = rw (voices-append q.1 file, append-nil (voices q.1)) h.follows;
        phase = h.phase;
        sending = h.sending;
      })
