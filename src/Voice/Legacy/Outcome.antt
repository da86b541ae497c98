-- ===== src/Voice/Legacy/Outcome.antt =====
-- What holds of the legacy detector between two frames, and what one send of a frame does to it.
use aone_webrtc_stt.Base.{
  length, take, All, All-append, ℤ, ℕ, ◌≤◌, String, ◌≡◌, refl, ◌∙◌, ◌⊎◌, inl, inr, Bool, true,
  Option, none, some, List, [], ◌++◌, append_assoc, arith,
}
use aone_webrtc_stt.Voice.Pcm.{
  ABuffer, VadEffect, pcm_bytes, max_pcm_buffer, sampling_16khz_10ms, voices, voices-append, dumped,
  dumped-append,
}
use aone_webrtc_stt.Voice.Stt.{SttState, send_speech, send_end}
use aone_webrtc_stt.Voice.Sending.{
  pending_bytes, payloads, send_speech-inv, send_speech_bytes, send_end_bytes, appended,
  payloads-append,
}
use aone_webrtc_stt.Voice.Chunks.{IsAligned, send_speech-IsAligned, send_end-IsAligned}
use aone_webrtc_stt.Voice.Labels.{
  labels, Speaks, gathers, emits, after_append-Speaks, send_end-labels, labels-append,
}
use aone_webrtc_stt.Voice.Legacy.{LegacyVad}

-- The labels of the legacy detector.
abbrev pub IsStartOrEnd : Option String → Type 0
IsStartOrEnd l = (l ≡ some "start") ⊎ (l ≡ some "end")

-- A pending buffer stands behind a raised flag.
abbrev pub IsFlagged : SttState → Type 0
IsFlagged s = (s.pending_buffer ≡ none) ⊎ (s.is_start_vad ≡ true)

-- One send of a chunk of bytes.
pub record Sent (s : SttState) (chunk : List ℕ) (r : SttState × List ABuffer) : Type 0 where
  pub aligned : IsAligned 320 6 r.0
  pub flagged : IsFlagged r.0
  pub labelled : All IsStartOrEnd (labels r.1)
  pub audio : payloads r.1 ++ pending_bytes r.0 ≡ pending_bytes s ++ chunk

Speaks-labelled :
    (s : SttState) (r : SttState × List ABuffer)
    → s.is_start_vad ≡ true
    → Speaks s r
    → IsFlagged r.0 × All IsStartOrEnd (labels r.1)
Speaks-labelled s r raised (gathers e f p) = (inr (f ∙ raised), ground arith)
Speaks-labelled s r raised (emits b e l f p) = (inl p, ground arith)

-- A frame of speech is sent without a fault.
pub send_frame :
    (s : SttState) (pcm : List ℤ)
    → sampling_16khz_10ms ≤ length pcm
    → s.is_start_vad ≡ true
    → IsAligned 320 6 s
    → (r : SttState × List ABuffer) × (send_speech s pcm sampling_16khz_10ms ≡ some r)
      × Sent s (pcm_bytes (take sampling_16khz_10ms pcm)) r
send_frame s pcm h raised a =
    let (r, sent, a') = send_speech-IsAligned 320 6 160 refl refl s pcm h a in
    let spoken : Speaks s r =
      rw (send_speech-inv s pcm 160 r sent) (after_append-Speaks s (appended s pcm 160)) in
    let (f, l) = Speaks-labelled s r raised spoken in
    (
      r,
      sent,
      record {
        aligned = a';
        flagged = f;
        labelled = l;
        audio = send_speech_bytes s pcm 160 r sent;
      },
    )

send_end_labelled : (s : SttState) → IsFlagged s → All IsStartOrEnd (labels (send_end s).1)
send_end_labelled s f = elim (send_end-labels s) [
  | inl (_, l, _) ↦ rw l (inr refl, tt)
  | inr (p, l, _, _) ↦ rw l (ground arith, (inr refl, tt))
]

-- So is the end of speech.
pub send_end-Sent : (s : SttState) → IsFlagged s → IsAligned 320 6 s → Sent s [] (send_end s)
send_end-Sent s f a = record {
  aligned = send_end-IsAligned 320 6 s a;
  flagged = inl (ground (arith, send_end-labels s));
  labelled = send_end_labelled s f;
  audio = rw ((send_end_bytes s).0, (send_end_bytes s).1);
}

pub record IsValid {Vad Resampler : Type 0} (v : LegacyVad Vad Resampler) : Type 0 where
  pub aligned : IsAligned 320 6 v.stt
  pub flagged : IsFlagged v.stt
  pub mono_length : length v.tmp_mono_buffer ≡ max_pcm_buffer
  pub pcm_length : length v.pcm_16_mono ≡ max_pcm_buffer

-- What a step of the detector leaves, where sending is on or off and bytes are pending: a valid
-- state, labels "start" and "end" only, and, where sending is on, all the audio that it found
-- active, given out or pending.
pub record Outcome {Vad Resampler : Type 0} (on : Bool) (pending : List ℕ)
    (r : LegacyVad Vad Resampler × List VadEffect) : Type 0 where
  pub valid : IsValid r.0
  pub labelled : All IsStartOrEnd (labels (voices r.1))
  pub audio : on ≡ true → payloads (voices r.1) ++ pending_bytes r.0.stt ≡ pending ++ dumped r.1
  pub sending : r.0.is_send_stt ≡ on

-- The same, from a state.
abbrev pub OutcomeOf :
    {Vad Resampler : Type 0}
    → LegacyVad Vad Resampler
    → LegacyVad Vad Resampler × List VadEffect
    → Type 0
OutcomeOf v r = Outcome v.is_send_stt (pending_bytes v.stt) r

-- Two steps, one after the other.
pub Outcome-append :
    {Vad Resampler : Type 0} (on : Bool) (pending : List ℕ)
    (r q : LegacyVad Vad Resampler × List VadEffect)
    → Outcome on pending r
    → OutcomeOf r.0 q
    → Outcome on pending (q.0, r.1 ++ q.1)
Outcome-append on pending r q o u = record {
  valid = u.valid;
  labelled =
      rw (voices-append r.1 q.1, labels-append (voices r.1) (voices q.1))
        (All-append IsStartOrEnd (labels (voices r.1)) (labels (voices q.1)) o.labelled u.labelled);
  audio = λ e.
      let p = payloads (voices r.1) in
      rw (
        voices-append r.1 q.1,
        payloads-append (voices r.1) (voices q.1),
        dumped-append r.1 q.1,
        append_assoc p (payloads (voices q.1)) (pending_bytes q.0.stt),
        u.audio (o.sending ∙ e),
        ← append_assoc p (pending_bytes r.0.stt) (dumped q.1),
        o.audio e,
        append_assoc pending (dumped r.1) (dumped q.1),
      );
  sending = u.sending ∙ o.sending;
}
