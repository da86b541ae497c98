-- ===== src/Voice/Chunks.antt =====
-- Chunks of one size through _send_stt_pcm: k chunks of c bytes fill a buffer exactly, so that no
-- copy leaves it; and a chunk that does not divide the buffer overflows it.
use aone_webrtc_stt.Base.{
  length, take, length-append, length-take, ℤ, ℕ, zero, suc, ◌+◌, ◌*◌, ◌≤◌, ◌<◌, ◌≡◌, sym, ap, ◌∙◌,
  ◌≢◌, none, some, List, [], arith, ℕ_discrete,
}
use aone_webrtc_stt.Voice.Pcm.{
  ABuffer, new_buffer, pcm_bytes, max_pcm_pending_size, length-pcm_bytes,
}
use aone_webrtc_stt.Voice.Stt.{SttState, filling, after_append, send_speech, send_end}
use aone_webrtc_stt.Voice.Sending.{
  pending_bytes, HasRoom, appended, send_speech-eq, send_speech_overflow, send_speech-HasRoom,
  send_end_bytes,
}

-- The pending buffer holds a number of whole chunks that does not fill it.
pub record IsAligned (c k : ℕ) (s : SttState) : Type 0 where
  pub room : HasRoom s
  pub filled : ℕ
  pub filled_bytes : length (pending_bytes s) ≡ filled * c
  pub filled_lt : filled < k

pub length-appended :
    (s : SttState) (pcm : List ℤ) (samples : ℕ)
    → samples ≤ length pcm
    → length (appended s pcm samples).bytes ≡ length (pending_bytes s) + samples * 2
unfolding pending_bytes
length-appended s pcm samples h = omega (
  arith,
  length-append (filling s.pending_buffer).bytes (pcm_bytes (take samples pcm)),
  length-pcm_bytes (take samples pcm),
  length-take samples pcm,
)

after_append_flushed :
    (s : SttState) (b : ABuffer)
    → length b.bytes ≡ max_pcm_pending_size
    → pending_bytes (after_append s b).0 ≡ []
unfolding after_append pending_bytes filling new_buffer
after_append_flushed s b h = ground arith

pub after_append_kept :
    (s : SttState) (b : ABuffer)
    → length b.bytes ≢ max_pcm_pending_size
    → pending_bytes (after_append s b).0 ≡ b.bytes
unfolding after_append pending_bytes filling new_buffer
after_append_kept s b h = ground arith

fewer_chunks : (j k c : ℕ) → j < k → k * c ≡ max_pcm_pending_size → j * c ≡ max_pcm_pending_size → ⊥
fewer_chunks j k zero below full e = omega arith
fewer_chunks j k (suc c) below full e = grind arith

module _ (c k samples : ℕ) (size : k * c ≡ max_pcm_pending_size) (chunk : samples * 2 ≡ c) where
  filled_next :
      (s : SttState) (pcm : List ℤ)
      → samples ≤ length pcm
      → (a : IsAligned c k s) → length (appended s pcm samples).bytes ≡ suc a.filled * c
  filled_next s pcm h a = length-appended s pcm samples h ∙ omega (arith, a.filled_bytes, chunk)

  fits :
      (s : SttState)
      → (a : IsAligned c k s) → length (pending_bytes s) + samples * 2 ≤ max_pcm_pending_size
  fits s a = grind (arith, a.filled_bytes, a.filled_lt, chunk, size)

  next_filled :
      (s : SttState) (pcm : List ℤ)
      → samples ≤ length pcm
      → (a : IsAligned c k s)
      → (j : ℕ) × (length (pending_bytes (after_append s (appended s pcm samples)).0) ≡ j * c)
        × (j < k)
  next_filled s pcm h a =
      let total = filled_next s pcm h a in
      elim (ℕ_discrete (suc a.filled) k) [
        | yes full ↦
            let whole = total ∙ ap (λ n. n * c) full ∙ size in
            (
              0,
              ap length (after_append_flushed s (appended s pcm samples) whole) ∙ omega arith,
              omega arith,
            )
        | no more ↦ (
          suc a.filled,
          ap length (
                after_append_kept s (appended s pcm samples)
                  (λ e. fewer_chunks _ k c (omega arith) size (sym total ∙ e)))
              ∙ total,
          omega arith,
        )
      ]

  -- A chunk has no fault, and leaves whole chunks behind.
  pub send_speech-IsAligned :
      (s : SttState) (pcm : List ℤ)
      → samples ≤ length pcm
      → IsAligned c k s
      → (r : SttState × List ABuffer) × (send_speech s pcm samples ≡ some r) × IsAligned c k r.0
  unfolding pending_bytes
  send_speech-IsAligned s pcm h a =
      let sent = send_speech-eq s pcm samples a.room h (fits s a) in
      let (j, bytes, below) = next_filled s pcm h a in
      (
        after_append s (appended s pcm samples),
        sent,
        record {
          room = send_speech-HasRoom s pcm samples _ a.room sent;
          filled = j;
          filled_bytes = bytes;
          filled_lt = below;
        },
      )

-- The converse: where chunks do not fill a buffer exactly, the chunk that would pass its end is
-- copied outside the buffer.
pub send_speech_misaligned :
    (s : SttState) (pcm : List ℤ) (c samples j : ℕ)
    → HasRoom s
    → samples * 2 ≡ c
    → length (pending_bytes s) ≡ j * c
    → max_pcm_pending_size < suc j * c
    → send_speech s pcm samples ≡ none
send_speech_misaligned s pcm c samples j room chunk filled big =
    send_speech_overflow s pcm samples room (omega arith)

-- The end of speech leaves no chunk.
pub send_end-IsAligned : (c k : ℕ) (s : SttState) → IsAligned c k s → IsAligned c k (send_end s).0
unfolding send_end pending_bytes filling new_buffer
send_end-IsAligned c k s a = record {
  room = ground arith;
  filled = 0;
  filled_bytes = ap length (send_end_bytes s).1 ∙ omega arith;
  filled_lt = omega arith;
}
